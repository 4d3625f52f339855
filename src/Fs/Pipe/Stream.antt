-- ===== src/Fs/Pipe/Stream.antt =====
-- A pipe between tasks: rounds of `read_user` and `write` in any order.
use oskernel2023_main_os.Common.{
  Bool, ap, append-nil, append_assoc, refl, suc, sym, zero, ◌++◌, ◌-◌, ◌∙◌, ◌∷◌, ◌≡◌,
}
use oskernel2023_main_os.Common.{List, [], arith, drop, length, take, ℕ}
use oskernel2023_main_os.Fs.Pipe.{
  PipeRingBuffer, ReadRound, WriteRound, again, finished, new, read_user, returns, write_round,
  yields,
}
use oskernel2023_main_os.Fs.Pipe.Ring.{Inv, bytes, new-Inv, queue}
use oskernel2023_main_os.Fs.Pipe.Transfers.{
  ReadsUser, WritesRound, read_user-ReadsUser, write_round-WritesRound,
}

-- A round of some task: a read of so many bytes, with the write ends closed or not, or a write. What
-- a write has left is written by later rounds.
pub data Round : Type 0 where
  reads : Bool → ℕ → Round
  writes : List ℕ → Round

-- What a round took out of the ring, what it put in, and the ring after it.
pub record Traffic : Type 0 where
  pub taken : List ℕ
  pub put : List ℕ
  pub ring : PipeRingBuffer

abbrev of_read : ReadRound → Traffic
of_read (returns n bytes r) = record { taken = bytes; put = []; ring = r }
of_read (yields r) = record { taken = []; put = []; ring = r }

abbrev of_write : List ℕ → WriteRound → Traffic
of_write src (finished n r) = record { taken = []; put = src; ring = r }
of_write src (again n rest r) = record { taken = []; put = take n src; ring = r }

abbrev pub step : Round → PipeRingBuffer → Traffic
step (reads closed want) r = of_read (read_user closed want r)
step (writes src) r = of_write src (write_round 0 (length src) src r)

unfoldable pub run : List Round → PipeRingBuffer → Traffic
run [] r = record { taken = []; put = []; ring = r }
run (round ∷ rounds) r =
    let first = step round r in
    let rest = run rounds first.ring in
    record { taken = first.taken ++ rest.taken; put = first.put ++ rest.put; ring = rest.ring }

-- What was taken, followed by what is in the ring, is what was in the ring followed by what was put.
abbrev pub Conserves : PipeRingBuffer → Traffic → Type 0
Conserves r t = Inv t.ring × (t.taken ++ queue t.ring ≡ queue r ++ t.put)

take-drop {ℓ} : {A : Type ℓ} (n : ℕ) (xs : List A) → take n xs ++ drop n xs ≡ xs
take-drop zero xs = refl
take-drop (suc n) [] = refl
take-drop (suc n) (x ∷ xs) = ap (◌∷◌ x) (take-drop n xs)

of_read-Conserves :
    (closed : Bool) (want : ℕ) (r : PipeRingBuffer) (t : ReadRound)
    → Inv r
    → ReadsUser closed want r t
    → Conserves r (of_read t)
of_read-Conserves closed want r (returns n bytes r') inv (_, b, v, q, _) =
    (v, rw (b, q) (take-drop n (queue r) ∙ sym (append-nil (queue r))))
of_read-Conserves closed want r (yields r') inv (_, _, same) =
    rw same (inv, sym (append-nil (queue r)))

of_write-Conserves :
    (src : List ℕ) (r : PipeRingBuffer) (t : WriteRound)
    → WritesRound 0 (length src) src r t
    → Conserves r (of_write src t)
of_write-Conserves src r (finished n r') (_, _, _, v, q) = (v, q)
of_write-Conserves src r (again n rest r') (total, _, _, v, q, _) =
    let same : n ≡ 1024 - length (queue r) = omega arith in (v, rw same q)

step-Conserves : (round : Round) (r : PipeRingBuffer) → Inv r → Conserves r (step round r)
step-Conserves (reads closed want) r v =
    of_read-Conserves closed want r (read_user closed want r) v
      (read_user-ReadsUser closed want r v)
step-Conserves (writes src) r v =
    of_write-Conserves src r (write_round 0 (length src) src r)
      (write_round-WritesRound 0 (length src) src r v (omega arith))

run_from : (rounds : List Round) (r : PipeRingBuffer) → Inv r → Conserves r (run rounds r)
unfolding run
run_from [] r v = (v, sym (append-nil (queue r)))
run_from (round ∷ rounds) r v =
    let first = step round r in
    let rest = run rounds first.ring in
    let (v', e) = step-Conserves round r v in
    let (v'', e') = run_from rounds first.ring v' in
    (
      v'',
      append_assoc first.taken rest.taken (queue rest.ring)
          ∙ ap (◌++◌ first.taken) e'
          ∙ sym (append_assoc first.taken (queue first.ring) rest.put)
          ∙ ap (λ (xs : List ℕ). xs ++ rest.put) e
          ∙ append_assoc (queue r) first.put rest.put,
    )

-- Whatever rounds of reading and writing follow each other on a new pipe, the bytes that the readers
-- got and those still in the ring are, in order, the bytes that the writers put in: none is lost,
-- made up, repeated or overtaken.
pub run-fifo :
    (rounds : List Round)
    → (run rounds new).taken ++ queue (run rounds new).ring ≡ (run rounds new).put
run-fifo rounds =
    let (v, empty_queue) = new-Inv in
    let (_, e) = run_from rounds new v in
    e ∙ ap (λ (xs : List ℕ). xs ++ (run rounds new).put) empty_queue
