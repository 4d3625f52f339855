-- ===== src/Fs/Pipe/Transfers.antt =====
-- The loops of `read_user` and `write` move bytes between the user's buffer and the queue.
use oskernel2023_main_os.Common.{
  Bool, Bool-cases, [], ap, append-nil, append_assoc, arith, false, inl, inr, length-append,
  length-take, min, refl, suc, sym, true, zero, ◌++◌, ◌+◌, ◌-◌, ◌==◌, ◌∙◌, ◌∷◌, ◌≡◌, ◌≢◌, ◌≤◌,
}
use oskernel2023_main_os.Common.{List, drop, length, take, ℕ}
use oskernel2023_main_os.Fs.Pipe.{
  PipeRingBuffer, ReadRound, WriteRound, again, as_returned, available_read, available_write,
  finished, read_for, read_user, returns, write_byte, write_for, write_round, yields,
}
use oskernel2023_main_os.Fs.Pipe.Ring.{
  Inv, available_lem, bytes, length-queue, queue, read_byte_lem, write_byte_lem,
}

-- What the loop over `n` bytes reads: the first ones of the queue, as many as fit.
abbrev Reads : ℕ → ℕ → PipeRingBuffer → ℕ × List ℕ × PipeRingBuffer → Type 0
Reads already k r (returned, bytes, r') =
    (returned ≡ already + k) × (bytes ≡ take k (queue r)) × Inv r' × (queue r' ≡ drop k (queue r))

-- `min`, which computes
abbrev fit : ℕ → ℕ → ℕ
fit zero n = 0
fit (suc left) zero = 0
fit (suc left) (suc n) = suc (fit left n)

fit_lem : (left n : ℕ) → fit left n ≡ min left n
fit_lem zero n = omega arith
fit_lem (suc left) zero = omega arith
fit_lem (suc left) (suc n) = omega (arith, fit_lem left n)

read_for_lem :
    (n already want left : ℕ) (r : PipeRingBuffer)
    → Inv r
    → already + left ≡ want
    → n ≤ length (queue r)
    → Reads already (fit left n) r (read_for n already want left r)
unfolding read_for
read_for_lem zero already want zero r v e few = (omega arith, refl, v, refl)
read_for_lem zero already want (suc left) r v e few = (omega arith, refl, v, refl)
read_for_lem (suc n) already want zero r v e few = (omega arith, refl, v, refl)
read_for_lem (suc n) already want (suc zero) r v e few =
    let (c, r', run, v', q) = read_byte_lem r v (λ z. ground (arith, length-queue r v)) in
    let last : (already + 1 == want) ≡ true = ground arith in
    rw (run, last, q) (omega arith, refl, v', refl)
read_for_lem (suc n) already want (suc (suc left)) r v e few =
    let (c, r', run, v', q) = read_byte_lem r v (λ z. ground (arith, length-queue r v)) in
    let fewer : n ≤ length (queue r') = ground (arith, ap length q) in
    let more : (already + 1 == want) ≡ false = ground arith in
    let (k, bs, v'', q'') =
      read_for_lem n (already + 1) want (suc left) r' v' (omega arith) fewer in
    rw (run, more, q) (omega arith, ap (◌∷◌ c) bs, v'', q'')

no_bytes : (xs : List ℕ) → length xs ≡ 0 → xs ≡ []
no_bytes [] e = refl
no_bytes (x ∷ xs) e = absurd (omega arith)

-- What `read_user` does.
abbrev pub ReadsUser : Bool → ℕ → PipeRingBuffer → ReadRound → Type 0
ReadsUser closed want r (returns n bytes r') =
    (n ≡ min want (length (queue r)))
    × (bytes ≡ take n (queue r))
    × Inv r'
    × (queue r' ≡ drop n (queue r))
    × ((queue r ≡ []) → closed ≡ true)
ReadsUser closed want r (yields r') = (queue r ≡ []) × (closed ≡ false) × (r' ≡ r)

from_read :
    (closed : Bool) (want : ℕ) (r : PipeRingBuffer)
    → queue r ≢ []
    → (p : ℕ × List ℕ × PipeRingBuffer) → Reads 0 (fit want (length (queue r))) r p
    → ReadsUser closed want r (as_returned p)
from_read closed want r some_there (n, cs, r') (e, f, v, q) =
    let all : n ≡ fit want (length (queue r)) = omega arith in
    (all ∙ fit_lem want (length (queue r)), rw all f, v, rw all q, λ z. absurd (some_there z))

-- Under the ring's invariant `read_user` takes from the queue as many bytes as there are, and no
-- more than were asked for, in their order, and keeps the invariant. If the queue is empty it
-- yields while a write end is left, and returns no bytes once all are closed.
pub read_user-ReadsUser :
    (closed : Bool) (want : ℕ) (r : PipeRingBuffer)
    → Inv r
    → ReadsUser closed want r (read_user closed want r)
unfolding read_user
read_user-ReadsUser closed want r v = elim (Bool-cases (available_read r == 0)) [
  | inl none_there ↦
      let nothing : queue r ≡ [] = no_bytes (queue r) (ground (arith, length-queue r v)) in
      rw (none_there, read_user)
        (elim (Bool-cases closed) [
          | inl shut ↦ rw (shut, nothing) (omega arith, refl, v, refl, λ e. refl)
          | inr still ↦ rw still (nothing, refl, refl)
        ])
  | inr some_there ↦
      rw (some_there, read_user)
        (from_read closed want r (λ e. ground (arith, length-queue r v, ap length e))
          (read_for (available_read r) 0 want want r)
          (rw (length-queue r v) (
            read_for_lem (available_read r) 0 want want r v (omega arith)
              (omega (arith, length-queue r v)))))
]

abbrev Writes : ℕ → ℕ → List ℕ → PipeRingBuffer → ℕ → WriteRound → Type 0
Writes already want src r room (finished n r') =
    (n ≡ already + length src) × (length src ≤ room) × Inv r' × (queue r' ≡ queue r ++ src)
Writes already want src r room (again n rest r') =
    (n ≡ already + room)
    × (rest ≡ drop room src)
    × (room ≤ length src)
    × Inv r'
    × (queue r' ≡ queue r ++ take room src)

one_more :
    (already want b : ℕ) (bs : List ℕ) (r r' : PipeRingBuffer) (n : ℕ) (w : WriteRound)
    → queue r' ≡ queue r ++ (b ∷ [])
    → Writes (already + 1) want bs r' n w
    → Writes already want (b ∷ bs) r (suc n) w
one_more already want b bs r r' n (finished k r'') q (e, few, v, q') = (
  omega arith,
  omega arith,
  v,
  q' ∙ ap (λ (xs : List ℕ). xs ++ bs) q ∙ append_assoc (queue r) (b ∷ []) bs,
)
one_more already want b bs r r' n (again k rest r'') q (e, left, few, v, q') = (
  omega arith,
  left,
  omega arith,
  v,
  q' ∙ ap (λ (xs : List ℕ). xs ++ take n bs) q ∙ append_assoc (queue r) (b ∷ []) (take n bs),
)

write_for_lem :
    (room already want : ℕ) (src : List ℕ) (r : PipeRingBuffer)
    → Inv r
    → already + length src ≡ want
    → room ≤ available_write r
    → Writes already want src r room (write_for room already want src r)
unfolding write_for
write_for_lem zero already want src r v e few =
    (omega arith, refl, omega arith, v, sym (append-nil (queue r)))
write_for_lem (suc n) already want [] r v e few =
    (omega arith, omega arith, v, sym (append-nil (queue r)))
write_for_lem (suc n) already want (b ∷ []) r v e few =
    let (v', q) = write_byte_lem r v b (λ z. omega arith) in
    let last : (already + 1 == want) ≡ true = ground arith in
    rw last (omega arith, omega arith, v', q)
write_for_lem (suc n) already want (b ∷ (b' ∷ bs)) r v e few =
    let (v', q) = write_byte_lem r v b (λ z. omega arith) in
    let more : (already + 1 == want) ≡ false = ground arith in
    let less : length (queue (write_byte r b)) ≡ length (queue r) + 1 =
      ap length q ∙ length-append (queue r) (b ∷ []) in
    let (_, before, _, _) = available_lem r v in
    let (_, after, _, _) = available_lem (write_byte r b) v' in
    let room_left : n ≤ available_write (write_byte r b) = omega arith in
    let rest = write_for n (already + 1) want (b' ∷ bs) (write_byte r b) in
    let rest_writes : Writes (already + 1) want (b' ∷ bs) (write_byte r b) n rest =
      write_for_lem n (already + 1) want (b' ∷ bs) (write_byte r b) v' (omega arith) room_left in
    rw more (one_more already want b (b' ∷ bs) r (write_byte r b) n rest q rest_writes)

-- What a round of `write` does, with `already` bytes of `want` written: it returns when the rest has
-- room, and otherwise fills the ring.
abbrev pub WritesRound : ℕ → ℕ → List ℕ → PipeRingBuffer → WriteRound → Type 0
WritesRound already want src r (finished n r') =
    (n ≡ want)
    × (length src + length (queue r) ≤ 1024)
    × (available_write r ≢ 0)
    × Inv r'
    × (queue r' ≡ queue r ++ src)
WritesRound already want src r (again n rest r') =
    let room = 1024 - length (queue r) in
    (n ≡ already + room)
    × (rest ≡ drop room src)
    × (room ≤ length src)
    × Inv r'
    × (queue r' ≡ queue r ++ take room src)
    × ((length (queue r') ≡ 1024))

from_write :
    (already want : ℕ) (src : List ℕ) (r : PipeRingBuffer)
    → already + length src ≡ want
    → available_write r ≢ 0
    → available_write r ≡ 1024 - length (queue r)
    → (w : WriteRound) → Writes already want src r (available_write r) w
    → WritesRound already want src r w
from_write already want src r e room same (finished n r') (total, few, v, q) =
    (omega arith, omega arith, room, v, q)
from_write already want src r e room same (again n rest r') (total, left, few, v, q) =
    rw (sym same) (
      total,
      left,
      few,
      v,
      q,
      ap length q
          ∙ length-append (queue r) (take (available_write r) src)
          ∙ omega (arith, length-take (available_write r) src),
    )

pub write_round-WritesRound :
    (already want : ℕ) (src : List ℕ) (r : PipeRingBuffer)
    → Inv r
    → already + length src ≡ want
    → WritesRound already want src r (write_round already want src r)
unfolding write_round
write_round-WritesRound already want src r v e = elim (Bool-cases (available_write r == 0)) [
  | inl no_room ↦
      let (_, sum, _, _) = available_lem r v in
      let full_up : 1024 - length (queue r) ≡ 0 = ground arith in
      rw (no_room, write_round)
        (rw full_up (omega arith, refl, omega arith, v, sym (append-nil (queue r)), ground arith))
  | inr room ↦
      let (_, sum, _, _) = available_lem r v in
      rw (room, write_round)
        (from_write already want src r e (λ z. ground arith) (omega arith)
          (write_for (available_write r) already want src r)
          (write_for_lem (available_write r) already want src r v e (omega arith)))
]
