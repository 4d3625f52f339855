-- ===== src/Mm/UserBuffer/Writes.antt =====
-- The buffer as one list of bytes, and what is written to it.
use oskernel2023_main_os.Common.{
  All, Bool-cases, ap, append-nil, append_assoc, drop, drop-drop, false, inl, inr, length-append,
  length-drop, length-take, ltb, refl, suc, sym, take, take-split, true, zero, ◌++◌, ◌+◌, ◌-◌, ◌<◌,
  ◌==◌, ◌∙◌, ◌∷◌, ◌≡◌, ◌≢◌, ◌≤◌,
}
use oskernel2023_main_os.Common.{List, [], arith, length, min, none, some, ℕ}
use oskernel2023_main_os.Mm.UserBuffer.{total_len, write, write_at, write_at_slices, write_slices}
use oskernel2023_main_os.Mm.UserBuffer.{Buffers}

abbrev pub flat : Buffers → List ℕ
flat [] = []
flat (b ∷ bs) = b ++ flat bs

abbrev pub lengths : Buffers → List ℕ
lengths [] = []
lengths (b ∷ bs) = length b ∷ lengths bs

pub total_len_lem : (bufs : Buffers) → total_len bufs ≡ length (flat bufs)
unfolding total_len
total_len_lem [] = refl
total_len_lem (b ∷ bs) = omega (arith, total_len_lem bs, length-append b (flat bs))

drop-append : (n : ℕ) (xs ys : List ℕ) → n ≤ length xs → drop n (xs ++ ys) ≡ drop n xs ++ ys
drop-append zero xs ys h = refl
drop-append (suc n) [] ys h = absurd (omega arith)
drop-append (suc n) (x ∷ xs) ys h = drop-append n xs ys (omega arith)

drop-past : (xs ys : List ℕ) (k : ℕ) → drop (length xs + k) (xs ++ ys) ≡ drop k ys
drop-past [] ys k = let e : 0 + k ≡ k = omega arith in rw e refl
drop-past (x ∷ xs) ys k =
    let e : suc (length xs) + k ≡ suc (length xs + k) = omega arith in rw e (drop-past xs ys k)

drop-all : (xs : List ℕ) → drop (length xs) xs ≡ []
drop-all [] = refl
drop-all (x ∷ xs) = drop-all xs

-- What the loop of `write` does to the slices from one on.
slices_lem :
    (len done : ℕ) (buf : List ℕ) (bufs : Buffers)
    → done ≤ len
    → len ≤ length buf
    → len ≤ done + length (flat bufs)
    → (flat (write_slices len done buf bufs)
        ≡ take (len - done) (drop done buf) ++ drop (len - done) (flat bufs))
      × (lengths (write_slices len done buf bufs) ≡ lengths bufs)
unfolding write_slices
slices_lem len done buf [] h k l = let e : len - done ≡ 0 = omega arith in rw e (refl, refl)
slices_lem len done buf (b ∷ bs) h k l =
    let fl = length-append b (flat bs) in
    elim (Bool-cases (min len (done + length b) == len)) [
      | inl last ↦
          let c : min len (done + length b) - done ≡ len - done = ground arith in
          let few : len - done ≤ length b = ground arith in
          rw (last, c)
            (
              append_assoc (take (len - done) (drop done buf)) (drop (len - done) b) (flat bs)
                  ∙ ap (◌++◌ (take (len - done) (drop done buf)))
                      (sym (drop-append (len - done) b (flat bs) few)),
              ap (λ (n : ℕ). n ∷ lengths bs)
                  (length-append (take (len - done) (drop done buf)) (drop (len - done) b)
                    ∙ omega (
                      arith,
                      length-take (len - done) (drop done buf),
                      length-drop done buf,
                      length-drop (len - done) b,
                    )),
            )
      | inr more ↦
          let c : min len (done + length b) - done ≡ length b = ground arith in
          let d : len - done ≡ length b + (len - (done + length b)) = ground arith in
          let (f, g) = slices_lem len (done + length b) buf bs (ground arith) k (omega arith) in
          rw (more, c, drop-all b, append-nil (take (length b) (drop done buf)))
            (
              let k = len - (done + length b) in
                  rw
                    (
                      d,
                      take-split (length b) k (drop done buf),
                      drop-past b (flat bs) k,
                      drop-drop done (length b) buf,
                      f,
                    )
                    (sym (
                      append_assoc (take (length b) (drop done buf))
                        (take k (drop (done + length b) buf)) (drop k (flat bs)))),
              ap (λ (n : ℕ). n ∷ lengths (write_slices len (done + length b) buf bs))
                    (length-take (length b) (drop done buf) ∙ omega (arith, length-drop done buf))
                  ∙ ap (◌∷◌ (length b)) g,
            )
    ]

-- Far from the beginning: no slice is longer than the offset.
skips_every :
    (offset len : ℕ) (buf : List ℕ) (bufs : Buffers)
    → All (λ b. length b < offset) bufs
    → write_at_slices offset len buf 0 0 bufs ≡ some (none, bufs)
unfolding write_at_slices
skips_every offset len buf [] h = refl
skips_every offset len buf (b ∷ bs) h =
    let far : ltb (0 + length b) offset ≡ true = ground (arith, h.0) in
    rw (far, skips_every offset len buf bs h.1) refl

-- `write_at` of bytes that have room from the offset on writes nothing and answers EPERM whenever every
-- slice is shorter than the offset.
pub write_at_far :
    (bufs : Buffers) (offset : ℕ) (buf : List ℕ)
    → bufs ≢ []
    → All (λ b. length b < offset) bufs
    → offset + length buf ≤ total_len bufs
    → write_at bufs offset buf ≡ some (none, bufs)
unfolding write_at
write_at_far [] offset buf h far room = absurd (h refl)
write_at_far (b ∷ bs) offset buf h far room =
    let fits : ltb (total_len (b ∷ bs)) (offset + length buf) ≡ false = ground arith in
    rw fits (skips_every offset (min (total_len (b ∷ bs) - offset) (length buf)) buf (b ∷ bs) far)

-- `write` to a buffer that is not empty returns as many bytes as fit, writes these to its first bytes in
-- order, keeps the others, and no slice changes its length.
pub write-flat :
    (bufs : Buffers) (buf : List ℕ)
    → bufs ≢ []
    → (n : ℕ) × (bufs' : Buffers) × (write bufs buf ≡ some (n, bufs'))
      × (n ≡ min (length (flat bufs)) (length buf))
      × (flat bufs' ≡ take n buf ++ drop n (flat bufs))
      × (lengths bufs' ≡ lengths bufs)
unfolding write
write-flat [] buf h = absurd (h refl)
write-flat (b ∷ bs) buf h =
    let n = min (total_len (b ∷ bs)) (length buf) in
    let t = total_len_lem (b ∷ bs) in
    let (f, g) = slices_lem n 0 buf (b ∷ bs) (omega arith) (omega arith) (omega arith) in
    let all : n - 0 ≡ n = omega arith in
    (n, write_slices n 0 buf (b ∷ bs), refl, omega arith, rw all at f, g)
