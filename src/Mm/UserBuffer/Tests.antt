-- ===== src/Mm/UserBuffer/Tests.antt =====
-- A buffer of two slices, and the theorems there.
use oskernel2023_main_os.Common.{◌++◌, ◌∷◌, ◌≡◌}
use oskernel2023_main_os.Common.{[], arith, drop, min, refl, some, take, ℕ}
use oskernel2023_main_os.Mm.UserBuffer.{Buffers, clear, next_byte, write, write_at}
use oskernel2023_main_os.Mm.UserBuffer.Writes.{flat, lengths, write-flat}

abbrev two_slices : Buffers
two_slices = (1 ∷ 2 ∷ 3 ∷ []) ∷ (4 ∷ 5 ∷ 6 ∷ []) ∷ []

writes_over :
    write two_slices (7 ∷ 8 ∷ 9 ∷ 10 ∷ []) ≡ some (4, (7 ∷ 8 ∷ 9 ∷ []) ∷ (10 ∷ 5 ∷ 6 ∷ []) ∷ [])
unfolding write
writes_over = refl

writes_at :
    write_at two_slices 2 (7 ∷ 8 ∷ []) ≡ some (some 2, (1 ∷ 2 ∷ 7 ∷ []) ∷ (8 ∷ 5 ∷ 6 ∷ []) ∷ [])
unfolding write_at
writes_at = refl

clears : clear two_slices ≡ (0 ∷ 0 ∷ 0 ∷ []) ∷ (0 ∷ 0 ∷ 0 ∷ []) ∷ []
unfolding clear
clears = refl

write-flat_example :
    (n : ℕ) × (bufs' : Buffers) × (write two_slices (7 ∷ 8 ∷ 9 ∷ 10 ∷ []) ≡ some (n, bufs'))
    × (n ≡ min 6 4)
    × (flat bufs' ≡ take n (7 ∷ 8 ∷ 9 ∷ 10 ∷ []) ++ drop n (flat two_slices))
    × (lengths bufs' ≡ 3 ∷ 3 ∷ [])
write-flat_example = write-flat two_slices (7 ∷ 8 ∷ 9 ∷ 10 ∷ []) (λ e. ground arith)

crosses :
    next_byte two_slices (record { current_buffer = 0; current_idx = 2 })
    ≡ some (some 3, record { current_buffer = 1; current_idx = 0 })
unfolding next_byte
crosses = refl
