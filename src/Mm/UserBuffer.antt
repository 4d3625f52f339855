-- ===== src/Mm/UserBuffer.antt =====
-- kernel/src/mm/page_table.rs: `UserBuffer`, a user's buffer as slices of pages, and its iterator. The
-- slices are lists of bytes.
pub mod Writes
mod Tests
use oskernel2023_main_os.Common.{false, if◌then◌else◌, ltb, true, ◌++◌, ◌+◌, ◌-◌, ◌==◌, ◌∷◌}
use oskernel2023_main_os.Common.{
  Bool, List, Option, [], drop, get_elem?, length, min, none, replicate, some, take, ℕ,
}

abbrev pub Buffers : Type 0
Buffers = List (List ℕ)

-- `len`
unfoldable pub total_len : Buffers → ℕ
total_len [] = 0
total_len (b ∷ bs) = length b + total_len bs

unfoldable pub clear : Buffers → Buffers
clear [] = []
clear (b ∷ bs) = replicate (length b) 0 ∷ clear bs

-- The loop of `write`, with `write_len` bytes of `len` written
unfoldable pub write_slices : ℕ → ℕ → List ℕ → Buffers → Buffers
write_slices len write_len buf [] = []
write_slices len write_len buf (b ∷ bs) =
    let write_end = min len (write_len + length b) in
    let copied = write_end - write_len in
    let rest = write_slices len (write_len + length b) buf bs in
    let b' = take copied (drop write_len buf) ++ drop copied b in
    if write_end == len then b' ∷ bs else b' ∷ rest

-- `write`; `none` is the failing assertion.
abbrev pub is_nil : Buffers → Bool
is_nil [] = true
is_nil (b ∷ bs) = false

unfoldable pub write : Buffers → List ℕ → Option (ℕ × Buffers)
unfolding total_len write_slices
write bufs buf =
    let len = min (total_len bufs) (length buf) in
    if is_nil bufs then none else some (len, write_slices len 0 buf bufs)

-- A loop of `write_at` over the bytes `xs` of one slice: it may panic, return, or come to their end.
pub data Filled : Type 0 where
  panics : Filled
  returns : List ℕ → Filled
  continues : List ℕ → ℕ → Filled

abbrev pub put : ℕ → Filled → Filled
put c panics = panics
put c (returns xs) = returns (c ∷ xs)
put c (continues xs n) = continues (c ∷ xs) n

unfoldable pub fill : List ℕ → List ℕ → ℕ → ℕ → Filled
fill [] buf offset_buf len = continues [] offset_buf
fill (x ∷ xs) buf offset_buf len =
    let rest = fill xs buf (offset_buf + 1) len in
    elim (get_elem? buf offset_buf) [
      | none ↦ panics
      | some c ↦ if offset_buf + 1 == len then returns (c ∷ xs) else put c rest
    ]

-- `write_at`: the number of bytes that it returns (`none` is EPERM), and the buffers after it; `none`
-- outside is a panic.
abbrev pub Written : Type 0
Written = Option (Option ℕ × Buffers)

abbrev pub before : List ℕ → Written → Written
before b none = none
before b (some (n, bs)) = some (n, b ∷ bs)

abbrev pub after_fill : List ℕ → ℕ → Buffers → Filled → (ℕ → Written) → Written
after_fill front len bs panics more = none
after_fill front len bs (returns xs) more = some (some len, (front ++ xs) ∷ bs)
after_fill front len bs (continues xs n) more = before (front ++ xs) (more n)

unfoldable pub write_at_slices : ℕ → ℕ → List ℕ → ℕ → ℕ → Buffers → Written
unfolding fill
write_at_slices offset len buf offset_user_buffer offset_buf [] = some (none, [])
write_at_slices offset len buf offset_user_buffer offset_buf (b ∷ bs) =
    let skipped = write_at_slices offset len buf offset_user_buffer offset_buf bs in
    let more = λ (n : ℕ). write_at_slices offset len buf (offset_user_buffer + length b) n bs in
    let start = offset - offset_user_buffer in
    if ltb (offset_user_buffer + length b) offset
    then before b skipped
    else if ltb offset_user_buffer offset
    then after_fill (take start b) len bs (fill (drop start b) buf offset_buf len) more
    else after_fill [] len bs (fill b buf offset_buf len) more

unfoldable pub write_at : Buffers → ℕ → List ℕ → Written
unfolding write_at_slices total_len
write_at bufs offset buf =
    let len = min (total_len bufs - offset) (length buf) in
    if is_nil bufs
    then none
    else if ltb (total_len bufs) (offset + length buf)
    then none
    else write_at_slices offset len buf 0 0 bufs

-- `UserBufferIterator`: the place of the next byte
pub record BufferIterator : Type 0 where
  pub current_buffer : ℕ
  pub current_idx : ℕ

-- `next`: the byte at the place, and the place after it; `none` is the panic of an index out of range,
-- in an empty slice.
abbrev pub advance : List ℕ → BufferIterator → BufferIterator
advance b it =
    if it.current_idx + 1 == length b
    then record { current_buffer = it.current_buffer + 1; current_idx = 0 }
    else record it { current_idx = it.current_idx + 1 }

unfoldable pub next_byte : Buffers → BufferIterator → Option (Option ℕ × BufferIterator)
next_byte bufs it = elim (get_elem? bufs it.current_buffer) [
  | none ↦ some (none, it)
  | some b ↦ elim (get_elem? b it.current_idx) [
    | none ↦ none
    | some byte ↦ some (some byte, advance b it)
  ]
]
