-- ===== src/Fs/Swap.antt =====
-- kernel/src/fs/swap.rs: the bitmap of swap pages, and the blocks of a page. The blocks of the swap area
-- are given by the file system; what a page holds is on the device.
pub mod Pages
mod Tests
use oskernel2023_main_os.Common.{
  if◌then◌else◌, leb, length, ltb, mul64, suc, zero, ◌%◌, ◌*◌, ◌+◌, ◌-◌, ◌/◌, ◌==◌, ◌^◌, ◌∷◌,
}
use oskernel2023_main_os.Common.{
  List, Option, [], bit_and, bit_or, drop, get_or, none, replicate, set, some, take, ℕ,
}

pub record Swap : Type 0 where
  pub bitmap : List ℕ
  pub block_ids : List ℕ

-- `Swap::new`: 256 pages to a megabyte
unfoldable pub new : ℕ → List ℕ → Swap
new megabytes block_ids = record {
  bitmap = replicate (mul64 megabytes 256 / 64) 0;
  block_ids = block_ids;
}

-- `none` is the panic of an index out of range.
abbrev pub change_word : Swap → ℕ → (ℕ → ℕ) → Option Swap
change_word s i change =
    if ltb i (length s.bitmap)
    then some (record s { bitmap = set s.bitmap i (change (get_or s.bitmap i 0)) })
    else none

unfoldable pub set_bit : Swap → ℕ → Option Swap
set_bit s pos = change_word s (pos / 64) (λ bits. bit_or bits (2 ^ (pos % 64)))

-- `bits & !mask` takes from the bits those that they share with the mask.
unfoldable pub clear_bit : Swap → ℕ → Option Swap
clear_bit s pos = change_word s (pos / 64) (λ bits. bits - bit_and bits (2 ^ (pos % 64)))

-- `(!word).trailing_zeros()`, of a word that is not all ones: the place of its lowest 0
unfoldable pub lowest_zero : ℕ → ℕ → ℕ
lowest_zero zero bits = 0
lowest_zero (suc n) bits =
    let above = lowest_zero n (bits / 2) in if bits % 2 == 0 then 0 else above + 1

-- `alloc_page`, from the word with number `i` on
unfoldable pub alloc_from : ℕ → List ℕ → Option ℕ
unfolding lowest_zero
alloc_from i [] = none
alloc_from i (bits ∷ rest) =
    let further = alloc_from (i + 1) rest in
    if bits == 2 ^ 64 - 1 then further else some (i * 64 + lowest_zero 64 bits)

unfoldable pub alloc_page : Swap → Option ℕ
unfolding alloc_from
alloc_page s = alloc_from 0 s.bitmap

-- `get_block_ids`; `none` is the panic of a range out of the list.
unfoldable pub get_block_ids : Swap → ℕ → Option (List ℕ)
get_block_ids s swap_id =
    if leb (swap_id * 8 + 8) (length s.block_ids)
    then some (take 8 (drop (swap_id * 8) s.block_ids))
    else none

-- `write` finds a page and marks it, and `discard` unmarks it; `none` is a panic.
unfoldable pub write_page : Swap → Option (ℕ × Swap)
unfolding alloc_page set_bit
write_page s = elim (alloc_page s) [
  | none ↦ none
  | some swap_id ↦ elim (set_bit s swap_id) [ none ↦ none | some s' ↦ some (swap_id, s') ]
]

unfoldable pub discard : Swap → ℕ → Option Swap
unfolding clear_bit
discard s swap_id = clear_bit s swap_id
