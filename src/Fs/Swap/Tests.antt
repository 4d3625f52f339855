-- ===== src/Fs/Swap/Tests.antt =====
-- A swap area of two words, and the theorem there.
use oskernel2023_main_os.Common.{◌-◌, ◌^◌, ◌∷◌, ◌≡◌}
use oskernel2023_main_os.Common.{[], arith, none, refl, replicate, some}
use oskernel2023_main_os.Fs.Swap.{Swap, alloc_page, discard, get_block_ids, write_page}
use oskernel2023_main_os.Fs.Swap.Pages.{FoundPage, alloc_page-FoundPage}

-- Pages 0 to 63 and 64, 65, 67 are in use.
abbrev used : Swap
used = record { bitmap = (2 ^ 64 - 1) ∷ 11 ∷ []; block_ids = replicate 16 5 }

marks :
    write_page used
    ≡ some (66, record { bitmap = (2 ^ 64 - 1) ∷ 15 ∷ []; block_ids = replicate 16 5 })
unfolding write_page
marks = refl

unmarks :
    discard used 65 ≡ some (record { bitmap = (2 ^ 64 - 1) ∷ 9 ∷ []; block_ids = replicate 16 5 })
unfolding discard
unmarks = refl

blocks : (get_block_ids used 1 ≡ some (replicate 8 5)) × (get_block_ids used 2 ≡ none)
unfolding get_block_ids
blocks = (refl, refl)

alloc_page-FoundPage_example : FoundPage used (alloc_page used)
alloc_page-FoundPage_example = alloc_page-FoundPage used (omega arith, (omega arith, tt))
