-- ===== src/Fs/Fat/Chains.antt =====
-- Chains of clusters as the code follows them.
use oskernel2023_main_os.Common.{false, true, ◌∷◌, ◌≡◌}
use oskernel2023_main_os.Common.{List, [], ℕ}
use oskernel2023_main_os.Fs.Fat.{Disk, Layout, ends_chain, get_next_clus_num}

-- The clusters after the first are linked one to the next, and the last one's entry ends the chain.
abbrev pub Chain : Layout → Disk → ℕ → List ℕ → Type 0
Chain l disk c [] = ends_chain (get_next_clus_num l disk c) ≡ true
Chain l disk c (d ∷ ds) =
    (ends_chain (get_next_clus_num l disk c) ≡ false)
    × (get_next_clus_num l disk c ≡ d)
    × Chain l disk d ds
