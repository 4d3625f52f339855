-- ===== src/Fs/Fat/Twice.antt =====
-- `alloc` of two clusters, with one in the queue of vacant clusters.
use oskernel2023_main_os.Common.{refl, ◌%◌, ◌<◌, ◌==◌, ◌^◌, ◌∷◌, ◌≡◌, ◌≢◌}
use oskernel2023_main_os.Common.{Option, [], arith, none, some, ℕ}
use oskernel2023_main_os.Fs.Fat.{
  Disk, Fat, Layout, alloc, alloc_loop, alloc_one, get_next_free_clus, is_free, set_next_clus,
}
use oskernel2023_main_os.Fs.Fat.Places.{IsLayout, get_next_clus_num-set_next_clus}
use oskernel2023_main_os.Fs.Fat.Search.{NextFree, get_next_free_clus-NextFree}

module _ (l : Layout) (v : IsLayout l) (disk : Disk) (hint e x : ℕ) (e_in : e < l.tot_ent)
    (x_in : x < l.tot_ent) (hint_in : hint < l.tot_ent) (not_zero : 0 ≢ x) (apart : e ≢ x)
    (only : (d : ℕ) → d < l.tot_ent → is_free l disk d ≡ (x == d)) where
  abbrev one_vacant : Fat
  one_vacant = record { disk = disk; vacant_clus = x ∷ []; hint = hint }

  abbrev linked_disk : Disk
  linked_disk = set_next_clus l (some e) x disk

  only_x : (c : ℕ) → c < l.tot_ent → is_free l linked_disk c ≡ (x == c)
  only_x c c_in =
      ground (arith, get_next_clus_num-set_next_clus l v e x c disk e_in c_in, only c c_in, v.few)

  found_again : (r : Option ℕ) → NextFree l linked_disk (hint % 2 ^ 32) r → r ≡ some x
  found_again none all = absurd (ground (arith, all x x_in, only_x x x_in))
  found_again (some c) (c_in, c_free, _) = ground (arith, only_x c c_in)

  -- In a sound layout, if the queue of vacant clusters holds only `x`, which is not 0, no other
  -- cluster of the table is free, and the hint is in the table, then `alloc` of two clusters
  -- behind another cluster returns `x` twice.
  pub alloc_twice : (alloc l 2 (some e) one_vacant).0 ≡ x ∷ x ∷ []
  unfolding alloc alloc_loop alloc_one
  alloc_twice =
      let again =
        found_again (get_next_free_clus l linked_disk (hint % 2 ^ 32))
          (get_next_free_clus-NextFree l linked_disk (hint % 2 ^ 32) (omega (arith, v.few))) in
      rw again refl
