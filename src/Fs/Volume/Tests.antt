-- ===== src/Fs/Volume/Tests.antt =====
-- A volume of eight sectors to a cluster, and a file of two clusters.
use oskernel2023_main_os.Common.{Distinct, [], arith, contains, refl, true, ℕ, ◌∷◌, ◌≡◌}
use oskernel2023_main_os.Fs.Volume.{
  Bpb, EasyFileSystem, bpb_clus_size, fat32, fat_type, get_neighboring_sec, is_valid_bpb, open_efs,
}
use oskernel2023_main_os.Fs.Volume.Sectors.{get_neighboring_sec-Distinct}

abbrev card : Bpb
card = record {
  bpb_byts_per_sec = 512;
  bpb_sec_per_clus = 8;
  rsvd_sec_cnt = 32;
  num_fats = 2;
  root_ent_cnt = 0;
  tot_sec16 = 0;
  fat_sz16 = 0;
  tot_sec32 = 8000000;
  fat_sz32 = 7800;
  bpb_root_clus = 2;
}

valid : (is_valid_bpb card ≡ true) × (fat_type card ≡ fat32)
unfolding is_valid_bpb fat_type
valid = (refl, refl)

-- A cluster of 128 sectors has 0 bytes.
large_clusters : bpb_clus_size (record card { bpb_sec_per_clus = 128 }) ≡ 0
unfolding bpb_clus_size
large_clusters = refl

abbrev volume : EasyFileSystem
volume = record {
  data_area_start_block = 15632;
  root_clus = 2;
  sec_per_clus = 8;
  byts_per_sec = 512;
}

opens : open_efs card ≡ volume
unfolding open_efs
opens = refl

second_page :
    get_neighboring_sec volume (5 ∷ 3 ∷ []) 1
    ≡ 15640 ∷ 15641 ∷ 15642 ∷ 15643 ∷ 15644 ∷ 15645 ∷ 15646 ∷ 15647 ∷ []
unfolding get_neighboring_sec
second_page = refl

get_neighboring_sec-Distinct_example :
    Distinct (get_neighboring_sec volume (5 ∷ 3 ∷ []) 0)
    × ((b : ℕ)
        → contains (get_neighboring_sec volume (5 ∷ 3 ∷ []) 0) b ≡ true
        → contains (get_neighboring_sec volume (5 ∷ 3 ∷ []) 1) b ≡ true
        → ◌≡◌ {A = ℕ} 0 1)
get_neighboring_sec-Distinct_example =
    get_neighboring_sec-Distinct volume (5 ∷ 3 ∷ []) 0 1 (refl, (refl, tt))
      (
        (omega arith, omega arith, omega arith, omega arith),
        ((omega arith, omega arith, omega arith, omega arith), tt),
      )
      (omega arith) (omega arith)
