-- ===== src/Fs/Volume.antt =====
-- kernel/src/fs/fat32/layout.rs: the parameter block `BPB`; kernel/src/fs/fat32/efs.rs: `EasyFileSystem`; and
-- the blocks of a file in kernel/src/fs/fat32/vfs.rs. Fields of 8, 16 and 32 bits wrap at their width.
pub mod Sectors
mod Tests
use oskernel2023_main_os.Common.{
  Bool, List, Option, [], add32, add64, get_or, if◌then◌else◌, leb, length, ltb, mul32, mul64, none,
  not, some, sub32, suc, zero, ℕ, ◌%◌, ◌&&◌, ◌*◌, ◌++◌, ◌+◌, ◌-◌, ◌/◌, ◌==◌, ◌^◌, ◌∷◌,
}

-- The fields of `BPB` that are read
pub record Bpb : Type 0 where
  pub bpb_byts_per_sec : ℕ
  pub bpb_sec_per_clus : ℕ
  pub rsvd_sec_cnt : ℕ
  pub num_fats : ℕ
  pub root_ent_cnt : ℕ
  pub tot_sec16 : ℕ
  pub fat_sz16 : ℕ
  pub tot_sec32 : ℕ
  pub fat_sz32 : ℕ
  pub bpb_root_clus : ℕ

abbrev pub add16 : ℕ → ℕ → ℕ
add16 a b = (a + b) % 2 ^ 16

abbrev pub sub16 : ℕ → ℕ → ℕ
sub16 a b = (a + 2 ^ 16 - b) % 2 ^ 16

abbrev pub mul16 : ℕ → ℕ → ℕ
mul16 a b = (a * b) % 2 ^ 16

unfoldable pub root_dir_sec : Bpb → ℕ
root_dir_sec b = add16 (mul16 b.root_ent_cnt 32) (sub16 b.bpb_byts_per_sec 1) / b.bpb_byts_per_sec

unfoldable pub data_sector_count : Bpb → ℕ
unfolding root_dir_sec
data_sector_count b =
    sub32 b.tot_sec32 (add32 (add32 b.rsvd_sec_cnt (mul32 b.num_fats b.fat_sz32)) (root_dir_sec b))

unfoldable pub count_of_cluster : Bpb → ℕ
unfolding data_sector_count
count_of_cluster b = data_sector_count b / b.bpb_sec_per_clus

-- `BPB::clus_size`, a product of 16 bits
unfoldable pub bpb_clus_size : Bpb → ℕ
bpb_clus_size b = mul16 b.bpb_byts_per_sec b.bpb_sec_per_clus

unfoldable pub is_valid_bpb : Bpb → Bool
unfolding root_dir_sec count_of_cluster
is_valid_bpb b =
    root_dir_sec b == 0
    && b.tot_sec16 == 0
    && leb 66625 (count_of_cluster b)
    && b.fat_sz16 == 0
    && b.root_ent_cnt == 0

unfoldable pub bpb_first_data_sector : Bpb → ℕ
unfolding root_dir_sec
bpb_first_data_sector b =
    let fat_sz = if not (b.fat_sz16 == 0) then b.fat_sz16 else b.fat_sz32 in
    add32 (add32 b.rsvd_sec_cnt (mul32 b.num_fats fat_sz)) (root_dir_sec b)

pub data FatType : Type 0 where
  fat32 fat16 fat12 : FatType

unfoldable pub fat_type : Bpb → FatType
unfolding count_of_cluster
fat_type b =
    if ltb (count_of_cluster b) 4085
    then fat12
    else if ltb (count_of_cluster b) 65525
    then fat16
    else fat32

pub record EasyFileSystem : Type 0 where
  pub data_area_start_block : ℕ
  pub root_clus : ℕ
  pub sec_per_clus : ℕ
  pub byts_per_sec : ℕ

-- `EasyFileSystem::open`, without the table of the allocation
unfoldable pub open_efs : Bpb → EasyFileSystem
unfolding bpb_first_data_sector
open_efs b = record {
  data_area_start_block = bpb_first_data_sector b;
  root_clus = b.bpb_root_clus;
  sec_per_clus = b.bpb_sec_per_clus;
  byts_per_sec = b.bpb_byts_per_sec;
}

-- `EasyFileSystem::clus_size`, a product of 32 bits
unfoldable pub clus_size : EasyFileSystem → ℕ
clus_size fs = mul32 fs.byts_per_sec fs.sec_per_clus

unfoldable pub first_sector_of_cluster : EasyFileSystem → ℕ → ℕ
first_sector_of_cluster fs clus_num =
    add32 fs.data_area_start_block (mul32 (sub32 clus_num 2) fs.sec_per_clus)

-- `for offset in 0..n`
abbrev pub sectors_from : ℕ → ℕ → List ℕ
sectors_from first zero = []
sectors_from first (suc n) = first ∷ sectors_from (first + 1) n

-- `alloc_blocks`, with the clusters that the table gives
unfoldable pub alloc_blocks : EasyFileSystem → List ℕ → List ℕ
unfolding first_sector_of_cluster
alloc_blocks fs [] = []
alloc_blocks fs (clus ∷ more) =
    sectors_from (first_sector_of_cluster fs clus) fs.sec_per_clus ++ alloc_blocks fs more

-- `total_clus`: `div_ceil` of the size
unfoldable pub total_clus : EasyFileSystem → ℕ → ℕ
unfolding clus_size
total_clus fs size = size / clus_size fs + (if size % clus_size fs == 0 then 0 else 1)

unfoldable pub get_block_id : EasyFileSystem → List ℕ → ℕ → Option ℕ
unfolding first_sector_of_cluster
get_block_id fs clus_list inner_cache_id =
    let idx = inner_cache_id / fs.sec_per_clus in
    if leb (length clus_list) idx
    then none
    else some (
        add32 (first_sector_of_cluster fs (get_or clus_list idx 0))
          (inner_cache_id % fs.sec_per_clus))

-- The loop of `get_neighboring_sec`
unfoldable pub neighbors_from : EasyFileSystem → List ℕ → ℕ → ℕ → List ℕ
unfolding first_sector_of_cluster
neighbors_from fs clus_list sec_id zero = []
neighbors_from fs clus_list sec_id (suc n) =
    let cluster_id = sec_id / fs.sec_per_clus in
    let rest = neighbors_from fs clus_list (add64 sec_id 1) n in
    if leb (length clus_list) cluster_id
    then []
    else add64 (first_sector_of_cluster fs (get_or clus_list cluster_id 0))
        (sec_id % fs.sec_per_clus)
      ∷ rest

unfoldable pub get_neighboring_sec : EasyFileSystem → List ℕ → ℕ → List ℕ
unfolding neighbors_from
get_neighboring_sec fs clus_list inner_cache_id =
    let sec_per_cache = 4096 / fs.byts_per_sec in
    neighbors_from fs clus_list (mul64 inner_cache_id sec_per_cache) sec_per_cache
