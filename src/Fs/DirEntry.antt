-- ===== src/Fs/DirEntry.antt =====
-- kernel/src/fs/fat32/layout.rs: directory entries, and the parts of kernel/src/fs/fat32/vfs.rs that make
-- the entries of a name. A name is the list of its UTF-16 units; what the string library decodes of a
-- list of units, or of the bytes of a short name, is an argument (`Decoding`).
pub mod Names
mod Tests
use oskernel2023_main_os.Common.{
  Bool, List, [], bit_and, bit_or, drop, false, get_or, if◌then◌else◌, length, not, replicate, set,
  shr, suc, take, true, zero, ℕ, ◌%◌, ◌*◌, ◌++◌, ◌+◌, ◌-◌, ◌/◌, ◌==◌, ◌^◌, ◌||◌, ◌∷◌,
}

abbrev pub dir_entry_unused : ℕ
dir_entry_unused = 0xe5

abbrev pub dir_entry_last_and_unused : ℕ
dir_entry_last_and_unused = 0

abbrev pub last_long_entry : ℕ
last_long_entry = 0x40

pub data DiskInodeType : Type 0 where
  file_inode directory_inode : DiskInodeType

-- `FATDiskInodeType`, by its numbers; entries with `AttrLongName` are long entries.
abbrev pub attr_clear : ℕ
attr_clear = 0

abbrev pub attr_read_only : ℕ
attr_read_only = 0x01

abbrev pub attr_hidden : ℕ
attr_hidden = 0x02

abbrev pub attr_system : ℕ
attr_system = 0x04

abbrev pub attr_directory : ℕ
attr_directory = 0x10

abbrev pub attr_archive : ℕ
attr_archive = 0x20

-- `FATShortDirEnt`; `short_name` is its field `name`.
pub record ShortEnt : Type 0 where
  pub short_name : List ℕ
  pub attr : ℕ
  pub nt_res : ℕ
  pub crt_time_teenth : ℕ
  pub crt_time : ℕ
  pub crt_date : ℕ
  pub last_acc_date : ℕ
  pub fst_clus_hi : ℕ
  pub wrt_time : ℕ
  pub wrt_date : ℕ
  pub fst_clus_lo : ℕ
  pub file_size : ℕ

-- `FATLongDirEnt`; `order` is its field `ord`.
pub record LongEnt : Type 0 where
  pub order : ℕ
  pub name1 : List ℕ
  pub ldir_type : ℕ
  pub chk_sum : ℕ
  pub name2 : List ℕ
  pub zero_clus : ℕ
  pub name3 : List ℕ

-- The union `FATDirEnt`, which `is_long` tells apart
pub data DirEnt : Type 0 where
  short_entry : ShortEnt → DirEnt
  long_entry : LongEnt → DirEnt

-- `String::from_utf16_lossy`, and `from_utf8(..).unwrap_or("")`
pub record Decoding : Type 0 where
  pub utf16 : List ℕ → List ℕ
  pub utf8 : List ℕ → List ℕ

unfoldable pub empty_short : ShortEnt
empty_short = record {
  short_name = replicate 11 0;
  attr = attr_archive;
  nt_res = 0;
  crt_time_teenth = 0;
  crt_time = 0;
  crt_date = 0;
  last_acc_date = 0;
  fst_clus_hi = 0;
  wrt_time = 0;
  wrt_date = 0;
  fst_clus_lo = 0;
  file_size = 0;
}

unfoldable pub set_fst_clus : ℕ → ShortEnt → ShortEnt
set_fst_clus fst_clus e = record e {
  fst_clus_hi = shr fst_clus 16 % 2 ^ 16;
  fst_clus_lo = bit_and fst_clus 0xffff % 2 ^ 16;
}

unfoldable pub get_first_clus : ShortEnt → ℕ
get_first_clus e = bit_or e.fst_clus_lo (e.fst_clus_hi * 2 ^ 16 % 2 ^ 32)

abbrev pub attr_of : DiskInodeType → ℕ
attr_of directory_inode = attr_directory
attr_of file_inode = attr_archive

-- `FATShortDirEnt::from_name`
unfoldable pub from_name : List ℕ → ℕ → DiskInodeType → ShortEnt
unfolding empty_short set_fst_clus
from_name name fst_clus file_type = record (set_fst_clus fst_clus empty_short) {
  short_name = name;
  attr = attr_of file_type;
}

unfoldable pub is_dir_ent : ShortEnt → Bool
is_dir_ent e = e.attr == attr_directory

unfoldable pub is_file_ent : ShortEnt → Bool
is_file_ent e =
    e.attr == attr_archive
    || e.attr == attr_hidden
    || e.attr == attr_system
    || e.attr == attr_read_only

-- `(0..n).find(|i| a[*i] == c).unwrap_or(n)`
unfoldable pub find_or_length : ℕ → List ℕ → ℕ
find_or_length c [] = 0
find_or_length c (x ∷ xs) = let rest = find_or_length c xs in if x == c then 0 else suc rest

-- `FATShortDirEnt::name`
unfoldable pub short_ent_name : Decoding → ShortEnt → List ℕ
unfolding find_or_length
short_ent_name d e =
    let basic_name_len = find_or_length 32 (take 8 e.short_name) in
    let ext_name_len = find_or_length 32 (take 3 (drop 8 e.short_name)) in
    if not (ext_name_len == 0)
    then d.utf8 (take basic_name_len e.short_name)
      ++ (d.utf8 (46 ∷ []) ++ d.utf8 (take ext_name_len (drop 8 e.short_name)))
    else d.utf8 (take basic_name_len e.short_name)

unfoldable pub empty_long : LongEnt
empty_long = record {
  order = 0;
  name1 = replicate 5 0;
  ldir_type = 0;
  chk_sum = 0;
  name2 = replicate 6 0;
  zero_clus = 0;
  name3 = replicate 2 0;
}

-- `FATLongDirEnt::from_name_slice`, of thirteen units
unfoldable pub from_name_slice : Bool → ℕ → List ℕ → LongEnt
unfolding empty_long
from_name_slice is_last_ent order partial_name = record empty_long {
  order = if is_last_ent then bit_or (order % 2 ^ 8) last_long_entry else order % 2 ^ 8;
  name1 = take 5 partial_name;
  name2 = take 6 (drop 5 partial_name);
  name3 = drop 11 partial_name;
}

-- `FATLongDirEnt::name`
unfoldable pub long_ent_name : Decoding → LongEnt → List ℕ
unfolding find_or_length
long_ent_name d e =
    let name_all = e.name1 ++ (e.name2 ++ e.name3) in
    d.utf16 (take (find_or_length 0 name_all) name_all)

abbrev pub is_long : DirEnt → Bool
is_long (short_entry e) = false
is_long (long_entry e) = true

unfoldable pub get_name : Decoding → DirEnt → List ℕ
unfolding short_ent_name long_ent_name
get_name d (short_entry e) = short_ent_name d e
get_name d (long_entry e) = long_ent_name d e

unfoldable pub is_last_long_dir_ent : DirEnt → Bool
is_last_long_dir_ent (short_entry e) = false
is_last_long_dir_ent (long_entry e) = not (bit_and e.order last_long_entry == 0)

unfoldable pub ord : DirEnt → ℕ
ord (short_entry e) = 0
ord (long_entry e) = bit_and e.order (last_long_entry - 1)

-- The first byte of the union, the field `ord` of its long entry
abbrev pub first_byte : DirEnt → ℕ
first_byte (short_entry e) = get_or e.short_name 0 0
first_byte (long_entry e) = e.order

unfoldable pub unused_not_last : DirEnt → Bool
unused_not_last e = first_byte e == dir_entry_unused

unfoldable pub last_and_unused : DirEnt → Bool
last_and_unused e = first_byte e == dir_entry_last_and_unused

unfoldable pub unused : DirEnt → Bool
unfolding last_and_unused unused_not_last
unused e = last_and_unused e || unused_not_last e

unfoldable pub unused_not_last_entry : DirEnt
unfolding empty_short
unused_not_last_entry =
    short_entry (record empty_short { short_name = set empty_short.short_name 0 dir_entry_unused })

unfoldable pub unused_and_last_entry : DirEnt
unfolding empty_short
unused_and_last_entry = short_entry (record empty_short {
  short_name = set empty_short.short_name 0 dir_entry_last_and_unused;
  attr = attr_clear;
})

-- `gen_long_name_slice`: thirteen units from a place on, with zeros after the end of the name
unfoldable pub gen_long_name_slice : List ℕ → ℕ → List ℕ
gen_long_name_slice name long_ent_index =
    let v = name ++ replicate ((long_ent_index + 1) * 13 - length name) 0 in
    take 13 (drop (long_ent_index * 13) v)

-- The loop of `gen_name_slice`, with the numbers from `i` on
unfoldable pub gen_slices : List ℕ → ℕ → ℕ → List (List ℕ)
unfolding gen_long_name_slice
gen_slices name i zero = []
gen_slices name i (suc n) = gen_long_name_slice name i ∷ gen_slices name (i + 1) n

-- The long entries of `gen_dir_ent`, from number `i` on, of `total`
unfoldable pub gen_long_ents : ℕ → ℕ → List (List ℕ) → List LongEnt
unfolding from_name_slice
gen_long_ents total i [] = []
gen_long_ents total i (slice ∷ slices) =
    from_name_slice (i + 1 == total) (i + 1) slice ∷ gen_long_ents total (i + 1) slices

-- `gen_dir_ent`, with the short name that `gen_short_name_slice` gives and the length of the name in
-- bytes
unfoldable pub gen_dir_ent : List ℕ → List ℕ → ℕ → ℕ → DiskInodeType → ShortEnt × List LongEnt
unfolding gen_slices gen_long_ents from_name
gen_dir_ent short_name_slice name len fst_clus file_type =
    let long_ent_num = (len + 12) / 13 in
    (
      from_name short_name_slice fst_clus file_type,
      gen_long_ents long_ent_num 0 (gen_slices name 0 long_ent_num),
    )
