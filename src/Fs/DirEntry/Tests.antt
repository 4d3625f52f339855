-- ===== src/Fs/DirEntry/Tests.antt =====
-- A name of fourteen units, and its two long entries.
use oskernel2023_main_os.Common.{
  List, [], if◌then◌else◌, leb, map, refl, replicate, take, ℕ, ◌&&◌, ◌∷◌, ◌≡◌,
}
use oskernel2023_main_os.Fs.DirEntry.{
  Decoding, LongEnt, ShortEnt, file_inode, gen_dir_ent, long_ent_name,
}

-- Decoders that replace what is no character
abbrev decoding : Decoding
decoding = record {
  utf16 = map (λ u. if leb 0xd800 u && leb u 0xdfff then 0xfffd else u);
  utf8 = λ bytes. bytes;
}

abbrev letters : List ℕ
letters = 97 ∷ 98 ∷ 99 ∷ 100 ∷ 101 ∷ 102 ∷ 103 ∷ 104 ∷ 105 ∷ 106 ∷ 107 ∷ 108 ∷ 109 ∷ 110 ∷ []

abbrev entries : ShortEnt × List LongEnt
entries = gen_dir_ent (replicate 11 65) letters 14 70000 file_inode

orders : map (λ (l : LongEnt). l.order) entries.1 ≡ 1 ∷ 66 ∷ []
unfolding gen_dir_ent
orders = refl

second :
    map (λ (l : LongEnt). long_ent_name decoding l) entries.1 ≡ take 13 letters ∷ (110 ∷ []) ∷ []
unfolding gen_dir_ent long_ent_name
second = refl
