-- ===== src/Fs/Fat/Places.antt =====
-- Where the entry of a cluster is, and what a write to it changes.
use native.Mathlib.Nat.{div-le_self, mod-add-div', mod-lt}
use native.Mathlib.Decide.{ℕ_discrete}
use oskernel2023_main_os.Common.{
  arith, if◌then◌else◌, low_bits, mul32, refl, some, sym, ◌%◌, ◌&&◌, ◌*◌, ◌+◌, ◌/◌, ◌<◌, ◌==◌, ◌^◌,
  ◌∙◌, ◌≡◌, ◌≤◌,
}
use oskernel2023_main_os.Common.{ℕ}
use oskernel2023_main_os.Fs.Fat.{
  Disk, Layout, bad_block, get_next_clus_num, set_next_clus, this_fat_ent_offset, this_fat_sec_num,
}

-- Sectors hold whole entries, no entry has the number that marks a bad cluster, and the table begins below sector 2 ^ 31.
pub record IsLayout (l : Layout) : Type 0 where
  pub sector : ℕ
  pub whole : l.byts_per_sec ≡ 4 * sector
  pub some_entries : 0 < sector
  pub few : l.tot_ent ≤ bad_block
  pub narrow : l.start_block_id < 2 ^ 31

-- `clus * 4` divided by the size of a sector
module _ (l : Layout) (v : IsLayout l) (c : ℕ) (hc : c < 2 ^ 28) where
  fits : mul32 c 4 ≡ c * 4
  fits = omega arith

  quotient_small : c * 4 / l.byts_per_sec < 2 ^ 30
  quotient_small = omega (arith, div-le_self (c * 4) l.byts_per_sec)

  pub sec_num : this_fat_sec_num l c ≡ l.start_block_id + c * 4 / l.byts_per_sec
  unfolding this_fat_sec_num
  sec_num = rw fits (omega (arith, v.narrow, quotient_small))

  pub ent_offset : this_fat_ent_offset l c ≡ c * 4 % l.byts_per_sec
  unfolding this_fat_ent_offset
  ent_offset = rw fits refl

  whole_entry : c * 4 % l.byts_per_sec + 4 ≤ l.byts_per_sec
  whole_entry =
      let q = c * 4 / (4 * v.sector) in
      let e = mod-add-div' (c * 4) (4 * v.sector) in
      let f : q * (4 * v.sector) ≡ 4 * (q * v.sector) = omega arith in
      rw v.whole (
        omega (
          arith,
          v.some_entries,
          mod-lt (c * 4) {m = 4 * v.sector} (omega (arith, v.some_entries)),
        ))

same_place : (c d b : ℕ) → c * 4 / b ≡ d * 4 / b → c * 4 % b ≡ d * 4 % b → c ≡ d
same_place c d b p q =
    let e : c * 4 ≡ d * 4 = sym (mod-add-div' (c * 4) b) ∙ rw (p, q) (mod-add-div' (d * 4) b) in
    omega arith

module _ (l : Layout) (v : IsLayout l) where
  -- In a sound layout the entry of a cluster of the table lies in one sector, and no other cluster
  -- of the table has its place.
  pub place_lem :
      (c d : ℕ)
      → c < l.tot_ent
      → d < l.tot_ent
      → (this_fat_ent_offset l c + 4 ≤ l.byts_per_sec)
        × ((this_fat_sec_num l c == this_fat_sec_num l d
              && this_fat_ent_offset l c == this_fat_ent_offset l d)
            ≡ (c == d))
  place_lem c d hc hd =
      let b = l.byts_per_sec in
      let sc : c < 2 ^ 28 = omega (arith, v.few) in
      let sd : d < 2 ^ 28 = omega (arith, v.few) in
      rw (ent_offset l v c sc, ent_offset l v d sd, sec_num l v c sc, sec_num l v d sd)
        (
          whole_entry l v c sc,
          elim (ℕ_discrete c d) [
            | yes e ↦ rw e (ground arith)
            | no ne ↦
                let apart = λ (p : c * 4 / b ≡ d * 4 / b) (q : c * 4 % b ≡ d * 4 % b).
                  ne (same_place c d b p q) in
                ground arith
          ],
        )

  pub get_next_clus_num-set_next_clus :
      (c next d : ℕ) (disk : Disk)
      → c < l.tot_ent
      → d < l.tot_ent
      → get_next_clus_num l (set_next_clus l (some c) next disk) d
        ≡ (if c == d then low_bits next 28 else get_next_clus_num l disk d)
  unfolding get_next_clus_num set_next_clus
  get_next_clus_num-set_next_clus c next d disk hc hd = rw (place_lem c d hc hd).1 (ground arith)
