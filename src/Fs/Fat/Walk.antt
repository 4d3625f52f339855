-- ===== src/Fs/Fat/Walk.antt =====
-- `get_all_clus_num` against the entries of the table.
use mathlib.Core.Option
use oskernel2023_main_os.Common.{
  Bool-cases, Distinct, Option, ap, contains, false, inl, inr, length, length-Distinct, none, refl,
  subst, suc, sym, true, zero, ◌%◌, ◌*◌, ◌+◌, ◌/◌, ◌<◌, ◌==◌, ◌^◌, ◌∙◌, ◌∷◌, ◌≡◌, ◌≤◌, ◌⊎◌,
}
use oskernel2023_main_os.Common.{List, [], arith, some, ℕ}
use oskernel2023_main_os.Fs.Fat.{Disk, Layout, ends_chain, get_all_clus_num, get_next_clus_num}
use oskernel2023_main_os.Fs.Fat.Places.{IsLayout, ent_offset, sec_num}

-- The 28 bits of a cluster's entry; the entries take four bytes each, from the start of the table on.
abbrev pub fat_entry : Layout → Disk → ℕ → ℕ
fat_entry l disk c =
    disk (l.start_block_id + c * 4 / l.byts_per_sec) (c * 4 % l.byts_per_sec) % 0x1000_0000

-- An entry that names no cluster: free, bad, or an end of a chain
abbrev pub NamesNone : ℕ → Type 0
NamesNone v = (v ≡ 0) ⊎ (0x0FFF_FFF7 ≤ v)

-- Each entry names the next cluster, and the last one's names none.
abbrev pub Linked : Layout → Disk → ℕ → List ℕ → Type 0
Linked l disk c [] = NamesNone (fat_entry l disk c)
Linked l disk c (d ∷ ds) =
    (fat_entry l disk c ≡ d) × (0 < d) × (d < 0x0FFF_FFF7) × Linked l disk d ds

Linked-unique :
    (l : Layout) (disk : Disk) (c : ℕ) (cs ds : List ℕ)
    → Linked l disk c cs
    → Linked l disk c ds
    → ds ≡ cs
Linked-unique l disk c [] [] h k = refl
Linked-unique l disk c [] (d ∷ ds) (inl h) (e, pos, low, k) = absurd (omega (arith, h, e))
Linked-unique l disk c [] (d ∷ ds) (inr h) (e, pos, low, k) = absurd (omega (arith, h, e))
Linked-unique l disk c (d ∷ cs) [] (e, pos, low, h) (inl k) = absurd (omega (arith, k, e))
Linked-unique l disk c (d ∷ cs) [] (e, pos, low, h) (inr k) = absurd (omega (arith, k, e))
Linked-unique l disk c (d ∷ cs) (b ∷ ds) (e, pos, low, h) (e', pos', low', k) =
    let same : b ≡ d = sym e' ∙ e in
    ap (λ x. x ∷ ds) same
    ∙ ap (◌∷◌ d) (Linked-unique l disk d cs ds h (subst (λ x. Linked l disk x ds) same k))

next-fat_entry :
    (l : Layout)
    → IsLayout l
    → (disk : Disk) (c : ℕ) → c < 2 ^ 28
    → get_next_clus_num l disk c ≡ fat_entry l disk c
unfolding get_next_clus_num
next-fat_entry l v disk c h = rw (sec_num l v c h, ent_offset l v c h) refl

ends-NamesNone : (x : ℕ) → ends_chain x ≡ true → NamesNone x
ends-NamesNone x h = elim (Bool-cases (0 == x)) [
  | inl e ↦ inl (ground arith)
  | inr e ↦ inr (ground arith)
]

-- A chain does not come back to a cluster, since it would not end.
Linked-later :
    (l : Layout) (disk : Disk) (c x : ℕ) (cs : List ℕ)
    → Linked l disk c cs
    → contains cs x ≡ true
    → (ds : List ℕ) × Linked l disk x ds × (length ds < length cs)
Linked-later l disk c x [] h k = absurd (ground arith)
Linked-later l disk c x (d ∷ cs) (e, pos, low, h) k = elim (Bool-cases (d == x)) [
  | inl same ↦
      let at : d ≡ x = ground arith in (cs, subst (λ y. Linked l disk y cs) at h, omega arith)
  | inr apart ↦
      let (ds, h', less) = Linked-later l disk d x cs h (ground (arith, k, apart)) in
      (ds, h', omega (arith, less))
]

Linked-once :
    (l : Layout) (disk : Disk) (c : ℕ) (cs : List ℕ) → Linked l disk c cs → contains cs c ≡ false
Linked-once l disk c cs h = elim (Bool-cases (contains cs c)) [
  | inl again ↦
      let (ds, h', less) = Linked-later l disk c c cs h again in
      let same : length ds ≡ length cs = ap length (Linked-unique l disk c cs ds h h') in
      absurd (omega (arith, less, same))
  | inr never ↦ never
]

Linked-Distinct :
    (l : Layout) (disk : Disk) (c : ℕ) (cs : List ℕ) → Linked l disk c cs → Distinct (c ∷ cs)
Linked-Distinct l disk c [] h = (refl, tt)
Linked-Distinct l disk c (d ∷ ds) h =
    (Linked-once l disk c (d ∷ ds) h, Linked-Distinct l disk d ds h.3)

-- What the walk from a cluster returns: the clusters of its chain, the only one, or, if the rounds do not
-- suffice, nothing
abbrev pub Follows : Layout → Disk → ℕ → ℕ → Option (List ℕ) → Type 0
Follows l disk rounds c none = (cs : List ℕ) → Linked l disk c cs → rounds ≤ length cs
Follows l disk rounds c (some xs) =
    (cs : List ℕ) × (xs ≡ c ∷ cs)
    × (length cs < rounds)
    × Linked l disk c cs
    × ((ds : List ℕ) → Linked l disk c ds → ds ≡ cs)

Follows-end :
    (l : Layout) (disk : Disk) (rounds c : ℕ)
    → NamesNone (fat_entry l disk c)
    → Follows l disk (suc rounds) c (some (c ∷ []))
Follows-end l disk rounds c h = ([], refl, omega arith, h, λ ds k. Linked-unique l disk c [] ds h k)

-- One link before a walk
Follows-on :
    (l : Layout) (disk : Disk) (rounds c d : ℕ) (r : Option (List ℕ))
    → fat_entry l disk c ≡ d
    → 0 < d
    → d < 0x0FFF_FFF7
    → Follows l disk rounds d r
    → Follows l disk (suc rounds) c (Option.map (◌∷◌ c) r)
Follows-on l disk rounds c d none e pos low w = too_long
  where
    too_long : (cs : List ℕ) → Linked l disk c cs → suc rounds ≤ length cs
    too_long [] (inl h) = absurd (omega (arith, h, e))
    too_long [] (inr h) = absurd (omega (arith, h, e))
    too_long (b ∷ cs) (e', pos', low', k) =
        omega (arith, w cs (subst (λ x. Linked l disk x cs) (sym e' ∙ e) k))
Follows-on l disk rounds c d (some xs) e pos low (cs, at, few, h, only) = (
  d ∷ cs,
  ap (◌∷◌ c) at,
  omega (arith, few),
  (e, pos, low, h),
  λ ds k. Linked-unique l disk c (d ∷ cs) ds (e, pos, low, h) k,
)

get_all_clus_num-Follows :
    (l : Layout)
    → IsLayout l
    → (disk : Disk) (rounds c : ℕ) → c < 2 ^ 28
    → Follows l disk rounds c (get_all_clus_num l disk rounds c)
unfolding get_all_clus_num
get_all_clus_num-Follows l v disk zero c h = λ cs k. omega arith
get_all_clus_num-Follows l v disk (suc rounds) c h =
    let at = next-fat_entry l v disk c h in
    elim (Bool-cases (ends_chain (get_next_clus_num l disk c))) [
      | inl last ↦
          let none_next : NamesNone (fat_entry l disk c) =
            subst NamesNone at (ends-NamesNone (get_next_clus_num l disk c) last) in
          rw last (Follows-end l disk rounds c none_next)
      | inr more ↦
          let next = get_next_clus_num l disk c in
          let pos : 0 < next = ground arith in
          let low : next < 0x0FFF_FFF7 = ground arith in
          let rest = get_all_clus_num-Follows l v disk rounds next (omega arith) in
          rw more (
            Follows-on l disk rounds c next (get_all_clus_num l disk rounds next) (sym at) pos low
              rest)
    ]

-- The same, and chains of clusters of the table need at most a round for each of its entries.
abbrev pub Walks : Layout → Disk → ℕ → ℕ → Option (List ℕ) → Type 0
Walks l disk rounds c none =
    (cs : List ℕ)
    → Linked l disk c cs
    → (rounds ≤ length cs)
      × (((x : ℕ) → contains (c ∷ cs) x ≡ true → x < l.tot_ent) → rounds < l.tot_ent)
Walks l disk rounds c (some xs) = Follows l disk rounds c (some xs)

Follows-Walks :
    (l : Layout) (disk : Disk) (rounds c : ℕ) (r : Option (List ℕ))
    → Follows l disk rounds c r
    → Walks l disk rounds c r
Follows-Walks l disk rounds c none w = λ cs h. (
  w cs h,
  λ inside.
      omega
        (arith, w cs h, length-Distinct l.tot_ent (c ∷ cs) (Linked-Distinct l disk c cs h) inside),
)
Follows-Walks l disk rounds c (some xs) w = w

-- From a cluster number of 28 bits in a sound layout, `get_all_clus_num` returns that cluster and the
-- chain which the entries of the table link to it, if there is one with fewer links than the rounds of
-- the loop, and then it is the only one; with no such chain the rounds do not suffice. For a chain in
-- the table as many rounds as it has entries do. A chain stops at an entry that is free, bad or an
-- end mark.
pub get_all_clus_num-Walks :
    (l : Layout)
    → IsLayout l
    → (disk : Disk) (rounds c : ℕ) → c < 2 ^ 28
    → Walks l disk rounds c (get_all_clus_num l disk rounds c)
get_all_clus_num-Walks l v disk rounds c h =
    Follows-Walks l disk rounds c (get_all_clus_num l disk rounds c)
      (get_all_clus_num-Follows l v disk rounds c h)
