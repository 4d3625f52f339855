-- ===== src/Mm/MemorySet/Unmapping/Munmap.antt =====
-- `munmap`, page by page.
use oskernel2023_main_os.Common.{
  Bool-cases, Distinct, List, Option, Option-cases, Pool-live_range, [], add64, ap, arith, contains,
  contains-erase_le, contains-erase_self, erase, false, inl, inr, leb, none, refl, some, subst,
  true, ℕ, ◌==◌, ◌∙◌, ◌∷◌, ◌≡◌, ◌≤◌,
}
use oskernel2023_main_os.Mm.FrameAllocator.{FrameTracker, StackFrameAllocator, drop_tracker}
use oskernel2023_main_os.Mm.FrameAllocator.Frames
use oskernel2023_main_os.Mm.FrameAllocator.Frames.{dealloc_lem}
use oskernel2023_main_os.Mm.PageTable.{Machine}
use oskernel2023_main_os.Mm.PageTable.Spec.{mapping}
use oskernel2023_main_os.Mm.MemorySet.{FrameMap, drop_frame, lookup, remove, remove_frame, vpns}
use oskernel2023_main_os.Mm.MemorySet.Space.{MemorySet, align_up, forget_pages, munmap}
use oskernel2023_main_os.Mm.MemorySet.Unmapping.{
  Forgets, Holds, erased-All, held_at, keys, lookup-remove, out_of_ppns, remove-All, remove-keys,
  remove-ppns,
}
use oskernel2023_main_os.Mm.Address.{SimpleRange, floor, new_range, virt_addr}

-- A live frame that a tracker gives back
gives_back :
    (base : ℕ) (live : List ℕ) (a : StackFrameAllocator) (t : FrameTracker)
    → Frames.Inv base a live
    → t.hold ≡ true
    → contains live t.ppn ≡ true
    → (a' : StackFrameAllocator) × (drop_tracker a t ≡ some a')
      × Frames.Inv base a' (erase t.ppn live)
unfolding drop_tracker
gives_back base live a t v held here =
    let bottom = (Pool-live_range v.pool t.ppn here).0 in
    elim (dealloc_lem t.ppn v bottom) [
      | inl (_, (a', e, _, v')) ↦ (a', rw held e, v')
      | inr (out, _) ↦ absurd (ground (arith, here, out))
    ]

forgets_none :
    (v : ℕ) (fs : FrameMap) (m : Machine)
    → lookup v fs ≡ none
    → remove_frame v fs m ≡ some (remove v fs, m)
unfolding remove_frame drop_frame
forgets_none v fs m h = rw (remove_frame, h) refl

forgets_some :
    (v : ℕ) (fs : FrameMap) (m : Machine) (t : FrameTracker) (a' : StackFrameAllocator)
    → lookup v fs ≡ some t
    → drop_tracker m.frames t ≡ some a'
    → remove_frame v fs m ≡ some (remove v fs, record m { frames = a' })
unfolding remove_frame drop_frame
forgets_some v fs m t a' h e = rw (remove_frame, h, e) refl

remove-none : (v : ℕ) (fs : FrameMap) → lookup v fs ≡ none → remove v fs ≡ fs
remove-none v [] h = refl
remove-none v (f ∷ fs) h =
    let other : (f.0 == v) ≡ false = ground (arith, h) in
    let rest = remove-none v fs (ground (arith, h, other)) in rw other (ap (◌∷◌ f) rest)

-- A page forgotten first, and the others after it
Forgets-first :
    (base v : ℕ) (more : List ℕ) (fs : FrameMap) (m m1 : Machine) (live live1 : List ℕ)
    → (r : Option (FrameMap × Machine)) → Distinct (keys fs)
    → m1.memory ≡ m.memory
    → ((p : ℕ) → contains live p ≡ false → contains live1 p ≡ false)
    → ((t : FrameTracker) → lookup v fs ≡ some t → contains live1 t.ppn ≡ false)
    → Forgets base more (remove v fs) m1 live1 r
    → Forgets base (v ∷ more) fs m live r
Forgets-first base v more fs m m1 live live1 none d mem less gone h = h
Forgets-first base v more fs m m1 live live1 (some (fs', m')) d mem less gone
      (live', inv, holds, same, found, less', gone') =
    (
      live',
      inv,
      holds,
      same ∙ mem,
      (λ w. let l = lookup-remove v w fs d in let f = found w in ground (arith, l, f)),
      (λ p k. less' p (less p k)),
      (λ w t k e. elim (Bool-cases (v == w)) [
        | inl own ↦
            let at : v ≡ w = ground (arith, own) in
            let e' : lookup v fs ≡ some t = ap (λ u. lookup u fs) at ∙ e in less' t.ppn (gone t e')
        | inr other ↦
            let l = lookup-remove v w fs d in
            gone' w t (ground (arith, k, other)) (ground (arith, l, other, e))
      ]),
    )

forget_pages-Forgets :
    (base : ℕ) (pages : List ℕ) (fs : FrameMap) (m : Machine) (live : List ℕ)
    → Frames.Inv base m.frames live
    → Holds live fs
    → Forgets base pages fs m live (forget_pages pages fs m)
unfolding forget_pages
forget_pages-Forgets base [] fs m live inv holds =
    (live, inv, holds, refl, (λ w. ground arith), (λ p k. k), (λ w t k. absurd (ground (arith, k))))
forget_pages-Forgets base (v ∷ more) fs m live inv (d, e, all) = elim (Option-cases (lookup v fs)) [
  | inl out ↦
      let same = remove-none v fs out in
      rw (forget_pages, forgets_none v fs m out)
        (Forgets-first base v more fs m m live live (forget_pages more (remove v fs) m) d refl
          (λ p k. k) (λ t h. absurd (ground (arith, h, out)))
          (forget_pages-Forgets base more (remove v fs) m live inv
            (remove-keys v fs d, remove-ppns v fs e, remove-All live v fs all)))
  | inr (t, here) ↦
      let (held, lives) = held_at live v fs t all here in
      let (a', gave, inv') = gives_back base live m.frames t inv held lives in
      let m1 : Machine = record m { frames = a' } in
      let freed = contains-erase_self t.ppn live inv.pool.live_distinct in
      rw (forget_pages, forgets_some v fs m t a' here gave)
        (Forgets-first base v more fs m m1 live (erase t.ppn live)
          (forget_pages more (remove v fs) m1) d refl (λ p k. contains-erase_le t.ppn p live k)
          (λ u h.
            let same : t ≡ u = ground (arith, here, h) in
            subst (λ (w : FrameTracker). contains (erase t.ppn live) w.ppn ≡ false) same freed)
          (forget_pages-Forgets base more (remove v fs) m1 (erase t.ppn live) inv' (
            remove-keys v fs d,
            remove-ppns v fs e,
            erased-All t.ppn live (remove v fs) (out_of_ppns v fs t e here)
                (remove-All live v fs all),
          )))
]

-- The pages of a call
abbrev pub unmapped : ℕ → ℕ → SimpleRange
unmapped start_addr len = record {
  l = floor (virt_addr (align_up start_addr));
  r = floor (virt_addr (align_up (add64 start_addr len)));
}

-- What a call leaves: no tracker in its range, the others as before, and the page table as it was
abbrev pub Unmaps : ℕ → ℕ → ℕ → MemorySet → Machine → List ℕ → Option (MemorySet × Machine) → Type 0
Unmaps base start_addr len s m live none = false ≡ true
Unmaps base start_addr len s m live (some (s', m')) =
    Forgets base (vpns (unmapped start_addr len)) s.mmap_area m live (some (s'.mmap_area, m'))
    × ((vpn : ℕ) → mapping s'.page_table m'.memory vpn ≡ mapping s.page_table m.memory vpn)

-- If the pages of `mmap` hold frames that are handed out, none twice, and the range is not reversed,
-- `munmap` returns, takes the trackers in its range and no others, and the frame of each page in the
-- range is handed out no more; yet the page table maps every page as before, these pages included.
pub munmap-Unmaps :
    (base start_addr len : ℕ) (s : MemorySet) (m : Machine) (live : List ℕ)
    → Frames.Inv base m.frames live
    → Holds live s.mmap_area
    → (unmapped start_addr len).l ≤ (unmapped start_addr len).r
    → Unmaps base start_addr len s m live (munmap start_addr len s m)
unfolding munmap new_range
munmap-Unmaps base start_addr len s m live inv holds h =
    let forward : leb (unmapped start_addr len).l (unmapped start_addr len).r ≡ true =
      ground arith in
    rw (munmap, forward)
      (as_space (forget_pages (vpns (unmapped start_addr len)) s.mmap_area m)
        (forget_pages-Forgets base (vpns (unmapped start_addr len)) s.mmap_area m live inv holds))
  where
    as_space :
        (r : Option (FrameMap × Machine))
        → Forgets base (vpns (unmapped start_addr len)) s.mmap_area m live r
        → Unmaps base start_addr len s m live
            (elim r [ none ↦ none | some (fs, m') ↦ some (record s { mmap_area = fs }, m') ])
    as_space none e = e
    as_space (some (fs, m')) (live', inv', holds', same, kept, less, gone) = (
      (live', inv', holds', same, kept, less, gone),
      (λ vpn. ap (λ mem. mapping s.page_table mem vpn) same),
    )
