-- ===== src/Fs/PageCache/Transfers.antt =====
-- What a page holds after `read_in`, and the device after `write_back`.
use mathlib.Core.Option
use oskernel2023_main_os.Common.{
  All, Distinct, List, [], ap, append_assoc, arith, contains, drop, false, get_or, leb, length,
  length-append, length-drop, map, refl, replicate, set, some, suc, sym, take, true, zero, ℕ, ◌++◌,
  ◌+◌, ◌-◌, ◌<◌, ◌∙◌, ◌∷◌, ◌≡◌, ◌≤◌,
}
use oskernel2023_main_os.Fs.Cache.{Block, Disk, no_block, write_block}
use oskernel2023_main_os.Fs.PageCache.{
  PageCache, fill_rest, page_buffers, read_in, read_loop, write_back,
}
use oskernel2023_main_os.Fs.PageCache.Runs.{read_each, read_loop_lem, write_each, write_loop_lem}

set-next :
    (xs ys : List Block) (y z : Block) → set (xs ++ (y ∷ ys)) (length xs) z ≡ (xs ++ (z ∷ [])) ++ ys
set-next [] ys y z = refl
set-next (x ∷ xs) ys y z = ap (◌∷◌ x) (set-next xs ys y z)

read_each-map :
    (disk : Disk) (ids : List ℕ) (front rest : List Block)
    → length ids ≤ length rest
    → read_each disk (length front) ids (front ++ rest)
      ≡ front ++ (map disk ids ++ drop (length ids) rest)
read_each-map disk [] front rest h = refl
read_each-map disk (id ∷ ids) front [] h = absurd (omega arith)
read_each-map disk (id ∷ ids) front (r ∷ rest) h =
    let n : length front + 1 ≡ length (front ++ (disk id ∷ [])) =
      omega (arith, length-append front (disk id ∷ [])) in
    ap (λ p. read_each disk (length front + 1) ids p) (set-next front rest r (disk id))
    ∙ ap (λ k. read_each disk k ids ((front ++ (disk id ∷ [])) ++ rest)) n
    ∙ read_each-map disk ids (front ++ (disk id ∷ [])) rest (omega arith)
    ∙ append_assoc front (disk id ∷ []) (map disk ids ++ drop (length ids) rest)

length-map : (disk : Disk) (ids : List ℕ) → length (map disk ids) ≡ length ids
length-map disk [] = refl
length-map disk (id ∷ ids) = ap suc (length-map disk ids)

fill_rest-append :
    (zeros : Block) (xs ys : List Block)
    → fill_rest (length xs) zeros (xs ++ ys) ≡ xs ++ replicate (length ys) zeros
unfolding fill_rest
fill_rest-append zeros [] [] = refl
fill_rest-append zeros [] (y ∷ ys) = ap (◌∷◌ zeros) (fill_rest-append zeros [] ys)
fill_rest-append zeros (x ∷ xs) ys = ap (◌∷◌ x) (fill_rest-append zeros xs ys)

-- The page that a read gives
abbrev pub loaded : Disk → List ℕ → Block → PageCache → PageCache
loaded disk ids zeros c = record c {
  page = map disk ids ++ replicate (page_buffers - length ids) zeros;
  dirty = Option.map (λ d. false) c.dirty;
}

read_page :
    (disk : Disk) (id : ℕ) (ids : List ℕ) (zeros : Block) (page : List Block)
    → All (λ i. i < no_block) (id ∷ ids)
    → length (id ∷ ids) ≤ length page
    → fill_rest (length (id ∷ ids)) zeros (read_loop disk no_block 0 0 (id ∷ ids) page)
      ≡ map disk (id ∷ ids) ++ replicate (length page - length (id ∷ ids)) zeros
read_page disk id ids zeros page h k =
    let all = id ∷ ids in
    ap (λ p. fill_rest (length all) zeros p)
      (read_loop_lem disk no_block 0 0 all page (omega arith) h ∙ read_each-map disk all [] page k)
    ∙ ap (λ n. fill_rest n zeros (map disk all ++ drop (length all) page))
        (sym (length-map disk all))
    ∙ fill_rest-append zeros (map disk all) (drop (length all) page)
    ∙ ap (λ n. map disk all ++ replicate n zeros) (length-drop (length all) page)

-- For one to eight blocks below `usize::MAX`, `read_in`, which transfers runs of consecutive blocks at
-- once, fills a page of eight blocks with the contents of these blocks in their order, and the rest
-- with zeros, and leaves it clean.
pub read_in_lem :
    (id : ℕ) (ids : List ℕ) (zeros : Block) (disk : Disk) (c : PageCache)
    → All (λ i. i < no_block) (id ∷ ids)
    → length (id ∷ ids) ≤ page_buffers
    → length c.page ≡ page_buffers
    → read_in (id ∷ ids) zeros disk c ≡ some (loaded disk (id ∷ ids) zeros c)
unfolding read_in
read_in_lem id ids zeros disk c h k l =
    let few : leb (length (id ∷ ids)) page_buffers ≡ true = ground arith in
    let p = read_page disk id ids zeros c.page h (omega arith) in
    rw few (
      ap (λ full. some (record c { page = full; dirty = Option.map (λ d. false) c.dirty }))
        (p ∙ ap (λ n. map disk (id ∷ ids) ++ replicate (n - length (id ∷ ids)) zeros) l))

write_each-other :
    (page : List Block) (at : ℕ) (ids : List ℕ) (disk : Disk) (b : ℕ)
    → contains ids b ≡ false
    → write_each page at ids disk b ≡ disk b
write_each-other page at [] disk b h = refl
write_each-other page at (id ∷ ids) disk b h =
    let rest = write_each-other page (at + 1) ids (write_block disk id (get_or page at [])) b in
    ground (arith, rest)

drop-get :
    (at : ℕ) (page : List Block)
    → at < length page
    → drop at page ≡ get_or page at [] ∷ drop (suc at) page
drop-get at [] h = absurd (omega arith)
drop-get zero (b ∷ page) h = refl
drop-get (suc at) (b ∷ page) h = drop-get at page (omega arith)

write_each-map :
    (page : List Block) (at : ℕ) (ids : List ℕ) (disk : Disk)
    → Distinct ids
    → at + length ids ≤ length page
    → map (write_each page at ids disk) ids ≡ take (length ids) (drop at page)
write_each-map page at [] disk d h = refl
write_each-map page at (id ∷ ids) disk d h =
    let wrote = write_block disk id (get_or page at []) in
    let own : write_each page (at + 1) ids wrote id ≡ get_or page at [] =
      write_each-other page (at + 1) ids wrote id d.0 ∙ ground arith in
    let next : at + 1 ≡ suc at = omega arith in
    let rest =
      write_each-map page (at + 1) ids wrote d.1 (omega arith)
      ∙ ap (λ n. take (length ids) (drop n page)) next in
    ap (λ b. b ∷ map (write_each page (at + 1) ids wrote) ids) own
    ∙ ap (◌∷◌ (get_or page at [])) rest
    ∙ ap (take (suc (length ids))) (sym (drop-get at page (omega arith)))

-- `write_back` of a page to distinct blocks below `usize::MAX`, which may be as many as the page has,
-- puts the page's blocks into these in their order, and no other block of the device changes.
pub write_back_lem :
    (id : ℕ) (ids : List ℕ) (disk : Disk) (c : PageCache)
    → All (λ i. i < no_block) (id ∷ ids)
    → Distinct (id ∷ ids)
    → length (id ∷ ids) ≤ length c.page
    → (map (write_back (id ∷ ids) disk c) (id ∷ ids) ≡ take (length (id ∷ ids)) c.page)
      × ((b : ℕ) → contains (id ∷ ids) b ≡ false → write_back (id ∷ ids) disk c b ≡ disk b)
unfolding write_back
write_back_lem id ids disk c h d k =
    let e = write_loop_lem c.page no_block 0 0 (id ∷ ids) disk (omega arith) h in
    (
      ap (λ disk'. map disk' (id ∷ ids)) e
          ∙ write_each-map c.page 0 (id ∷ ids) disk d (omega arith),
      (λ b out. ap (λ disk'. disk' b) e ∙ write_each-other c.page 0 (id ∷ ids) disk b out),
    )

-- A page written back to distinct blocks below `usize::MAX`, at most eight, and read into another page
-- is there again, up to the number of blocks, with zeros after it.
pub read_in-write_back :
    (id : ℕ) (ids : List ℕ) (zeros : Block) (disk : Disk) (c fresh : PageCache)
    → All (λ i. i < no_block) (id ∷ ids)
    → Distinct (id ∷ ids)
    → length (id ∷ ids) ≤ page_buffers
    → length c.page ≡ page_buffers
    → length fresh.page ≡ page_buffers
    → read_in (id ∷ ids) zeros (write_back (id ∷ ids) disk c) fresh
      ≡ some (record fresh {
        page =
            take (length (id ∷ ids)) c.page ++ replicate (page_buffers - length (id ∷ ids)) zeros;
        dirty = Option.map (λ d. false) fresh.dirty;
      })
read_in-write_back id ids zeros disk c fresh h d k l l' =
    read_in_lem id ids zeros (write_back (id ∷ ids) disk c) fresh h k l'
    ∙ ap
        (λ bs. some (record fresh {
          page = bs ++ replicate (page_buffers - length (id ∷ ids)) zeros;
          dirty = Option.map (λ d. false) fresh.dirty;
        }))
        (write_back_lem id ids disk c h d (omega arith)).0
