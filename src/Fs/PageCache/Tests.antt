-- ===== src/Fs/PageCache/Tests.antt =====
-- A page over the blocks 4, 5, 9, and a pool of two pages.
use mathlib.Core.Option
use oskernel2023_main_os.Common.{
  List, [], arith, contains, false, none, refl, replicate, some, suc, take, true, zero, ℕ, ◌++◌,
  ◌∷◌, ◌≡◌,
}
use oskernel2023_main_os.Fs.Cache.{Block, Disk}
use oskernel2023_main_os.Fs.PageCache.{
  PageCache, Pages, notify_new_size, oom_pages, read_in, write_back,
}
use oskernel2023_main_os.Fs.PageCache.Transfers.{read_in-write_back}
use oskernel2023_main_os.Fs.PageCache.Allocated.{IsTracked, cached}
use oskernel2023_main_os.Fs.PageCache.Allocated.Sweeps.{Drops, oom_pages-Drops}
use oskernel2023_main_os.Fs.PageCache.Allocated.Sizes.{CutsTo, notify_new_size-CutsTo}

abbrev device : Disk
device b = b ∷ []

abbrev blank : PageCache
blank = record {
  priority = 0;
  page = replicate 8 (0 ∷ []);
  clones = 0;
  frame_clones = 0;
  dirty = some true;
}

abbrev written : PageCache
written = record blank {
  page = (41 ∷ []) ∷ (51 ∷ []) ∷ (91 ∷ []) ∷ replicate 5 (1 ∷ []);
  clones = 1;
}

abbrev two : Pages
two = record { cache_pool = some blank ∷ none ∷ some written ∷ []; allocated_cache = 2 ∷ 0 ∷ [] }

two-IsTracked : IsTracked two
two-IsTracked = (same, (ground arith, (refl, tt)))
  where
    same : (i : ℕ) → contains two.allocated_cache i ≡ cached two.cache_pool i
    same zero = ground arith
    same (suc zero) = ground arith
    same (suc (suc zero)) = ground arith
    same (suc (suc (suc i))) = ground arith

-- The page that nobody holds is written back to its blocks and dropped.
drops :
    Option.map {B = ℕ × List ℕ × Block}
      (λ (r : ℕ × Pages × Disk). (r.0, r.1.allocated_cache, r.2 5))
      (oom_pages (λ i. 4 ∷ 5 ∷ 9 ∷ []) device two)
    ≡ some (1, 2 ∷ [], 0 ∷ [])
unfolding oom_pages
drops = refl

-- The held page is in the way of a shorter file.
in_the_way : notify_new_size 4096 two ≡ none
unfolding notify_new_size
in_the_way = refl

read_in-write_back_example :
    read_in (4 ∷ 5 ∷ 9 ∷ []) [] (write_back (4 ∷ 5 ∷ 9 ∷ []) device written) blank
    ≡ some (record blank { page = take 3 written.page ++ replicate 5 []; dirty = some false })
read_in-write_back_example =
    read_in-write_back 4 (5 ∷ 9 ∷ []) [] device written blank
      (omega arith, (omega arith, (omega arith, tt))) (refl, (refl, (refl, tt))) (omega arith) refl
      refl

oom_pages-Drops_example : Drops two (oom_pages (λ i. 4 ∷ 5 ∷ 9 ∷ []) device two)
oom_pages-Drops_example = oom_pages-Drops (λ i. 4 ∷ 5 ∷ 9 ∷ []) device two two-IsTracked

-- The page in front is held, and the one that nobody holds goes.
abbrev longer : Pages
longer = record { cache_pool = some written ∷ none ∷ some blank ∷ []; allocated_cache = 2 ∷ 0 ∷ [] }

longer-IsTracked : IsTracked longer
longer-IsTracked = (same, (ground arith, (refl, tt)))
  where
    same : (i : ℕ) → contains longer.allocated_cache i ≡ cached longer.cache_pool i
    same zero = ground arith
    same (suc zero) = ground arith
    same (suc (suc zero)) = ground arith
    same (suc (suc (suc i))) = ground arith

goes :
    notify_new_size 4096 longer
    ≡ some (record { cache_pool = some written ∷ []; allocated_cache = 0 ∷ [] })
unfolding notify_new_size
goes = refl

notify_new_size-CutsTo_example : CutsTo 1 longer (notify_new_size 4096 longer)
notify_new_size-CutsTo_example = notify_new_size-CutsTo 4096 longer (omega arith) longer-IsTracked
