-- ===== src/Fs/PageCache.antt =====
-- kernel/src/fs/cache.rs: `PageCache`, a page of eight blocks, with the transfers of runs of consecutive
-- blocks, and `PageCacheManager`, the pages of a file. A page is the list of its blocks, and offsets in
-- it count blocks. A new frame, the closures `neighbor`, which give the blocks of a page, and the
-- other references to a page or its frame are arguments.
pub mod Runs
pub mod Transfers
pub mod Allocated
mod Tests
use mathlib.Core.Option
use oskernel2023_main_os.Common.{
  Bool, List, Option, [], add64, false, get_or, if◌then◌else◌, leb, length, ltb, map, none, not,
  replicate, set, some, sub64, suc, true, zero, ℕ, ◌++◌, ◌+◌, ◌-◌, ◌/◌, ◌==◌, ◌∷◌,
}
use oskernel2023_main_os.Fs.Cache.{Block, Disk, no_block, priority_upperbound, write_block}

abbrev pub page_buffers : ℕ
page_buffers = 8

-- `block_device.read_block(start, buf)` of `n` blocks into the page from block `at` on
unfoldable pub read_run : Disk → ℕ → ℕ → ℕ → List Block → List Block
read_run disk start at zero page = page
read_run disk start at (suc n) page =
    read_run disk (start + 1) (at + 1) n (set page at (disk start))

-- `block_device.write_block(start, buf)` of `n` blocks of the page from block `at` on
unfoldable pub write_run : List Block → ℕ → ℕ → ℕ → Disk → Disk
write_run page start at zero disk = disk
write_run page start at (suc n) disk =
    write_run page (start + 1) (at + 1) n (write_block disk start (get_or page at []))

-- The loop of `read_in`, with `start_block_id`, `start_buf_id` and `con_length`, and the transfer after it
unfoldable pub read_loop : Disk → ℕ → ℕ → ℕ → List ℕ → List Block → List Block
unfolding read_run
read_loop disk start at con [] page = read_run disk start at con page
read_loop disk start at con (id ∷ ids) page =
    if con == 0
    then read_loop disk id at 1 ids page
    else if not (id == add64 start con)
    then read_loop disk id (at + con) 1 ids (read_run disk start at con page)
    else read_loop disk start at (con + 1) ids page

-- `self.page_ptr[len * BUFFER_SIZE..].fill(0)`
unfoldable pub fill_rest : ℕ → Block → List Block → List Block
fill_rest zero zeros page = map (λ b. zeros) page
fill_rest (suc n) zeros [] = []
fill_rest (suc n) zeros (b ∷ page) = b ∷ fill_rest n zeros page

pub record PageCache : Type 0 where
  pub priority : ℕ
  pub page : List Block
  pub clones : ℕ
  pub frame_clones : ℕ
  pub dirty : Option Bool

-- `read_in`; `none` is the failed assertion. Afterwards the page of an entry is clean.
unfoldable pub read_in : List ℕ → Block → Disk → PageCache → Option PageCache
unfolding read_loop fill_rest
read_in [] zeros disk c = some c
read_in (id ∷ ids) zeros disk c =
    if leb (length (id ∷ ids)) page_buffers
    then some (record c {
      page = fill_rest (length (id ∷ ids)) zeros (read_loop disk no_block 0 0 (id ∷ ids) c.page);
      dirty = Option.map (λ d. false) c.dirty;
    })
    else none

unfoldable pub write_loop : List Block → ℕ → ℕ → ℕ → List ℕ → Disk → Disk
unfolding write_run
write_loop page start at con [] disk = write_run page start at con disk
write_loop page start at con (id ∷ ids) disk =
    if con == 0
    then write_loop page id at 1 ids disk
    else if not (id == add64 start con)
    then write_loop page id (at + con) 1 ids (write_run page start at con disk)
    else write_loop page start at (con + 1) ids disk

unfoldable pub write_back : List ℕ → Disk → PageCache → Disk
unfolding write_loop
write_back [] disk c = disk
write_back (id ∷ ids) disk c = write_loop c.page no_block 0 0 (id ∷ ids) disk

-- `sync` writes nothing back if the page table says that the page is clean.
unfoldable pub sync_page : List ℕ → Disk → PageCache → Disk
unfolding write_back
sync_page ids disk c = elim c.dirty [
  | some false ↦ disk
  | some true ↦ write_back ids disk c
  | none ↦ write_back ids disk c
]

pub record Pages : Type 0 where
  pub cache_pool : List (Option PageCache)
  pub allocated_cache : List ℕ

unfoldable pub new_pages : Pages
new_pages = record { cache_pool = []; allocated_cache = [] }

-- `while inner_cache_id >= lock.len() { lock.push(None) }`
unfoldable pub grow_pool : ℕ → List (Option PageCache) → List (Option PageCache)
grow_pool id pool = pool ++ replicate (suc id - length pool) none

abbrev pub raise_page : PageCache → PageCache
raise_page c = record c {
  priority = if ltb c.priority priority_upperbound then c.priority + 1 else c.priority;
  clones = c.clones + 1;
}

-- `get_cache`, with the page that `PageCache::new` gives and the blocks that `neighbor` gives
unfoldable pub get_cache : ℕ → PageCache → List ℕ → Block → Disk → Pages → Option Pages
unfolding grow_pool read_in
get_cache id fresh ids zeros disk s =
    let pool = grow_pool id s.cache_pool in
    elim (get_or pool id none) [
      | some c ↦ some (record s { cache_pool = set pool id (some (raise_page c)) })
      | none ↦ elim (read_in ids zeros disk fresh) [
        | none ↦ none
        | some c ↦ some (record {
          cache_pool = set pool id (some (raise_page c));
          allocated_cache = s.allocated_cache ++ (id ∷ []);
        })
      ]
    ]

-- What `oom` goes on with: the pool, the new list of pages, the number of dropped pages, the device
pub record Sweep : Type 0 where
  pub pool : List (Option PageCache)
  pub kept : List ℕ
  pub dropped : ℕ
  pub disk : Disk

-- One page in `oom`
unfoldable pub sweep_page : (ℕ → List ℕ) → ℕ → PageCache → Sweep → Sweep
unfolding sync_page
sweep_page neighbor id c s =
    if ltb 1 (1 + c.clones)
    then record s { kept = s.kept ++ (id ∷ []) }
    else if ltb 1 (1 + c.frame_clones)
    then record s { kept = s.kept ++ (id ∷ []) }
    else if ltb 0 c.priority
    then record s {
      pool = set s.pool id (some (record c { priority = c.priority - 1 }));
      kept = s.kept ++ (id ∷ []);
    }
    else record s {
      pool = set s.pool id none;
      dropped = s.dropped + 1;
      disk = sync_page (neighbor id) s.disk c;
    }

-- `none` is the panic on a page that is not there.
unfoldable pub sweep : (ℕ → List ℕ) → List ℕ → Sweep → Option Sweep
unfolding sweep_page
sweep neighbor [] s = some s
sweep neighbor (id ∷ ids) s = elim (get_or s.pool id none) [
  | none ↦ none
  | some c ↦ sweep neighbor ids (sweep_page neighbor id c s)
]

-- `oom`: the number of dropped pages, with the new state
unfoldable pub oom_pages : (ℕ → List ℕ) → Disk → Pages → Option (ℕ × Pages × Disk)
unfolding sweep
oom_pages neighbor disk s =
    elim (sweep neighbor s.allocated_cache
      (record { pool = s.cache_pool; kept = []; dropped = 0; disk = disk })) [
        | none ↦ none
        | some w ↦
            some (w.dropped, record { cache_pool = w.pool; allocated_cache = w.kept }, w.disk)
      ]

-- The loop of `notify_new_size` pops the last page; `none` is its panic.
unfoldable pub pop_pages : ℕ → List (Option PageCache) → Option (List (Option PageCache))
pop_pages zero [] = some []
pop_pages (suc n) [] = some []
pop_pages (suc n) (c ∷ pool) = elim (pop_pages n pool) [
  | none ↦ none
  | some pool' ↦ some (c ∷ pool')
]
pop_pages zero (c ∷ pool) =
    let rest = pop_pages zero pool in
    elim c [ none ↦ rest | some p ↦ if ltb 1 (1 + p.clones) then none else rest ]

abbrev pub below : ℕ → List ℕ → List ℕ
below n [] = []
below n (x ∷ xs) = let rest = below n xs in if ltb x n then x ∷ rest else rest

unfoldable pub notify_new_size : ℕ → Pages → Option Pages
unfolding pop_pages
notify_new_size new_size s =
    let new_pages = sub64 (add64 new_size 4096) 1 / 4096 in
    elim (pop_pages new_pages s.cache_pool) [
      | none ↦ none
      | some pool ↦
          some (record { cache_pool = pool; allocated_cache = below new_pages s.allocated_cache })
    ]
