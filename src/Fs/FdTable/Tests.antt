-- ===== src/Fs/FdTable/Tests.antt =====
-- Runs of the descriptor table, and its theorems at small inputs. Files are numbers here.
use oskernel2023_main_os.Common.{
  [], arith, contains, if◌then◌else◌, ltb, none, ok, refl, some, suc, zero, ℕ, ◌∷◌, ◌≡◌,
}
use oskernel2023_main_os.Fs.FdTable.{FdTable, insert, insert_at, set_soft_limit, try_insert_at}
use oskernel2023_main_os.Fs.FdTable.Slots.{is_hole}
use oskernel2023_main_os.Fs.FdTable.Laws.{
  Inserted, InsertedAt, Inv, insert-Inserted, insert_at-InsertedAt, opened, set_soft_limit_lem,
}
use oskernel2023_main_os.Fs.FdTable.Reuse.{
  TryInserted, try_insert_at-TryInserted, try_insert_at_reused,
}

-- Descriptors 0, 2 and 4 are open; 3 was closed first, then 1.
abbrev table : FdTable ℕ
table = record {
  inner = some 10 ∷ none ∷ some 12 ∷ none ∷ some 14 ∷ [];
  recycled = 1 ∷ 3 ∷ [];
  soft_limit = 128;
  hard_limit = 256;
}

-- Only 3 is closed.
abbrev one_hole : FdTable ℕ
one_hole = record {
  inner = some 10 ∷ some 11 ∷ some 12 ∷ none ∷ [];
  recycled = 3 ∷ [];
  soft_limit = 128;
  hard_limit = 256;
}

table-Inv : Inv table
table-Inv = record {
  exact = exact;
  distinct = ground arith;
  within = omega arith;
  small = omega arith;
}
  where
    exact : (fd : ℕ) → contains table.recycled fd ≡ is_hole table.inner fd
    exact zero = refl
    exact (suc zero) = refl
    exact (suc (suc zero)) = refl
    exact (suc (suc (suc zero))) = refl
    exact (suc (suc (suc (suc zero)))) = refl
    exact (suc (suc (suc (suc (suc fd))))) = ground arith

one_hole-Inv : Inv one_hole
one_hole-Inv = record {
  exact = exact;
  distinct = ground arith;
  within = omega arith;
  small = omega arith;
}
  where
    exact : (fd : ℕ) → contains one_hole.recycled fd ≡ is_hole one_hole.inner fd
    exact zero = refl
    exact (suc zero) = refl
    exact (suc (suc zero)) = refl
    exact (suc (suc (suc zero))) = refl
    exact (suc (suc (suc (suc fd)))) = ground arith

insert_lowest_closed_last :
    insert table 20
    ≡ some (
      ok 1,
      record table { inner = some 10 ∷ some 20 ∷ some 12 ∷ none ∷ some 14 ∷ []; recycled = 3 ∷ [] },
    )
unfolding insert
insert_lowest_closed_last = refl

-- The descriptor 7 is beyond the table: 5 and 6 become holes, 5 to be used first.
insert_at_beyond : (insert_at table 20 7).1.recycled ≡ 5 ∷ 6 ∷ 1 ∷ 3 ∷ []
unfolding insert_at
insert_at_beyond = refl

insert-Inserted_example : Inserted table 20 (insert table 20)
insert-Inserted_example = insert-Inserted table 20 table-Inv

insert_at-InsertedAt_example : InsertedAt table 20 7 (insert_at table 20 7)
insert_at-InsertedAt_example = insert_at-InsertedAt table 20 7 table-Inv

set_soft_limit_lem_example :
    Inv (set_soft_limit table 3)
    × ((j : ℕ) → opened (set_soft_limit table 3) j ≡ (if ltb j 3 then opened table j else none))
set_soft_limit_lem_example = set_soft_limit_lem table 3 table-Inv (omega arith)

try_insert_at-TryInserted_example : TryInserted table 20 2 (try_insert_at table 20 2)
try_insert_at-TryInserted_example = try_insert_at-TryInserted table 20 2 table-Inv

try_insert_at_reused_example :
    (t' : FdTable ℕ) × (t'' : FdTable ℕ) × (try_insert_at one_hole 20 0 ≡ some (ok 3, t'))
    × (opened t' 3 ≡ some 20)
    × (insert t' 30 ≡ some (ok 3, t''))
    × (opened t'' 3 ≡ some 30)
try_insert_at_reused_example =
    try_insert_at_reused one_hole 20 30 10 0 3 [] one_hole-Inv refl (omega arith) refl refl
