-- ===== src/Fs/FdTable.antt =====
-- `FdTable` of kernel/src/fs/mod.rs: the open files of a process by descriptor number. `F` stands
-- for `FileDescriptor`, which the table only stores.
mod Slots
pub mod Laws
pub mod Reuse
mod Tests
use mathlib.Core.List.{reverse}
use oskernel2023_main_os.Common.{
  List, Option, Result, [], ebadf, emfile, err, get_elem?, if◌then◌else◌, leb, length, ltb, none,
  ok, replicate, set, some, suc, take, zero, ℕ, ◌%◌, ◌++◌, ◌+◌, ◌-◌, ◌==◌, ◌^◌, ◌∷◌,
}

-- The head of `recycled` is the back of the `Vec<u8>`; `inner` starts with descriptor 0.
pub record FdTable (F : Type 0) : Type 0 where
  pub inner : List (Option F)
  pub recycled : List ℕ
  pub soft_limit : ℕ
  pub hard_limit : ℕ

-- `DEFAULT_FD_LIMIT` and `SYSTEM_FD_LIMIT`
abbrev pub default_fd_limit : ℕ
default_fd_limit = 128

abbrev pub system_fd_limit : ℕ
system_fd_limit = 256

-- `retain(|&fd| fd as usize != pos)` and `retain(|&fd| (fd as usize) < limit)`
abbrev pub retain_ne : ℕ → List ℕ → List ℕ
retain_ne pos [] = []
retain_ne pos (fd ∷ fds) = if fd == pos then retain_ne pos fds else fd ∷ retain_ne pos fds

abbrev pub retain_below : ℕ → List ℕ → List ℕ
retain_below limit [] = []
retain_below limit (fd ∷ fds) =
    if ltb fd limit then fd ∷ retain_below limit fds else retain_below limit fds

-- `(current..current + n).rev().for_each(|fd| recycled.push(fd as u8))`: the last number pushed is
-- the first of the range.
abbrev pub push_rev_range : ℕ → ℕ → List ℕ → List ℕ
push_rev_range zero current fds = fds
push_rev_range (suc n) current fds = (current % 2 ^ 8) ∷ push_rev_range n (current + 1) fds

-- `(current..current + n).for_each(|fd| recycled.push(fd as u8))`
abbrev pub push_range : ℕ → ℕ → List ℕ → List ℕ
push_range zero current fds = fds
push_range (suc n) current fds = push_range n (current + 1) ((current % 2 ^ 8) ∷ fds)

-- `iter().copied().find(|&fd| fd as usize > hint)`, over the numbers from front to back
abbrev pub find_above : ℕ → List ℕ → Option ℕ
find_above hint [] = none
find_above hint (fd ∷ fds) = if ltb hint fd then some fd else find_above hint fds

module _ {F : Type 0} where
  unfoldable pub new : List (Option F) → FdTable F
  new inner = record {
    inner = inner;
    recycled = [];
    soft_limit = default_fd_limit;
    hard_limit = system_fd_limit;
  }

  -- `self.inner[fd] = Some(file_descriptor)`; `none` is the panic of an index out of bounds.
  abbrev pub store : List (Option F) → ℕ → F → Option (List (Option F))
  store inner fd f = if ltb fd (length inner) then some (set inner fd (some f)) else none

  -- `set_soft_limit` and `set_hard_limit`, without their warnings
  abbrev pub truncate : FdTable F → ℕ → FdTable F
  truncate t limit =
      if ltb limit (length t.inner)
      then record t { inner = take limit t.inner; recycled = retain_below limit t.recycled }
      else t

  unfoldable pub set_soft_limit : FdTable F → ℕ → FdTable F
  set_soft_limit t limit = record (truncate t limit) { soft_limit = limit }

  unfoldable pub set_hard_limit : FdTable F → ℕ → FdTable F
  set_hard_limit t limit = record (truncate t limit) { hard_limit = limit }

  -- `get_ref` and `get_refmut`
  unfoldable pub get_ref : FdTable F → ℕ → Result F
  get_ref t fd = if leb (length t.inner) fd then err ebadf else elim (get_elem? t.inner fd) [
    | none ↦ err ebadf
    | some slot ↦ elim slot [ none ↦ err ebadf | some f ↦ ok f ]
  ]

  unfoldable pub remove : FdTable F → ℕ → Result F × FdTable F
  remove t fd = if leb (length t.inner) fd then (err ebadf, t) else elim (get_elem? t.inner fd) [
    | none ↦ (err ebadf, t)
    | some slot ↦ elim slot [
      | none ↦ (err ebadf, t)
      | some f ↦
          (ok f, record t { inner = set t.inner fd none; recycled = (fd % 2 ^ 8) ∷ t.recycled })
    ]
  ]

  -- `none` is a panic.
  unfoldable pub insert : FdTable F → F → Option (Result ℕ × FdTable F)
  insert t f = elim t.recycled [
    | [] ↦
        let current = length t.inner in
        if current == t.soft_limit
        then some (err emfile, t)
        else some (ok current, record t { inner = t.inner ++ some f ∷ [] })
    | fd ∷ rest ↦ elim (store t.inner fd f) [
      | none ↦ none
      | some inner ↦ some (ok fd, record t { inner = inner; recycled = rest })
    ]
  ]

  -- `inner.resize(pos, None); inner.push(Some(file_descriptor))`, with `n` slots in between
  abbrev pub extend : List (Option F) → ℕ → F → List (Option F)
  extend inner n f = inner ++ (replicate n none ++ some f ∷ [])

  unfoldable pub insert_at : FdTable F → F → ℕ → Result ℕ × FdTable F
  insert_at t f pos =
      let current = length t.inner in
      if ltb pos current
      then (
        ok pos,
        record t {
          inner = set t.inner pos (some f);
          recycled = elim (get_elem? t.inner pos) [
            | none ↦ t.recycled
            | some slot ↦ elim slot [ none ↦ retain_ne pos t.recycled | some g ↦ t.recycled ]
          ];
        },
      )
      else if leb t.soft_limit pos
      then (err emfile, t)
      else (
        ok pos,
        record t {
          inner = extend t.inner (pos - current) f;
          recycled = push_rev_range (pos - current) current t.recycled;
        },
      )

  -- The branch of `try_insert_at` in which the slot `hint` is taken.
  unfoldable pub insert_above : FdTable F → F → ℕ → Option (Result ℕ × FdTable F)
  insert_above t f hint = elim (find_above hint (reverse t.recycled)) [
    | some fd ↦ elim (store t.inner fd f) [
      | none ↦ none
      | some inner ↦ some (ok fd, record t { inner = inner })
    ]
    | none ↦
        let current = length t.inner in
        if current == t.soft_limit
        then some (err emfile, t)
        else some (ok current, record t { inner = t.inner ++ some f ∷ [] })
  ]

  -- `none` is a panic.
  unfoldable pub try_insert_at : FdTable F → F → ℕ → Option (Result ℕ × FdTable F)
  unfolding insert_above
  try_insert_at t f hint =
      let current = length t.inner in
      if leb t.soft_limit hint
      then some (err emfile, t)
      else if ltb hint current
      then elim (get_elem? t.inner hint) [
        | none ↦ none
        | some slot ↦ elim slot [
          | some g ↦ insert_above t f hint
          | none ↦ some (
            ok hint,
            record t { inner = set t.inner hint (some f); recycled = retain_ne hint t.recycled },
          )
        ]
      ]
      else if leb t.soft_limit hint
      then some (err emfile, t)
      else some (
        ok hint,
        record t {
          inner = extend t.inner (hint - current) f;
          recycled = push_range (hint - current) current t.recycled;
        },
      )

  unfoldable pub clear_inner : FdTable F → FdTable F
  clear_inner t = record t { inner = [] }
