-- ===== src/Task/Ids.antt =====
-- kernel/src/task/id.rs: process and kernel stack identifiers, and where the stacks of a kernel
-- stack identifier or of a thread lie.
pub mod Recycle
pub mod Stacks
mod Tests
use oskernel2023_main_os.Common.{
  List, Option, [], add64, contains, if◌then◌else◌, ltb, mul64, none, not, some, sub64, usize_max,
  ℕ, ◌*◌, ◌+◌, ◌-◌, ◌∷◌,
}

-- The head of `recycled` is the back of the `Vec`.
pub record RecycleAllocator : Type 0 where
  pub current : ℕ
  pub recycled : List ℕ

unfoldable pub new : RecycleAllocator
new = record { current = 0; recycled = [] }

unfoldable pub alloc : RecycleAllocator → ℕ × RecycleAllocator
alloc a = elim a.recycled [
  | [] ↦ (sub64 (add64 a.current 1) 1, record a { current = add64 a.current 1 })
  | id ∷ rest ↦ (id, record a { recycled = rest })
]

-- `none` is one of the two failing assertions.
unfoldable pub dealloc : RecycleAllocator → ℕ → Option RecycleAllocator
dealloc a id =
    if not (ltb id a.current)
    then none
    else if contains a.recycled id
    then none
    else some (record a { recycled = id ∷ a.recycled })

-- config.rs
abbrev pub page_size : ℕ
page_size = 0x1000

abbrev pub user_stack_size : ℕ
user_stack_size = 4096 * 20

abbrev pub kernel_stack_size : ℕ
kernel_stack_size = 4096 * 2

-- `usize::MAX - PAGE_SIZE + 1`
abbrev pub trampoline : ℕ
trampoline = usize_max - page_size + 1

abbrev pub signal_trampoline : ℕ
signal_trampoline = trampoline - page_size

abbrev pub trap_context_base : ℕ
trap_context_base = signal_trampoline - page_size

-- The bottom and the top of a kernel stack.
unfoldable pub kernel_stack_position : ℕ → ℕ × ℕ
kernel_stack_position kstack_id =
    let top = sub64 trampoline (mul64 kstack_id (kernel_stack_size + page_size)) in
    (sub64 top kernel_stack_size, top)

unfoldable pub trap_cx_bottom_from_tid : ℕ → ℕ
trap_cx_bottom_from_tid tid = sub64 trap_context_base (mul64 tid page_size)

unfoldable pub ustack_bottom_from_tid : ℕ → ℕ → ℕ
ustack_bottom_from_tid ustack_base tid = add64 ustack_base (mul64 tid (page_size + user_stack_size))

unfoldable pub ustack_top_from_id : ℕ → ℕ → ℕ
ustack_top_from_id ustack_top id = sub64 ustack_top (mul64 id (page_size + user_stack_size))

-- The user stack that `alloc_user_res` maps, and that `dealloc_user_res` unmaps by its bottom.
unfoldable pub ustack_position : ℕ → ℕ → ℕ × ℕ
unfolding ustack_top_from_id
ustack_position base tid = let top = ustack_top_from_id base tid in (sub64 top user_stack_size, top)

-- The page of a thread's trap context that `alloc_user_res` maps.
unfoldable pub trap_cx_position : ℕ → ℕ × ℕ
unfolding trap_cx_bottom_from_tid
trap_cx_position tid = let bottom = trap_cx_bottom_from_tid tid in (bottom, add64 bottom page_size)
