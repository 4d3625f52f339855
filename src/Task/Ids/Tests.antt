-- ===== src/Task/Ids/Tests.antt =====
-- Runs of the identifier allocators, and their theorems at small inputs.
use oskernel2023_main_os.Common.{
  Distinct, List, [], arith, contains, length, refl, some, true, ℕ, ◌+◌, ◌<◌, ◌∷◌, ◌≡◌, ◌≤◌,
}
use oskernel2023_main_os.Task.Ids.{
  RecycleAllocator, alloc, dealloc, kernel_stack_position, kernel_stack_size, new, page_size,
  trampoline,
}
use oskernel2023_main_os.Task.Ids.Recycle.{Op, drops, run, run-new, step, takes}
use oskernel2023_main_os.Task.Ids.Stacks.{Apart, kernel_stack_position-Apart}

abbrev history : List Op
history = takes ∷ takes ∷ drops 1 ∷ takes ∷ takes ∷ []

-- The identifier that was given back is the next to be handed out.
reuse : run new [] history ≡ some (record { current = 3; recycled = [] }, 2 ∷ 0 ∷ 1 ∷ [])
unfolding run step alloc dealloc new
reuse = refl

first_kernel_stack : kernel_stack_position 1 ≡ (0xffff_ffff_ffff_a000, 0xffff_ffff_ffff_c000)
unfolding kernel_stack_position
first_kernel_stack = refl

run-new_example :
    (a : RecycleAllocator) × (live : List ℕ) × (run new [] history ≡ some (a, live))
    × Distinct live
    × ((id : ℕ) → contains live id ≡ true → id < a.current)
    × (length live + length a.recycled ≡ a.current)
run-new_example = run-new history (omega arith)

kernel_stack_position-Apart_example :
    Apart page_size (kernel_stack_position 0) (kernel_stack_position 7)
    × ((kernel_stack_position 0).0 + kernel_stack_size ≡ (kernel_stack_position 0).1)
    × ((kernel_stack_position 0).1 ≤ trampoline)
kernel_stack_position-Apart_example =
    kernel_stack_position-Apart 0 7 (omega arith) (omega arith) (omega arith)
