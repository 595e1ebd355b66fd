-- ===== src/Sched/Setup.antt =====
-- kernel/sched.c: the initial table, and how a task enters it.
use aeos.Base.{
  ℕ, ◌+◌, ◌*◌, ◌/◌, ℤ, negsuc, false, ◌||◌, Option, none, some, List, [], ◌∷◌, ◌++◌, map, length,
  set, take, memcpy, replicate, find_index, if◌then◌else◌, ltb, ◌==◌, add64,
}
use aeos.Sched.{Task, Sched, unused, ready, running, task, is_reusable, update}

-- The loop that copies a name (a C string without its NUL) and ends it with NUL.
unfoldable pub copy_name : List ℕ → List ℕ → List ℕ
copy_name old name = let kept = take 11 name in memcpy old (kept ++ 0 ∷ []) (length kept + 1)

-- The first loop of `sched_init`; `name[0] = '\0'`.
unfoldable pub clear : Task → Task
clear t = record t {
  state = unused;
  name = set t.name 0 0;
  ticks_used = 0;
  yields = 0;
  starved_ticks = 0;
  kill_pending = false;
  space = 0;
  kstack_top = 0;
  pid = negsuc 0;
  uentry = 0;
  usp = 0;
}

-- `sched_init`, without the subscription to the timer
unfoldable pub init : Sched → List ℕ → Sched
unfolding clear copy_name
init s main_name =
    let cleared = map clear s.tasks in
    let t = task cleared 0 in
    record s {
      tasks = set cleared 0 (record t { state = running; name = copy_name t.name main_name });
      current = some 0;
    }

-- `slot_alloc`
unfoldable pub slot_alloc : List Task → Option ℕ
slot_alloc tasks = find_index (λ t. is_reusable t.state) tasks

-- `task_setup`
unfoldable pub task_setup : Task → List ℕ → Task
unfolding copy_name
task_setup t name = record t {
  regs = replicate 15 0;
  state = ready;
  ticks_used = 0;
  yields = 0;
  starved_ticks = 0;
  kill_pending = false;
  name = copy_name t.name name;
}

-- `((uint64_t)stack + stack_len) & ~0xFUL`
abbrev pub stack_top : ℕ → ℕ → ℕ
stack_top stack stack_len = add64 stack stack_len / 16 * 16

-- The fields that `sched_spawn` writes into its slot; `trampoline` is the address of
-- `task_trampoline`.
unfoldable pub thread_of : ℕ → List ℕ → ℕ → ℕ → ℕ → Task → Task
unfolding task_setup
thread_of trampoline name entry stack stack_len t =
    let fresh = task_setup t name in
    record fresh {
      regs = set (set (set fresh.regs 0 entry) 11 trampoline) 12 (stack_top stack stack_len);
      space = 0;
      kstack_top = 0;
      pid = negsuc 0;
      uentry = 0;
      usp = 0;
    }

-- `sched_spawn` given the result of `slot_alloc`; `none` is -1.
unfoldable pub spawn_in : Sched → ℕ → List ℕ → ℕ → ℕ → ℕ → Option ℕ → Option ℕ × Sched
spawn_in s trampoline name entry stack stack_len none = (none, s)
spawn_in s trampoline name entry stack stack_len (some slot) =
    if entry == 0 || (stack == 0 || ltb stack_len 256)
    then (none, s)
    else (some slot, update s slot (thread_of trampoline name entry stack stack_len))

-- `sched_spawn`
unfoldable pub spawn : Sched → ℕ → List ℕ → ℕ → ℕ → ℕ → Option ℕ × Sched
unfolding spawn_in slot_alloc
spawn s trampoline name entry stack stack_len =
    spawn_in s trampoline name entry stack stack_len (slot_alloc s.tasks)

-- The same for `sched_spawn_user_task` of a build with address spaces; `user_drop` is the address
-- of `syscall_user_drop`.
unfoldable pub user_task_of : ℕ → List ℕ → ℕ → ℕ → ℕ → ℤ → ℕ → ℕ → Task → Task
unfolding task_setup
user_task_of user_drop name space uentry usp pid stack stack_len t =
    let fresh = task_setup t name in
    record fresh {
      regs = set (set (set fresh.regs 0 0) 11 user_drop) 12 (stack_top stack stack_len);
      space = space;
      kstack_top = 0;
      pid = pid;
      uentry = uentry;
      usp = usp;
    }

-- `sched_spawn_user_task`
unfoldable pub spawn_user : Sched → ℕ → List ℕ → ℕ → ℕ → ℕ → ℤ → ℕ → ℕ → Option ℕ × Sched
unfolding slot_alloc
spawn_user s user_drop name space uentry usp pid stack stack_len = elim (slot_alloc s.tasks) [
  | none ↦ (none, s)
  | some slot ↦
      if uentry == 0 || (usp == 0 || (stack == 0 || ltb stack_len 256)) then (none, s) else (
        some slot,
        update s slot (user_task_of user_drop name space uentry usp pid stack stack_len),
      )
]
