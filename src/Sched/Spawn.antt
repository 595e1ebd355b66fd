-- ===== src/Sched/Spawn.antt =====
-- How tasks enter the table of kernel/sched.c: `sched_init` and `sched_spawn`.
use aeos.Base.{
  ℕ, List, length, ◌<◌, ◌≡◌, false, map, true, ◌⊎◌, refl, dec_lt, get_or, ap, ◌≢◌, get_or-map,
  arith, ◌∙◌, get_or_out, length-map, length-set, find_index, ◌+◌, get_or-set_ne, Option, Finds,
  sym, none, find_index-Finds, ◌^◌, inl, some, ◌%◌, ◌≤◌, if_ind, ◌==◌, ◌||◌, ltb, inr,
  get_or-set_self, negsuc, replicate, get_or-replicate, set,
}
use aeos.Sched.{Task, Sched, is_running, is_reusable, task, ready, zero_task, update, running}
use aeos.Sched.Setup.{
  init, clear, spawn, slot_alloc, copy_name, stack_top, thread_of, spawn_in, task_setup,
}
use aeos.Sched.Valid.{IsValid, Runs, task-update_self, task-update_ne}

clear-not_running : (t : Task) → is_running (clear t).state ≡ false
unfolding clear
clear-not_running t = refl

space-clear : (t : Task) → (clear t).space ≡ 0
unfolding clear
space-clear t = refl

-- After `sched_init` the boot context is task 0, it alone runs, and it runs in the kernel's address
-- space, if the table has its sixteen entries and that space is active.
init-IsValid :
    (s : Sched) (main_name : List ℕ)
    → length s.tasks ≡ 16
    → s.active_space ≡ 0
    → IsValid (init s main_name) 0 × Runs (init s main_name) 0
unfolding init
init-IsValid s main_name size sp = (
  record {
    size = length-set (map clear s.tasks) 0 _ ∙ length-map clear s.tasks ∙ size;
    current_is = refl;
    current_in = omega arith;
    others = λ j ne.
        ap (λ t. is_running t.state)
          (get_or-set_ne (map clear s.tasks) 0 j _ zero_task (λ e. ne (sym e)))
        ∙ quiet j;
    space_is = sp ∙ sym (ap (λ t. t.space) first ∙ cleared_space);
  },
  ap (λ t. t.state) first,
)
  where
    boot : Task
    boot = task (map clear s.tasks) 0

    first :
        task (init s main_name).tasks 0
        ≡ record boot { state = running; name = copy_name boot.name main_name }
    first =
        get_or-set_self (map clear s.tasks) 0 _ zero_task
          (omega (arith, size, length-map clear s.tasks))

    cleared_space : boot.space ≡ 0
    cleared_space =
        ap (λ t. t.space) (get_or-map clear s.tasks 0 zero_task zero_task (omega (arith, size)))
        ∙ space-clear (task s.tasks 0)

    quiet : (j : ℕ) → is_running (task (map clear s.tasks) j).state ≡ false
    quiet j = elim (dec_lt j 16) [
      | yes lt ↦
          ap (λ t. is_running t.state)
            (get_or-map clear s.tasks j zero_task zero_task (omega (arith, size)))
          ∙ clear-not_running (task s.tasks j)
      | no ge ↦
          ap (λ t. is_running t.state)
            (get_or_out (map clear s.tasks) j zero_task
              (omega (arith, size, length-map clear s.tasks)))
    ]

-- What `sched_spawn` promises when it takes a slot: the first UNUSED or FINISHED slot becomes a READY
-- kernel thread with no verdict against it and its counters at 0, its first switch-in reads `entry`,
-- the trampoline and the stack top from slots 0, 11 and 12 and 0 from all others, and nothing of the
-- scheduler changes but that task.
pub record Spawned (s : Sched) (trampoline entry stack stack_len slot : ℕ) (s' : Sched)
    : Type 0 where
  pub slot_in : slot < 16
  pub was_free : is_reusable (task s.tasks slot).state ≡ true
  pub is_ready_now : (task s'.tasks slot).state ≡ ready
  pub lowest : (j : ℕ) → j < slot → is_reusable (task s.tasks j).state ≡ false
  pub counters :
      ((task s'.tasks slot).ticks_used ≡ 0)
      × (((task s'.tasks slot).yields ≡ 0) × ((task s'.tasks slot).starved_ticks ≡ 0))
  pub no_process :
      ((task s'.tasks slot).pid ≡ negsuc 0)
      × (((task s'.tasks slot).kstack_top ≡ 0)
          × (((task s'.tasks slot).uentry ≡ 0) × ((task s'.tasks slot).usp ≡ 0)))
  pub other_regs : (i : ℕ) → i ≢ 0 → i ≢ 11 → i ≢ 12 → get_or (task s'.tasks slot).regs i 0 ≡ 0
  pub no_verdict : (task s'.tasks slot).kill_pending ≡ false
  pub kernel_space : (task s'.tasks slot).space ≡ 0
  pub x19 : get_or (task s'.tasks slot).regs 0 0 ≡ entry
  pub lr : get_or (task s'.tasks slot).regs 11 0 ≡ trampoline
  pub sp : get_or (task s'.tasks slot).regs 12 0 ≡ stack_top stack stack_len
  pub rest_kept : (j : ℕ) → j ≢ slot → task s'.tasks j ≡ task s.tasks j
  pub current_kept : s'.current ≡ s.current
  pub state_kept : record s' { tasks = s.tasks } ≡ s

-- Which calls `sched_spawn` refuses.
abbrev pub Refused : Sched → ℕ → ℕ → ℕ → Type 0
Refused s entry stack stack_len =
    ((j : ℕ) → j < 16 → is_reusable (task s.tasks j).state ≡ false)
    ⊎ ((entry ≡ 0) ⊎ ((stack ≡ 0) ⊎ (stack_len < 256)))

thread_of-Spawned :
    (s : Sched) (trampoline : ℕ) (name : List ℕ) (entry stack stack_len slot : ℕ)
    → length s.tasks ≡ 16
    → Finds (λ t. is_reusable t.state) s.tasks (some slot)
    → Spawned s trampoline entry stack stack_len slot
        (update s slot (thread_of trampoline name entry stack stack_len))
unfolding thread_of task_setup
thread_of-Spawned s trampoline name entry stack stack_len slot size found = record {
  slot_in = omega (arith, size, found.0);
  was_free = found.1 zero_task;
  is_ready_now = ap (λ t. t.state) here;
  lowest = λ j lt. found.2 j zero_task lt;
  counters =
      (ap (λ t. t.ticks_used) here, (ap (λ t. t.yields) here, ap (λ t. t.starved_ticks) here));
  no_process = (
    ap (λ t. t.pid) here,
    (ap (λ t. t.kstack_top) here, (ap (λ t. t.uentry) here, ap (λ t. t.usp) here)),
  );
  other_regs = λ i n0 n11 n12. ap (λ t. get_or t.regs i 0) here ∙ untouched i n0 n11 n12;
  no_verdict = ap (λ t. t.kill_pending) here;
  kernel_space = ap (λ t. t.space) here;
  x19 = ap (λ t. get_or t.regs 0 0) here;
  lr = ap (λ t. get_or t.regs 11 0) here;
  sp = ap (λ t. get_or t.regs 12 0) here;
  rest_kept = λ j n.
      task-update_ne s slot (thread_of trampoline name entry stack stack_len) j (λ e. n (sym e));
  current_kept = refl;
  state_kept = refl;
}
  where
    here :
        task (update s slot (thread_of trampoline name entry stack stack_len)).tasks slot
        ≡ thread_of trampoline name entry stack stack_len (task s.tasks slot)
    here =
        task-update_self s slot (thread_of trampoline name entry stack stack_len) size
          (omega (arith, size, found.0))

    zeros : (i : ℕ) → ◌≡◌ {A = ℕ} (get_or (replicate 15 0) i 0) 0
    zeros i = elim (dec_lt i 15) [
      | yes lt ↦ get_or-replicate 15 i 0 0 lt
      | no ge ↦ get_or_out (replicate 15 0) i 0 (omega (arith, ge))
    ]

    untouched :
        (i : ℕ)
        → i ≢ 0
        → i ≢ 11
        → i ≢ 12
        → get_or (thread_of trampoline name entry stack stack_len (task s.tasks slot)).regs i 0 ≡ 0
    untouched i n0 n11 n12 =
        get_or-set_ne (set (set (replicate 15 0) 0 entry) 11 trampoline) 12 i
          (stack_top stack stack_len) 0 (λ e. n12 (sym e))
        ∙ get_or-set_ne (set (replicate 15 0) 0 entry) 11 i trampoline 0 (λ e. n11 (sym e))
        ∙ get_or-set_ne (replicate 15 0) 0 i entry 0 (λ e. n0 (sym e))
        ∙ zeros i

-- A result of `sched_spawn`: a slot as promised, or a refusal for one of its four reasons with the
-- table as it was.
abbrev pub SpawnEnds : Sched → ℕ → ℕ → ℕ → ℕ → Option ℕ × Sched → Type 0
SpawnEnds s trampoline entry stack stack_len r = elim r.0 [
  | none ↦ Refused s entry stack stack_len × (r.1 ≡ s)
  | some slot ↦
      Spawned s trampoline entry stack stack_len slot r.1
      × (entry ≢ 0)
      × (stack ≢ 0)
      × (256 ≤ stack_len)
]

spawn_in-Ends :
    (s : Sched) (trampoline : ℕ) (name : List ℕ) (entry stack stack_len : ℕ) (o : Option ℕ)
    → length s.tasks ≡ 16
    → Finds (λ t. is_reusable t.state) s.tasks o
    → SpawnEnds s trampoline entry stack stack_len
        (spawn_in s trampoline name entry stack stack_len o)
unfolding spawn_in
spawn_in-Ends s trampoline name entry stack stack_len none size found =
    (inl (λ j h. found j zero_task (omega (arith, size))), refl)
spawn_in-Ends s trampoline name entry stack stack_len (some slot) size found =
    if_ind (SpawnEnds s trampoline entry stack stack_len)
      (entry == 0 || (stack == 0 || ltb stack_len 256)) _ _ (λ bad. (inr (ground arith), refl))
      (λ good. (
        thread_of-Spawned s trampoline name entry stack stack_len slot size found,
        ground arith,
        ground arith,
        ground arith,
      ))

-- `sched_spawn` on a table of sixteen tasks either takes the first reusable slot for a READY kernel
-- thread, fresh in all its fields but the name, and changes nothing else, having checked its arguments; or it refuses, because no slot is
-- reusable, `entry` or `stack` is NULL, or the stack is under 256 bytes, and changes nothing.
pub spawn-SpawnEnds :
    (s : Sched) (trampoline : ℕ) (name : List ℕ) (entry stack stack_len : ℕ)
    → length s.tasks ≡ 16
    → SpawnEnds s trampoline entry stack stack_len (spawn s trampoline name entry stack stack_len)
unfolding spawn slot_alloc
spawn-SpawnEnds s trampoline name entry stack stack_len size =
    spawn_in-Ends s trampoline name entry stack stack_len
      (find_index (λ t. is_reusable t.state) s.tasks) size
      (find_index-Finds (λ t. is_reusable t.state) s.tasks)

-- The stack pointer of a fresh thread is 16-byte aligned and lies in its stack's last sixteen bytes,
-- if the stack does not wrap round the address space.
stack_top_bounds :
    (stack stack_len : ℕ)
    → stack + stack_len < 2 ^ 64
    → (stack_top stack stack_len % 16 ≡ 0)
      × (stack_top stack stack_len ≤ stack + stack_len)
      × (stack + stack_len < stack_top stack stack_len + 16)
stack_top_bounds stack stack_len h = omega arith
