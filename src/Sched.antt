-- ===== src/Sched.antt =====
-- The cooperative round-robin scheduler of kernel/sched.c over its fixed table of sixteen tasks.
-- A switch (cpu_switch_to of boot/aarch64/switch.S, with switch_address_space) saves and loads the
-- live register file. A C function that switches ends, in the model, in the context it switched to.
pub mod Select
pub mod Setup
pub mod Tick
pub mod Valid
pub mod Ends
pub mod Fair
pub mod Watchdog
pub mod Context
pub mod Spawn
mod Tests
use aeos.Base.{
  ℕ, zero, suc, ◌+◌, ◌*◌, ◌/◌, ◌%◌, ℤ, pos, negsuc, Bool, true, false, not, ◌&&◌, ◌||◌, Option,
  none, some, List, [], ◌∷◌, ◌++◌, map, length, get_or, set, take, memcpy, replicate, find_index,
  if◌then◌else◌, ltb, leb, ◌==◌, add32, add64,
}

pub data TaskState : Type 0 where
  unused ready running finished : TaskState

-- `task_struct_t`. Pointers are numbers, 0 is NULL; `regs` is `cpu.regs`, `space` is `as`.
pub record Task : Type 0 where
  pub regs : List ℕ
  pub state : TaskState
  pub name : List ℕ
  pub ticks_used : ℕ
  pub yields : ℕ
  pub starved_ticks : ℕ
  pub kill_pending : Bool
  pub space : ℕ
  pub kstack_top : ℕ
  pub pid : ℤ
  pub uentry : ℕ
  pub usp : ℕ

-- The file's static variables, `current` being `none` for -1, and of the machine the thirteen
-- callee-saved registers and the active address space.
pub record Sched : Type 0 where
  pub tasks : List Task
  pub current : Option ℕ
  pub uptime : ℕ
  pub watchdog_limit : ℕ
  pub live : List ℕ
  pub active_space : ℕ

abbrev pub max_tasks : ℕ
max_tasks = 16

abbrev pub task_name_len : ℕ
task_name_len = 12

abbrev pub quantum : ℕ
quantum = 25

abbrev pub zero_task : Task
zero_task = record {
  regs = replicate 15 0;
  state = unused;
  name = replicate 12 0;
  ticks_used = 0;
  yields = 0;
  starved_ticks = 0;
  kill_pending = false;
  space = 0;
  kstack_top = 0;
  pid = pos 0;
  uentry = 0;
  usp = 0;
}

abbrev pub task : List Task → ℕ → Task
task tasks i = get_or tasks i zero_task

abbrev pub is_ready : TaskState → Bool
is_ready ready = true
is_ready _ = false

abbrev pub is_running : TaskState → Bool
is_running running = true
is_running _ = false

-- The test of `slot_alloc`
abbrev pub is_reusable : TaskState → Bool
is_reusable unused = true
is_reusable finished = true
is_reusable _ = false

-- The rounds `i`, `i + 1`, … of the loop in `next_ready`, `n` of them.
pub scan : List Task → ℕ → ℕ → ℕ → Option ℕ
scan tasks from i zero = none
scan tasks from i (suc n) =
    let rest = scan tasks from (suc i) n in
    let idx = (from + i) % max_tasks in if is_ready (task tasks idx).state then some idx else rest

-- `next_ready`
pub next_ready : List Task → ℕ → Option ℕ
next_ready tasks from = scan tasks from 1 max_tasks

-- An assignment to fields of `tasks[i]`.
abbrev pub update : Sched → ℕ → (Task → Task) → Sched
update s i f = record s { tasks = set s.tasks i (f (task s.tasks i)) }

-- What `cpu_switch_to` stores in the outgoing task: the thirteen live registers.
abbrev pub save : List ℕ → Task → Task
save live t = record t { regs = memcpy t.regs live 13 }

-- `cpu_switch_to(prev, next)` of boot/aarch64/switch.S
abbrev pub cpu_switch_to : Sched → ℕ → ℕ → Sched
cpu_switch_to s prev next =
    let saved = update s prev (save s.live) in
    record saved { live = take 13 (task saved.tasks next).regs }

-- `switch_address_space(prev, next)` of a build with address spaces
abbrev pub switch_address_space : Sched → ℕ → ℕ → Sched
switch_address_space s prev next =
    let from = (task s.tasks prev).space in
    let to = (task s.tasks next).space in
    record s { active_space = if from == to then s.active_space else to }

-- The two calls that every switch makes
pub switch_to : Sched → ℕ → ℕ → Sched
switch_to s prev next = cpu_switch_to (switch_address_space s prev next) prev next

-- What a call of the scheduler does: return to its caller, switch to a task, or park for ever.
pub data Outcome : Type 0 where
  returns : Outcome
  switches : ℕ → Outcome
  parks : Outcome

abbrev pub finish : Task → Task
finish t = record t { state = finished }

abbrev pub start : Task → Task
start t = record t { state = running }

-- `next->state = TASK_RUNNING; current = nxt;`
abbrev pub promote : Sched → ℕ → Sched
promote s next = record (update s next start) { current = some next }

-- How a task that is done for good leaves the processor to `next`.
pub hand_over : Sched → ℕ → ℕ → Sched × Outcome
hand_over s c next = (switch_to (promote s next) c next, switches next)

-- `sched_exit` of task `c` once it is FINISHED, given the choice of `next_ready`
pub exit_to : Sched → ℕ → Option ℕ → Sched × Outcome
exit_to s c none = (s, parks)
exit_to s c (some next) = hand_over s c next

pub exit_from : Sched → ℕ → Sched × Outcome
unfolding exit_to
exit_from s c = let done = update s c finish in exit_to done c (next_ready done.tasks c)

-- `sched_exit`
pub exit : Sched → Sched × Outcome
exit s = elim s.current [ none ↦ (s, parks) | some c ↦ exit_from s c ]

-- `sched_yield` of a task with the watchdog's verdict; with no task ready it ends in `sched_exit`.
pub kill_to : Sched → ℕ → Option ℕ → Sched × Outcome
kill_to s c none = exit_from s c
kill_to s c (some next) = hand_over s c next

pub kill : Sched → ℕ → Sched × Outcome
unfolding kill_to
kill s c = let done = update s c finish in kill_to done c (next_ready done.tasks c)

-- `prev->starved_ticks = 0`
abbrev pub rest : Task → Task
rest t = record t { starved_ticks = 0 }

-- `prev->state = TASK_READY`
abbrev pub requeue : Task → Task
requeue t = record t { state = ready }

-- `prev->yields++`
abbrev pub count_yield : Task → Task
count_yield t = record t { yields = add32 t.yields 1 }

-- The assignments of `sched_yield` before it switches from `c` to `next`.
abbrev pub turn_over : Sched → ℕ → ℕ → Sched
turn_over s c next = update (promote (update s c requeue) next) c count_yield

-- `sched_yield` of any other task; the sole runner keeps going.
pub rotate_to : Sched → ℕ → Option ℕ → Sched × Outcome
rotate_to s c none = (s, returns)
rotate_to s c (some next) = (switch_to (turn_over s c next) c next, switches next)

pub rotate : Sched → ℕ → Sched × Outcome
unfolding rotate_to
rotate s c = let rested = update s c rest in rotate_to rested c (next_ready rested.tasks c)

pub yield_from : Sched → ℕ → Sched × Outcome
yield_from s c = if (task s.tasks c).kill_pending then kill s c else rotate s c

-- `sched_yield`
pub yield_cpu : Sched → Sched × Outcome
yield_cpu s = elim s.current [ none ↦ (s, returns) | some c ↦ yield_from s c ]
