-- ===== src/Sched/Tick.antt =====
-- kernel/sched.c: the timer tick with its watchdog, the test for preemption, and the accessors.
use aeos.Base.{
  ℕ, ◌+◌, ℤ, pos, negsuc, Bool, true, false, not, ◌&&◌, Option, none, some, List, [], ◌∷◌, set,
  if◌then◌else◌, ltb, leb, ◌==◌, add32,
}
use aeos.Sched.{
  Task, Sched, TaskState, unused, task, is_running, quantum, max_tasks, next_ready, update,
}

-- The watchdog's part of `sched_on_tick`, on a task other than main.
unfoldable pub watch : ℕ → Task → Task
watch limit t =
    let starved = add32 t.starved_ticks 1 in
    record t {
      starved_ticks = starved;
      kill_pending = if leb limit starved && not t.kill_pending then true else t.kill_pending;
    }

-- `sched_on_tick` on task `c`: `++c->starved_ticks` runs only under a limit and off task 0.
unfoldable pub tick_task : ℕ → ℕ → Task → Task
unfolding watch
tick_task limit c t =
    let t' = record t { ticks_used = add32 t.ticks_used 1 } in
    if is_running t.state
    then if not (limit == 0) && not (c == 0) then watch limit t' else t'
    else t

-- `sched_on_tick`
abbrev pub tick_at : Sched → Option ℕ → Sched
tick_at s none = record s { uptime = add32 s.uptime 1 }
tick_at s (some c) = record (update s c (tick_task s.watchdog_limit c)) {
  uptime = add32 s.uptime 1;
}

unfoldable pub on_tick : Sched → Sched
unfolding tick_task
on_tick s = tick_at s s.current

-- `sched_watchdog_set`
pub watchdog_set : Sched → ℕ → Sched
watchdog_set s limit = record s { watchdog_limit = limit }

-- `sched_should_preempt`
pub should_preempt : Sched → Bool
should_preempt s = elim s.current [
  | none ↦ false
  | some c ↦
      let t = task s.tasks c in
      if not (is_running t.state)
      then false
      else if ltb t.starved_ticks quantum
      then false
      else elim (next_ready s.tasks c) [ none ↦ false | some next ↦ true ]
]

abbrev is_unused : TaskState → Bool
is_unused unused = true
is_unused _ = false

-- `sched_task_count`
pub task_count : List Task → ℕ
task_count [] = 0
task_count (t ∷ tasks) = (if is_unused t.state then 0 else 1) + task_count tasks

-- `sched_current_index`
pub current_index : Sched → ℤ
current_index s = elim s.current [ none ↦ negsuc 0 | some c ↦ pos c ]

-- `sched_task_as`
pub task_space : Sched → ℤ → ℕ
task_space s (negsuc n) = 0
task_space s (pos i) = if leb max_tasks i then 0 else (task s.tasks i).space

-- `sched_task_pid`
pub task_pid : Sched → ℤ → ℤ
task_pid s (negsuc n) = negsuc 0
task_pid s (pos i) = if leb max_tasks i then negsuc 0 else (task s.tasks i).pid

-- `sched_task_set_pid`
pub task_set_pid : Sched → ℤ → ℤ → Sched
task_set_pid s (negsuc n) pid = s
task_set_pid s (pos i) pid =
    if ltb i max_tasks
    then record s { tasks = set s.tasks i (record (task s.tasks i) { pid = pid }) }
    else s

-- `sched_current_user_point`
pub current_user_point : Sched → ℕ × ℕ
current_user_point s = elim s.current [
  | none ↦ (0, 0)
  | some c ↦ ((task s.tasks c).uentry, (task s.tasks c).usp)
]
