-- ===== src/Proc.antt =====
-- The process table of kernel/proc.c. A task, an address space and a device are numbers, 0 the null
-- pointer; a call on behalf of the running task takes its index. What the memory and scheduler modules
-- answer to proc_spawn_image is an argument; an identifier, an `int`, is its
-- 32-bit word, and the count of them wraps.
use aeos.Base.{
  add32, ℕ, List, Bool, Option, true, false, some, none, replicate, find_index, get_or, set, not,
  leb, ltb, ◌+◌, ◌==◌, ◌&&◌, ◌||◌, if◌then◌else◌, zero, suc, [], ◌∷◌,
}
pub mod Pids
pub mod Calls
pub mod Fds
pub mod Exit
pub mod Stale
pub mod Tests

abbrev pub max_procs : ℕ
max_procs = 8

abbrev pub fd_max : ℕ
fd_max = 8

-- `proc_state_t`
pub data State : Type 0 where
  unused : State
  alive : State
  zombie : State

-- `proc_t`; the task index is `none` for -1.
pub record Process : Type 0 where
  pub state : State
  pub pid : ℕ
  pub parent : ℕ
  pub task_idx : Option ℕ
  pub space : ℕ
  pub name : List ℕ
  pub exit_code : ℕ
  pub fd_table : List ℕ

-- `procs`, `next_pid` and `kernel_fd_table`
pub record Processes : Type 0 where
  pub procs : List Process
  pub next_pid : ℕ
  pub kernel_fds : List ℕ

abbrev pub zero_process : Process
zero_process = record {
  state = unused;
  pid = 0;
  parent = 0;
  task_idx = some 0;
  space = 0;
  name = replicate 12 0;
  exit_code = 0;
  fd_table = replicate 8 0;
}

abbrev pub start : Processes
start = record { procs = replicate 8 zero_process; next_pid = 1; kernel_fds = replicate 8 0 }

abbrev pub is_used : State → Bool
is_used unused = false
is_used alive = true
is_used zombie = true

abbrev pub runs_on : ℕ → Option ℕ → Bool
runs_on task none = false
runs_on task (some t) = t == task

-- `find_pid` and `find_by_task`
unfoldable pub find_pid : List Process → ℕ → Option ℕ
find_pid procs pid = find_index (λ p. is_used p.state && p.pid == pid) procs

unfoldable pub find_by_task : List Process → ℕ → Option ℕ
find_by_task procs task = find_index (λ p. is_used p.state && runs_on task p.task_idx) procs

abbrev pub pid_of : Processes → Option ℕ → ℕ
pid_of t none = 0
pid_of t (some i) = (get_or t.procs i zero_process).pid

-- `proc_getpid` of the task that runs
unfoldable pub getpid : Processes → ℕ → ℕ
getpid t task = pid_of t (find_by_task t.procs task)

-- What as_create, pmm_alloc_pages, as_map_block and sched_spawn_user_task answer
pub record Answers : Type 0 where
  pub space : ℕ
  pub chunk : ℕ
  pub mapped : Bool
  pub task : Option ℕ

-- What is given back when a later step fails
pub data Undo : Type 0 where
  destroy_space : ℕ → Undo
  free_pages : ℕ → ℕ → Undo

-- The name: at most 11 characters, its end, and what the slot had after it
unfoldable pub store_name : List ℕ → List ℕ → ℕ → ℕ → List ℕ
store_name name old j zero = set old j 0
store_name name old j (suc n) =
    let rest = store_name name (set old j (get_or name j 0)) (suc j) n in
    if get_or name j 0 == 0 then set old j 0 else rest

abbrev pub spawned : Processes → List ℕ → ℕ → ℕ → ℕ → Processes
spawned t name i space task = record t {
  procs = set t.procs i (record {
    state = alive;
    pid = t.next_pid;
    parent = 0;
    task_idx = some task;
    space = space;
    name = store_name name (get_or t.procs i zero_process).name 0 11;
    exit_code = 0;
    fd_table = replicate fd_max 0;
  });
  next_pid = add32 t.next_pid 1;
}

abbrev pub start_task :
    Processes → List ℕ → Answers → ℕ → Option ℕ → Option ℕ × (Processes × List Undo)
start_task t name a i none = (none, (t, free_pages a.chunk 1024 ∷ destroy_space a.space ∷ []))
start_task t name a i (some task) = (some t.next_pid, (spawned t name i a.space task, []))

abbrev pub spawn_slot : Processes → List ℕ → Answers → Option ℕ → Option ℕ × (Processes × List Undo)
spawn_slot t name a none = (none, (t, []))
spawn_slot t name a (some i) =
    if a.space == 0
    then (none, (t, []))
    else if a.chunk == 0
    then (none, (t, destroy_space a.space ∷ []))
    else if not a.mapped
    then (none, (t, free_pages a.chunk 1024 ∷ destroy_space a.space ∷ []))
    else start_task t name a i a.task

-- `proc_spawn_image` of an image of `size` bytes that is not null: the pid or -1
unfoldable pub spawn_image :
    Processes → List ℕ → ℕ → ℕ → Answers → Option ℕ × (Processes × List Undo)
spawn_image t name size entry_off a =
    if size == 0 || leb size entry_off
    then (none, (t, []))
    else if ltb 0x100000 size
    then (none, (t, []))
    else spawn_slot t name a (find_index (λ p. not (is_used p.state)) t.procs)

abbrev pub exit_at : Processes → ℕ → Option ℕ → Processes
exit_at t code none = t
exit_at t code (some i) = record t {
  procs =
      set t.procs i (record (get_or t.procs i zero_process) { exit_code = code; state = zombie });
}

-- `proc_exit` by the task that runs, up to sched_exit
unfoldable pub exit : Processes → ℕ → ℕ → Processes
exit t task code = exit_at t code (find_by_task t.procs task)

-- One round of the loop of `proc_wait`: no such process, the code of the one reaped with its task and the table after, or a yield. What as_destroy and sched_task_set_pid then do is not followed
pub data Round : Type 0 where
  missing : Round
  reaped : ℕ → Option ℕ → Processes → Round
  yields : Round

abbrev pub reap : Processes → ℕ → Processes
reap t i = record t {
  procs =
      set t.procs i
        (record (get_or t.procs i zero_process) { space = 0; state = unused; task_idx = none });
}

abbrev pub wait_at : Processes → ℕ → State → Round
wait_at t i zombie =
    let p = get_or t.procs i zero_process in reaped p.exit_code p.task_idx (reap t i)
wait_at t i alive = yields
wait_at t i unused = yields

abbrev pub wait_found : Processes → Option ℕ → Round
wait_found t none = missing
wait_found t (some i) = wait_at t i (get_or t.procs i zero_process).state

unfoldable pub wait_round : Processes → ℕ → Round
wait_round t pid = wait_found t (find_pid t.procs pid)

-- The table of descriptors of the running task's process, or the kernel's
abbrev pub fds_of : Processes → Option ℕ → List ℕ
fds_of t none = t.kernel_fds
fds_of t (some i) = (get_or t.procs i zero_process).fd_table

abbrev pub with_fds : Processes → Option ℕ → List ℕ → Processes
with_fds t none fds = record t { kernel_fds = fds }
with_fds t (some i) fds = record t {
  procs = set t.procs i (record (get_or t.procs i zero_process) { fd_table = fds });
}

abbrev pub fd_alloc_in : Processes → Option ℕ → ℕ → Option ℕ → Option ℕ × Processes
fd_alloc_in t current dev none = (none, t)
fd_alloc_in t current dev (some fd) = (some fd, with_fds t current (set (fds_of t current) fd dev))

-- `proc_fd_alloc`, `proc_fd_get` and `proc_fd_close` by the running task; a descriptor is not negative.
unfoldable pub fd_alloc : Processes → ℕ → ℕ → Option ℕ × Processes
fd_alloc t task dev =
    let current = find_by_task t.procs task in
    fd_alloc_in t current dev (find_index (λ d. d == 0) (fds_of t current))

unfoldable pub fd_get : Processes → ℕ → ℕ → ℕ
fd_get t task fd = if leb fd_max fd then 0 else get_or (fds_of t (find_by_task t.procs task)) fd 0

unfoldable pub fd_close : Processes → ℕ → ℕ → Processes
fd_close t task fd =
    let current = find_by_task t.procs task in
    if ltb fd fd_max then with_fds t current (set (fds_of t current) fd 0) else t
