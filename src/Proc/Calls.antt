-- ===== src/Proc/Calls.antt =====
-- The calls of kernel/proc.c keep its table of processes.
use aeos.Base.{
  ℕ, List, Option, true, false, some, none, find_index, find_index-some, not, leb, ltb, ◌≡◌, ◌<◌,
  ◌==◌, ◌&&◌, ◌||◌, if_ind, [], ◌∷◌, arith, ap, sym, ◌∙◌, refl, get_or-replicate, ◌+◌, ◌^◌,
}
use aeos.Proc.{
  Process, Processes, State, Answers, Round, Undo, zero_process, start, is_used, runs_on, unused,
  alive, zombie, find_pid, find_by_task, spawn_slot, spawn_image, start_task, exit, exit_at, reap,
  wait_round, wait_found, wait_at, missing, reaped, yields, with_fds, fd_alloc, fd_alloc_in,
  fd_close,
}
use aeos.Proc.Pids.{slot, IsValid, keep-IsValid, new-IsValid, false_ne_true}

-- What the searches find
pub found_task :
    (t : Processes) (task k : ℕ)
    → IsValid t
    → find_by_task t.procs task ≡ some k
    → (k < 8) × (is_used (slot t k).state ≡ true)
unfolding find_by_task
found_task t task k v e =
    let finds =
      find_index-some (λ (p : Process). is_used p.state && runs_on task p.task_idx) t.procs k e in
    (omega (arith, finds.0, v.slots), ground (arith, finds.1 zero_process))

pub found_pid :
    (t : Processes) (pid k : ℕ)
    → IsValid t
    → find_pid t.procs pid ≡ some k
    → (k < 8) × (is_used (slot t k).state ≡ true) × ((slot t k).pid ≡ pid)
unfolding find_pid
found_pid t pid k v e =
    let finds = find_index-some (λ (p : Process). is_used p.state && p.pid == pid) t.procs k e in
    (
      omega (arith, finds.0, v.slots),
      ground (arith, finds.1 zero_process),
      ground (arith, finds.1 zero_process),
    )

spawn_slot-IsValid :
    (t : Processes) (name : List ℕ) (a : Answers) (found : Option ℕ)
    → IsValid t
    → t.next_pid + 1 < 2 ^ 31
    → find_index (λ (p : Process). not (is_used p.state)) t.procs ≡ found
    → IsValid (spawn_slot t name a found).1.0
spawn_slot-IsValid t name a none v room e = v
spawn_slot-IsValid t name a (some i) v room e =
    if_ind Kept (a.space == 0) _ _ (λ f. v)
      (λ f.
        if_ind Kept (a.chunk == 0) _ _ (λ g. v)
          (λ g. if_ind Kept (not a.mapped) _ _ (λ h. v) (λ h. started-Kept a.task)))
  where
    Kept : Option ℕ × (Processes × List Undo) → Type 0
    Kept r = IsValid r.1.0

    started-Kept : (task : Option ℕ) → Kept (start_task t name a i task)
    started-Kept none = v
    started-Kept (some task) =
        new-IsValid t i _ v
          (omega (
            arith,
            (find_index-some (λ (p : Process). not (is_used p.state)) t.procs i e).0,
            v.slots,
          ))
          refl room

spawn_image-IsValid :
    (t : Processes) (name : List ℕ) (size entry_off : ℕ) (a : Answers)
    → IsValid t
    → t.next_pid + 1 < 2 ^ 31
    → IsValid (spawn_image t name size entry_off a).1.0
unfolding spawn_image
spawn_image-IsValid t name size entry_off a v room =
    if_ind (λ (r : Option ℕ × (Processes × List Undo)). IsValid r.1.0)
      (size == 0 || leb size entry_off) _ _ (λ f. v)
      (λ f.
        if_ind (λ (r : Option ℕ × (Processes × List Undo)). IsValid r.1.0) (ltb 0x100000 size) _ _
          (λ g. v) (λ g. spawn_slot-IsValid t name a _ v room refl))

exit_at-IsValid :
    (t : Processes) (task code : ℕ) (found : Option ℕ)
    → IsValid t
    → find_by_task t.procs task ≡ found
    → IsValid (exit_at t code found)
exit_at-IsValid t task code none v e = v
exit_at-IsValid t task code (some k) v e =
    let f = found_task t task k v e in keep-IsValid t k _ v f.0 (λ u. f.1) refl

pub exit-IsValid : (t : Processes) (task code : ℕ) → IsValid t → IsValid (exit t task code)
unfolding exit
exit-IsValid t task code v = exit_at-IsValid t task code _ v refl

pub reap-IsValid : (t : Processes) (k : ℕ) → IsValid t → k < 8 → IsValid (reap t k)
reap-IsValid t k v lt = keep-IsValid t k _ v lt (λ u. absurd (false_ne_true u)) refl

with_fds-IsValid :
    (t : Processes) (task : ℕ) (found : Option ℕ) (fds : List ℕ)
    → IsValid t
    → find_by_task t.procs task ≡ found
    → IsValid (with_fds t found fds)
with_fds-IsValid t task none fds v e = record {
  slots = v.slots;
  started = v.started;
  given = v.given;
  own = v.own;
}
with_fds-IsValid t task (some k) fds v e =
    let f = found_task t task k v e in keep-IsValid t k _ v f.0 (λ u. u) refl

fd_alloc_in-IsValid :
    (t : Processes) (task dev : ℕ) (current free : Option ℕ)
    → IsValid t
    → find_by_task t.procs task ≡ current
    → IsValid (fd_alloc_in t current dev free).1
fd_alloc_in-IsValid t task dev current none v e = v
fd_alloc_in-IsValid t task dev current (some fd) v e = with_fds-IsValid t task current _ v e

pub fd_alloc-IsValid : (t : Processes) (task dev : ℕ) → IsValid t → IsValid (fd_alloc t task dev).1
unfolding fd_alloc
fd_alloc-IsValid t task dev v = fd_alloc_in-IsValid t task dev _ _ v refl

pub fd_close-IsValid : (t : Processes) (task fd : ℕ) → IsValid t → IsValid (fd_close t task fd)
unfolding fd_close
fd_close-IsValid t task fd v =
    if_ind IsValid (ltb fd 8) _ _ (λ e. with_fds-IsValid t task _ _ v refl) (λ e. v)

-- The table after a round of `proc_wait`
abbrev pub after : Processes → Round → Processes
after t missing = t
after t yields = t
after t (reaped code task t') = t'

wait_at-IsValid :
    (t : Processes) (i : ℕ) (s : State) → IsValid t → i < 8 → IsValid (after t (wait_at t i s))
wait_at-IsValid t i zombie v lt = reap-IsValid t i v lt
wait_at-IsValid t i alive v lt = v
wait_at-IsValid t i unused v lt = v

wait_found-IsValid :
    (t : Processes) (pid : ℕ) (found : Option ℕ)
    → IsValid t
    → find_pid t.procs pid ≡ found
    → IsValid (after t (wait_found t found))
wait_found-IsValid t pid none v e = v
wait_found-IsValid t pid (some i) v e = wait_at-IsValid t i _ v (found_pid t pid i v e).0

pub wait_round-IsValid :
    (t : Processes) (pid : ℕ) → IsValid t → IsValid (after t (wait_round t pid))
unfolding wait_round
wait_round-IsValid t pid v = wait_found-IsValid t pid _ v refl

-- The calls that change the table
pub data Call : Type 0 where
  spawn_call : List ℕ → ℕ → ℕ → Answers → Call
  exit_call : ℕ → ℕ → Call
  wait_call : ℕ → Call
  alloc_call : ℕ → ℕ → Call
  close_call : ℕ → ℕ → Call

abbrev pub call : Call → Processes → Processes
call (spawn_call name size entry_off a) t = (spawn_image t name size entry_off a).1.0
call (exit_call task code) t = exit t task code
call (wait_call pid) t = after t (wait_round t pid)
call (alloc_call task dev) t = (fd_alloc t task dev).1
call (close_call task fd) t = fd_close t task fd

abbrev pub run : List Call → Processes → Processes
run [] t = t
run (c ∷ calls) t = run calls (call c t)

-- Before each call the next identifier is below the last positive `int`.
abbrev pub Counted : List Call → Processes → Type 0
Counted [] t = Unit
Counted (c ∷ calls) t = (t.next_pid + 1 < 2 ^ 31) × Counted calls (call c t)

call-IsValid : (c : Call) (t : Processes) → IsValid t → t.next_pid + 1 < 2 ^ 31 → IsValid (call c t)
call-IsValid (spawn_call name size entry_off a) t v room =
    spawn_image-IsValid t name size entry_off a v room
call-IsValid (exit_call task code) t v room = exit-IsValid t task code v
call-IsValid (wait_call pid) t v room = wait_round-IsValid t pid v
call-IsValid (alloc_call task dev) t v room = fd_alloc-IsValid t task dev v
call-IsValid (close_call task fd) t v room = fd_close-IsValid t task fd v

pub run-IsValid :
    (calls : List Call) (t : Processes) → IsValid t → Counted calls t → IsValid (run calls t)
run-IsValid [] t v room = v
run-IsValid (c ∷ calls) t v room = run-IsValid calls (call c t) (call-IsValid c t v room.0) room.1

pub start-IsValid : IsValid start
start-IsValid = record {
  slots = refl;
  started = omega arith;
  given = λ i lt u. absurd (false_ne_true (sym (empty i lt) ∙ u));
  own = λ i j bi bj ui uj e. absurd (false_ne_true (sym (empty i bi) ∙ ui));
}
  where
    empty : (i : ℕ) → i < 8 → is_used (slot start i).state ≡ false
    empty i lt =
        ap (λ (q : Process). is_used q.state) (get_or-replicate 8 i zero_process zero_process lt)
