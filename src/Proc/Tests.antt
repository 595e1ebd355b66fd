-- ===== src/Proc/Tests.antt =====
-- Processes of kernel/proc.c that start, exit and are waited for, and instances of the theorems about them.
use aeos.Base.{ℕ, List, true, some, ◌≡◌, ◌≢◌, ◌∷◌, [], refl, arith, find_index, not}
use aeos.Proc.{
  Process, Processes, Answers, start, is_used, spawn_image, exit, wait_round, reap, reaped, missing,
  getpid, find_by_task,
}
use aeos.Proc.Pids.{IsValid, slot}
use aeos.Proc.Calls.{spawn_call, exit_call, run, run-IsValid, start-IsValid}
use aeos.Proc.Exit.{wait-exit}
use aeos.Proc.Stale.{getpid_stale}

abbrev name_a : List ℕ
name_a = 97 ∷ 0 ∷ []

abbrev on_task : ℕ → Answers
on_task t = record { space = 4096; chunk = 8192; mapped = true; task = some t }

-- Two processes, on tasks 3 and 5
abbrev two : Processes
two = run (spawn_call name_a 100 0 (on_task 3) ∷ spawn_call name_a 100 0 (on_task 5) ∷ []) start

two-IsValid : IsValid two
unfolding spawn_image find_index
two-IsValid =
    run-IsValid (spawn_call name_a 100 0 (on_task 3) ∷ spawn_call name_a 100 0 (on_task 5) ∷ [])
      start start-IsValid (omega arith, (omega arith, tt))

two_task : find_by_task two.procs 5 ≡ some 1
unfolding spawn_image find_by_task find_index
two_task = refl

wait-exit_example :
    (wait_round (exit two 5 7) (slot two 1).pid
      ≡ reaped 7 (slot two 1).task_idx (reap (exit two 5 7) 1))
    × (wait_round (reap (exit two 5 7) 1) (slot two 1).pid ≡ missing)
wait-exit_example = wait-exit two 5 7 1 two-IsValid two_task

-- The second process has exited; task 5 goes to a third.
abbrev ended : Processes
ended = run (exit_call 5 7 ∷ []) two

ended_task : find_by_task ended.procs 5 ≡ some 1
unfolding spawn_image exit find_by_task find_index
ended_task = refl

ended_free : find_index (λ (p : Process). not (is_used p.state)) ended.procs ≡ some 2
unfolding spawn_image exit find_by_task find_index
ended_free = refl

ended-IsValid : IsValid ended
unfolding spawn_image exit find_by_task find_index
ended-IsValid = run-IsValid (exit_call 5 7 ∷ []) two two-IsValid (omega arith, tt)

getpid_stale_example :
    ((spawn_image ended name_a 50 0 (on_task 5)).0 ≡ some ended.next_pid)
    × (getpid (spawn_image ended name_a 50 0 (on_task 5)).1.0 5 ≡ (slot ended 1).pid)
    × ((slot ended 1).pid ≢ ended.next_pid)
getpid_stale_example =
    getpid_stale ended name_a 50 0 5 1 2 (on_task 5) ended-IsValid ended_task ended_free
      (omega arith) (omega arith) (omega arith) (omega arith) (omega arith) refl refl
