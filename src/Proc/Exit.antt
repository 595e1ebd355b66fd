-- ===== src/Proc/Exit.antt =====
-- Exit and wait of kernel/proc.c together.
use aeos.Base.{
  ℕ, true, some, ◌≡◌, ◌≢◌, ◌<◌, ◌==◌, ◌&&◌, arith, ap, sym, ◌∙◌, refl, Option-cases, inl, inr,
  ℕ_discrete, find_index-none,
}
use mathlib.Core.Path.{subst}
use aeos.Proc.{
  Process, Processes, zero_process, is_used, zombie, find_pid, find_by_task, exit, exit_at, reap,
  wait_round, missing, reaped,
}
use aeos.Proc.Pids.{slot, with_slot, IsValid, written_slot, other_slot, false_ne_true}
use aeos.Proc.Calls.{found_task, found_pid, exit-IsValid, reap-IsValid}

-- In a valid table, the process of a used slot is found by its identifier.
find_pid-slot :
    (t : Processes) (k : ℕ)
    → IsValid t
    → k < 8
    → is_used (slot t k).state ≡ true
    → find_pid t.procs (slot t k).pid ≡ some k
unfolding find_pid
find_pid-slot t k v lt used = elim (Option-cases (find_pid t.procs (slot t k).pid)) [
  | inl e ↦
      let found : (is_used (slot t k).state && (slot t k).pid == (slot t k).pid) ≡ true =
        ground (arith, used) in
      absurd (
        false_ne_true (
          sym (
            find_index-none (λ (p : Process). is_used p.state && p.pid == (slot t k).pid) t.procs e
              k zero_process (omega (arith, lt, v.slots)))
          ∙ found))
  | inr (j, e) ↦
      let f = found_pid t (slot t k).pid j v e in e ∙ ap some (v.own j k f.0 lt f.1 used f.2)
]

missing_pid :
    (t : Processes) (pid : ℕ)
    → IsValid t
    → ((j : ℕ) → j < 8 → is_used (slot t j).state ≡ true → (slot t j).pid ≢ pid)
    → wait_round t pid ≡ missing
unfolding wait_round
missing_pid t pid v none_has = elim (Option-cases (find_pid t.procs pid)) [
  | inl e ↦ rw e refl
  | inr (j, e) ↦ let f = found_pid t pid j v e in absurd (none_has j f.0 f.1 f.2)
]

wait_round_zombie :
    (t : Processes) (k : ℕ)
    → IsValid t
    → k < 8
    → (slot t k).state ≡ zombie
    → wait_round t (slot t k).pid ≡ reaped (slot t k).exit_code (slot t k).task_idx (reap t k)
unfolding wait_round
wait_round_zombie t k v lt state = rw (find_pid-slot t k v lt (ap is_used state), state) refl

-- No process has the identifier of one that was reaped.
wait_round_reaped :
    (t : Processes) (k : ℕ)
    → IsValid t
    → k < 8
    → is_used (slot t k).state ≡ true
    → wait_round (reap t k) (slot t k).pid ≡ missing
wait_round_reaped t k v lt used =
    missing_pid (reap t k) (slot t k).pid (reap-IsValid t k v lt) (λ j below u e.
      elim (ℕ_discrete k j) [
        | yes eq ↦
            let here = ap (λ (q : Process). is_used q.state) (written_slot t k _ v lt) in
            let same = ap (λ i. is_used (slot (reap t k) i).state) eq in
            false_ne_true (sym here ∙ same ∙ u)
        | no ne ↦
            let there = other_slot t k j _ ne in
            ne (
              v.own k j lt below used (sym (ap (λ (q : Process). is_used q.state) there) ∙ u)
                (sym e ∙ ap (λ (q : Process). q.pid) there))
      ])

-- In a valid table, once the task of a process has called `proc_exit` with a code, `proc_wait` on the identifier of that process returns at once with that code and the task of the process, and a further `proc_wait` on it returns -1.
pub wait-exit :
    (t : Processes) (task code k : ℕ)
    → IsValid t
    → find_by_task t.procs task ≡ some k
    → (wait_round (exit t task code) (slot t k).pid
        ≡ reaped code (slot t k).task_idx (reap (exit t task code) k))
      × (wait_round (reap (exit t task code) k) (slot t k).pid ≡ missing)
unfolding exit
wait-exit t task code k v e =
    let f = found_task t task k v e in
    let ended : Process = record (slot t k) { exit_code = code; state = zombie } in
    let here = written_slot t k ended v f.0 in
    let valid : IsValid (with_slot t k ended) =
      subst (λ r. IsValid (exit_at t code r)) e (exit-IsValid t task code v) in
    rw e (
      subst
          (λ (p : Process).
            wait_round (with_slot t k ended) p.pid
            ≡ reaped p.exit_code p.task_idx (reap (with_slot t k ended) k))
          here
          (wait_round_zombie (with_slot t k ended) k valid f.0
            (ap (λ (p : Process). p.state) here)),
      subst (λ (p : Process). wait_round (reap (with_slot t k ended) k) p.pid ≡ missing) here
          (wait_round_reaped (with_slot t k ended) k valid f.0
            (ap (λ (p : Process). is_used p.state) here)),
    )
