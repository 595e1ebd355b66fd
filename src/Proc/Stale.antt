-- ===== src/Proc/Stale.antt =====
-- A process of kernel/proc.c that holds on to a task which the scheduler has given away.
use aeos.Base.{
  ℕ, List, Bool, Option, true, false, some, find_index, find_index-some, get_or, set, not, leb, ltb,
  ◌≡◌, ◌≢◌, ◌<◌, ◌≤◌, ◌==◌, ◌&&◌, ◌||◌, [], arith, ap, sym, ◌∙◌, refl, Option-cases, inl, inr,
  Bool-cases, find_index-none, length-set, get_or-set_ne,
}
use aeos.Proc.{
  Process, Processes, Answers, Undo, zero_process, is_used, runs_on, find_by_task, getpid, pid_of,
  spawned, spawn_image,
}
use aeos.Proc.Pids.{slot, IsValid, false_ne_true}
use aeos.Proc.Calls.{found_task}

-- A write behind the first cell that passes does not change what the search finds.
find_index-set_later :
    (test : Process → Bool) (xs : List Process) (i n : ℕ) (y : Process)
    → i < n
    → find_index test xs ≡ some i
    → find_index test (set xs n y) ≡ some i
find_index-set_later test xs i n y before e =
    let old = find_index-some test xs i e in
    let kept : (j : ℕ) → j ≤ i → get_or (set xs n y) j zero_process ≡ get_or xs j zero_process =
      λ j le. get_or-set_ne xs n j y zero_process (λ eq. omega (arith, before, le, eq)) in
    let passes : test (get_or (set xs n y) i zero_process) ≡ true =
      ap test (kept i (omega arith)) ∙ old.1 zero_process in
    elim (Option-cases (find_index test (set xs n y))) [
      | inl none_found ↦ absurd (
          false_ne_true (
            sym (
              find_index-none test (set xs n y) none_found i zero_process
                (omega (arith, old.0, length-set xs n y)))
            ∙ passes))
      | inr (j, found) ↦
          let new = find_index-some test (set xs n y) j found in
          elim (Bool-cases (ltb i j)) [
            | inl lt ↦
                absurd (false_ne_true (sym (new.2 i zero_process (ground (arith, lt))) ∙ passes))
            | inr ge ↦ elim (Bool-cases (ltb j i)) [
              | inl gt ↦ absurd (
                  false_ne_true (
                    sym (old.2 j zero_process (ground (arith, gt)))
                    ∙ sym (ap test (kept j (ground (arith, gt))))
                    ∙ new.1 zero_process))
              | inr le ↦ found ∙ ap some (ground (arith, ge, le))
            ]
          ]
    ]

-- All the checks of `proc_spawn_image` pass.
spawn_image-spawned :
    (t : Processes) (name : List ℕ) (size entry_off task n : ℕ) (a : Answers)
    → find_index (λ (p : Process). not (is_used p.state)) t.procs ≡ some n
    → entry_off < size
    → size ≤ 0x100000
    → a.space ≢ 0
    → a.chunk ≢ 0
    → a.mapped ≡ true
    → a.task ≡ some task
    → spawn_image t name size entry_off a ≡ (some t.next_pid, (spawned t name n a.space task, []))
unfolding spawn_image
spawn_image-spawned t name size entry_off task n a free starts fits space chunk mapped given =
    let inside : (size == 0 || leb size entry_off) ≡ false = ground (arith, starts) in
    let small : ltb 0x100000 size ≡ false = ground (arith, fits) in
    let some_space : (a.space == 0) ≡ false = ground (arith, space) in
    let some_chunk : (a.chunk == 0) ≡ false = ground (arith, chunk) in
    rw (inside, small, free, some_space, some_chunk, mapped, given) refl

-- In a valid table, when the task of a zombie is given to a new process in a later slot, `proc_getpid` of that task is the zombie's identifier and not that of the new process.
pub getpid_stale :
    (t : Processes) (name : List ℕ) (size entry_off task i n : ℕ) (a : Answers)
    → IsValid t
    → find_by_task t.procs task ≡ some i
    → find_index (λ (p : Process). not (is_used p.state)) t.procs ≡ some n
    → i < n
    → entry_off < size
    → size ≤ 0x100000
    → a.space ≢ 0
    → a.chunk ≢ 0
    → a.mapped ≡ true
    → a.task ≡ some task
    → ((spawn_image t name size entry_off a).0 ≡ some t.next_pid)
      × (getpid (spawn_image t name size entry_off a).1.0 task ≡ (slot t i).pid)
      × ((slot t i).pid ≢ t.next_pid)
unfolding getpid find_by_task
getpid_stale t name size entry_off task i n a v held free before starts fits space chunk mapped
      given =
    let made =
      spawn_image-spawned t name size entry_off task n a free starts fits space chunk mapped
        given in
    let old = found_task t task i v held in
    (
      ap (λ (r : Option ℕ × (Processes × List Undo)). r.0) made,
      ap (λ (r : Option ℕ × (Processes × List Undo)). getpid r.1.0 task) made
          ∙ ap (pid_of (spawned t name n a.space task)) (
              find_index-set_later (λ (p : Process). is_used p.state && runs_on task p.task_idx)
                t.procs i n _ before held)
          ∙ ap (λ (p : Process). p.pid)
              (get_or-set_ne t.procs n i _ zero_process (λ eq. omega (arith, before, eq))),
      λ e. omega (arith, (v.given i old.0 old.1).1, e),
    )
