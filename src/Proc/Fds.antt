-- ===== src/Proc/Fds.antt =====
-- The descriptors of kernel/proc.c are null or point to one of `n` devices, counted from 1.
use aeos.Base.{zero, suc, ◌∷◌, []}
use aeos.Proc.{unused, alive, zombie}
use aeos.Proc.Calls.{after, found_task, found_pid}
use aeos.Proc.Pids.{IsValid, slot, with_slot, other_slot}
use aeos.Proc.{
  Processes, State, wait_round, exit, fd_alloc, fd_close, Process, find_pid, find_by_task,
  fd_alloc_in, wait_at, wait_found, zombie, exit_at, with_fds, fds_of, alive, zero_process,
}
use aeos.Base.{
  ℕ, List, get_or, ◌≤◌, Option, set, if_ind, ◌<◌, ltb, ◌≡◌, ℕ_discrete, refl, arith, sym,
  get_or-set_self, some, none,
}

-- Of the kernel and of every process
pub record Fds (n : ℕ) (t : Processes) : Type 0 where
  pub of_kernel : (j : ℕ) → get_or t.kernel_fds j 0 ≤ n
  pub of_process : (i : ℕ) → i < 8 → (j : ℕ) → get_or (slot t i).fd_table j 0 ≤ n

set_le :
    (n : ℕ) (fds : List ℕ) (fd v : ℕ)
    → ((j : ℕ) → get_or fds j 0 ≤ n)
    → v ≤ n
    → (j : ℕ) → get_or (set fds fd v) j 0 ≤ n
set_le n [] fd v h le j = h j
set_le n (x ∷ fds) zero v h le zero = le
set_le n (x ∷ fds) zero v h le (suc j) = h (suc j)
set_le n (x ∷ fds) (suc fd) v h le zero = h 0
set_le n (x ∷ fds) (suc fd) v h le (suc j) = set_le n fds fd v (λ i. h (suc i)) le j

module _ (n : ℕ) (t : Processes) (v : IsValid t) (f : Fds n t) where
  with_slot-Fds :
      (k : ℕ) (p : Process)
      → k < 8
      → ((j : ℕ) → get_or p.fd_table j 0 ≤ n)
      → Fds n (with_slot t k p)
  with_slot-Fds k p lt h = record {
    of_kernel = f.of_kernel;
    of_process = λ i b j. (elim (ℕ_discrete k i) [
      | yes e ↦
          rw (sym e, get_or-set_self t.procs k p zero_process (omega (arith, v.slots, lt))) (h j)
      | no ne ↦ rw (other_slot t k i p ne) (f.of_process i b j)
    ]);
  }

  with_fds-Fds :
      (task : ℕ) (found : Option ℕ) (fds : List ℕ)
      → find_by_task t.procs task ≡ found
      → ((j : ℕ) → get_or fds j 0 ≤ n)
      → Fds n (with_fds t found fds)
  with_fds-Fds task none fds e h = record { of_kernel = h; of_process = f.of_process }
  with_fds-Fds task (some k) fds e h = with_slot-Fds k _ (found_task t task k v e).0 h

  fds_of-le :
      (task : ℕ) (found : Option ℕ)
      → find_by_task t.procs task ≡ found
      → (j : ℕ) → get_or (fds_of t found) j 0 ≤ n
  fds_of-le task none e j = f.of_kernel j
  fds_of-le task (some k) e j = f.of_process k (found_task t task k v e).0 j

  exit_at-Fds :
      (task code : ℕ) (found : Option ℕ)
      → find_by_task t.procs task ≡ found
      → Fds n (exit_at t code found)
  exit_at-Fds task code none e = f
  exit_at-Fds task code (some k) e =
      with_slot-Fds k _ (found_task t task k v e).0 (f.of_process k (found_task t task k v e).0)

  pub exit-Fds : (task code : ℕ) → Fds n (exit t task code)
  unfolding exit
  exit-Fds task code = exit_at-Fds task code _ refl

  wait_at-Fds : (i : ℕ) (s : State) → i < 8 → Fds n (after t (wait_at t i s))
  wait_at-Fds i zombie lt = with_slot-Fds i _ lt (f.of_process i lt)
  wait_at-Fds i alive lt = f
  wait_at-Fds i unused lt = f

  wait_found-Fds :
      (pid : ℕ) (found : Option ℕ)
      → find_pid t.procs pid ≡ found
      → Fds n (after t (wait_found t found))
  wait_found-Fds pid none e = f
  wait_found-Fds pid (some i) e = wait_at-Fds i _ (found_pid t pid i v e).0

  pub wait_round-Fds : (pid : ℕ) → Fds n (after t (wait_round t pid))
  unfolding wait_round
  wait_round-Fds pid = wait_found-Fds pid _ refl

  fd_alloc_in-Fds :
      (task dev : ℕ) (place : Option ℕ)
      → dev ≤ n
      → Fds n (fd_alloc_in t (find_by_task t.procs task) dev place).1
  fd_alloc_in-Fds task dev none le = f
  fd_alloc_in-Fds task dev (some fd) le =
      with_fds-Fds task _ _ refl
        (set_le n (fds_of t (find_by_task t.procs task)) fd dev (fds_of-le task _ refl) le)

  pub fd_alloc-Fds : (task dev : ℕ) → dev ≤ n → Fds n (fd_alloc t task dev).1
  unfolding fd_alloc
  fd_alloc-Fds task dev le = fd_alloc_in-Fds task dev _ le

  pub fd_close-Fds : (task fd : ℕ) → Fds n (fd_close t task fd)
  unfolding fd_close
  fd_close-Fds task fd =
      if_ind (Fds n) (ltb fd 8) _ _
        (λ e. with_fds-Fds task _ _ refl (
          set_le n (fds_of t (find_by_task t.procs task)) fd 0 (fds_of-le task _ refl)
            (omega arith)))
        (λ e. f)
