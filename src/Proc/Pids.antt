-- ===== src/Proc/Pids.antt =====
-- The process identifiers of kernel/proc.c.
use aeos.Base.{
  ℕ, true, false, length, get_or, set, ◌+◌, ◌≡◌, ◌≢◌, ◌<◌, arith, ap, sym, ◌∙◌, ℕ_discrete,
  length-set, get_or-set_self, get_or-set_ne, ◌^◌, add32,
}
use mathlib.Core.Path.{subst}
use aeos.Proc.{Process, Processes, zero_process, is_used}

abbrev pub slot : Processes → ℕ → Process
slot t i = get_or t.procs i zero_process

-- The processes have identifiers that were given out, each its own.
pub record IsValid (t : Processes) : Type 0 where
  pub slots : length t.procs ≡ 8
  pub started : 0 < t.next_pid
  pub given :
      (i : ℕ)
      → i < 8
      → is_used (slot t i).state ≡ true
      → (0 < (slot t i).pid) × ((slot t i).pid < t.next_pid)
  pub own :
      (i j : ℕ)
      → i < 8
      → j < 8
      → is_used (slot t i).state ≡ true
      → is_used (slot t j).state ≡ true
      → (slot t i).pid ≡ (slot t j).pid
      → i ≡ j

pub false_ne_true : false ≢ true
false_ne_true e = ground (arith, e)

-- Slot `k` of the table is written.
abbrev pub with_slot : Processes → ℕ → Process → Processes
with_slot t k p = record t { procs = set t.procs k p }

pub other_slot :
    (t : Processes) (k i : ℕ) (p : Process) → k ≢ i → slot (with_slot t k p) i ≡ slot t i
other_slot t k i p ne = get_or-set_ne t.procs k i p zero_process ne

pub written_slot :
    (t : Processes) (k : ℕ) (p : Process) → IsValid t → k < 8 → slot (with_slot t k p) k ≡ p
written_slot t k p v lt = get_or-set_self t.procs k p zero_process (omega (arith, v.slots, lt))

-- A slot takes a process that keeps its identifier, or none.
pub keep-IsValid :
    (t : Processes) (k : ℕ) (p : Process)
    → IsValid t
    → k < 8
    → (is_used p.state ≡ true → is_used (slot t k).state ≡ true)
    → p.pid ≡ (slot t k).pid
    → IsValid (with_slot t k p)
keep-IsValid t k p v lt used same = record {
  slots = length-set t.procs k p ∙ v.slots;
  started = v.started;
  given = λ i below u.
      let o = old i u in
      let g = v.given i below o.0 in (omega (arith, g.0, o.1), omega (arith, g.1, o.1));
  own = λ i j bi bj ui uj e.
      let oi = old i ui in let oj = old j uj in v.own i j bi bj oi.0 oj.0 (sym oi.1 ∙ e ∙ oj.1);
}
  where
    old :
        (i : ℕ)
        → is_used (slot (with_slot t k p) i).state ≡ true
        → (is_used (slot t i).state ≡ true) × ((slot (with_slot t k p) i).pid ≡ (slot t i).pid)
    old i u = elim (ℕ_discrete k i) [
      | yes eq ↦
          let here : slot (with_slot t k p) i ≡ p =
            subst (λ j. slot (with_slot t k p) j ≡ p) eq (written_slot t k p v lt) in
          (
            ap (λ j. is_used (slot t j).state) (sym eq)
                ∙ used (sym (ap (λ (q : Process). is_used q.state) here) ∙ u),
            ap (λ (q : Process). q.pid) here ∙ same ∙ ap (λ j. (slot t j).pid) eq,
          )
      | no ne ↦
          let there = other_slot t k i p ne in
          (sym (ap (λ (q : Process). is_used q.state) there) ∙ u, ap (λ (q : Process). q.pid) there)
    ]

-- A slot takes a process with the next identifier, which is not the last positive `int`.
pub new-IsValid :
    (t : Processes) (k : ℕ) (p : Process)
    → IsValid t
    → k < 8
    → p.pid ≡ t.next_pid
    → t.next_pid + 1 < 2 ^ 31
    → IsValid (record t { procs = set t.procs k p; next_pid = add32 t.next_pid 1 })
new-IsValid t k p v lt same room = record {
  slots = length-set t.procs k p ∙ v.slots;
  started = omega (arith, room);
  given = λ i below u. elim (ℕ_discrete k i) [
    | yes eq ↦ (omega (arith, pid_here i eq, v.started), omega (arith, pid_here i eq, room))
    | no ne ↦
        let there = other_slot t k i p ne in
        let g = v.given i below (sym (ap (λ (q : Process). is_used q.state) there) ∙ u) in
        let e = ap (λ (q : Process). q.pid) there in
        (omega (arith, g.0, e), omega (arith, g.1, e, room))
  ];
  own = λ i j bi bj ui uj e. elim (ℕ_discrete k i) [
    | yes eq ↦ elim (ℕ_discrete k j) [
      | yes eq' ↦ sym eq ∙ eq'
      | no ne ↦ absurd (omega (arith, older j bj uj ne, pid_here i eq, e))
    ]
    | no ne ↦ elim (ℕ_discrete k j) [
      | yes eq' ↦ absurd (omega (arith, older i bi ui ne, pid_here j eq', e))
      | no ne' ↦
          let ti = other_slot t k i p ne in
          let tj = other_slot t k j p ne' in
          v.own i j bi bj (sym (ap (λ (q : Process). is_used q.state) ti) ∙ ui)
            (sym (ap (λ (q : Process). is_used q.state) tj) ∙ uj)
            (sym (ap (λ (q : Process). q.pid) ti) ∙ e ∙ ap (λ (q : Process). q.pid) tj)
    ]
  ];
}
  where
    pid_here : (i : ℕ) → k ≡ i → (slot (with_slot t k p) i).pid ≡ t.next_pid
    pid_here i eq =
        ap (λ j. (slot (with_slot t k p) j).pid) (sym eq)
        ∙ ap (λ (q : Process). q.pid) (written_slot t k p v lt)
        ∙ same

    older :
        (i : ℕ)
        → i < 8
        → is_used (slot (with_slot t k p) i).state ≡ true
        → k ≢ i
        → (slot (with_slot t k p) i).pid < t.next_pid
    older i below u ne =
        let there = other_slot t k i p ne in
        let g = v.given i below (sym (ap (λ (q : Process). is_used q.state) there) ∙ u) in
        omega (arith, g.1, ap (λ (q : Process). q.pid) there)
