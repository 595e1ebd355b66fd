-- ===== src/Ai/Debug/Stuck.antt =====
-- What becomes of the issue table of kernel/ai_debug.c: a slot is never given back.
use mathlib.Core.Path.{subst}
use aeos.Base.{
  find_index, ℕ, ◌≡◌, List, ◌≢◌, length, All, ◌==◌, take, none, refl, not_==_of_ne, sym, ◌∙◌, zero,
  [], if_ind, ◌&&◌, ltb, dec_lt, if◌then◌else◌, arith, add32, All-get_or, not, ap, get_or_out, ◌||◌,
}
use aeos.Ai.Debug.{
  add_issue, Debug, Issue, max_issues, no_issue, suc, ◌∷◌, issue_at, round, check_memory,
  check_errors, Health, check_level, autofix, scan, check_speed, nothing, Effect, heap_pct,
  error_rate, slow_perf, hung_task, zero_issue, mem_leak, high_errors, find_issue_to_fix,
}

-- Every slot was used, and every issue was fixed.
abbrev pub IsSpent : Debug → Type 0
IsSpent d =
    (d.issue_count ≡ max_issues)
    × (length d.issues ≡ max_issues)
    × All (λ i. (i.kind ≡ no_issue) × (i.severity ≡ 0)) d.issues

-- The same issues.
abbrev pub SameIssues : Debug → Debug → Type 0
SameIssues d e = (e.issues ≡ d.issues) × (e.issue_count ≡ d.issue_count)

no_kind :
    (issues : List Issue) (n kind : ℕ)
    → All (λ i. (i.kind ≡ no_issue) × (i.severity ≡ 0)) issues
    → kind ≢ no_issue
    → find_index (λ i. i.kind == kind) (take n issues) ≡ none
unfolding find_index
no_kind issues zero kind a ne = refl
no_kind [] (suc n) kind a ne = refl
no_kind (i ∷ issues) (suc n) kind a ne =
    rw (not_==_of_ne i.kind kind (λ e. ne (sym e ∙ a.0.0)), no_kind issues n kind a.1 ne) refl

add_issue_spent :
    (d : Debug) (now kind severity : ℕ) (details : List ℕ)
    → IsSpent d
    → kind ≢ no_issue
    → add_issue d now kind severity details ≡ d
unfolding add_issue
add_issue_spent d now kind severity details s ne = rw (no_kind d.issues d.issue_count kind s.2 ne) (
    if_ind (λ x. x ≡ d) (ltb d.issue_count max_issues) _ d (λ e. absurd (ground (arith, e, s.0)))
      (λ e. refl))

check_memory_spent : (h : Health) (d : Debug) → IsSpent d → check_memory h d ≡ d
unfolding check_memory
check_memory_spent h d s =
    if_ind (λ x. x ≡ d) (ltb 90 (heap_pct h)) _ _
      (λ e. add_issue_spent d h.ticks mem_leak 2 _ s (λ e. omega arith))
      (λ e.
        if_ind (λ x. x ≡ d) (ltb 75 (heap_pct h)) _ _
          (λ e. add_issue_spent d h.ticks mem_leak 1 _ s (λ e. omega arith)) (λ e. refl))

check_errors_spent : (h : Health) (d : Debug) → IsSpent d → check_errors h d ≡ d
unfolding check_errors
check_errors_spent h d s =
    if_ind (λ x. x ≡ d) (ltb 10 h.inferences) _ _
      (λ e.
        if_ind (λ x. x ≡ d) (ltb 20 (error_rate h)) _ _
          (λ e. add_issue_spent d h.ticks high_errors 2 _ s (λ e. omega arith))
          (λ e.
            if_ind (λ x. x ≡ d) (ltb 10 (error_rate h)) _ _
              (λ e. add_issue_spent d h.ticks high_errors 1 _ s (λ e. omega arith)) (λ e. refl)))
      (λ e. refl)

check_speed_spent : (h : Health) (d : Debug) → IsSpent d → check_speed h d ≡ d
unfolding check_speed
check_speed_spent h d s =
    if_ind (λ x. x ≡ d) (ltb h.hz 50) _ _
      (λ e. add_issue_spent d h.ticks slow_perf 1 _ s (λ e. omega arith)) (λ e. refl)

check_level_spent : (h : Health) (d : Debug) → IsSpent d → check_level h d ≡ d
unfolding check_level
check_level_spent h d s =
    if_ind (λ x. x ≡ d) (h.cmt_level == 0 && ltb 20 h.inferences) _ _
      (λ e. add_issue_spent d h.ticks hung_task 1 _ s (λ e. omega arith)) (λ e. refl)

-- A scan of a spent table counts itself and nothing else.
scan_spent :
    (h : Health) (d : Debug)
    → IsSpent d
    → scan h d ≡ (if d.enabled then record d { scan_count = add32 d.scan_count 1 } else d)
unfolding scan
scan_spent h d s =
    ap (λ x. if d.enabled then x else d)
      (ap (λ x. check_level h (check_speed h (check_errors h x))) (check_memory_spent h d' s)
        ∙ ap (λ x. check_level h (check_speed h x)) (check_errors_spent h d' s)
        ∙ ap (check_level h) (check_speed_spent h d' s)
        ∙ check_level_spent h d' s)
  where
    d' : Debug
    d' = record d { scan_count = add32 d.scan_count 1 }

slot_spent :
    (d : Debug) (i : ℕ)
    → IsSpent d
    → ((issue_at d i).kind ≡ no_issue) × ((issue_at d i).severity ≡ 0)
slot_spent d i s = elim (dec_lt i (length d.issues)) [
  | yes l ↦ All-get_or (λ i. (i.kind ≡ no_issue) × (i.severity ≡ 0)) d.issues i zero_issue s.2 l
  | no g ↦ rw (get_or_out d.issues i zero_issue (omega (arith, g))) (refl, refl)
]

autofix_spent : (d : Debug) (now : ℕ) → IsSpent d → autofix d now ≡ (d, nothing)
unfolding autofix
autofix_spent d now s =
    if_ind P (not d.enabled || not d.auto_fix) _ _ (λ e. refl)
      (λ e.
        if_ind P (d.issue_count == 0) _ _ (λ e. refl)
          (λ e.
            if_ind P ((issue_at d (find_issue_to_fix d)).kind == no_issue) _ _ (λ e. refl)
              (λ e. absurd (ground (arith, e, slot_spent d (find_issue_to_fix d) s)))))
  where
    P : Debug × Effect → Type 0
    P r = r ≡ (d, nothing)

same-IsSpent : (d e : Debug) → SameIssues d e → IsSpent d → IsSpent e
same-IsSpent d e same s = (
  same.1 ∙ s.0,
  ap length same.0 ∙ s.1,
  subst (All (λ i. (i.kind ≡ no_issue) × (i.severity ≡ 0))) (sym same.0) s.2,
)

scan_same : (h : Health) (d : Debug) → IsSpent d → SameIssues d (scan h d)
scan_same h d s =
    rw (scan_spent h d s)
      (if_ind (SameIssues d) d.enabled _ d (λ e. (refl, refl)) (λ e. (refl, refl)))

round_spent : (h : Health) (d : Debug) → IsSpent d → round h d ≡ (scan h d, nothing)
unfolding round
round_spent h d s = autofix_spent (scan h d) h.ticks (same-IsSpent d (scan h d) (scan_same h d s) s)

-- The rounds of a list of readings, and what the fixes of each did.
unfoldable pub rounds : Debug → List Health → Debug
rounds d [] = d
rounds d (h ∷ hs) = rounds (round h d).0 hs

unfoldable pub effects : Debug → List Health → List Effect
effects d [] = []
effects d (h ∷ hs) = (round h d).1 ∷ effects (round h d).0 hs

-- All of the debugger but the number of its scans: the issues, the log of fixes, and every counter of them.
abbrev pub SameButScans : Debug → Debug → Type 0
SameButScans d e = record e { scan_count = d.scan_count } ≡ d

scan_but : (h : Health) (d : Debug) → IsSpent d → SameButScans d (scan h d)
scan_but h d s =
    rw (scan_spent h d s) (if_ind (SameButScans d) d.enabled _ d (λ e. refl) (λ e. refl))

-- Once all sixteen slots hold fixed issues, the rounds, whatever the readings, change nothing of the debugger but the number of scans and have no effect: no scan records an issue, and no fix is applied, logged or counted again.
pub rounds_spent :
    (d : Debug) (hs : List Health)
    → IsSpent d
    → SameButScans d (rounds d hs) × All (λ e. e ≡ nothing) (effects d hs)
unfolding rounds effects
rounds_spent d [] s = (refl, tt)
rounds_spent d (h ∷ hs) s =
    let ih = rounds_spent (scan h d) hs (same-IsSpent d (scan h d) (scan_same h d s) s) in
    let after : (round h d).0 ≡ scan h d = ap (λ r. r.0) (round_spent h d s) in
    (
      subst (λ x. SameButScans d (rounds x hs)) (sym after)
          (ap (λ (e : Debug). record e { scan_count = d.scan_count }) ih.0 ∙ scan_but h d s),
      (
        ap (λ r. r.1) (round_spent h d s),
        subst (λ x. All (λ e. e ≡ nothing) (effects x hs)) (sym after) ih.1,
      ),
    )
