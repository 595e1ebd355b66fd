-- ===== src/Ai/Debug.antt =====
-- The self diagnosis, kernel/ai_debug.c: issues found by a scan, and the fixes tried.
use aeos.Base.{
  none, if◌then◌else◌, List, ℕ, map, false, ◌∷◌, replicate, Bool, Option, get_or, true, [], ◌*◌,
  ◌==◌, leb, ltb, add32, not, find_index, set, ◌||◌, ◌&&◌, ◌%◌, take, ◌^◌, ◌/◌, some, suc, zero,
}
pub mod Stuck

-- `DEBUG_MAX_ISSUES`, `DEBUG_MAX_FIXES`
abbrev pub max_issues : ℕ
max_issues = 16

abbrev pub max_fixes : ℕ
max_fixes = 8

-- The issue types, `ISSUE_NONE` = 0 and so on
abbrev pub no_issue : ℕ
no_issue = 0

abbrev pub mem_leak : ℕ
mem_leak = 1

abbrev pub high_errors : ℕ
high_errors = 2

abbrev pub slow_perf : ℕ
slow_perf = 3

abbrev pub hung_task : ℕ
hung_task = 4

-- The fixes, `FIX_NONE` = 0 and so on
abbrev pub no_fix : ℕ
no_fix = 0

abbrev pub clear_memory : ℕ
clear_memory = 2

abbrev pub kill_task : ℕ
kill_task = 3

abbrev pub reset_timer : ℕ
reset_timer = 4

abbrev pub disable_ai : ℕ
disable_ai = 5

abbrev pub reboot : ℕ
reboot = 6

abbrev pub adjust_hz : ℕ
adjust_hz = 7

pub record Issue : Type 0 where
  pub kind : ℕ
  pub severity : ℕ
  pub timestamp : ℕ
  pub seen : ℕ
  pub details : List ℕ

-- `debug_fix_t`, less the details, which nothing writes
pub record Fix : Type 0 where
  pub issue_type : ℕ
  pub fix_type : ℕ
  pub success : Bool
  pub timestamp : ℕ

pub record Debug : Type 0 where
  pub issues : List Issue
  pub fixes : List Fix
  pub issue_count : ℕ
  pub fix_count : ℕ
  pub scan_count : ℕ
  pub total_issues : ℕ
  pub total_fixes : ℕ
  pub enabled : Bool
  pub auto_fix : Bool

abbrev pub zero_issue : Issue
zero_issue = record {
  kind = no_issue;
  severity = 0;
  timestamp = 0;
  seen = 0;
  details = replicate 4 0;
}

abbrev pub zero_fix : Fix
zero_fix = record { issue_type = no_issue; fix_type = no_fix; success = false; timestamp = 0 }

-- `ai_debug_init`, which leaves the details of the issues
abbrev pub init : Debug → Debug
init d = record {
  issues =
      map (λ (i : Issue). record i { kind = no_issue; severity = 0; timestamp = 0; seen = 0 })
        d.issues;
  fixes = replicate max_fixes zero_fix;
  issue_count = 0;
  fix_count = 0;
  scan_count = 0;
  total_issues = 0;
  total_fixes = 0;
  enabled = true;
  auto_fix = true;
}

abbrev pub issue_at : Debug → ℕ → Issue
issue_at d i = get_or d.issues i zero_issue

-- The search of `add_issue`: the first of the `issue_count` slots with that type
abbrev pub known : Debug → ℕ → Option ℕ
known d kind = find_index (λ i. i.kind == kind) (take d.issue_count d.issues)

-- The end of `add_issue`, with what the search found
abbrev pub note_issue : Debug → ℕ → ℕ → ℕ → List ℕ → Option ℕ → Debug
note_issue d now kind severity details (some i) = record d {
  issues =
      set d.issues i
        (record (issue_at d i) { seen = add32 (issue_at d i).seen 1; details = details });
}
note_issue d now kind severity details none =
    if ltb d.issue_count max_issues
    then record d {
      issues = set d.issues d.issue_count (record {
        kind = kind;
        severity = severity;
        timestamp = now;
        seen = 1;
        details = details;
      });
      issue_count = add32 d.issue_count 1;
      total_issues = add32 d.total_issues 1;
    }
    else d

-- `add_issue`; `now` is timer_get_ticks.
unfoldable pub add_issue : Debug → ℕ → ℕ → ℕ → List ℕ → Debug
add_issue d now kind severity details = note_issue d now kind severity details (known d kind)

-- `debug.fixes[i] = debug.fixes[i + 1]` for `n` indices from `i` on
unfoldable pub shift_fixes : List Fix → ℕ → ℕ → List Fix
shift_fixes fixes i zero = fixes
shift_fixes fixes i (suc n) = shift_fixes (set fixes i (get_or fixes (suc i) zero_fix)) (suc i) n

-- `add_fix`
unfoldable pub add_fix : Debug → ℕ → ℕ → ℕ → Bool → Debug
add_fix d now issue_type fix_type success =
    let full = leb max_fixes d.fix_count in
    let fixes = (if full then shift_fixes d.fixes 0 7 else d.fixes) in
    let fix_count = (if full then 7 else d.fix_count) in
    record d {
      fixes = set fixes fix_count (record {
        issue_type = issue_type;
        fix_type = fix_type;
        success = success;
        timestamp = now;
      });
      fix_count = add32 fix_count 1;
      total_fixes = add32 d.total_fixes 1;
    }

-- What a scan reads from the other modules, as `uint32_t`.
pub record Health : Type 0 where
  pub heap_used : ℕ
  pub heap_cap : ℕ
  pub errors : ℕ
  pub inferences : ℕ
  pub hz : ℕ
  pub cmt_level : ℕ
  pub cmt_errors : ℕ
  pub ticks : ℕ

-- The percentages, whose products wrap
abbrev pub heap_pct : Health → ℕ
heap_pct h = if ltb 0 h.heap_cap then h.heap_used * 100 % 2 ^ 32 / h.heap_cap else 0

abbrev pub error_rate : Health → ℕ
error_rate h = h.errors * 100 % 2 ^ 32 / h.inferences

-- The four checks of `ai_debug_scan`
unfoldable pub check_memory : Health → Debug → Debug
check_memory h d =
    let details = heap_pct h ∷ h.heap_used ∷ h.heap_cap ∷ 0 ∷ [] in
    if ltb 90 (heap_pct h)
    then add_issue d h.ticks mem_leak 2 details
    else if ltb 75 (heap_pct h)
    then add_issue d h.ticks mem_leak 1 details
    else d

unfoldable pub check_errors : Health → Debug → Debug
check_errors h d =
    let details = error_rate h ∷ h.errors ∷ h.inferences ∷ 0 ∷ [] in
    if ltb 10 h.inferences
    then (if ltb 20 (error_rate h)
        then add_issue d h.ticks high_errors 2 details
        else if ltb 10 (error_rate h)
        then add_issue d h.ticks high_errors 1 details
        else d)
    else d

unfoldable pub check_speed : Health → Debug → Debug
check_speed h d = if ltb h.hz 50 then add_issue d h.ticks slow_perf 1 (h.hz ∷ 0 ∷ 0 ∷ 0 ∷ []) else d

unfoldable pub check_level : Health → Debug → Debug
check_level h d =
    if h.cmt_level == 0 && ltb 20 h.inferences
    then add_issue d h.ticks hung_task 1 (h.cmt_level ∷ h.cmt_errors ∷ 0 ∷ 0 ∷ [])
    else d

-- `ai_debug_scan`
unfoldable pub scan : Health → Debug → Debug
scan h d =
    if d.enabled
    then check_level h (
        check_speed h
          (check_errors h (check_memory h (record d { scan_count = add32 d.scan_count 1 }))))
    else d

-- The loop of `find_issue_to_fix`: indices from `i` on, `n` to go, with the best so far
unfoldable pub worst_from : Debug → ℕ → ℕ → ℕ → ℕ → ℕ
worst_from d i severity best zero = best
worst_from d i severity best (suc n) =
    let here = (issue_at d i).severity in
    worst_from d (suc i) (if ltb severity here then here else severity)
      (if ltb severity here then i else best) n

-- `find_issue_to_fix`
abbrev pub find_issue_to_fix : Debug → ℕ
find_issue_to_fix d = worst_from d 0 0 0 d.issue_count

-- `determine_fix`
abbrev pub determine_fix : ℕ → ℕ
determine_fix kind =
    if kind == mem_leak
    then clear_memory
    else if kind == high_errors
    then reset_timer
    else if kind == slow_perf
    then adjust_hz
    else if kind == hung_task
    then reset_timer
    else if kind == 5
    then kill_task
    else if kind == 6
    then disable_ai
    else if kind == 7
    then reboot
    else no_fix

-- What a fix does to the rest of the system.
pub data Effect : Type 0 where
  nothing disables : Effect
  sets_hz : ℕ → Effect

-- `apply_fix`: its success and its effect
abbrev pub apply_fix : ℕ → Bool × Effect
apply_fix fix =
    if fix == clear_memory
    then (true, nothing)
    else if fix == reset_timer
    then (true, sets_hz 100)
    else if fix == adjust_hz
    then (true, sets_hz 150)
    else if fix == kill_task
    then (true, nothing)
    else if fix == disable_ai
    then (true, disables)
    else (false, nothing)

-- The part of `ai_debug_autofix` from the choice of a fix on
abbrev pub fix_issue : Debug → ℕ → ℕ → ℕ → Debug × Effect
fix_issue d now i kind =
    if determine_fix kind == no_fix
    then (d, nothing)
    else let (success, effect) = apply_fix (determine_fix kind) in
      let noted = add_fix d now kind (determine_fix kind) success in
      (
        if success
            then record noted {
              issues =
                  set noted.issues i (record (issue_at noted i) { kind = no_issue; severity = 0 });
            }
            else noted,
        effect,
      )

-- `ai_debug_autofix`
unfoldable pub autofix : Debug → ℕ → Debug × Effect
autofix d now =
    let i = find_issue_to_fix d in
    if not d.enabled || not d.auto_fix
    then (d, nothing)
    else if d.issue_count == 0
    then (d, nothing)
    else if (issue_at d i).kind == no_issue
    then (d, nothing)
    else fix_issue d now i (issue_at d i).kind

-- The debugger's part of an engine's twentieth inference: a scan, then a fix.
unfoldable pub round : Health → Debug → Debug × Effect
round h d = autofix (scan h d) h.ticks

-- `ai_debug_set_enabled`, `ai_debug_set_autofix`
abbrev pub set_enabled : Debug → Bool → Debug
set_enabled d enabled = record d { enabled = enabled }

abbrev pub set_autofix : Debug → Bool → Debug
set_autofix d enabled = record d { auto_fix = enabled }
