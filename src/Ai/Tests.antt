-- ===== src/Ai/Tests.antt =====
-- Concrete runs of the decision engine of the kernel, and instances of the theorems about it.
use aeos.Ai.Learn
use aeos.Ai.Learn.Valid as LearnValid
use aeos.Ai.Debug
use aeos.Ai.{Readings}
use aeos.Base.{false, arith, ◌∷◌, find_index, replicate, length-replicate, [], ◌≡◌, true, refl, All}
use aeos.Ai.Debug.{Debug}
use aeos.Ai.Engine
use aeos.Ai.Engine.{Engine}
use aeos.Ai.Engine.Valid as EngineValid
use aeos.Ai.Cmt

abbrev calm : Readings
calm = record {
  heap_used = 1000;
  heap_cap = 16777216;
  pages_free = 20000;
  pages_total = 32768;
  ticks = 7;
}

abbrev blank_debug : Debug
blank_debug = record {
  issues = replicate 16 Debug.zero_issue;
  fixes = replicate 8 Debug.zero_fix;
  issue_count = 0;
  fix_count = 0;
  scan_count = 0;
  total_issues = 0;
  total_fixes = 0;
  enabled = true;
  auto_fix = true;
}

abbrev blank : Engine
blank = record {
  magic = 0;
  ticks_total = 0;
  ticks_since_infer = 0;
  inferences = 0;
  errors = 0;
  hz = 0;
  action = 0;
  disabled = false;
  in_tick = false;
  hist = replicate 16 Engine.zero_decision;
  hist_count = 0;
  learn = Learn.init;
  debug = blank_debug;
  cmt = Cmt.init;
  timer_hz = 100;
}

abbrev booted : Engine
booted = Engine.init blank

booted-IsValid : EngineValid.IsValid booted
booted-IsValid = record {
  learns = LearnValid.init-IsValid;
  rate = omega arith;
  timer = omega arith;
  history = length-replicate 16 Engine.zero_decision;
  since = omega arith;
  clock = omega arith;
}

run-IsValid_example : EngineValid.IsValid (Engine.run booted (replicate 60 calm))
run-IsValid_example = EngineValid.run-IsValid booted (replicate 60 calm) booted-IsValid

-- A timer slower than 50 Hz, which the diagnosis reports and fixes.
abbrev slow : Debug.Health
slow = record {
  heap_used = 0;
  heap_cap = 100;
  errors = 0;
  inferences = 20;
  hz = 45;
  cmt_level = 1;
  cmt_errors = 0;
  ticks = 9;
}

-- Sixteen rounds of the same complaint fill the table with fixed issues.
abbrev spent : Debug
spent = record blank_debug {
  issues =
      replicate 16
        (record { kind = 0; severity = 0; timestamp = 9; seen = 1; details = 45 ∷ 0 ∷ 0 ∷ 0 ∷ [] });
  issue_count = 16;
}

spent_issues : (Debug.Stuck.rounds blank_debug (replicate 16 slow)).issues ≡ spent.issues
unfolding Debug.Stuck.rounds Debug.round Debug.scan Debug.autofix Debug.check_memory
    Debug.check_errors Debug.check_speed Debug.check_level Debug.add_issue Debug.add_fix
    Debug.worst_from Debug.shift_fixes find_index
spent_issues = refl

rounds_spent_example :
    Debug.Stuck.SameButScans spent (Debug.Stuck.rounds spent (slow ∷ slow ∷ []))
    × All (λ e. e ≡ Debug.nothing) (Debug.Stuck.effects spent (slow ∷ slow ∷ []))
rounds_spent_example = Debug.Stuck.rounds_spent spent (slow ∷ slow ∷ []) (refl, refl, omega arith)
