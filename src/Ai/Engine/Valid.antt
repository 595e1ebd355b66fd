-- ===== src/Ai/Engine/Valid.antt =====
-- What kernel/ai_api.c keeps over any number of ticks.
use aeos.Ai.Learn.{choose_action}
use aeos.Ai.Learn.Valid.{get_state-lt, store-IsValid, update-IsValid, choose_action-lt, best_of-lt}
use aeos.Ai.Debug.{
  Debug, Effect, round, sets_hz, nothing, disables, fix_issue, autofix, apply_fix, Health,
  determine_fix, scan, issue_at, find_issue_to_fix, no_fix, no_issue,
}
use aeos.Ai.Core.Rates.{InRate, act-InRate}
use aeos.Base.{
  ◌∷◌, ℕ, add32, List, ◌<◌, Bool, length, if_ind, ◌≡◌, ◌%◌, length-set, ◌==◌, ◌∙◌, ◌&&◌, ◌*◌, arith,
  ◌+◌, not, ◌^◌, [], false, ℤ, Bool-cases, leb, ◌||◌, inl, if◌then◌else◌, true, inr,
}
use aeos.Ai.{Readings, period, sustain}
use aeos.Ai.Core.{decide, perceive}
use aeos.Ai.Engine.{
  infer, choose, Engine, on_tick, run, tick, rewarded, check, state_of, diagnosed, decided,
  take_effect, page_pct, history_len, health, report, magic_word,
}
use aeos.Ai.Learn.Valid as LearnValid
use aeos.Ai.Learn
use aeos.Ai.Cmt
use aeos.Ai.Engine.{heap_pct}

-- The learning is valid, the rate of the engine and the one the timer was given are in their bounds, and the ticks are fifty for each inference and those since.
pub record IsValid (e : Engine) : Type 0 where
  pub learns : LearnValid.IsValid e.learn
  pub rate : InRate e.hz
  pub timer : InRate e.timer_hz
  pub history : length e.hist ≡ history_len
  pub since : e.ticks_since_infer < period
  pub clock : e.ticks_total ≡ (period * e.inferences + e.ticks_since_infer) % 2 ^ 32

-- The same when an inference is due.
record IsDue (e : Engine) : Type 0 where
  learns : LearnValid.IsValid e.learn
  rate : InRate e.hz
  timer : InRate e.timer_hz
  history : length e.hist ≡ history_len
  clock : e.ticks_total ≡ (period * e.inferences + period) % 2 ^ 32

-- A fix sets the timer to a rate in the bounds.
abbrev SetsRate : Effect → Type 0
SetsRate nothing = Unit
SetsRate disables = Unit
SetsRate (sets_hz hz) = InRate hz

apply_fix-SetsRate : (fix : ℕ) → SetsRate (apply_fix fix).1
apply_fix-SetsRate fix = ground arith

fix_issue-SetsRate : (d : Debug) (now i kind : ℕ) → SetsRate (fix_issue d now i kind).1
fix_issue-SetsRate d now i kind =
    if_ind (λ (r : Debug × Effect). SetsRate r.1) (determine_fix kind == no_fix) _ _ (λ e. tt)
      (λ e. apply_fix-SetsRate (determine_fix kind))

autofix-SetsRate : (d : Debug) (now : ℕ) → SetsRate (autofix d now).1
unfolding autofix
autofix-SetsRate d now =
    if_ind P (not d.enabled || not d.auto_fix) _ _ (λ e. tt)
      (λ e.
        if_ind P (d.issue_count == 0) _ _ (λ f. tt)
          (λ f.
            if_ind P ((issue_at d (find_issue_to_fix d)).kind == no_issue) _ _ (λ g. tt)
              (λ g.
                fix_issue-SetsRate d now (find_issue_to_fix d)
                  (issue_at d (find_issue_to_fix d)).kind)))
  where
    P : Debug × Effect → Type 0
    P r = SetsRate r.1

round-SetsRate : (h : Health) (d : Debug) → SetsRate (round h d).1
unfolding round
round-SetsRate h d = autofix-SetsRate (scan h d) h.ticks

take_effect-IsValid : (e : Engine) (f : Effect) → IsValid e → SetsRate f → IsValid (take_effect e f)
take_effect-IsValid e nothing v fits = v
take_effect-IsValid e disables v fits = record {
  learns = v.learns;
  rate = v.rate;
  timer = v.timer;
  history = v.history;
  since = v.since;
  clock = v.clock;
}
take_effect-IsValid e (sets_hz hz) v fits = record {
  learns = v.learns;
  rate = v.rate;
  timer = fits;
  history = v.history;
  since = v.since;
  clock = v.clock;
}

with_debug-IsValid : (e : Engine) (d : Debug) → IsValid e → IsValid (record e { debug = d })
with_debug-IsValid e d v = record {
  learns = v.learns;
  rate = v.rate;
  timer = v.timer;
  history = v.history;
  since = v.since;
  clock = v.clock;
}

diagnosed-IsValid : (r : Readings) (e : Engine) → IsValid e → IsValid (diagnosed r e)
diagnosed-IsValid r e v =
    if_ind IsValid (e.inferences % 20 == 0) _ e
      (λ t.
        take_effect-IsValid (record e { debug = (round (health e r) e.debug).0 })
          (round (health e r) e.debug).1 (with_debug-IsValid e (round (health e r) e.debug).0 v)
          (round-SetsRate (health e r) e.debug))
      (λ t. v)

decide-lt : (x : List ℤ) → decide x < 3
unfolding decide
decide-lt x = best_of-lt _ 0 0 3 3 (omega arith) (omega arith)

choose-lt : (e : Engine) (r : Readings) → choose e r < 3
unfolding choose
choose-lt e r =
    if_ind (λ a. a < 3)
      (choose_action e.learn (state_of e r) == sustain
        && not (decide (perceive e.ticks_since_infer r) == sustain))
      _ _ (λ t. decide-lt (perceive e.ticks_since_infer r))
      (λ t. choose_action-lt e.learn (state_of e r))

state_of-lt : (e : Engine) (r : Readings) → state_of e r < 8
state_of-lt e r = get_state-lt (heap_pct r) (page_pct r) e.errors

learned-IsValid :
    (r : Readings) (state action : ℕ) (e : Engine)
    → LearnValid.IsValid e.learn
    → state < 8
    → action < 3
    → LearnValid.IsValid (rewarded r state action e).learn
learned-IsValid r state action e v hs ha =
    let stored =
      Learn.store e.learn state action
        (Learn.calculate_reward (heap_pct r) (page_pct r) e.errors e.inferences) (state_of e r) in
    let stays =
      store-IsValid e.learn state action
        (Learn.calculate_reward (heap_pct r) (page_pct r) e.errors e.inferences) (state_of e r) v hs
        ha (state_of-lt e r) in
    if_ind LearnValid.IsValid (e.inferences % 10 == 0) _ stored (λ t. update-IsValid stored stays)
      (λ t. stays)

infer-IsValid : (e : Engine) (r : Readings) → IsDue e → IsValid (infer e r)
unfolding infer
infer-IsValid e r d =
    diagnosed-IsValid r (rewarded r (state_of e1 r) (choose e1 r) (decided e1 (choose e1 r)))
      (record {
        learns =
            learned-IsValid r (state_of e1 r) (choose e1 r) (decided e1 (choose e1 r)) d.learns
              (state_of-lt e1 r) (choose-lt e1 r);
        rate = act-InRate (choose e1 r) e.cmt.level e.hz d.rate;
        timer = act-InRate (choose e1 r) e.cmt.level e.hz d.rate;
        history = length-set e.hist (e.hist_count % history_len) _ ∙ d.history;
        since = omega arith;
        clock = omega (arith, d.clock);
      })
  where
    e1 : Engine
    e1 = record e { ticks_since_infer = 0 }

tick-IsValid : (e : Engine) (r : Readings) → IsValid e → IsValid (tick e r)
unfolding tick
tick-IsValid e r v =
    if_ind IsValid (leb period (add32 e.ticks_since_infer 1)) _ _
      (λ t. infer-IsValid counted r (record {
        learns = v.learns;
        rate = v.rate;
        timer = v.timer;
        history = v.history;
        clock = ground (arith, t, v.since, v.clock);
      }))
      (λ t. record {
        learns = v.learns;
        rate = v.rate;
        timer = v.timer;
        history = v.history;
        since = ground (arith, t);
        clock = ground (arith, v.since, v.clock);
      })
  where
    counted : Engine
    counted = record e {
      ticks_total = add32 e.ticks_total 1;
      ticks_since_infer = add32 e.ticks_since_infer 1;
      cmt = Cmt.on_tick e.cmt r (report e);
    }

-- The guard and the fail-safe touch none of this.
guarded-IsValid :
    (e : Engine) (errors : ℕ) (disabled in_tick : Bool)
    → IsValid e
    → IsValid (record e { errors = errors; disabled = disabled; in_tick = in_tick })
guarded-IsValid e errors disabled in_tick v = record {
  learns = v.learns;
  rate = v.rate;
  timer = v.timer;
  history = v.history;
  since = v.since;
  clock = v.clock;
}

on_tick-IsValid : (e : Engine) (r : Readings) → IsValid e → IsValid (on_tick e r)
unfolding on_tick check
on_tick-IsValid e r v = elim (Bool-cases (not (e.magic == magic_word) || e.disabled)) [
  | inl latched ↦ rw latched (
      guarded-IsValid e (if e.magic == magic_word then add32 e.errors 1 else e.errors) true
        e.in_tick v)
  | inr fine ↦ rw fine (
      if_ind IsValid e.in_tick _ _ (λ t. v)
        (λ t. left_tick (tick (record e { in_tick = true }) r) (
          tick-IsValid (record e { in_tick = true }) r
            (guarded-IsValid e e.errors e.disabled true v))))
]
  where
    left_tick : (e : Engine) → IsValid e → IsValid (record e { in_tick = false })
    left_tick e w = guarded-IsValid e e.errors e.disabled false w

-- Over any ticks with any readings, the engine keeps the timer rate between 20 and 200 Hz, the Q table between -1 and 1 and its indices in range, and it has made one inference for every fifty ticks it counted, modulo the wrap of the counter.
pub run-IsValid : (e : Engine) (rs : List Readings) → IsValid e → IsValid (run e rs)
unfolding run
run-IsValid e [] v = v
run-IsValid e (r ∷ rs) v = run-IsValid (on_tick e r) rs (on_tick-IsValid e r v)
