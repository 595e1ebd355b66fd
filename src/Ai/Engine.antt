-- ===== src/Ai/Engine.antt =====
-- The engine's tick, kernel/ai_api.c, which runs the networks, the learning and the diagnosis.
use aeos.Ai.Learn.{calculate_reward, get_state, choose_action, Learn, store, update}
use aeos.Ai.Core.{act, decide, perceive}
use aeos.Ai.{Readings, sustain, period}
use aeos.Ai.Learn
use aeos.Ai.Debug
use aeos.Ai.Cmt
use aeos.Ai.Debug.{Effect, Health, Debug, round, sets_hz, nothing, disables}
use aeos.Base.{
  ◌∷◌, pos, Bool, ℤ, ℕ, true, false, if◌then◌else◌, add32, List, ◌==◌, ◌&&◌, set, not, ◌%◌, ltb,
  ◌-◌, sub32, ◌^◌, ◌*◌, ◌||◌, ◌/◌, get_or, negsuc, leb, [],
}
use aeos.Ai.Cmt.{Report, Cmt}
pub mod Valid

abbrev pub magic_word : ℕ
magic_word = 0x41493130

-- `AI_HIST_LEN`
abbrev pub history_len : ℕ
history_len = 16

pub record Decision : Type 0 where
  pub tick : ℕ
  pub action : ℕ

-- `ai_state_t`, less the flag for printing, with the state of the engine's parts. `timer_hz` is the rate that timer_set_hz was last given.
pub record Engine : Type 0 where
  pub magic : ℕ
  pub ticks_total : ℕ
  pub ticks_since_infer : ℕ
  pub inferences : ℕ
  pub errors : ℕ
  pub hz : ℕ
  pub action : ℕ
  pub disabled : Bool
  pub in_tick : Bool
  pub hist : List Decision
  pub hist_count : ℕ
  pub learn : Learn
  pub debug : Debug
  pub cmt : Cmt
  pub timer_hz : ℕ

abbrev pub zero_decision : Decision
zero_decision = record { tick = 0; action = 0 }

-- `ai_init`; the history and the second network stay.
abbrev pub init : Engine → Engine
init e = record e {
  magic = magic_word;
  ticks_total = 0;
  ticks_since_infer = 0;
  inferences = 0;
  errors = 0;
  hz = 100;
  action = sustain;
  disabled = false;
  in_tick = false;
  hist_count = 0;
  learn = Learn.init;
  debug = Debug.init e.debug;
}

-- `ai_healthy`: its result, and the state with the fail-safe latched when it fails
unfoldable pub check : Engine → Bool × Engine
check e =
    if not (e.magic == magic_word) || e.disabled
    then (
      false,
      record e {
        errors = if e.magic == magic_word then add32 e.errors 1 else e.errors;
        disabled = true;
      },
    )
    else (true, e)

-- `(hu * 100) / hc` and `((pt - pf) * 100) / pt` on `uint32_t`, guarded
abbrev pub heap_pct : Readings → ℕ
heap_pct r = if ltb 0 r.heap_cap then r.heap_used * 100 % 2 ^ 32 / r.heap_cap else 0

abbrev pub page_pct : Readings → ℕ
page_pct r =
    if ltb 0 r.pages_total
    then sub32 r.pages_total r.pages_free * 100 % 2 ^ 32 / r.pages_total
    else 0

-- The state that the learning sees
abbrev pub state_of : Engine → Readings → ℕ
state_of e r = get_state (heap_pct r) (page_pct r) e.errors

-- The learned action, or the network's where the learned one is SUSTAIN and the network's is not
pub choose : Engine → Readings → ℕ
choose e r =
    let learned = choose_action e.learn (state_of e r) in
    let other = decide (perceive e.ticks_since_infer r) in
    if learned == sustain && not (other == sustain) then other else learned

-- The action, its effect on the rate, and its entry in the history
abbrev pub decided : Engine → ℕ → Engine
decided e action =
    let hz = act action e.cmt.level e.hz in
    record e {
      hz = hz;
      timer_hz = hz;
      action = action;
      inferences = add32 e.inferences 1;
      hist =
          set e.hist (e.hist_count % history_len)
            (record { tick = e.ticks_total; action = action });
      hist_count = add32 e.hist_count 1;
    }

-- The reward of the state, stored; every tenth inference the Q table is updated.
abbrev pub rewarded : Readings → ℕ → ℕ → Engine → Engine
rewarded r state action e =
    let reward = calculate_reward (heap_pct r) (page_pct r) e.errors e.inferences in
    let stored = store e.learn state action reward (state_of e r) in
    record e { learn = if e.inferences % 10 == 0 then update stored else stored }

-- What the diagnosis reads from the engine and the other modules
abbrev pub health : Engine → Readings → Health
health e r = record {
  heap_used = r.heap_used;
  heap_cap = r.heap_cap;
  errors = e.errors;
  inferences = e.inferences;
  hz = e.hz;
  cmt_level = e.cmt.level;
  cmt_errors = e.cmt.errors;
  ticks = r.ticks % 2 ^ 32;
}

-- What a fix does to the engine: `timer_set_hz` and `ai_disable`
abbrev pub take_effect : Engine → Effect → Engine
take_effect e nothing = e
take_effect e disables = record e { disabled = true }
take_effect e (sets_hz hz) = record e { timer_hz = hz }

-- Every twentieth inference the diagnosis runs.
abbrev pub diagnosed : Readings → Engine → Engine
diagnosed r e =
    if e.inferences % 20 == 0
    then (let (d, effect) = round (health e r) e.debug in
        take_effect (record e { debug = d }) effect)
    else e

-- `ai_on_tick` from its inference on
pub infer : Engine → Readings → Engine
infer e r =
    let e1 = record e { ticks_since_infer = 0 } in
    let action = choose e1 r in diagnosed r (rewarded r (state_of e1 r) action (decided e1 action))

-- What the second network reads from this one
abbrev pub report : Engine → Report
report e = record { inferences = e.inferences; errors = e.errors; action = e.action }

-- `ai_on_tick` between setting and clearing its guard
pub tick : Engine → Readings → Engine
tick e r =
    let total = add32 e.ticks_total 1 in
    let since = add32 e.ticks_since_infer 1 in
    let counted = record e {
      ticks_total = total;
      ticks_since_infer = since;
      cmt = Cmt.on_tick e.cmt r (report e);
    } in
    if leb period since then infer counted r else counted

-- `ai_on_tick`
unfoldable pub on_tick : Engine → Readings → Engine
on_tick e r =
    let (healthy, checked) = check e in
    if not healthy
    then checked
    else if checked.in_tick
    then checked
    else record (tick (record checked { in_tick = true }) r) { in_tick = false }

-- `ai_disable`, `ai_enable` and `ai_is_healthy`
abbrev pub disable : Engine → Engine
disable e = record e { disabled = true }

abbrev pub enable : Engine → Engine
enable e = record e { disabled = false; magic = magic_word }

abbrev pub is_healthy : Engine → Bool
is_healthy e = e.magic == magic_word && not e.disabled

-- `ai_history_count`
pub history_count : Engine → ℕ
history_count e = if ltb e.hist_count history_len then e.hist_count else history_len

-- The entry that `ai_history_tick` and `ai_history_action` read
abbrev pub decision_at : Engine → ℕ → Decision
decision_at e i =
    let start = (if ltb e.hist_count history_len then 0 else e.hist_count - history_len) in
    get_or e.hist (add32 start i % history_len) zero_decision

-- `ai_history_tick`
pub history_tick : Engine → ℤ → ℕ
history_tick e (negsuc i) = 0
history_tick e (pos i) = if leb (history_count e) i then 0 else (decision_at e i).tick

-- `ai_history_action`
pub history_action : Engine → ℤ → ℤ
history_action e (negsuc i) = negsuc 0
history_action e (pos i) =
    if leb (history_count e) i then negsuc 0 else pos (decision_at e i).action

-- Ticks with their readings
pub run : Engine → List Readings → Engine
run e [] = e
run e (r ∷ rs) = run (on_tick e r) rs
