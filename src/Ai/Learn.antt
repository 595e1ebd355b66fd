-- ===== src/Ai/Learn.antt =====
-- The learning engine, kernel/ai_learn.c: a Q table and a ring of experiences.
use aeos.Ai.{best_of}
use aeos.Fp.{fp_mul}
use aeos.Base.{
  suc, List, if◌then◌else◌, Bool, ℕ, set, replicate, pos, ℤ, leb, [], true, ltb, ltb_ℤ, ◌*◌, ◌∷◌,
  add32, get_or, i16, not, false, add_i32, ◌||◌, ◌/◌, ◌+ℤ◌, ◌+◌, ◌-ℤ◌, negsuc, ◌%◌, sub_i32, ◌^◌,
  magnitude, zero,
}
pub mod Valid

abbrev pub states : ℕ
states = 8

abbrev pub actions : ℕ
actions = 3

-- `LEARN_MEMORY`
abbrev pub memory : ℕ
memory = 32

-- `LEARN_ALPHA`, `LEARN_GAMMA` and `LEARN_EPSILON`
abbrev pub alpha : ℤ
alpha = pos 1638

abbrev pub gamma : ℤ
gamma = pos 52428

abbrev pub epsilon : ℕ
epsilon = 1638

pub record Experience : Type 0 where
  pub state : ℕ
  pub action : ℕ
  pub reward : ℤ
  pub next_state : ℕ
  pub is_done : Bool

pub record Learn : Type 0 where
  pub q_table : List (List ℤ)
  pub replay : List Experience
  pub replay_count : ℕ
  pub replay_head : ℕ
  pub total_updates : ℕ
  pub total_reward : ℕ
  pub episodes : ℕ
  pub enabled : Bool

abbrev pub zero_experience : Experience
zero_experience = record { state = 0; action = 0; reward = pos 0; next_state = 0; is_done = false }

-- The row that `ai_learn_init` leaves for state `s`: its three loops over the states in turn.
abbrev prior : ℕ → List ℤ
prior s =
    pos 6553
    ∷ (if ltb s (states / 3) then pos 6553 else pos 0)
    ∷ (if leb (states / 2) s then pos 3276 else negsuc 3275)
    ∷ []

-- The rows `s`, `s + 1`, …, `n` of them.
abbrev priors : ℕ → ℕ → List (List ℤ)
priors s zero = []
priors s (suc n) = prior s ∷ priors (suc s) n

-- `ai_learn_init`
abbrev pub init : Learn
init = record {
  q_table = priors 0 states;
  replay = replicate memory zero_experience;
  replay_count = 0;
  replay_head = 0;
  total_updates = 0;
  total_reward = 0;
  episodes = 0;
  enabled = true;
}

-- `ai_learn_get_state`
unfoldable pub get_state : ℕ → ℕ → ℕ → ℕ
get_state heap_pct page_pct error_count =
    let state = add32 heap_pct page_pct / 2 * states % 2 ^ 32 / 100 in
    let pushed =
      (if ltb 10 error_count
        then 7
        else if ltb 5 error_count
        then (if ltb state 6 then state + 2 else state)
        else state) in
    if leb states pushed then 7 else pushed

-- `fp_rand`
abbrev pub fp_rand : ℕ → ℕ
fp_rand seed = (seed * 1103515245 + 12345) % 2 ^ 32 / 65536 % 32768

abbrev pub row : Learn → ℕ → List ℤ
row l s = get_or l.q_table s []

abbrev pub q : Learn → ℕ → ℕ → ℤ
q l s a = get_or (row l s) a (pos 0)

-- `ai_learn_best_action`
pub best_action : Learn → ℕ → ℕ
best_action l state = if leb states state then 0 else best_of (row l state) 1 0 2

-- `ai_learn_choose_action`
pub choose_action : Learn → ℕ → ℕ
choose_action l state =
    let r = fp_rand (add32 l.total_updates l.replay_count) in
    if ltb r epsilon then r % actions else best_action l state

-- `ai_learn_store`
pub store : Learn → ℕ → ℕ → ℤ → ℕ → Learn
store l state action reward next_state = record l {
  replay = set l.replay l.replay_head (record {
    state = state;
    action = action;
    reward = reward;
    next_state = next_state;
    is_done = leb 7 next_state;
  });
  replay_head = add32 l.replay_head 1 % memory;
  replay_count = if ltb l.replay_count memory then add32 l.replay_count 1 else l.replay_count;
  total_reward = add32 l.total_reward (magnitude reward);
}

-- The two tests that clamp an entry
abbrev pub clamp_q : ℤ → ℤ
clamp_q v =
    let capped = (if ltb_ℤ (pos 65536) v then pos 65536 else v) in
    if ltb_ℤ capped (negsuc 65535) then negsuc 65535 else capped

-- The largest entry of a row
abbrev pub max_q : List ℤ → ℤ
max_q v =
    let first = get_or v 0 (pos 0) in
    let second = get_or v 1 (pos 0) in
    let third = get_or v 2 (pos 0) in
    let larger = (if ltb_ℤ first second then second else first) in
    if ltb_ℤ larger third then third else larger

-- The new entry for an experience
abbrev pub learned : Learn → Experience → ℤ
learned l e =
    let current_q = q l e.state e.action in
    let target = add_i32 e.reward (fp_mul gamma (max_q (row l e.next_state))) in
    let delta = sub_i32 target current_q in clamp_q (add_i32 current_q (fp_mul alpha delta))

pub learn_from : Learn → Experience → Learn
learn_from l e = record l {
  q_table = set l.q_table e.state (set (row l e.state) e.action (learned l e));
}

-- The loop of `ai_learn_update` over `n` samples from the `i`-th on
pub replays : Learn → ℕ → ℕ → Learn
replays l i zero = l
replays l i (suc n) =
    replays
      (learn_from l (get_or l.replay (add32 l.total_updates i % l.replay_count) zero_experience))
      (suc i) n

-- `ai_learn_update`
pub update : Learn → Learn
update l =
    if not l.enabled || ltb l.replay_count 4
    then l
    else let samples = (if ltb l.replay_count 8 then l.replay_count else 8) in
      let done = replays l 0 samples in
      record done {
        total_updates = add32 done.total_updates samples;
        episodes = add32 done.episodes 1;
      }

-- `if (test) reward += d`
abbrev pub adjust : Bool → ℤ → ℤ → ℤ
adjust test d reward = if test then i16 (reward +ℤ d) else reward

-- `ai_learn_calculate_reward`
pub calculate_reward : ℕ → ℕ → ℕ → ℕ → ℤ
calculate_reward heap_pct page_pct errors inferences =
    let r1 = adjust (ltb 0 inferences) (pos 10) (pos 0) in
    let r2 = adjust (ltb heap_pct 50) (pos 5) r1 in
    let r3 = adjust (ltb page_pct 50) (pos 5) r2 in
    let r4 = (if ltb 0 errors then i16 (r3 -ℤ i16 (pos (errors * 20 % 2 ^ 32))) else r3) in
    let r5 = adjust (ltb 80 heap_pct) (negsuc 14) r4 in
    let r6 = adjust (ltb 80 page_pct) (negsuc 14) r5 in adjust (ltb 95 heap_pct) (negsuc 49) r6

-- `ai_learn_set_enabled`
abbrev pub set_enabled : Learn → Bool → Learn
set_enabled l enabled = record l { enabled = enabled }

-- `ai_learn_get_q_value`
abbrev pub get_q_value : Learn → ℕ → ℕ → ℤ
get_q_value l state action =
    if leb states state || leb actions action then pos 0 else q l state action
