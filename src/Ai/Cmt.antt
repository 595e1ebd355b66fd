-- ===== src/Ai/Cmt.antt =====
-- The second network of the kernel, kernel/cmt_core.c and kernel/cmt_api.c.
use aeos.Fp.{fp_from_ratio, fp_softsign, fp_clamp, fp_abs, fp_one}
use aeos.Ai.Core.{minus_quarter, two, nil, half, minus_one, minus_two, minus_half, body_input}
use aeos.Ai.{period, Readings, best_of, sums}
use aeos.Base.{
  ℕ, ℤ, if◌then◌else◌, List, true, Bool, false, pos, negsuc, ltb, map, not, add32, ◌==◌, get_or,
  replicate, quot, ltb_ℤ, ◌&&◌, sub32, pos_part, set, ◌∷◌, ◌||◌, [], add_i32, sub_i32, i32, ◌*◌,
  ◌%◌,
}
pub mod Levels

abbrev pub magic_word : ℕ
magic_word = 0x434D5430

-- `CMT_HIST_LEN`
abbrev pub history_len : ℕ
history_len = 32

-- `cmt_experience_t`
pub record Embedding : Type 0 where
  pub dims : List ℤ
  pub energy : ℤ
  pub coherence : ℤ

-- `cmt_hist_entry_t`
pub record Moment : Type 0 where
  pub tick : ℕ
  pub action : ℕ
  pub level : ℕ
  pub energy : ℤ

-- `cmt_engine_t` with its `cmt_state_t`, less the flag for printing; the inputs are a list of six.
pub record Cmt : Type 0 where
  pub magic : ℕ
  pub level : ℕ
  pub action : ℕ
  pub inferences : ℕ
  pub errors : ℕ
  pub hz : ℕ
  pub uptime : ℕ
  pub disabled : Bool
  pub experience : Embedding
  pub last_input : List ℤ
  pub history : List Moment
  pub hist_count : ℕ
  pub ticks_since_infer : ℕ
  pub ticks_total : ℕ

abbrev pub zero_moment : Moment
zero_moment = record { tick = 0; action = 0; level = 0; energy = pos 0 }

-- `cmt_init`
abbrev pub init : Cmt
init = record {
  magic = magic_word;
  level = 0;
  action = 0;
  inferences = 0;
  errors = 0;
  hz = 0;
  uptime = 0;
  disabled = false;
  experience = record { dims = replicate 12 (pos 0); energy = pos 0; coherence = pos 0 };
  last_input = replicate 6 (pos 0);
  history = replicate history_len zero_moment;
  hist_count = 0;
  ticks_since_infer = 0;
  ticks_total = 0;
}

abbrev w1 : List (List ℤ)
w1 =
    (two ∷ half ∷ nil ∷ nil ∷ nil ∷ nil ∷ [])
    ∷ (minus_two ∷ minus_half ∷ nil ∷ nil ∷ nil ∷ nil ∷ [])
    ∷ (half ∷ two ∷ nil ∷ nil ∷ nil ∷ nil ∷ [])
    ∷ (nil ∷ nil ∷ two ∷ nil ∷ nil ∷ nil ∷ [])
    ∷ (nil ∷ nil ∷ nil ∷ two ∷ nil ∷ nil ∷ [])
    ∷ (nil ∷ nil ∷ nil ∷ nil ∷ two ∷ nil ∷ [])
    ∷ (nil ∷ nil ∷ nil ∷ nil ∷ nil ∷ two ∷ [])
    ∷ (half ∷ half ∷ nil ∷ nil ∷ nil ∷ nil ∷ [])
    ∷ (nil ∷ nil ∷ half ∷ half ∷ nil ∷ nil ∷ [])
    ∷ (nil ∷ nil ∷ nil ∷ nil ∷ half ∷ half ∷ [])
    ∷ (minus_one ∷ minus_one ∷ minus_one ∷ nil ∷ nil ∷ nil ∷ [])
    ∷ (nil ∷ nil ∷ nil ∷ nil ∷ nil ∷ nil ∷ [])
    ∷ []

abbrev b1 : List ℤ
b1 = nil ∷ nil ∷ minus_one ∷ nil ∷ nil ∷ nil ∷ nil ∷ half ∷ nil ∷ nil ∷ half ∷ nil ∷ []

abbrev w2 : List (List ℤ)
w2 =
    (minus_quarter ∷ minus_quarter ∷ minus_quarter ∷ minus_quarter ∷ minus_quarter ∷ minus_quarter
      ∷ minus_quarter ∷ half ∷ half ∷ half ∷ half ∷ half ∷ [])
    ∷ (two ∷ minus_two ∷ nil ∷ two ∷ nil ∷ nil ∷ nil ∷ minus_half ∷ minus_half ∷ nil ∷ minus_one
        ∷ nil ∷ [])
    ∷ (nil ∷ two ∷ two ∷ minus_two ∷ minus_two ∷ minus_two ∷ minus_two ∷ nil ∷ nil ∷ minus_half
        ∷ two ∷ nil ∷ [])
    ∷ []

abbrev b2 : List ℤ
b2 = nil ∷ nil ∷ nil ∷ []

-- What the decision engine reports: ai_inference_count, ai_error_count and ai_last_action.
pub record Report : Type 0 where
  pub inferences : ℕ
  pub errors : ℕ
  pub action : ℕ

-- `cmt_perceive`
pub perceive : Cmt → Readings → Report → List ℤ
perceive c r ai =
    let ph = fp_from_ratio r.heap_used r.heap_cap in
    let pp = fp_from_ratio (sub32 r.pages_total r.pages_free) r.pages_total in
    let total = add32 ai.inferences ai.errors in
    quot (add_i32 ph pp) (pos 2)
    ∷ fp_clamp (sub_i32 fp_one (fp_from_ratio r.pages_free r.pages_total)) (pos 0) fp_one
    ∷ body_input c.ticks_since_infer
    ∷ (if ltb 0 total then fp_from_ratio ai.inferences total else fp_one)
    ∷ i32 (pos (ai.action * 65536))
    ∷ fp_clamp (fp_from_ratio (c.uptime % 1000) 1000) (pos 0) fp_one
    ∷ []

-- `te += fp_abs(hidden[i])`
unfoldable pub total_energy : ℤ → List ℤ → ℤ
total_energy te [] = te
total_energy te (h ∷ hs) = total_energy (add_i32 te (fp_abs h)) hs

abbrev pub hidden_layer : List ℤ → List ℤ
hidden_layer x = map fp_softsign (sums b1 w1 x)

-- What `cmt_transform` leaves in its second argument
abbrev pub embed : List ℤ → Embedding
embed hidden =
    let te = total_energy (pos 0) hidden in
    record {
      dims = hidden;
      energy = quot te (pos 12);
      coherence =
          if ltb_ℤ (pos 0) te
          then fp_clamp (quot te (add_i32 (fp_abs (get_or hidden 0 (pos 0))) (pos 1))) (pos 0)
              fp_one
          else pos 0;
    }

-- `cmt_transform`
pub transform : List ℤ → ℕ × Embedding
transform x = let hidden = hidden_layer x in (best_of (sums b2 w2 hidden) 0 0 3, embed hidden)

-- `cmt_derive_level`
pub derive_level : Embedding → ℕ
derive_level e =
    if not (ltb_ℤ (pos 0) e.energy)
    then 0
    else if ltb_ℤ e.energy (pos 32768)
    then 1
    else if ltb_ℤ e.energy (pos 65536) || ltb_ℤ e.coherence (pos 32768)
    then 2
    else 3

-- `cmt_record`
pub record_moment : Cmt → Moment → Cmt
record_moment c m =
    if ltb c.hist_count history_len
    then record c { history = set c.history c.hist_count m; hist_count = add32 c.hist_count 1 }
    else c

-- `cmt_on_tick` from its inference on
unfoldable pub infer : Cmt → Readings → Report → Cmt
infer c r ai =
    let c1 = record c { ticks_since_infer = 0; inferences = add32 c.inferences 1 } in
    let x = perceive c1 r ai in
    let (action, e) = transform x in
    let level = derive_level e in
    record_moment (record c1 { last_input = x; experience = e; level = level; action = action })
      (record { tick = c1.ticks_total; action = action; level = level; energy = e.energy })

-- `cmt_on_tick`
pub on_tick : Cmt → Readings → Report → Cmt
on_tick c r ai =
    let counted = record c {
      uptime = add32 c.uptime 1;
      ticks_total = add32 c.ticks_total 1;
      ticks_since_infer = add32 c.ticks_since_infer 1;
    } in
    if c.disabled
    then c
    else if ltb counted.ticks_since_infer period
    then counted
    else infer counted r ai

-- `cmt_force_inference`
abbrev pub force_inference : Cmt → Cmt
force_inference c = record c { ticks_since_infer = period }

-- `cmt_disable`, `cmt_enable` and `cmt_is_healthy`
abbrev pub disable : Cmt → Cmt
disable c = record c { disabled = true }

abbrev pub enable : Cmt → Cmt
enable c = record c { disabled = false }

abbrev pub is_healthy : Cmt → Bool
is_healthy c = c.magic == magic_word && not c.disabled

-- `cmt_history_tick`, `cmt_history_action`, `cmt_history_level` and `cmt_history_energy`
abbrev pub in_history : Cmt → ℤ → Bool
in_history c (pos i) = ltb i c.hist_count
in_history c (negsuc i) = false

abbrev pub moment_at : Cmt → ℤ → Moment
moment_at c i = get_or c.history (pos_part i) zero_moment

abbrev pub history_tick : Cmt → ℤ → ℕ
history_tick c i = if in_history c i then (moment_at c i).tick else 0

abbrev pub history_action : Cmt → ℤ → ℤ
history_action c i = if in_history c i then pos (moment_at c i).action else negsuc 0

abbrev pub history_level : Cmt → ℤ → ℤ
history_level c i = if in_history c i then pos (moment_at c i).level else negsuc 0

abbrev pub history_energy : Cmt → ℤ → ℤ
history_energy c i = if in_history c i then (moment_at c i).energy else pos 0
