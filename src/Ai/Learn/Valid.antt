-- ===== src/Ai/Learn/Valid.antt =====
-- What kernel/ai_learn.c keeps: a Q table of entries between -1 and 1, and a ring of experiences in range.
use aeos.Fp.{fp_mul}
use native.Mathlib.Nat.{mod-lt}
use aeos.Ai.{best_of}
use aeos.Ai.Learn.{
  best_action, Experience, replays, update, store, get_state, zero_experience, choose_action,
  learn_from, Learn, clamp_q, row, actions, states, memory, fp_rand, learned, epsilon, q, init,
  gamma, max_q, alpha,
}
use aeos.Base.{
  suc, List, ℤ, arith, ℕ, magnitude, length, ◌<◌, ◌≤◌, ◌+◌, All-get_or, ◌≡◌, [], All, length-set,
  if_ind, leb, ◌∙◌, ltb, All-set, add32, ◌%◌, if◌then◌else◌, ltb_ℤ, get_or, zero, pos, not, add_i32,
  ◌||◌, length-replicate, All-replicate, refl, sub_i32,
}

-- An entry between -65536 and 65536, that is -1 and 1 in Q16.16
abbrev pub InUnit : ℤ → Type 0
InUnit v = magnitude v ≤ 65536

abbrev pub IsRow : List ℤ → Type 0
IsRow v = (length v ≡ actions) × All InUnit v

abbrev pub IsExperience : Experience → Type 0
IsExperience e = (e.state < states) × (e.action < actions) × (e.next_state < states)

pub record IsValid (l : Learn) : Type 0 where
  pub rows : length l.q_table ≡ states
  pub table : All IsRow l.q_table
  pub room : length l.replay ≡ memory
  pub ring : All IsExperience l.replay
  pub head : l.replay_head < memory
  pub count : l.replay_count ≤ memory

clamp_q-InUnit : (v : ℤ) → InUnit (clamp_q v)
clamp_q-InUnit v = ground arith

learned-InUnit : (l : Learn) (e : Experience) → InUnit (learned l e)
learned-InUnit l e =
    let current_q = q l e.state e.action in
    let target = add_i32 e.reward (fp_mul gamma (max_q (row l e.next_state))) in
    clamp_q-InUnit (add_i32 current_q (fp_mul alpha (sub_i32 target current_q)))

pub get_state-lt : (heap page errors : ℕ) → get_state heap page errors < states
unfolding get_state
get_state-lt heap page errors = ground arith

pub best_of-lt :
    (v : List ℤ) (j best n bound : ℕ) → best < bound → j + n ≤ bound → best_of v j best n < bound
unfolding best_of
best_of-lt v j best zero bound h k = h
best_of-lt v j best (suc n) bound h k =
    best_of-lt v (suc j) (if ltb_ℤ (get_or v best (pos 0)) (get_or v j (pos 0)) then j else best) n
      bound
      (if_ind (λ x. x < bound) (ltb_ℤ (get_or v best (pos 0)) (get_or v j (pos 0))) j best
        (λ e. omega (arith, k)) (λ e. h))
      (omega (arith, k))

pub best_action-lt : (l : Learn) (state : ℕ) → best_action l state < actions
unfolding best_action
best_action-lt l state =
    if_ind (λ x. x < actions) (leb states state) _ _ (λ e. omega arith)
      (λ e. best_of-lt (row l state) 1 0 2 actions (omega arith) (omega arith))

pub choose_action-lt : (l : Learn) (state : ℕ) → choose_action l state < actions
unfolding choose_action
choose_action-lt l state =
    if_ind (λ x. x < actions) (ltb (fp_rand (add32 l.total_updates l.replay_count)) epsilon) _ _
      (λ e. omega arith) (λ e. best_action-lt l state)

pub store-IsValid :
    (l : Learn) (state action : ℕ) (reward : ℤ) (next : ℕ)
    → IsValid l
    → state < states
    → action < actions
    → next < states
    → IsValid (store l state action reward next)
unfolding store
store-IsValid l state action reward next v hs ha hn = record {
  rows = v.rows;
  table = v.table;
  room = length-set l.replay l.replay_head _ ∙ v.room;
  ring = All-set IsExperience l.replay l.replay_head _ v.ring (hs, ha, hn);
  head = omega arith;
  count = ground (arith, v.count);
}

learn_from-IsValid :
    (l : Learn) (e : Experience) → IsValid l → IsExperience e → IsValid (learn_from l e)
unfolding learn_from
learn_from-IsValid l e v h =
    let r : IsRow (row l e.state) =
      All-get_or IsRow l.q_table e.state [] v.table (omega (arith, v.rows, h.0)) in
    record {
      rows = length-set l.q_table e.state _ ∙ v.rows;
      table = All-set IsRow l.q_table e.state _ v.table (
        length-set (row l e.state) e.action (learned l e) ∙ r.0,
        All-set InUnit (row l e.state) e.action (learned l e) r.1 (learned-InUnit l e),
      );
      room = v.room;
      ring = v.ring;
      head = v.head;
      count = v.count;
    }

zero_experience-IsExperience : IsExperience zero_experience
zero_experience-IsExperience = omega arith

sample-IsExperience :
    (l : Learn) (i : ℕ)
    → IsValid l
    → 0 < l.replay_count
    → IsExperience (get_or l.replay (add32 l.total_updates i % l.replay_count) zero_experience)
sample-IsExperience l i v c =
    All-get_or IsExperience l.replay (add32 l.total_updates i % l.replay_count) zero_experience
      v.ring (omega (arith, v.room, v.count, mod-lt (add32 l.total_updates i) c))

replays-IsValid : (l : Learn) (i n : ℕ) → IsValid l → 0 < l.replay_count → IsValid (replays l i n)
unfolding replays learn_from
replays-IsValid l i zero v c = v
replays-IsValid l i (suc n) v c =
    let e = get_or l.replay (add32 l.total_updates i % l.replay_count) zero_experience in
    replays-IsValid (learn_from l e) (suc i) n
      (learn_from-IsValid l e v (sample-IsExperience l i v c)) c

-- Counting the updates and episodes leaves the rest alone.
counted-IsValid :
    (l : Learn) (updates episodes : ℕ)
    → IsValid l
    → IsValid (record l { total_updates = updates; episodes = episodes })
counted-IsValid l updates episodes v = record {
  rows = v.rows;
  table = v.table;
  room = v.room;
  ring = v.ring;
  head = v.head;
  count = v.count;
}

-- `ai_learn_update` keeps every entry of the Q table between -1 and 1 in Q16.16 and the ring of experiences in range, whatever was learned.
pub update-IsValid : (l : Learn) → IsValid l → IsValid (update l)
unfolding update
update-IsValid l v =
    if_ind IsValid (not l.enabled || ltb l.replay_count 4) _ _ (λ e. v)
      (λ e. counted-IsValid (replays l 0 (if ltb l.replay_count 8 then l.replay_count else 8)) _ _ (
        replays-IsValid l 0 (if ltb l.replay_count 8 then l.replay_count else 8) v
          (ground (arith, e))))

pub init-IsValid : IsValid init
init-IsValid = record {
  rows = refl;
  table = omega arith;
  room = length-replicate memory zero_experience;
  ring = All-replicate IsExperience memory zero_experience (omega arith);
  head = omega arith;
  count = omega arith;
}
