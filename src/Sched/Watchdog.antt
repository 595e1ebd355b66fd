-- ===== src/Sched/Watchdog.antt =====
-- The watchdog of kernel/sched.c: when a task is flagged, and what becomes of a flagged task.
use mathlib.Core.Path.{subst}
use aeos.Sched.{Sched, Task, task, is_running, running}
use aeos.Base.{ℕ, ◌≡◌, suc, arith, ◌≢◌, leb, zero, ap, ◌+◌, ◌<◌, ◌∙◌, ◌^◌, sym, false, refl, some}
use aeos.Sched.Tick.{on_tick, tick_task, tick_at}
use aeos.Sched.Valid.{IsValid, Runs, field-update, size-update, task-update_self}

-- `n` timer interrupts with no call of the scheduler in between.
pub ticks : ℕ → Sched → Sched
ticks zero s = s
ticks (suc n) s = ticks n (on_tick s)

tick_task-state : (limit c : ℕ) (t : Task) → (tick_task limit c t).state ≡ t.state
unfolding tick_task
tick_task-state limit c t = ground arith

tick_task-space : (limit c : ℕ) (t : Task) → (tick_task limit c t).space ≡ t.space
unfolding tick_task
tick_task-space limit c t = ground arith

module _ (s : Sched) (c : ℕ) (v : IsValid s c) where
  open v use {size, current_is, current_in}

  on_tick-update : on_tick s ≡ tick_at s (some c)
  unfolding on_tick
  on_tick-update = ap (tick_at s) current_is

  state-on_tick : (j : ℕ) → (task (on_tick s).tasks j).state ≡ (task s.tasks j).state
  state-on_tick j = rw on_tick-update (
      field-update s c (tick_task s.watchdog_limit c) size current_in (λ t. t.state)
        (tick_task-state s.watchdog_limit c) j)

  space-on_tick : (j : ℕ) → (task (on_tick s).tasks j).space ≡ (task s.tasks j).space
  space-on_tick j = rw on_tick-update (
      field-update s c (tick_task s.watchdog_limit c) size current_in (λ t. t.space)
        (tick_task-space s.watchdog_limit c) j)

  pub on_tick-IsValid : IsValid (on_tick s) c
  on_tick-IsValid = record {
    size = rw on_tick-update (size-update s c (tick_task s.watchdog_limit c) size current_in);
    current_is = rw on_tick-update current_is;
    current_in = current_in;
    others = λ j ne. ap is_running (state-on_tick j) ∙ v.others j ne;
    space_is = rw on_tick-update v.space_is ∙ sym (space-on_tick c);
  }

  task-on_tick : task (on_tick s).tasks c ≡ tick_task s.watchdog_limit c (task s.tasks c)
  task-on_tick =
      rw on_tick-update (task-update_self s c (tick_task s.watchdog_limit c) size current_in)

-- `c` runs, has had `k` ticks since its last yield, and is flagged if that reaches the limit.
record Watched (s : Sched) (c limit k : ℕ) : Type 0 where
  valid : IsValid s c
  runs : Runs s c
  limited : s.watchdog_limit ≡ limit
  starved : (task s.tasks c).starved_ticks ≡ k
  flagged : (task s.tasks c).kill_pending ≡ leb limit k

tick_task-Watched :
    (limit c k : ℕ) (t : Task)
    → limit ≢ 0
    → c ≢ 0
    → k + 1 < 2 ^ 32
    → t.state ≡ running
    → t.starved_ticks ≡ k
    → t.kill_pending ≡ leb limit k
    → ((tick_task limit c t).starved_ticks ≡ k + 1)
      × ((tick_task limit c t).kill_pending ≡ leb limit (k + 1))
unfolding tick_task
tick_task-Watched limit c k t lz cz small run st fl = ground arith

on_tick-Watched :
    (s : Sched) (c limit k : ℕ)
    → limit ≢ 0
    → c ≢ 0
    → k + 1 < 2 ^ 32
    → Watched s c limit k
    → Watched (on_tick s) c limit (k + 1)
on_tick-Watched s c limit k lz cz small w = record {
  valid = on_tick-IsValid s c w.valid;
  runs = state-on_tick s c w.valid c ∙ w.runs;
  limited = rw (on_tick-update s c w.valid) w.limited;
  starved = ap (λ t. t.starved_ticks) at ∙ stepped.0;
  flagged = ap (λ t. t.kill_pending) at ∙ stepped.1;
}
  where
    at : task (on_tick s).tasks c ≡ tick_task limit c (task s.tasks c)
    at = task-on_tick s c w.valid ∙ ap (λ l. tick_task l c (task s.tasks c)) w.limited

    stepped :
        ((tick_task limit c (task s.tasks c)).starved_ticks ≡ k + 1)
        × ((tick_task limit c (task s.tasks c)).kill_pending ≡ leb limit (k + 1))
    stepped = tick_task-Watched limit c k (task s.tasks c) lz cz small w.runs w.starved w.flagged

ticks-Watched :
    (n : ℕ) (s : Sched) (c limit k : ℕ)
    → limit ≢ 0
    → c ≢ 0
    → k + n < 2 ^ 32
    → Watched s c limit k
    → Watched (ticks n s) c limit (k + n)
unfolding ticks
ticks-Watched zero s c limit k lz cz small w = subst (Watched s c limit) (omega arith) w
ticks-Watched (suc n) s c limit k lz cz small w =
    subst (Watched (ticks n (on_tick s)) c limit) (omega arith) (
      ticks-Watched n (on_tick s) c limit (k + 1) lz cz (omega arith)
        (on_tick-Watched s c limit k lz cz (omega arith) w))

-- A running task other than main that has just yielded is flagged rogue after `n` timer ticks without
-- a yield exactly when `n` reaches the watchdog limit, if the limit is not 0, the current flag is
-- clear, and `n` is below 2^32; the invariant of the table holds after them.
pub ticks_flag :
    (n : ℕ) (s : Sched) (c : ℕ)
    → IsValid s c
    → Runs s c
    → c ≢ 0
    → s.watchdog_limit ≢ 0
    → (task s.tasks c).starved_ticks ≡ 0
    → (task s.tasks c).kill_pending ≡ false
    → n < 2 ^ 32
    → ((task (ticks n s).tasks c).kill_pending ≡ leb s.watchdog_limit n) × IsValid (ticks n s) c
ticks_flag n s c v runs cz lz st fl small = (w.flagged, w.valid)
  where
    fresh : Watched s c s.watchdog_limit 0
    fresh = record {
      valid = v;
      runs = runs;
      limited = refl;
      starved = st;
      flagged = fl ∙ ground arith;
    }

    w : Watched (ticks n s) c s.watchdog_limit n
    w =
        subst (Watched (ticks n s) c s.watchdog_limit) (omega arith)
          (ticks-Watched n s c s.watchdog_limit 0 lz cz (omega arith) fresh)
