-- ===== src/Log/Recent.antt =====
-- The ring of kernel/log.c against the list of all messages it took.
use aeos.Log.Turn.{Live-set, Live}
use mathlib.Core.List.{append-nil, append_assoc}
use mathlib.Core.Path.{ap₂}
use aeos.Base.{
  List, ℕ, drop, ◌≤◌, if◌then◌else◌, suc, length, ◌++◌, ◌≡◌, arith, ◌-◌, leb, ◌+◌, ◌<◌, window, [],
  ◌^◌, ◌%◌, ◌∷◌, refl, zero, length-set, get_or, ◌∙◌, length-append, true, false, ltb, if_ind,
  Bool-cases, inl, inr,
}
use aeos.Log.Ring.{
  Log, Message, write, Entry, set_level, entry_of, empty_entry, init, dump, cleared, dump_from,
  level_info, first_message,
}

-- A use of the log
pub data Call : Type 0 where
  write_call : Message → Call
  level_call : ℕ → Call

abbrev pub call : Call → Log → Log
call (write_call m) log = write log m
call (level_call l) log = set_level log l

abbrev pub run : List Call → Log → Log
run [] log = log
run (c ∷ calls) log = run calls (call c log)

-- What is to be remembered of a run that starts at a level: the messages at the level of their time or above, in order
abbrev pub kept : ℕ → List Call → List Entry
kept level [] = []
kept level (level_call l ∷ calls) = if leb l 6 then kept l calls else kept level calls
kept level (write_call m ∷ calls) =
    if leb level m.level then entry_of m ∷ kept level calls else kept level calls

abbrev pub errors : List Entry → ℕ
errors [] = 0
errors (e ∷ es) = (if leb 4 e.level then 1 else 0) + errors es

abbrev pub recent : List Entry → List Entry
recent hist = drop (length hist - 64) hist

errors-append : (xs ys : List Entry) → errors (xs ++ ys) ≡ errors xs + errors ys
errors-append [] ys = omega arith
errors-append (x ∷ xs) ys = omega (arith, errors-append xs ys)

errors_le : (es : List Entry) → errors es ≤ length es
errors_le [] = omega arith
errors_le (e ∷ es) = ground (arith, errors_le es)

-- The log after it took `hist`, all in all
record Took (hist : List Entry) (log : Log) : Type 0 where
  cells : length log.buffer ≡ 64
  counted : log.total ≡ length hist
  at : log.head ≡ length hist % 64
  live : Live 64 hist log.buffer
  errs : log.error_total ≡ errors hist

cleared-Took : Took [] cleared
unfolding Live
cleared-Took = record { cells = refl; counted = refl; at = refl; live = refl; errs = refl }

push-Took :
    (hist : List Entry) (log : Log) (m : Message)
    → Took hist log
    → suc (length hist) < 2 ^ 32
    → leb log.current_level m.level ≡ true
    → Took (hist ++ (entry_of m ∷ [])) (write log m)
unfolding write
push-Took hist log m t fits e =
    rw (above, t.at)
      (record {
        cells = length-set log.buffer (length hist % 64) (entry_of m) ∙ t.cells;
        counted = omega (arith, t.counted, fits, longer);
        at = omega (arith, longer);
        live = Live-set hist log.buffer 63 (entry_of m) (omega (arith, t.cells)) t.live;
        errs = ground (arith, t.errs, errors-append hist (entry_of m ∷ []), errors_le hist, fits);
      })
  where
    above : ltb m.level log.current_level ≡ false
    above = ground (arith, e)

    longer : length (hist ++ (entry_of m ∷ [])) ≡ suc (length hist)
    longer = omega (arith, length-append hist (entry_of m ∷ []))

skip-Took :
    (hist : List Entry) (log : Log) (m : Message)
    → leb log.current_level m.level ≡ false
    → write log m ≡ log
unfolding write
skip-Took hist log m e = ground (arith, e)

dump_from-window :
    (log : Log) (start i n : ℕ)
    → start + (i + n) < 2 ^ 32
    → dump_from log start i n ≡ window empty_entry log.buffer 64 start i n
unfolding dump_from
dump_from-window log start i zero h = refl
dump_from-window log start i (suc n) h =
    ap₂ (λ k l. get_or log.buffer (k % 64) empty_entry ∷ l) (omega (arith, h))
      (dump_from-window log start (suc i) n (omega (arith, h)))

dump-Took :
    (hist : List Entry) (log : Log) → Took hist log → length hist < 2 ^ 32 → dump log ≡ recent hist
unfolding dump Live
dump-Took hist log t fits =
    dump_from-window log _ 0 _ (ground (arith, t.counted, fits))
    ∙ ap₂ (λ start n. window empty_entry log.buffer 64 start 0 n) (ground (arith, t.counted))
        (ground (arith, t.counted))
    ∙ t.live

write_level : (log : Log) (m : Message) → (write log m).current_level ≡ log.current_level
unfolding write
write_level log m = ground arith

set_level-Took :
    (hist : List Entry) (log : Log) (l : ℕ) → Took hist log → Took hist (set_level log l)
unfolding set_level
set_level-Took hist log l t =
    if_ind (λ (g : Log). Took hist g) (leb l 6) _ _
      (λ e. record {
        cells = t.cells;
        counted = t.counted;
        at = t.at;
        live = t.live;
        errs = t.errs;
      })
      (λ e. t)

kept-set_level :
    (log : Log) (l : ℕ) (calls : List Call)
    → kept log.current_level (level_call l ∷ calls) ≡ kept (set_level log l).current_level calls
unfolding set_level
kept-set_level log l calls = elim (Bool-cases (leb l 6)) [ inl e ↦ rw e refl | inr e ↦ rw e refl ]

run-Took :
    (calls : List Call) (hist : List Entry) (log : Log)
    → Took hist log
    → length hist + length (kept log.current_level calls) < 2 ^ 32
    → Took (hist ++ kept log.current_level calls) (run calls log)
unfolding write
run-Took [] hist log t fits = rw (append-nil hist) t
run-Took (level_call l ∷ calls) hist log t fits = rw (kept-set_level log l calls) (
    run-Took calls hist (set_level log l) (set_level-Took hist log l t)
      (rw (kept-set_level log l calls) at fits))
run-Took (write_call m ∷ calls) hist log t fits =
    elim (Bool-cases (leb log.current_level m.level)) [
      | inl e ↦ rw e (
          rw (write_level log m, append_assoc) at
            (run-Took calls (hist ++ (entry_of m ∷ [])) (write log m)
              (push-Took hist log m t (room e) e) (rw (write_level log m) (rest e))))
      | inr e ↦ rw (skip-Took hist log m e, e) (run-Took calls hist log t (rw e at fits))
    ]
  where
    room : leb log.current_level m.level ≡ true → suc (length hist) < 2 ^ 32
    room e = omega (arith, rw e at fits)

    rest :
        leb log.current_level m.level ≡ true
        → length (hist ++ (entry_of m ∷ [])) + length (kept log.current_level calls) < 2 ^ 32
    rest e = omega (arith, length-append hist (entry_of m ∷ []), rw e at fits)

-- After the log is set up and any calls, of which fewer than 2 ^ 32 are kept with the first message, a dump shows the last 64 of what is kept, in order, and the counters say how much was kept and how many of it were errors.
pub dump-run :
    (now : ℕ) (calls : List Call)
    → suc (length (kept level_info calls)) < 2 ^ 32
    → let log = run calls (init now) in
      let hist = entry_of (first_message now) ∷ kept level_info calls in
      (dump log ≡ recent hist) × ((log.total ≡ length hist) × (log.error_total ≡ errors hist))
unfolding init write
dump-run now calls fits =
    let t =
      run-Took calls (entry_of (first_message now) ∷ []) (init now)
        (push-Took [] cleared (first_message now) cleared-Took (omega arith) refl)
        (omega (arith, fits)) in
    (dump-Took _ _ t fits, (t.counted, t.errs))
