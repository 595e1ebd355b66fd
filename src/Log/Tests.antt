-- ===== src/Log/Tests.antt =====
-- Concrete runs of the formatter of kernel/log.c, and an instance of the theorem about it.
use aeos.Log.Recent.{Call, write_call, run, recent, kept, dump-run}
use aeos.Log.Ring.{dump, init, entry_of, first_message, level_info}
use aeos.Log.Bounds.{length-vsnprintf}
use aeos.Log.{vsnprintf, Arg, format, emit, int_arg, digits, string_arg}
use aeos.Base.{List, length, ◌<◌, ℕ, ◌∷◌, arith, negsuc, [], ◌≡◌, some, refl}

-- "x=%d %s" of -42 and "ok"
abbrev fmt_example : List ℕ
fmt_example = 120 ∷ 61 ∷ 37 ∷ 100 ∷ 32 ∷ 37 ∷ 115 ∷ []

abbrev args_example : List Arg
args_example = int_arg (negsuc 41) ∷ string_arg (some (111 ∷ 107 ∷ [])) ∷ []

formatted : vsnprintf 128 fmt_example args_example ≡ 120 ∷ 61 ∷ 45 ∷ 52 ∷ 50 ∷ 32 ∷ 111 ∷ 107 ∷ []
unfolding vsnprintf format emit digits
formatted = refl

-- "%5s" prints an s and takes no argument, so the next conversion gets the one meant for it.
width_unknown :
    vsnprintf 128 (37 ∷ 53 ∷ 115 ∷ 37 ∷ 115 ∷ []) (string_arg (some (65 ∷ [])) ∷ []) ≡ 115 ∷ 65 ∷ []
unfolding vsnprintf format emit digits
width_unknown = refl

length-vsnprintf_example : length (vsnprintf 4 fmt_example args_example) < 4
length-vsnprintf_example = length-vsnprintf 4 fmt_example args_example (omega arith)

-- Two messages, of which the first is below the level
abbrev calls_example : List Call
calls_example =
    write_call
      (record { now = 5; level = 1; source = 68 ∷ []; fmt = fmt_example; args = args_example })
    ∷ write_call
        (record { now = 6; level = 4; source = 69 ∷ []; fmt = fmt_example; args = args_example })
    ∷ []

dump-run_example :
    (dump (run calls_example (init 3))
      ≡ recent (entry_of (first_message 3) ∷ kept level_info calls_example))
    × (((run calls_example (init 3)).total ≡ 2) × ((run calls_example (init 3)).error_total ≡ 1))
dump-run_example = dump-run 3 calls_example (omega arith)
