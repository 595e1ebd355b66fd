-- ===== src/Ipc/Tests.antt =====
-- Concrete runs of the message queues of kernel/ipc.c, and instances of the theorems about them.
use aeos.Base.{◌≡◌, refl, pos, List, [], ◌∷◌, none, some, arith, replicate, All, find_index}
use aeos.Ipc.{Queue, Out, zero_queue, ok, err_empty, err_invalid}
use aeos.Ipc.Spec
use aeos.Ipc.Valid.{TableValid, boot-TableValid}
use aeos.Ipc.Table.{channels}
use aeos.Ipc.Calls.{
  Call, creates, sends, recvs, destroys, Reply, CallHolds, step, step-TableValid, run, spec_run,
  run_refines, spec_step,
}

abbrev boot : List Queue
boot = replicate 8 zero_queue

abbrev blank : Out
blank = record { buf = some (9 ∷ 9 ∷ 9 ∷ []); len = some 7; sender = none }

abbrev script : List Call
script =
    creates 5
    ∷ sends (pos 0) (some (1 ∷ 2 ∷ [])) 2 5
    ∷ recvs (pos 0) blank
    ∷ recvs (pos 0) blank
    ∷ destroys (pos 3)
    ∷ []

abbrev script_replies : List Reply
script_replies =
    (pos 0, none)
    ∷ (ok, none)
    ∷ (ok, some (record blank { buf = some (1 ∷ 2 ∷ 9 ∷ []); len = some 2 }))
    ∷ (err_empty, some blank)
    ∷ (err_invalid, none)
    ∷ []

script-CallHolds : All CallHolds script
script-CallHolds = omega arith

step-TableValid_example : TableValid (step boot (sends (pos 0) (some (1 ∷ [])) 1 5)).1
step-TableValid_example =
    step-TableValid boot boot-TableValid (sends (pos 0) (some (1 ∷ [])) 1 5) (omega arith)

run_refines_example : run boot script ≡ spec_run (channels boot) script
run_refines_example = run_refines script boot boot-TableValid script-CallHolds

spec_script : spec_run (channels boot) script ≡ script_replies
unfolding spec_run spec_step Spec.create Spec.send Spec.push Spec.recv Spec.recv_buf Spec.pop
    Spec.destroy find_index
spec_script = refl
