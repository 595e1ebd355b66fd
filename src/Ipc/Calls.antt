-- ===== src/Ipc/Calls.antt =====
-- Sequences of calls of kernel/ipc.c, with what each caller sees, against the same calls on channels.
use aeos.Base.{ℕ, ◌≡◌, refl, ap, ◌∙◌, ℤ, Option, none, some, List, [], ◌∷◌, All}
use aeos.Ipc.{Queue, Out, create, send, recv, destroy}
use aeos.Ipc.Spec
use aeos.Ipc.Spec.{Channel}
use aeos.Ipc.Valid.{
  TableValid, Holds, clipped, create-TableValid, send-TableValid, recv-TableValid,
  destroy-TableValid,
}
use aeos.Ipc.Table.{channels, create_refines, send_refines, recv_refines, destroy_refines}

pub data Call : Type 0 where
  creates : ℕ → Call
  sends : ℤ → Option (List ℕ) → ℕ → ℕ → Call
  recvs : ℤ → Out → Call
  destroys : ℤ → Call

-- The C result, and for `ipc_recv` what stands at its pointers.
abbrev pub Reply : Type 0
Reply = ℤ × Option Out

pub step : List Queue → Call → Reply × List Queue
step queues (creates owner) = let (r, queues') = create queues owner in ((r, none), queues')
step queues (sends id src len sender) =
    let (r, queues') = send queues id src len sender in ((r, none), queues')
step queues (recvs id out) =
    let (r, out', queues') = recv queues id out in ((r, some out'), queues')
step queues (destroys id) = let (r, queues') = destroy queues id in ((r, none), queues')

unfoldable pub spec_step : List Channel → Call → Reply × List Channel
spec_step cs (creates owner) = let (r, cs') = Spec.create cs in ((r, none), cs')
spec_step cs (sends id src len sender) =
    let (r, cs') = Spec.send cs id src len sender in ((r, none), cs')
spec_step cs (recvs id out) = let (r, out', cs') = Spec.recv cs id out in ((r, some out'), cs')
spec_step cs (destroys id) = let (r, cs') = Spec.destroy cs id in ((r, none), cs')

pub run : List Queue → List Call → List Reply
run queues [] = []
run queues (c ∷ calls) = let (r, queues') = step queues c in r ∷ run queues' calls

unfoldable pub spec_run : List Channel → List Call → List Reply
spec_run cs [] = []
spec_run cs (c ∷ calls) = let (r, cs') = spec_step cs c in r ∷ spec_run cs' calls

-- A caller of `ipc_send` owns the bytes that are copied.
abbrev pub CallHolds : Call → Type 0
CallHolds (sends id src len sender) = Holds src (clipped len)
CallHolds (creates owner) = Unit
CallHolds (recvs id out) = Unit
CallHolds (destroys id) = Unit

module _ (queues : List Queue) (t : TableValid queues) where
  -- Every call keeps the table valid: eight queues, indices in the ring, payloads of 64 bytes with a
  -- length of at most 64, and the tail where head and count put it, if `ipc_send`'s caller owns the
  -- bytes that are copied.
  pub step-TableValid : (c : Call) → CallHolds c → TableValid (step queues c).1
  unfolding step
  step-TableValid (creates owner) h = create-TableValid queues t owner
  step-TableValid (sends id src len sender) h = send-TableValid queues t id src len sender h
  step-TableValid (recvs id out) h = recv-TableValid queues t id out
  step-TableValid (destroys id) h = destroy-TableValid queues t id

  pub step_refines :
      (c : Call)
      → CallHolds c
      → let (r, queues') = step queues c in (r, channels queues') ≡ spec_step (channels queues) c
  unfolding step spec_step
  step_refines (creates owner) h =
      ap (λ (r : ℤ × List Channel). ((r.0, none), r.1)) (create_refines queues t owner)
  step_refines (sends id src len sender) h =
      ap (λ (r : ℤ × List Channel). ((r.0, none), r.1)) (send_refines queues t id src len sender h)
  step_refines (recvs id out) h =
      ap (λ (r : ℤ × Out × List Channel). ((r.0, some r.1), r.2)) (recv_refines queues t id out)
  step_refines (destroys id) h =
      ap (λ (r : ℤ × List Channel). ((r.0, none), r.1)) (destroy_refines queues t id)

-- No sequence of create, send, receive and destroy calls tells a valid table of ring buffers from
-- eight bounded FIFO channels: every result code and every byte handed out is the same, if each
-- sender owns the bytes that are copied.
pub run_refines :
    (calls : List Call) (queues : List Queue)
    → TableValid queues
    → All CallHolds calls
    → run queues calls ≡ spec_run (channels queues) calls
unfolding run spec_run
run_refines [] queues t h = refl
run_refines (c ∷ calls) queues t h =
    ap (λ rs. (step queues c).0 ∷ rs)
      (run_refines calls (step queues c).1 (step-TableValid queues t c h.0) h.1)
    ∙ ap (λ (r : Reply × List Channel). r.0 ∷ spec_run r.1 calls) (step_refines queues t c h.0)
