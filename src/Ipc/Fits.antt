-- ===== src/Ipc/Fits.antt =====
-- What `ipc_recv` of kernel/ipc.c leaves at its three pointers.
use aeos.Ipc.Valid.{IsValid, TableValid, MsgFits}
use aeos.Base.{
  arith, List, ℕ, ◌≡◌, Option, some, ◌<◌, ℤ, if_ind, length, ◌≤◌, not, get_or, none, All-get_or,
  memcpy, length-memcpy, ◌==◌, refl, negsuc, pos, leb,
}
use aeos.Ipc.{recv_buf, recv, recv_from, Out, deliver, Queue, Msg, zero_queue, zero_msg}

-- The buffer holds at most a payload, and no null pointer is written through.
pub record Fits (out : Out) (out' : Out) : Type 0 where
  pub buf_fits : (x : List ℕ) → out'.buf ≡ some x → length x ≤ 64
  pub len_null : out.len ≡ none → out'.len ≡ none
  pub sender_null : out.sender ≡ none → out'.sender ≡ none

-- The caller's buffer is as long as a payload.
abbrev pub Roomy : Out → Type 0
Roomy out = (x : List ℕ) → out.buf ≡ some x → length x ≡ 64

unchanged : (out : Out) → Roomy out → Fits out out
unchanged out room = record {
  buf_fits = λ x e. omega (arith, room x e);
  len_null = λ e. e;
  sender_null = λ e. e;
}

recv_from-Fits :
    (q : Queue) (dst : List ℕ) (out : Out)
    → IsValid q
    → Roomy out
    → out.buf ≡ some dst
    → Fits out (recv_from q dst out).1
unfolding recv_from deliver
recv_from-Fits q dst out v room e =
    if_ind (λ (a : ℤ × Out × Queue). Fits out a.1) (q.count == 0) _ _ (λ f. unchanged out room)
      (λ f. record {
        buf_fits = λ x g. ground (arith, g, long);
        len_null = λ g. rw g refl;
        sender_null = λ g. rw g refl;
      })
  where
    msg : Msg
    msg = get_or q.queue q.head zero_msg

    fits : MsgFits msg
    fits = All-get_or MsgFits q.queue q.head zero_msg v.msgs (omega (arith, v.head_in, v.cells))

    long : length (memcpy dst msg.bytes msg.len) ≤ 64
    long = omega (
      arith,
      room dst e,
      fits.0,
      fits.1,
      length-memcpy dst msg.bytes msg.len (omega (arith, fits.0, fits.1))
          (omega (arith, room dst e, fits.1)),
    )

recv_buf-Fits :
    (queues : List Queue) (i : ℕ) (buf : Option (List ℕ)) (out : Out)
    → TableValid queues
    → i < 8
    → Roomy out
    → out.buf ≡ buf
    → Fits out (recv_buf queues i buf out).1
unfolding recv_buf
recv_buf-Fits queues i none out t lt room e = unchanged out room
recv_buf-Fits queues i (some dst) out t lt room e =
    if_ind (λ (a : ℤ × Out × List Queue). Fits out a.1) (not (get_or queues i zero_queue).in_use) _
      _ (λ f. unchanged out room)
      (λ f.
        recv_from-Fits (get_or queues i zero_queue) dst out
          (All-get_or IsValid queues i zero_queue t.each (omega (arith, t.size, lt))) room e)

pub recv-Fits :
    (queues : List Queue) (t : TableValid queues) (id : ℤ) (out : Out)
    → Roomy out
    → Fits out (recv queues id out).1
unfolding recv
recv-Fits queues t (negsuc n) out room = unchanged out room
recv-Fits queues t (pos i) out room =
    if_ind (λ (a : ℤ × Out × List Queue). Fits out a.1) (leb 8 i) _ _ (λ f. unchanged out room)
      (λ f. recv_buf-Fits queues i out.buf out t (ground (arith, f)) room refl)
