-- ===== src/Ipc.antt =====
-- The message queues of kernel/ipc.c: a fixed table of eight ring-buffered queues. An operation
-- takes the table `queues` and returns it beside the C result.
pub mod Valid
pub mod Fits
pub mod Spec
pub mod Refine
pub mod Table
pub mod Calls
mod Tests
use aeos.Base.{
  ℕ, ◌+◌, ◌%◌, ℤ, pos, negsuc, Bool, true, false, not, ◌&&◌, Option, none, some, List, [], ◌∷◌, map,
  get_or, set, take, memcpy, replicate, find_index, if◌then◌else◌, ltb, leb, ◌==◌, add32, sub32,
}
use mathlib.Core.Option

abbrev pub max_queues : ℕ
max_queues = 8

abbrev pub max_msg : ℕ
max_msg = 16

abbrev pub msg_size : ℕ
msg_size = 64

abbrev pub ok : ℤ
ok = pos 0

abbrev pub err_full : ℤ
err_full = negsuc 0

abbrev pub err_empty : ℤ
err_empty = negsuc 1

abbrev pub err_invalid : ℤ
err_invalid = negsuc 2

-- `ipc_msg_t`; `bytes` is the payload array seen as its 64 bytes.
pub record Msg : Type 0 where
  pub bytes : List ℕ
  pub len : ℕ
  pub sender : ℕ

-- `ipc_queue_t`
pub record Queue : Type 0 where
  pub id : ℕ
  pub owner : ℕ
  pub reader_count : ℕ
  pub in_use : Bool
  pub queue : List Msg
  pub head : ℕ
  pub tail : ℕ
  pub count : ℕ

abbrev pub zero_msg : Msg
zero_msg = record { bytes = replicate 64 0; len = 0; sender = 0 }

abbrev pub zero_queue : Queue
zero_queue = record {
  id = 0;
  owner = 0;
  reader_count = 0;
  in_use = false;
  queue = replicate 16 zero_msg;
  head = 0;
  tail = 0;
  count = 0;
}

pub reset : Queue → Queue
reset q = record q { in_use = false; head = 0; tail = 0; count = 0 }

-- `ipc_init`
pub init : List Queue → List Queue
unfolding reset
init queues = map reset queues

-- What `ipc_create` stores in the slot it takes.
pub open_at : ℕ → ℕ → Queue → Queue
open_at i owner q = record q {
  id = i;
  owner = owner;
  reader_count = 0;
  in_use = true;
  head = 0;
  tail = 0;
  count = 0;
}

-- `ipc_create`
pub create : List Queue → ℕ → ℤ × List Queue
create queues owner = elim (find_index (λ q. not q.in_use) queues) [
  | none ↦ (err_full, queues)
  | some i ↦ (pos i, set queues i (open_at i owner (get_or queues i zero_queue)))
]

-- The slot that `ipc_send` fills: `memcpy` when there is something to copy, else length 0.
pub fill : Msg → Option (List ℕ) → ℕ → ℕ → Msg
fill msg none copy_len sender = record msg { len = 0; sender = sender }
fill msg (some src) copy_len sender =
    if ltb 0 copy_len
    then record msg { bytes = memcpy msg.bytes src copy_len; len = copy_len; sender = sender }
    else record msg { len = 0; sender = sender }

abbrev pub is_null {ℓ} : {A : Type ℓ} → Option A → Bool
is_null none = true
is_null (some a) = false

-- The part of `ipc_send` past its guards: the message goes to the tail of the ring.
pub enqueue : Queue → Option (List ℕ) → ℕ → ℕ → Queue
enqueue q src len sender = record q {
  queue = set q.queue q.tail (
      fill (get_or q.queue q.tail zero_msg) src (if ltb msg_size len then msg_size else len)
        sender);
  tail = add32 q.tail 1 % max_msg;
  count = add32 q.count 1;
}

-- `ipc_send` on a queue that is open, from its full test on.
pub send_to : Queue → Option (List ℕ) → ℕ → ℕ → ℤ × Queue
send_to q src len sender =
    if leb max_msg q.count
    then (err_full, q)
    else if is_null src && ltb 0 len
    then (err_invalid, q)
    else (ok, enqueue q src len sender)

-- `ipc_send`
pub send : List Queue → ℤ → Option (List ℕ) → ℕ → ℕ → ℤ × List Queue
send queues (negsuc n) src len sender = (err_invalid, queues)
send queues (pos i) src len sender =
    let q = get_or queues i zero_queue in
    if leb max_queues i
    then (err_invalid, queues)
    else if not q.in_use
    then (err_invalid, queues)
    else let (status, q') = send_to q src len sender in (status, set queues i q')

-- What `ipc_recv` leaves at its three pointers; `none` is a null pointer.
pub record Out : Type 0 where
  pub buf : Option (List ℕ)
  pub len : Option ℕ
  pub sender : Option ℕ

-- The part of `ipc_recv` past its guards: what it writes, and the ring's new head.
pub deliver : Msg → List ℕ → Out → Out
deliver msg dst out = record {
  buf = some (memcpy dst msg.bytes msg.len);
  len = Option.map (λ _. msg.len) out.len;
  sender = Option.map (λ _. msg.sender) out.sender;
}

pub dequeue : Queue → Queue
dequeue q = record q { head = add32 q.head 1 % max_msg; count = sub32 q.count 1 }

-- `ipc_recv` on an open queue, from its empty test on; `dst` is the memory at `buf`.
pub recv_from : Queue → List ℕ → Out → ℤ × Out × Queue
recv_from q dst out =
    if q.count == 0
    then (err_empty, out, q)
    else (ok, deliver (get_or q.queue q.head zero_msg) dst out, dequeue q)

-- `ipc_recv` from its test of `buf` on
pub recv_buf : List Queue → ℕ → Option (List ℕ) → Out → ℤ × Out × List Queue
recv_buf queues i none out = (err_invalid, out, queues)
recv_buf queues i (some dst) out =
    let q = get_or queues i zero_queue in
    if not q.in_use
    then (err_invalid, out, queues)
    else let (status, out', q') = recv_from q dst out in (status, out', set queues i q')

-- `ipc_recv`
pub recv : List Queue → ℤ → Out → ℤ × Out × List Queue
unfolding recv_buf
recv queues (negsuc n) out = (err_invalid, out, queues)
recv queues (pos i) out =
    if leb max_queues i then (err_invalid, out, queues) else recv_buf queues i out.buf out

-- `ipc_destroy`
pub destroy : List Queue → ℤ → ℤ × List Queue
destroy queues (negsuc n) = (err_invalid, queues)
destroy queues (pos i) =
    let q = get_or queues i zero_queue in
    if leb max_queues i
    then (err_invalid, queues)
    else if not q.in_use
    then (err_invalid, queues)
    else (ok, set queues i (record q { in_use = false }))

-- `ipc_queue_count`
pub queue_count : List Queue → ℕ
queue_count [] = 0
queue_count (q ∷ queues) = (if q.in_use then 1 else 0) + queue_count queues
