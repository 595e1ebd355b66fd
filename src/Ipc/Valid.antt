-- ===== src/Ipc/Valid.antt =====
-- The representation invariant of the queue table of kernel/ipc.c, and that each operation keeps it.
use aeos.Base.{
  ℕ, ◌+◌, ◌%◌, ◌≤◌, ◌<◌, ◌≡◌, refl, pos, negsuc, inl, inr, ℤ, Option-cases, false, Option, none,
  some, List, [], ◌∷◌, map, arith, length, get_or, set, length-set, length-map, length-memcpy, All,
  All-get_or, All-set, find_index, find_index-some, ltb, not, replicate, All-replicate,
  if◌then◌else◌, ◌≢◌, if_ind, leb,
}
use aeos.Ipc.{
  Msg, Queue, Out, zero_msg, zero_queue, msg_size, reset, init, enqueue, dequeue, open_at, create,
  fill, send_to, send, recv_from, recv, recv_buf, destroy,
}

abbrev pub MsgFits : Msg → Type 0
MsgFits m = (length m.bytes ≡ 64) × (m.len ≤ 64)

pub record IsValid (q : Queue) : Type 0 where
  pub cells : length q.queue ≡ 16
  pub msgs : All MsgFits q.queue
  pub head_in : q.head < 16
  pub count_in : q.count ≤ 16
  pub tail_at : q.tail ≡ (q.head + q.count) % 16

pub record TableValid (queues : List Queue) : Type 0 where
  pub size : length queues ≡ 8
  pub each : All IsValid queues

-- The caller's memory at `data` holds the bytes that `ipc_send` copies.
abbrev pub Holds : Option (List ℕ) → ℕ → Type 0
Holds none n = Unit
Holds (some src) n = n ≤ length src

-- `copy_len` of `ipc_send`
abbrev pub clipped : ℕ → ℕ
clipped len = if ltb msg_size len then msg_size else len

pub fill-MsgFits :
    (m : Msg) (src : Option (List ℕ)) (n sender : ℕ)
    → n ≤ 64
    → Holds src n
    → MsgFits m
    → MsgFits (fill m src n sender)
unfolding fill
fill-MsgFits m none n sender le h f = omega arith
fill-MsgFits m (some src) n sender le h f = ground (arith, length-memcpy m.bytes src n)

module _ (q : Queue) (v : IsValid q) where
  open v use {cells, msgs, head_in, count_in, tail_at}

  pub reset-IsValid : IsValid (reset q)
  unfolding reset
  reset-IsValid = record {
    cells = cells;
    msgs = msgs;
    head_in = omega arith;
    count_in = omega arith;
    tail_at = omega arith;
  }

  close-IsValid : IsValid (record q { in_use = false })
  close-IsValid = record {
    cells = cells;
    msgs = msgs;
    head_in = head_in;
    count_in = count_in;
    tail_at = tail_at;
  }

  pub open_at-IsValid : (i owner : ℕ) → IsValid (open_at i owner q)
  unfolding open_at
  open_at-IsValid i owner = record {
    cells = cells;
    msgs = msgs;
    head_in = omega arith;
    count_in = omega arith;
    tail_at = omega arith;
  }

  pub enqueue-IsValid :
      (src : Option (List ℕ)) (len sender : ℕ)
      → q.count < 16
      → Holds src (clipped len)
      → IsValid (enqueue q src len sender)
  unfolding enqueue
  enqueue-IsValid src len sender room h = record {
    cells = omega (arith, cells, length-set q.queue q.tail msg);
    msgs = All-set MsgFits q.queue q.tail msg msgs fits;
    head_in = omega arith;
    count_in = omega arith;
    tail_at = omega arith;
  }
    where
      msg : Msg
      msg = fill (get_or q.queue q.tail zero_msg) src (clipped len) sender

      fits : MsgFits msg
      fits =
          fill-MsgFits (get_or q.queue q.tail zero_msg) src (clipped len) sender (ground arith) h
            (All-get_or MsgFits q.queue q.tail zero_msg msgs (omega arith))

  pub dequeue-IsValid : q.count ≢ 0 → IsValid (dequeue q)
  unfolding dequeue
  dequeue-IsValid ne = record {
    cells = cells;
    msgs = msgs;
    head_in = omega arith;
    count_in = omega arith;
    tail_at = omega arith;
  }

  pub send_to-IsValid :
      (src : Option (List ℕ)) (len sender : ℕ)
      → Holds src (clipped len)
      → IsValid (send_to q src len sender).1
  unfolding send_to
  send_to-IsValid src len sender h = ground (arith, enqueue-IsValid src len sender)

  pub recv_from-IsValid : (dst : List ℕ) (out : Out) → IsValid (recv_from q dst out).2
  unfolding recv_from
  recv_from-IsValid dst out = ground (arith, dequeue-IsValid)

zero_queue-IsValid : IsValid zero_queue
zero_queue-IsValid = omega arith

-- The table that the kernel starts with is valid.
pub boot-TableValid : TableValid (replicate 8 zero_queue)
boot-TableValid = record {
  size = refl;
  each = All-replicate IsValid 8 zero_queue zero_queue-IsValid;
}

module _ (queues : List Queue) (t : TableValid queues) where
  open t use {size, each}

  pub nth-IsValid : (i : ℕ) → i < 8 → IsValid (get_or queues i zero_queue)
  nth-IsValid i h = All-get_or IsValid queues i zero_queue each (omega arith)

  set-TableValid : (i : ℕ) (q : Queue) → IsValid q → TableValid (set queues i q)
  set-TableValid i q v = record {
    size = omega (arith, size, length-set queues i q);
    each = All-set IsValid queues i q each v;
  }

  pub create-TableValid : (owner : ℕ) → TableValid (create queues owner).1
  unfolding create
  create-TableValid owner = elim (Option-cases (find_index (λ q. not q.in_use) queues)) [
    | inl e ↦ rw (e, create) t
    | inr (i, e) ↦
        rw (e, create)
          (set-TableValid i _ (
            open_at-IsValid (get_or queues i zero_queue)
              (nth-IsValid i
                (omega (arith, size, (find_index-some (λ q. not q.in_use) queues i e).0)))
              i owner))
  ]

  pub send-TableValid :
      (id : ℤ) (src : Option (List ℕ)) (len sender : ℕ)
      → Holds src (clipped len)
      → TableValid (send queues id src len sender).1
  unfolding send
  send-TableValid (negsuc n) src len sender h = t
  send-TableValid (pos i) src len sender h =
      if_ind Kept (leb 8 i) _ _ (λ _. t)
        λ bound.
          if_ind Kept (not q.in_use) _ _ (λ _. t)
            λ _.
              set-TableValid i _ (send_to-IsValid q (nth-IsValid i (ground arith)) src len sender h)
    where
      Kept : ℤ × List Queue → Type 0
      Kept r = TableValid r.1

      q : Queue
      q = get_or queues i zero_queue

  recv_buf-TableValid :
      (i : ℕ) (buf : Option (List ℕ)) (out : Out) → i < 8 → TableValid (recv_buf queues i buf out).2
  unfolding recv_buf
  recv_buf-TableValid i none out h = t
  recv_buf-TableValid i (some dst) out h =
      if_ind Kept (not q.in_use) _ _ (λ _. t)
        λ _. set-TableValid i _ (recv_from-IsValid q (nth-IsValid i h) dst out)
    where
      Kept : ℤ × Out × List Queue → Type 0
      Kept r = TableValid r.2

      q : Queue
      q = get_or queues i zero_queue

  pub recv-TableValid : (id : ℤ) (out : Out) → TableValid (recv queues id out).2
  unfolding recv
  recv-TableValid (negsuc n) out = t
  recv-TableValid (pos i) out =
      if_ind Kept (leb 8 i) _ _ (λ _. t) λ bound. recv_buf-TableValid i out.buf out (ground arith)
    where
      Kept : ℤ × Out × List Queue → Type 0
      Kept r = TableValid r.2

  pub destroy-TableValid : (id : ℤ) → TableValid (destroy queues id).1
  unfolding destroy
  destroy-TableValid (negsuc n) = t
  destroy-TableValid (pos i) =
      if_ind Kept (leb 8 i) _ _ (λ _. t)
        λ bound.
          if_ind Kept (not q.in_use) _ _ (λ _. t)
            λ _. set-TableValid i _ (close-IsValid q (nth-IsValid i (ground arith)))
    where
      Kept : ℤ × List Queue → Type 0
      Kept r = TableValid r.1

      q : Queue
      q = get_or queues i zero_queue

init-each : (queues : List Queue) → All IsValid queues → All IsValid (map reset queues)
init-each [] a = tt
init-each (q ∷ queues) a = (reset-IsValid q a.0, init-each queues a.1)

pub init-TableValid : (queues : List Queue) → TableValid queues → TableValid (init queues)
unfolding init
init-TableValid queues t = record {
  size = omega (arith, t.size, length-map reset queues);
  each = init-each queues t.each;
}
