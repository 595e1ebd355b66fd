-- ===== src/Ipc/Table.antt =====
-- The whole table of kernel/ipc.c against the table of channels, call by call and for whole runs.
use aeos.Base.{
  ℕ, ◌≤◌, ◌<◌, ◌≡◌, refl, ap, sym, ◌∙◌, inl, inr, ℤ, pos, negsuc, Option, none, some, List, [], map,
  arith, get_or, set, length-map, map-set, get_or-map, if◌then◌else◌, true, false, get_or_out, leb,
  Bool-cases, ◌⊎◌, Option-cases, find_index-map, not, find_index,
}
use aeos.Ipc.{
  Queue, Out, zero_queue, send_to, recv_from, send, recv, create, destroy, enqueue, dequeue, ok,
  is_null, open_at, recv_buf, err_invalid,
}
use aeos.Ipc.Spec
use aeos.Ipc.Spec.{Channel, Entry}
use aeos.Ipc.Valid.{TableValid, Holds, clipped, nth-IsValid}
use aeos.Ipc.Refine.{contents, send_to_refines, recv_from_refines}
use mathlib.Core.Path.{fun_ext}

-- A closed queue shows nothing, whatever its ring still holds.
abbrev pub view : Queue → Channel
view q = if q.in_use then some (contents q) else none

abbrev pub channels : List Queue → List Channel
channels = map view

in_use-send_to :
    (q : Queue) (src : Option (List ℕ)) (len sender : ℕ)
    → (send_to q src len sender).1.in_use ≡ q.in_use
unfolding send_to enqueue
in_use-send_to q src len sender = ground arith

in_use-recv_from :
    (q : Queue) (dst : List ℕ) (out : Out) → (recv_from q dst out).2.in_use ≡ q.in_use
unfolding recv_from dequeue
in_use-recv_from q dst out = ground arith

view_open : (q : Queue) → q.in_use ≡ true → view q ≡ some (contents q)
view_open q e = ap (λ b. if b then some (contents q) else none) e

view_closed : (q : Queue) → q.in_use ≡ false → view q ≡ none
view_closed q e = ap (λ b. if b then some (contents q) else none) e

module _ (queues : List Queue) (t : TableValid queues) (i : ℕ) where
  nth-channels : i < 8 → get_or (channels queues) i none ≡ view (get_or queues i zero_queue)
  nth-channels h = get_or-map view queues i zero_queue none (omega (arith, t.size))

  nth-channels_out : 8 ≤ i → get_or (channels queues) i none ≡ none
  nth-channels_out h =
      get_or_out (channels queues) i none (omega (arith, t.size, length-map view queues))

  -- Storing an open queue is storing its contents.
  channels-set_open :
      (q : Queue)
      → q.in_use ≡ true
      → channels (set queues i q) ≡ set (channels queues) i (some (contents q))
  channels-set_open q e = map-set view queues i q ∙ ap (set (channels queues) i) (view_open q e)

  send_open :
      (src : Option (List ℕ)) (len sender : ℕ)
      → i < 8
      → Holds src (clipped len)
      → (get_or queues i zero_queue).in_use ≡ true
      → let (status, q') = send_to (get_or queues i zero_queue) src len sender in
        (status, channels (set queues i q')) ≡ Spec.send (channels queues) (pos i) src len sender
  unfolding Spec.send
  send_open src len sender hi h used =
      rw (nth-channels hi ∙ view_open q used, Spec.send)
        (ap (λ cs. ((send_to q src len sender).0, cs))
            (channels-set_open (send_to q src len sender).1
              (in_use-send_to q src len sender ∙ used))
          ∙ ap (λ (r : ℤ × List Entry). (r.0, set (channels queues) i (some r.1)))
              (send_to_refines q src len sender (nth-IsValid queues t i hi) h))
    where
      q : Queue
      q = get_or queues i zero_queue

  recv_open :
      (dst : List ℕ) (out : Out)
      → i < 8
      → (get_or queues i zero_queue).in_use ≡ true
      → let (status, out', q') = recv_from (get_or queues i zero_queue) dst out in
        (status, out', channels (set queues i q'))
        ≡ Spec.recv_buf (channels queues) i (some dst) out
  unfolding Spec.recv_buf
  recv_open dst out hi used =
      rw (nth-channels hi ∙ view_open q used, Spec.recv_buf)
        (ap (λ cs. ((recv_from q dst out).0, (recv_from q dst out).1, cs))
            (channels-set_open (recv_from q dst out).2 (in_use-recv_from q dst out ∙ used))
          ∙ ap (λ (r : ℤ × Out × List Entry). (r.0, r.1, set (channels queues) i (some r.2)))
              (recv_from_refines q dst out (nth-IsValid queues t i hi)))
    where
      q : Queue
      q = get_or queues i zero_queue

  -- Why a call on index `i` is refused: no such queue, or a closed one.
  refused :
      (leb 8 i ≡ true) ⊎ ((leb 8 i ≡ false) × ((get_or queues i zero_queue).in_use ≡ false))
      → get_or (channels queues) i none ≡ none
  refused (inl e) = nth-channels_out (ground arith)
  refused (inr (b, e)) = nth-channels (ground arith) ∙ view_closed (get_or queues i zero_queue) e

is_null-view : (q : Queue) → is_null (view q) ≡ not q.in_use
is_null-view q = elim (Bool-cases q.in_use) [
  | inl e ↦ ap is_null (view_open q e) ∙ sym (ap not e)
  | inr e ↦ ap is_null (view_closed q e) ∙ sym (ap not e)
]

view-open_at : (i owner : ℕ) (q : Queue) → view (open_at i owner q) ≡ some []
unfolding open_at
view-open_at i owner q = refl

module _ (queues : List Queue) (t : TableValid queues) where
  pub send_refines :
      (id : ℤ) (src : Option (List ℕ)) (len sender : ℕ)
      → Holds src (clipped len)
      → let (status, queues') = send queues id src len sender in
        (status, channels queues') ≡ Spec.send (channels queues) id src len sender
  unfolding send Spec.send
  send_refines (negsuc n) src len sender h = refl
  send_refines (pos i) src len sender h = elim (Bool-cases (leb 8 i)) [
    | inl e ↦ rw e (rw (refused queues t i (inl e), Spec.send))
    | inr e ↦ rw e (elim (Bool-cases (get_or queues i zero_queue).in_use) [
      | inl u ↦ rw u (send_open queues t i src len sender (ground arith) h u)
      | inr u ↦ rw u (rw (refused queues t i (inr (e, u)), Spec.send))
    ])
  ]

  recv_buf_refines :
      (i : ℕ) (buf : Option (List ℕ)) (out : Out)
      → leb 8 i ≡ false
      → let (status, out', queues') = recv_buf queues i buf out in
        (status, out', channels queues') ≡ Spec.recv_buf (channels queues) i buf out
  unfolding recv_buf Spec.recv_buf
  recv_buf_refines i none out e = refl
  recv_buf_refines i (some dst) out e = elim (Bool-cases (get_or queues i zero_queue).in_use) [
    | inl u ↦ rw u (recv_open queues t i dst out (ground arith) u)
    | inr u ↦ rw u (rw (refused queues t i (inr (e, u)), Spec.recv_buf))
  ]

  recv_buf_out :
      (i : ℕ) (buf : Option (List ℕ)) (out : Out)
      → leb 8 i ≡ true
      → Spec.recv_buf (channels queues) i buf out ≡ (err_invalid, out, channels queues)
  unfolding Spec.recv_buf
  recv_buf_out i none out e = refl
  recv_buf_out i (some dst) out e = rw (refused queues t i (inl e), Spec.recv_buf)

  pub recv_refines :
      (id : ℤ) (out : Out)
      → let (status, out', queues') = recv queues id out in
        (status, out', channels queues') ≡ Spec.recv (channels queues) id out
  unfolding recv Spec.recv
  recv_refines (negsuc n) out = refl
  recv_refines (pos i) out = elim (Bool-cases (leb 8 i)) [
    | inl e ↦ rw e (sym (recv_buf_out i out.buf out e))
    | inr e ↦ rw e (recv_buf_refines i out.buf out e)
  ]

  pub destroy_refines :
      (id : ℤ)
      → let (status, queues') = destroy queues id in
        (status, channels queues') ≡ Spec.destroy (channels queues) id
  unfolding destroy Spec.destroy
  destroy_refines (negsuc n) = refl
  destroy_refines (pos i) = elim (Bool-cases (leb 8 i)) [
    | inl e ↦ rw e (rw (refused queues t i (inl e), Spec.destroy))
    | inr e ↦ rw e (elim (Bool-cases (get_or queues i zero_queue).in_use) [
      | inl u ↦ rw u (
          rw
            (
              nth-channels queues t i (ground arith) ∙ view_open (get_or queues i zero_queue) u,
              Spec.destroy,
            )
            (ap (λ cs. (ok, cs)) (map-set view queues i _)))
      | inr u ↦ rw u (rw (refused queues t i (inr (e, u)), Spec.destroy))
    ])
  ]

  pub create_refines :
      (owner : ℕ)
      → let (status, queues') = create queues owner in
        (status, channels queues') ≡ Spec.create (channels queues)
  unfolding create Spec.create
  create_refines owner = elim (Option-cases (find_index (λ q. not q.in_use) queues)) [
    | inl e ↦ rw (e, create) (rw (same_index ∙ e, Spec.create))
    | inr (i, e) ↦
        rw (e, create)
          (rw (same_index ∙ e, Spec.create)
            (ap (λ cs. (pos i, cs))
              (map-set view queues i (open_at i owner (get_or queues i zero_queue))
                ∙ ap (λ c. set (channels queues) i c)
                    (view-open_at i owner (get_or queues i zero_queue)))))
  ]
    where
      same_index : find_index is_null (channels queues) ≡ find_index (λ q. not q.in_use) queues
      same_index =
          find_index-map view is_null queues ∙ ap (λ f. find_index f queues) (fun_ext is_null-view)
