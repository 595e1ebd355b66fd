-- ===== src/Ipc/Refine.antt =====
-- One ring-buffered queue of kernel/ipc.c behaves as one channel of the specification.
use aeos.Base.{
  ◌&&◌, ℕ, suc, ◌+◌, ◌%◌, ◌<◌, ◌≡◌, ◌≢◌, refl, ap, sym, ◌∙◌, inl, inr, Option, none, some, List, [],
  ◌∷◌, ◌++◌, map, arith, length, get_or, set, take, length-map, length-take, take-take, window,
  length-window, window-set_end, window_shift, Bool-cases, add32, ltb, take-memcpy, false, leb,
  drop, ◌==◌, All-get_or,
}
use aeos.Ipc.{
  Msg, Queue, Out, zero_msg, fill, enqueue, dequeue, send_to, recv_from, deliver, is_null, ok,
}
use aeos.Ipc.Spec
use aeos.Ipc.Spec.{Entry, Channel, payload}
use aeos.Ipc.Valid.{IsValid, MsgFits, Holds, clipped}
use mathlib.Core.Path.{ap₂}
use mathlib.Core.List.{map-append}
use mathlib.Core.Option

abbrev pub view_msg : Msg → Entry
view_msg m = (take m.len m.bytes, m.sender)

-- The messages of a queue, oldest first.
abbrev pub contents : Queue → List Entry
contents q = map view_msg (window zero_msg q.queue 16 q.head 0 q.count)

pub length-contents : (q : Queue) → length (contents q) ≡ q.count
length-contents q =
    length-map view_msg (window zero_msg q.queue 16 q.head 0 q.count)
    ∙ length-window zero_msg q.queue 16 q.head 0 q.count

eq-zero_of_not_ltb : (n : ℕ) → ltb 0 n ≡ false → 0 ≡ n
eq-zero_of_not_ltb n e = ground arith

view_msg-fill :
    (m : Msg) (src : Option (List ℕ)) (len sender : ℕ)
    → Holds src (clipped len)
    → view_msg (fill m src (clipped len) sender) ≡ (payload src len, sender)
unfolding fill
view_msg-fill m none len sender h = refl
view_msg-fill m (some src) len sender h = elim (Bool-cases (ltb 0 (clipped len))) [
  | inl e ↦ rw e (ap (λ l. (l, sender)) (take-memcpy m.bytes src (clipped len) h))
  | inr e ↦ rw e (ap (λ n. (take n src, sender)) (eq-zero_of_not_ltb (clipped len) e))
]

ring_push :
    (ring : List Msg) (h n t n' : ℕ) (m : Msg) (e : Entry)
    → length ring ≡ 16
    → h < 16
    → n < 16
    → t ≡ (h + n) % 16
    → n' ≡ suc n
    → view_msg m ≡ e
    → map view_msg (window zero_msg (set ring t m) 16 h 0 n')
      ≡ map view_msg (window zero_msg ring 16 h 0 n) ++ e ∷ []
ring_push ring h n t n' m e len hh nh te ne me =
    ap₂ (λ i k. map view_msg (window zero_msg (set ring i m) 16 h 0 k)) te ne
    ∙ ap (map view_msg) (window-set_end zero_msg ring 16 h n m (omega arith) hh nh)
    ∙ map-append view_msg (window zero_msg ring 16 h 0 n) (m ∷ [])
    ∙ ap (λ x. map view_msg (window zero_msg ring 16 h 0 n) ++ x ∷ []) me

ring_pop :
    (ring : List Msg) (h n h' n' : ℕ)
    → h < 16
    → n ≡ suc n'
    → h' ≡ (h + 1) % 16
    → map view_msg (window zero_msg ring 16 h 0 n)
      ≡ view_msg (get_or ring h zero_msg) ∷ map view_msg (window zero_msg ring 16 h' 0 n')
ring_pop ring h n h' n' hh ne he =
    ap (λ k. map view_msg (window zero_msg ring 16 h 0 k)) ne
    ∙ ap₂ (λ i w. view_msg (get_or ring i zero_msg) ∷ map view_msg w) (omega arith)
        (window_shift zero_msg ring 16 h 0 n' ∙ ap (λ i. window zero_msg ring 16 i 0 n') (sym he))

contents-enqueue :
    (q : Queue) (src : Option (List ℕ)) (len sender : ℕ)
    → IsValid q
    → q.count < 16
    → Holds src (clipped len)
    → contents (enqueue q src len sender) ≡ contents q ++ (payload src len, sender) ∷ []
unfolding enqueue
contents-enqueue q src len sender v room h =
    ring_push q.queue q.head q.count q.tail (add32 q.count 1) _ (payload src len, sender) v.cells
      v.head_in room v.tail_at (omega arith)
      (view_msg-fill (get_or q.queue q.tail zero_msg) src len sender h)

contents-dequeue :
    (q : Queue)
    → IsValid q
    → q.count ≢ 0
    → contents q ≡ view_msg (get_or q.queue q.head zero_msg) ∷ contents (dequeue q)
unfolding dequeue
contents-dequeue q v ne = ring_pop q.queue q.head q.count _ _ v.head_in (omega arith) (omega arith)

-- On an open queue the C operations do to the ring what the specification does to the list.
pub send_to_refines :
    (q : Queue) (src : Option (List ℕ)) (len sender : ℕ)
    → IsValid q
    → Holds src (clipped len)
    → let (status, q') = send_to q src len sender in
      (status, contents q') ≡ Spec.push (contents q) src len sender
unfolding send_to Spec.push
send_to_refines q src len sender v h = rw (length-contents q) (elim (Bool-cases (leb 16 q.count)) [
  | inl full ↦ rw full
  | inr room ↦ rw room (elim (Bool-cases (is_null src && ltb 0 len)) [
    | inl bad ↦ rw bad
    | inr good ↦ rw good (ap (λ c. (ok, c)) (contents-enqueue q src len sender v (ground arith) h))
  ])
])

deliver-view_msg :
    (m : Msg) (dst : List ℕ) (out : Out)
    → MsgFits m
    → deliver m dst out ≡ Spec.deliver (view_msg m) dst out
unfolding deliver
deliver-view_msg m dst out f =
    ap₂ written len_eq (sym (take-take m.len m.bytes) ∙ ap (λ k. take k kept) len_eq)
  where
    kept : List ℕ
    kept = take m.len m.bytes

    len_eq : m.len ≡ length kept
    len_eq = omega (arith, length-take m.len m.bytes)

    written : ℕ → List ℕ → Out
    written n xs = record {
      buf = some (xs ++ drop n dst);
      len = Option.map (λ _. n) out.len;
      sender = Option.map (λ _. m.sender) out.sender;
    }

contents-nil : (q : Queue) → q.count ≡ 0 → contents q ≡ []
contents-nil q e = ap (λ n. map view_msg (window zero_msg q.queue 16 q.head 0 n)) e

pub recv_from_refines :
    (q : Queue) (dst : List ℕ) (out : Out)
    → IsValid q
    → let (status, out', q') = recv_from q dst out in
      (status, out', contents q') ≡ Spec.pop (contents q) dst out
unfolding recv_from Spec.pop
recv_from_refines q dst out v = elim (Bool-cases (q.count == 0)) [
  | inl e ↦ rw e (rw (contents-nil q (ground arith)))
  | inr e ↦ rw e (
      ap (λ o. (ok, o, contents (dequeue q)))
        (deliver-view_msg (get_or q.queue q.head zero_msg) dst out
          (All-get_or MsgFits q.queue q.head zero_msg v.msgs (omega (arith, v.cells, v.head_in))))
      ∙ sym (ap (λ c. Spec.pop c dst out) (contents-dequeue q v (ground arith))))
]
