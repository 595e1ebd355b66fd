-- ===== src/Ipc/Spec.antt =====
-- What kernel/ipc.h promises: eight channels, each closed or a bounded FIFO of messages. A message
-- is its bytes and its sender; no ring, no indices, no stale payload.
use aeos.Base.{
  ℕ, ℤ, pos, negsuc, ◌&&◌, Option, none, some, List, [], ◌∷◌, ◌++◌, length, get_or, set, take,
  memcpy, find_index, if◌then◌else◌, ltb, leb,
}
use mathlib.Core.Option
use aeos.Ipc.{Out, ok, err_full, err_empty, err_invalid, max_msg, msg_size, is_null}

abbrev pub Entry : Type 0
Entry = List ℕ × ℕ

abbrev pub Channel : Type 0
Channel = Option (List Entry)

-- At most `msg_size` bytes of the source are kept.
abbrev pub payload : Option (List ℕ) → ℕ → List ℕ
payload none len = []
payload (some src) len = take (if ltb msg_size len then msg_size else len) src

unfoldable pub push : List Entry → Option (List ℕ) → ℕ → ℕ → ℤ × List Entry
push c src len sender =
    if leb max_msg (length c)
    then (err_full, c)
    else if is_null src && ltb 0 len
    then (err_invalid, c)
    else (ok, c ++ (payload src len, sender) ∷ [])

abbrev pub deliver : Entry → List ℕ → Out → Out
deliver e dst out = record {
  buf = some (memcpy dst e.0 (length e.0));
  len = Option.map (λ _. length e.0) out.len;
  sender = Option.map (λ _. e.1) out.sender;
}

unfoldable pub pop : List Entry → List ℕ → Out → ℤ × Out × List Entry
pop [] dst out = (err_empty, out, [])
pop (e ∷ c) dst out = (ok, deliver e dst out, c)

unfoldable pub create : List Channel → ℤ × List Channel
create cs = elim (find_index is_null cs) [
  | none ↦ (err_full, cs)
  | some i ↦ (pos i, set cs i (some []))
]

-- An index outside the table reads as a closed channel.
unfoldable pub send : List Channel → ℤ → Option (List ℕ) → ℕ → ℕ → ℤ × List Channel
send cs (negsuc n) src len sender = (err_invalid, cs)
send cs (pos i) src len sender = elim (get_or cs i none) [
  | none ↦ (err_invalid, cs)
  | some c ↦ let (status, c') = push c src len sender in (status, set cs i (some c'))
]

unfoldable pub recv_buf : List Channel → ℕ → Option (List ℕ) → Out → ℤ × Out × List Channel
recv_buf cs i none out = (err_invalid, out, cs)
recv_buf cs i (some dst) out = elim (get_or cs i none) [
  | none ↦ (err_invalid, out, cs)
  | some c ↦ let (status, out', c') = pop c dst out in (status, out', set cs i (some c'))
]

unfoldable pub recv : List Channel → ℤ → Out → ℤ × Out × List Channel
recv cs (negsuc n) out = (err_invalid, out, cs)
recv cs (pos i) out = recv_buf cs i out.buf out

unfoldable pub destroy : List Channel → ℤ → ℤ × List Channel
destroy cs (negsuc n) = (err_invalid, cs)
destroy cs (pos i) = elim (get_or cs i none) [
  | none ↦ (err_invalid, cs)
  | some c ↦ (ok, set cs i none)
]
