-- ===== src/Syscall/Stores.antt =====
-- Where the system calls of kernel/syscall.c store.
use aeos.Device
use aeos.Proc.{Round, wait_round, missing, yields}
use aeos.Ipc.Fits.{Fits, recv-Fits}
use aeos.Syscall.Valid.{length-bytes_at}
use aeos.Ipc.Valid.{TableValid}
use aeos.Ipc.{Out, recv, Queue}
use aeos.Pmm.{ram_start, ram_end}
use aeos.Dtb.{Bytes}
use aeos.Base.{
  ℕ, List, length, ◌≡◌, ◌<◌, Bool, ◌≤◌, ◌^◌, refl, true, false, Bool-cases, ◌+◌, leb, ◌⊎◌,
  if◌then◌else◌, ◌&&◌, if_ind, ltb, add64, inl, arith, inr, Option, some, none, ℤ, ◌≢◌, ◌==◌, not,
  ◌||◌, negsuc, pos,
}
use aeos.Device.{Drivers, Devices, device_at, open_by}
use aeos.Syscall.{
  waits, store, Regs, is_user_ptr, Outcome, user_va_base, user_va_stack, returns, exits, gives_up,
  stored_word, stored_bytes, word_bytes, Kernel, wanted, bytes_at, sys_read, sys_ipc_recv,
  sys_waited, out_of, u32, int_of, received, dev_of, reaped, dispatch, sys_close, sys_waitpid,
  unless_hit, hits, word_hits, overwrites,
}

-- The two windows of user pointers; the first is the whole of the RAM.
abbrev pub InWindow : ℕ → Type 0
InWindow a = ((ram_start ≤ a) × (a < ram_end)) ⊎ ((user_va_base ≤ a) × (a < user_va_stack))

is_user_ptr-InWindow :
    (p len a : ℕ)
    → is_user_ptr p len ≡ true
    → p < 2 ^ 64
    → len < 2 ^ 32
    → p ≤ a
    → a < p + len
    → InWindow a
unfolding is_user_ptr
is_user_ptr-InWindow p len a ok small short lo hi =
    elim (Bool-cases (leb ram_start p && leb (add64 p len) ram_end)) [
      | inl ram ↦ inl (ground (arith, ram, ok, small, short), ground (arith, ram, ok, small, short))
      | inr other ↦
          inr (ground (arith, other, ok, small, short), ground (arith, other, ok, small, short))
    ]

-- The memory after a call is that before outside the windows.
abbrev pub Same : Bytes → Bytes → Type 0
Same before after = (a : ℕ) → ¬ InWindow a → after a ≡ before a

abbrev pub Confined : Bytes → Outcome → Type 0
Confined m (returns x k) = Same m k.memory
Confined m (overwrites after) = Same m after
Confined m (exits k) = Same m k.memory
Confined m gives_up = Unit
Confined m waits = Unit

branches :
    (m : Bytes) (b : Bool) (x y : Outcome)
    → (b ≡ true → Confined m x)
    → (b ≡ false → Confined m y)
    → Confined m (if b then x else y)
branches m b x y f g = if_ind (Confined m) b x y f g

unless_hit-Confined :
    (m : Bytes) (hit : Bool) (x : ℕ) (k : Kernel)
    → Same m k.memory
    → Confined m (unless_hit hit x k)
unless_hit-Confined m hit x k s = if_ind (Confined m) hit _ _ (λ e. s) (λ e. s)

same : (m : Bytes) → Same m m
same m a out = refl

store-Same :
    (m m' : Bytes) (p len : ℕ) (bytes : List ℕ)
    → Same m m'
    → is_user_ptr p len ≡ true
    → p < 2 ^ 64
    → len < 2 ^ 32
    → length bytes ≤ len
    → Same m (store m' p bytes)
unfolding store
store-Same m m' p len bytes s ok small short fits a out =
    elim (Bool-cases (leb p a && ltb a (p + length bytes))) [
      | inl in_it ↦ absurd (
          out (
            is_user_ptr-InWindow p len a ok small short (ground (arith, in_it))
              (ground (arith, in_it, fits))))
      | inr not_in ↦ rw not_in (s a out)
    ]

-- The registers hold 64-bit words.
abbrev pub Words : Regs → Type 0
Words r = (r.x1 < 2 ^ 64) × ((r.x2 < 2 ^ 64) × (r.x3 < 2 ^ 64))

-- A driver stores no more than it was asked for.
abbrev pub Bounded : Drivers → Type 0
Bounded drv = (dev len : ℕ) → length (drv.on_read dev len).1 ≤ len

read-length :
    (drv : Drivers) (d : Devices) (p len : ℕ)
    → Bounded drv
    → length (Device.read drv d p len).1 ≤ len
unfolding Device.read
read-length drv d p len bounded =
    if_ind (λ (a : ℤ × List ℕ). length a.1 ≤ len) (p == 0 || not (device_at d p).ops.reads) _ _
      (λ e. omega arith) (λ e. bounded p len)

module _ (m : Bytes) (p : ℕ) (small : p < 2 ^ 64) where
  stored_word-Same :
      (m' : Bytes) (w : Option ℕ)
      → Same m m'
      → ((x : ℕ) → w ≡ some x → is_user_ptr p 4 ≡ true)
      → Same m (stored_word m' p w)
  stored_word-Same m' none s ok = s
  stored_word-Same m' (some w) s ok =
      store-Same m m' p 4 (word_bytes w) s (ok w refl) small (omega arith) (omega arith)

  stored_bytes-Same :
      (m' : Bytes) (b : Option (List ℕ))
      → Same m m'
      → is_user_ptr p 64 ≡ true
      → ((x : List ℕ) → b ≡ some x → length x ≤ 64)
      → Same m (stored_bytes m' p b)
  stored_bytes-Same m' none s ok fits = s
  stored_bytes-Same m' (some b) s ok fits =
      store-Same m m' p 64 b s ok small (omega arith) (fits b refl)

wanted-null : (p x : ℕ) (o : Option ℕ) → (wanted p ≡ none → o ≡ none) → o ≡ some x → p ≢ 0
wanted-null p x o null e zero_p = absurd (ground (arith, null (rw zero_p refl), e))

buf-length :
    (k : Kernel) (p : ℕ) (x : List ℕ) → some (bytes_at k.memory p 64) ≡ some x → length x ≡ 64
buf-length k p x e = ground (arith, e, length-bytes_at k.memory p 64)

module _ (tables : ℕ → Bool) (r : Regs) (k : Kernel) (w : Words r) (q : TableValid k.queues) where
  received-Confined :
      (a : ℤ × Out × List Queue)
      → Fits (out_of r k) a.1
      → is_user_ptr r.x1 64 ≡ true
      → (r.x2 ≢ 0 → is_user_ptr r.x2 4 ≡ true)
      → (r.x3 ≢ 0 → is_user_ptr r.x3 4 ≡ true)
      → Confined k.memory (received tables r k a)
  received-Confined (negsuc n, out, queues) fits ok1 ok2 ok3 = same k.memory
  received-Confined (pos n, out, queues) fits ok1 ok2 ok3 =
      unless_hit-Confined k.memory
        (hits tables r.x1 64 || (word_hits tables r.x2 || word_hits tables r.x3)) _ _
        (stored_word-Same k.memory r.x3 w.1.1 _ out.sender
          (stored_word-Same k.memory r.x2 w.1.0 _ out.len
            (stored_bytes-Same k.memory r.x1 w.0 k.memory out.buf (same k.memory) ok1 fits.buf_fits)
            (λ x e. ok2 (wanted-null r.x2 x out.len fits.len_null e)))
          (λ x e. ok3 (wanted-null r.x3 x out.sender fits.sender_null e)))

  sys_ipc_recv-Confined : Confined k.memory (sys_ipc_recv tables r k)
  sys_ipc_recv-Confined =
      branches k.memory (not (is_user_ptr r.x1 64)) _ _ (λ e. same k.memory)
        (λ e.
          branches k.memory (not (r.x2 == 0) && not (is_user_ptr r.x2 4)) _ _ (λ f. same k.memory)
            (λ f.
              branches k.memory (not (r.x3 == 0) && not (is_user_ptr r.x3 4)) _ _
                (λ g. same k.memory)
                (λ g.
                  received-Confined (recv k.queues (int_of r.x0) (out_of r k))
                    (recv-Fits k.queues q (int_of r.x0) (out_of r k) (λ x h. buf-length k r.x1 x h))
                    (ground (arith, e)) (λ ne. ground (arith, f, ne))
                    (λ ne. ground (arith, g, ne)))))

  sys_read-Confined :
      (drv : Drivers) (task : ℕ) → Bounded drv → Confined k.memory (sys_read tables drv task r k)
  sys_read-Confined drv task bounded =
      branches k.memory (not (is_user_ptr r.x1 (u32 r.x2))) _ _ (λ e. same k.memory)
        (λ e.
          branches k.memory (dev_of task k (int_of r.x0) == 0) _ _ (λ f. same k.memory)
            (λ f. unless_hit-Confined k.memory (hits tables r.x1 _) _ _ (
              store-Same k.memory k.memory r.x1 (u32 r.x2) _ (same k.memory) (ground (arith, e)) w.0
                (omega arith)
                (read-length drv k.devices (dev_of task k (int_of r.x0)) (u32 r.x2) bounded))))

  sys_waited-Confined :
      (pid : ℕ) (round : Round) → Confined k.memory (sys_waited tables r k pid round)
  sys_waited-Confined pid missing = same k.memory
  sys_waited-Confined pid yields = tt
  sys_waited-Confined pid (reaped code t procs) =
      branches k.memory (leb (2 ^ 31) pid || r.x1 == 0) _ _ (λ e. same k.memory)
        (λ e.
          branches k.memory (not (is_user_ptr r.x1 4)) _ _ (λ f. same k.memory)
            (λ f. unless_hit-Confined k.memory (hits tables r.x1 4) _ _ (
              store-Same k.memory k.memory r.x1 4 (word_bytes code) (same k.memory)
                (ground (arith, f)) w.0 (omega arith) (omega arith))))

  sys_waitpid-Confined : (pid : ℕ) → Confined k.memory (sys_waitpid tables r k pid)
  sys_waitpid-Confined pid = sys_waited-Confined pid (wait_round k.procs pid)

  sys_close-Confined : (task : ℕ) (fd : ℤ) → Confined k.memory (sys_close task k fd)
  sys_close-Confined task (negsuc n) = same k.memory
  sys_close-Confined task (pos fd) = same k.memory

  either :
      (b : Bool) (x y : Outcome)
      → Confined k.memory x
      → Confined k.memory y
      → Confined k.memory (if b then x else y)
  either b x y f g = branches k.memory b x y (λ e. f) (λ e. g)

-- From a state whose queues are valid, no system call stores outside the two windows of user pointers, if the registers hold 64-bit words and the drivers store no more than they are asked for.
pub dispatch-Confined :
    (tables : ℕ → Bool) (drv : Drivers) (task ticks : ℕ) (r : Regs) (k : Kernel)
    → Bounded drv
    → Words r
    → TableValid k.queues
    → Confined k.memory (dispatch tables drv task ticks r k)
unfolding dispatch
dispatch-Confined tables drv task ticks r k bounded w q =
    branches k.memory (r.x8 == 1) _ _
      (λ e.
        either tables r k w q
          (not (leb 0x40000000 r.x0 || (leb user_va_base r.x0 && ltb r.x0 user_va_stack))) _ _
          (same k.memory) (same k.memory))
      (λ e.
        branches k.memory (r.x8 == 2) _ _ (λ e. same k.memory)
          (λ e.
            branches k.memory (r.x8 == 3) _ _ (λ e. tt)
              (λ e.
                branches k.memory (r.x8 == 4) _ _ (λ e. same k.memory)
                  (λ e.
                    branches k.memory (r.x8 == 20) _ _ (λ e. same k.memory)
                      (λ e.
                        branches k.memory (r.x8 == 21) _ _
                          (λ e. sys_waitpid-Confined tables r k w q (u32 r.x0))
                          (λ e.
                            branches k.memory (r.x8 == 7) _ _
                              (λ e.
                                either tables r k w q (not (is_user_ptr r.x0 1)) _ _ (same k.memory)
                                  (either tables r k w q
                                    ((open_by k.devices (bytes_at k.memory r.x0 16)).0 == 0) _ _
                                    (same k.memory) (same k.memory)))
                              (λ e.
                                branches k.memory (r.x8 == 8) _ _
                                  (λ e. sys_close-Confined tables r k w q task (int_of r.x0))
                                  (λ e.
                                    branches k.memory (r.x8 == 5) _ _
                                      (λ e. sys_read-Confined tables r k w q drv task bounded)
                                      (λ e.
                                        branches k.memory (r.x8 == 6) _ _
                                          (λ e.
                                            either tables r k w q
                                              (not (is_user_ptr r.x1 (u32 r.x2))) _ _
                                              (same k.memory)
                                              (either tables r k w q
                                                (dev_of task k (int_of r.x0) == 0) _ _
                                                (same k.memory) (same k.memory)))
                                          (λ e.
                                            branches k.memory (r.x8 == 9) _ _
                                              (λ e.
                                                either tables r k w q
                                                  (dev_of task k (int_of r.x0) == 0) _ _
                                                  (same k.memory) (same k.memory))
                                              (λ e.
                                                branches k.memory (r.x8 == 10) _ _
                                                  (λ e.
                                                    either tables r k w q (not (is_user_ptr r.x0 1))
                                                      _ _ (same k.memory) (same k.memory))
                                                  (λ e.
                                                    branches k.memory (r.x8 == 11) _ _
                                                      (λ e.
                                                        either tables r k w q
                                                          (not (is_user_ptr r.x0 1)) _ _
                                                          (same k.memory) (same k.memory))
                                                      (λ e.
                                                        branches k.memory (r.x8 == 15) _ _
                                                          (λ e. same k.memory)
                                                          (λ e.
                                                            branches k.memory (r.x8 == 16) _ _
                                                            (λ e. same k.memory)
                                                            (λ e.
                                                            branches k.memory (r.x8 == 17) _ _
                                                            (λ e.
                                                            either tables r k w q
                                                            (ltb 0 (u32 r.x2)
                                                            && not (is_user_ptr r.x1 (u32 r.x2)))
                                                            _ _ (same k.memory) (same k.memory))
                                                            (λ e.
                                                            branches k.memory (r.x8 == 18) _ _
                                                            (λ e.
                                                            sys_ipc_recv-Confined tables r k w q)
                                                            (λ e.
                                                            branches k.memory (r.x8 == 19) _ _
                                                            (λ e. same k.memory)
                                                            (λ e. same k.memory))))))))))))))))))
