-- ===== src/Dtb/Walk.antt =====
-- The loop of the walkers of boot/aarch64/loader.c ends, since every round goes on by a token at least.
use aeos.Base.{
  ℕ, zero, suc, ◌+◌, ◌*◌, ◌/◌, ◌≤◌, ◌<◌, ◌≡◌, Option, none, some, Bool-cases, inl, inr, leb, arith,
  refl,
}
use aeos.Dtb.{
  Bytes, Limits, State, Round, stop, leave, next, loop, after_round, start, limits, struct_size,
}
use aeos.Dtb.Memory.{memory_round, dtb_memory, has_blocks, Found}
use aeos.Dtb.Uart.{uart_round, dtb_find_uart, has_struct}

-- A next round starts behind the token, and not behind the end.
abbrev pub Advances {ℓ} : {A : Type ℓ} → ℕ → State → Round A → Type 0
Advances send w (stop r) = Unit
Advances send w leave = Unit
Advances send w (next w') = (w.sp + 4 ≤ w'.sp) × (w'.sp ≤ send)

after_ends :
    {A : Type 0} (send : ℕ) (again : State → Option A) (exit : State → A) (w : State) (r : Round A)
    → Advances send w r
    → ((w' : State) → w.sp + 4 ≤ w'.sp → w'.sp ≤ send → (result : A) × (again w' ≡ some result))
    → (result : A) × (after_round again exit w r ≡ some result)
after_ends send again exit w (stop result) a ih = (result, refl)
after_ends send again exit w leave a ih = (exit w, refl)
after_ends send again exit w (next w') a ih = ih w' a.0 a.1

module _ {A : Type 0} (send : ℕ) (round : State → Round A) (exit : State → A)
    (advances : (w : State) → w.sp + 4 ≤ send → Advances send w (round w)) where
  pub loop_ends :
      (fuel : ℕ) (w : State)
      → w.sp ≤ send
      → send < w.sp + fuel * 4
      → (r : A) × (loop send round exit fuel w ≡ some r)
  unfolding loop
  loop_ends zero w inside enough = absurd (omega arith)
  loop_ends (suc fuel) w inside enough = elim (Bool-cases (leb (w.sp + 4) send)) [
    | inr out ↦ (exit w, rw out refl)
    | inl more ↦ rw more (
        after_ends send (loop send round exit fuel) exit w (round w)
          (advances w (ground (arith, more)))
          (λ w' lo hi. loop_ends fuel w' hi (omega (arith, lo, enough))))
  ]

memory_round-Advances :
    (b : Bytes) (lim : Limits) (w : State)
    → w.sp + 4 ≤ lim.send
    → Advances lim.send w (memory_round b lim w)
unfolding memory_round
memory_round-Advances b lim w h = ground (arith, h)

uart_round-Advances :
    (b : Bytes) (lim : Limits) (w : State)
    → w.sp + 4 ≤ lim.send
    → Advances lim.send w (uart_round b lim w)
unfolding uart_round
uart_round-Advances b lim w h = ground (arith, h)

-- Whatever the memory at the blob holds, `dtb_memory` and `dtb_find_uart` end, within as many rounds as the structure block has words, and one.
pub walkers_end :
    (b : Bytes) (size : ℕ)
    → ((r : Found) × (dtb_memory b size ≡ some r)) × ((u : ℕ) × (dtb_find_uart b size ≡ some u))
unfolding dtb_memory dtb_find_uart
walkers_end b size = (
  elim (Bool-cases (has_blocks b size)) [
    | inl e ↦ rw e (
        loop_ends (limits b).send (memory_round b (limits b)) (λ w. none)
          (λ w h. memory_round-Advances b (limits b) w h) (struct_size b / 4 + 1) (start b)
          (omega arith) (omega arith))
    | inr e ↦ (none, rw e refl)
  ],
  elim (Bool-cases (has_struct b size)) [
    | inl e ↦ rw e (
        loop_ends (limits b).send (uart_round b (limits b)) (λ w. w.found)
          (λ w h. uart_round-Advances b (limits b) w h) (struct_size b / 4 + 1) (start b)
          (omega arith) (omega arith))
    | inr e ↦ (0, rw e refl)
  ],
)
