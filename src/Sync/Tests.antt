-- ===== src/Sync/Tests.antt =====
-- Instances of the theorems about kernel/sync.c.
use aeos.Base.{◌≡◌, List, pos, ℕ, ◌∷◌, refl, [], ◌+◌, some, arith}
use aeos.Sync.{Mutex, unlock, lock, mutex_init, sem_init, trylock}
use aeos.Sync.Exclusion.{Request, tries, unlocks, holds, history, mutual_exclusion, serve}
use aeos.Sync.Waiting.{lock_returns, state_at}
use aeos.Sync.Conservation.{waits, posts, perform_all, taken, units_conserved, posted}

abbrev blank : Mutex
blank = record { owner = pos 9; lock_count = 3 }

-- Newest first: 2 takes the lock that 1 gave up, and 1 is refused.
abbrev contended : List Request
contended = tries 1 ∷ tries 2 ∷ unlocks 1 ∷ tries 2 ∷ tries 1 ∷ []

mutual_exclusion_example : ◌≡◌ {A = ℕ} 2 2
unfolding history mutex_init holds serve trylock unlock
mutual_exclusion_example = mutual_exclusion blank contended 2 2 refl refl

-- Task 4 holds the mutex and gives it up during the second yield.
lock_returns_example :
    (m' : Mutex) × (lock
        (pos 2)
        (record blank { owner = pos 4 })
        ((λ m. m) ∷ (λ m. unlock m (pos 4)) ∷ [])
      ≡ some m')
    × (m'.owner ≡ pos 2)
unfolding state_at trylock unlock
lock_returns_example =
    lock_returns ((λ m. m) ∷ (λ m. unlock m (pos 4)) ∷ []) (pos 2) 2
      (record blank { owner = pos 4 }) (omega arith) refl

units_conserved_example :
    (m : ℕ) × ((perform_all (sem_init (pos 1)) (waits ∷ waits ∷ posts ∷ [])).count ≡ pos m)
    × (m + taken (sem_init (pos 1)) (waits ∷ waits ∷ posts ∷ [])
        ≡ 1 + posted (waits ∷ waits ∷ posts ∷ []))
unfolding posted
units_conserved_example = units_conserved 1 (waits ∷ waits ∷ posts ∷ []) (omega arith)
