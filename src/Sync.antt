-- ===== src/Sync.antt =====
-- The mutex and the semaphore of kernel/sync.c. Each operation is one window with interrupts masked,
-- so it is one step; `me` is `sched_current_index()`.
pub mod Exclusion
pub mod Waiting
pub mod Conservation
mod Tests
use aeos.Base.{
  ℕ, ◌+◌, ℤ, pos, negsuc, Bool, true, false, ◌&&◌, ◌||◌, if◌then◌else◌, add32, ◌==◌, List, Option,
  some, none, suc, ◌∷◌, zero, [], ◌^◌, ◌-◌,
}

-- `mutex_t`; the owner is -1 when the lock is free.
pub record Mutex : Type 0 where
  pub owner : ℤ
  pub lock_count : ℕ

-- `==` on `int`
abbrev pub int_eq : ℤ → ℤ → Bool
int_eq (pos a) (pos b) = a == b
int_eq (pos a) (negsuc b) = false
int_eq (negsuc a) (pos b) = false
int_eq (negsuc a) (negsuc b) = a == b

-- `mutex_init`
pub mutex_init : Mutex → Mutex
mutex_init m = record { owner = negsuc 0; lock_count = 0 }

-- `mutex_trylock`; `true` is 1.
pub trylock : Mutex → ℤ → Mutex × Bool
trylock m me =
    if int_eq m.owner (negsuc 0) || int_eq m.owner me
    then (record m { owner = me }, true)
    else (record m { lock_count = add32 m.lock_count 1 }, false)

-- `mutex_unlock`
pub unlock : Mutex → ℤ → Mutex
unlock m me = if int_eq m.owner me then record m { owner = negsuc 0 } else m

-- `semaphore_t`
pub record Semaphore : Type 0 where
  pub count : ℤ
  pub wakeups : ℕ

-- `sem_init`
pub sem_init : ℤ → Semaphore
sem_init initial = record { count = initial; wakeups = 0 }

-- `s->count++` on `int32_t`, going round past 2^31 - 1
pub inc : ℤ → ℤ
inc (pos n) = if n == 2 ^ 31 - 1 then negsuc (2 ^ 31 - 1) else pos (n + 1)
inc (negsuc zero) = pos 0
inc (negsuc (suc n)) = negsuc n

-- `sem_trywait`: the test `s->count > 0` with the decrement.
pub take_unit : ℤ → ℤ × Bool
take_unit (pos zero) = (pos 0, false)
take_unit (pos (suc n)) = (pos n, true)
take_unit (negsuc n) = (negsuc n, false)

pub trywait : Semaphore → Semaphore × Bool
unfolding take_unit
trywait s = let (count', got) = take_unit s.count in (record s { count = count' }, got)

-- `sem_post`
pub post : Semaphore → Semaphore
unfolding inc
post s = record s { count = inc s.count; wakeups = add32 s.wakeups 1 }

-- `mutex_lock`: each failed round yields, and the other tasks' steps change the mutex before the
-- next. The list holds what each yield does; `none` is a caller that still waits at its end.
pub lock : ℤ → Mutex → List (Mutex → Mutex) → Option Mutex
lock me m [] = let (m', got) = trylock m me in if got then some m' else none
lock me m (others ∷ env) =
    let (m', got) = trylock m me in
    let later = lock me (others m') env in if got then some m' else later

-- `sem_wait`, likewise.
pub wait : Semaphore → List (Semaphore → Semaphore) → Option Semaphore
wait s [] = let (s', got) = trywait s in if got then some s' else none
wait s (others ∷ env) =
    let (s', got) = trywait s in let later = wait (others s') env in if got then some s' else later
