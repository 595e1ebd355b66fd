-- ===== src/Sync/Exclusion.antt =====
-- Mutual exclusion of the mutex of kernel/sync.c, for tasks that interleave at will.
use aeos.Base.{
  ℕ, List, pos, Bool, ◌≡◌, false, ◌∷◌, if◌then◌else◌, [], ◌==◌, ◌&&◌, true, ℤ, arith, refl, negsuc,
  sym, ap, ◌∙◌,
}
use aeos.Sync.{Mutex, trylock, unlock, int_eq, mutex_init}

-- A step of task `i`, with the answer of `mutex_trylock`.
pub data Event : Type 0 where
  tried : ℕ → Bool → Event
  unlocked : ℕ → Event

pub data Request : Type 0 where
  tries : ℕ → Request
  unlocks : ℕ → Request

-- One request on the mutex.
unfoldable pub serve : Mutex → Request → Mutex × Event
serve m (tries i) = let (m', got) = trylock m (pos i) in (m', tried i got)
serve m (unlocks i) = (unlock m (pos i), unlocked i)

-- The requests are listed newest first, and so is the log.
unfoldable pub history : Mutex → List Request → Mutex × List Event
history m [] = (m, [])
history m (r ∷ earlier) =
    let (m', log) = history m earlier in let (m'', e) = serve m' r in (m'', e ∷ log)

-- Task `i` is in its critical section: `mutex_trylock` gave it the lock, and it has not called
-- `mutex_unlock` since.
unfoldable pub holds : ℕ → List Event → Bool
holds i [] = false
holds i (tried j got ∷ log) = if (i == j) && got then true else holds i log
holds i (unlocked j ∷ log) = if i == j then false else holds i log

int_eq_refl : (a : ℤ) → int_eq a a ≡ true
int_eq_refl (pos n) = ground arith
int_eq_refl (negsuc n) = ground arith

int_eq-eq : (a b : ℤ) → int_eq a b ≡ true → a ≡ b
int_eq-eq (pos a) (pos b) e = ap pos (ground arith)
int_eq-eq (pos a) (negsuc b) e = cc
int_eq-eq (negsuc a) (pos b) e = cc
int_eq-eq (negsuc a) (negsuc b) e = ap negsuc (ground arith)

-- The owner field tells who is in the critical section.
serve-holds :
    (m : Mutex) (r : Request) (log : List Event)
    → ((i : ℕ) → holds i log ≡ int_eq m.owner (pos i))
    → (i : ℕ) → holds i ((serve m r).1 ∷ log) ≡ int_eq (serve m r).0.owner (pos i)
unfolding serve holds trylock unlock
serve-holds m (tries j) log h i =
    ground (arith, h i, int_eq-eq m.owner (pos j), int_eq-eq m.owner (negsuc 0))
serve-holds m (unlocks j) log h i =
    ground (arith, h i, int_eq-eq m.owner (pos j), int_eq_refl (pos j))

-- Whatever requests the tasks make and in whatever order, a task is in its critical section exactly
-- when the mutex names it as the owner, if the mutex starts as `mutex_init` leaves it.
history-holds :
    (m : Mutex) (requests : List Request) (i : ℕ)
    → let (m', log) = history (mutex_init m) requests in holds i log ≡ int_eq m'.owner (pos i)
unfolding history mutex_init holds
history-holds m [] i = refl
history-holds m (r ∷ earlier) i =
    serve-holds (history (mutex_init m) earlier).0 r (history (mutex_init m) earlier).1
      (history-holds m earlier) i

-- Mutual exclusion: in every interleaving from `mutex_init` on, two tasks that are both in their
-- critical sections are the same task.
pub mutual_exclusion :
    (m : Mutex) (requests : List Request) (i j : ℕ)
    → holds i (history (mutex_init m) requests).1 ≡ true
    → holds j (history (mutex_init m) requests).1 ≡ true
    → i ≡ j
mutual_exclusion m requests i j hi hj =
    same (int_eq-eq _ (pos i) (sym (history-holds m requests i) ∙ hi))
      (int_eq-eq _ (pos j) (sym (history-holds m requests j) ∙ hj))
  where
    same : {o : ℤ} → o ≡ pos i → o ≡ pos j → i ≡ j
    same p q = ground arith
