-- ===== src/Sync/Conservation.antt =====
-- Units of the semaphore of kernel/sync.c: none is lost or made up.
use aeos.Base.{
  ℕ, List, if◌then◌else◌, ◌≡◌, ◌+◌, pos, [], arith, ◌∷◌, suc, zero, false, ap, true, refl, ◌<◌, ◌^◌,
  ◌∙◌,
}
use aeos.Sync.{Semaphore, trywait, post, sem_init, take_unit, inc}

pub data Call : Type 0 where
  waits : Call
  posts : Call

pub perform : Semaphore → Call → Semaphore
perform s waits = (trywait s).0
perform s posts = post s

pub perform_all : Semaphore → List Call → Semaphore
perform_all s [] = s
perform_all s (c ∷ calls) = perform_all (perform s c) calls

-- How many of the calls took a unit, and how many posted one.
pub taken : Semaphore → List Call → ℕ
taken s [] = 0
taken s (waits ∷ calls) = (if (trywait s).1 then 1 else 0) + taken (perform s waits) calls
taken s (posts ∷ calls) = taken (perform s posts) calls

unfoldable pub posted : List Call → ℕ
posted [] = 0
posted (waits ∷ calls) = posted calls
posted (posts ∷ calls) = 1 + posted calls

-- The count of a semaphore that never went below 0.
abbrev pub Counts : Semaphore → ℕ → Type 0
Counts s n = s.count ≡ pos n

-- A wait takes a unit exactly when there is one.
wait-zero : (s : Semaphore) → Counts s 0 → Counts (perform s waits) 0 × ((trywait s).1 ≡ false)
unfolding perform trywait
wait-zero s e = (ap (λ k. (take_unit k).0) e, ap (λ k. (take_unit k).1) e)

wait-suc :
    (s : Semaphore) (n : ℕ) → Counts s (suc n) → Counts (perform s waits) n × ((trywait s).1 ≡ true)
unfolding perform trywait
wait-suc s n e = (ap (λ k. (take_unit k).0) e, ap (λ k. (take_unit k).1) e)

inc-pos : (n : ℕ) → n + 1 < 2 ^ 31 → inc (pos n) ≡ pos (n + 1)
unfolding inc
inc-pos n h = ground (arith, h)

post-Counts :
    (s : Semaphore) (n : ℕ) → n + 1 < 2 ^ 31 → Counts s n → Counts (perform s posts) (n + 1)
unfolding perform post
post-Counts s n h e = ap inc e ∙ inc-pos n h

pub conserve :
    (calls : List Call) (s : Semaphore) (n : ℕ)
    → n + posted calls < 2 ^ 31
    → Counts s n
    → (m : ℕ) × Counts (perform_all s calls) m × (m + taken s calls ≡ n + posted calls)
unfolding perform_all taken posted
conserve [] s n h e = (n, e, omega arith)
conserve (waits ∷ calls) s zero h e =
    let (e', refused) = wait-zero s e in
    let (m, c, t) = conserve calls (perform s waits) 0 (omega (arith, h)) e' in
    (m, c, ground (arith, t, refused))
conserve (waits ∷ calls) s (suc n) h e =
    let (e', got) = wait-suc s n e in
    let (m, c, t) = conserve calls (perform s waits) n (omega (arith, h)) e' in
    (m, c, ground (arith, t, got))
conserve (posts ∷ calls) s n h e =
    let (m, c, t) =
      conserve calls (perform s posts) (n + 1) (omega (arith, h))
        (post-Counts s n (omega (arith, h)) e) in
    (m, c, omega (arith, t))

-- A semaphore that starts with `n` units, for which `n` and the posts are below 2^31, never counts below 0, and at every moment the units left and
-- the units that waits have taken make up the initial ones and the ones posted, in whatever order the
-- tasks' calls come.
pub units_conserved :
    (n : ℕ) (calls : List Call)
    → n + posted calls < 2 ^ 31
    → (m : ℕ) × ((perform_all (sem_init (pos n)) calls).count ≡ pos m)
      × (m + taken (sem_init (pos n)) calls ≡ n + posted calls)
unfolding sem_init
units_conserved n calls small = conserve calls (sem_init (pos n)) n small refl
