-- ===== src/Sync/Waiting.antt =====
-- The retry loops of kernel/sync.c: when `mutex_lock` and `sem_wait` return, and with what.
use aeos.Base.{
  List, ℤ, ℕ, ◌≡◌, negsuc, ◌≤◌, true, some, length, arith, suc, ◌∷◌, zero, [], ap, Bool-cases, inl,
  inr,
}
use aeos.Sync.{Mutex, trylock, lock}

-- The mutex as the caller finds it at its `k`-th retry, if it is refused until then.
unfoldable pub state_at : ℤ → ℕ → Mutex → List (Mutex → Mutex) → Mutex
state_at me zero m env = m
state_at me (suc k) m [] = (trylock m me).0
state_at me (suc k) m (others ∷ env) = state_at me k (others (trylock m me).0) env

trylock-owner : (m : Mutex) (me : ℤ) → (trylock m me).1 ≡ true → (trylock m me).0.owner ≡ me
unfolding trylock
trylock-owner m me e = ground arith

trylock-free :
    (m : Mutex) (me : ℤ) → m.owner ≡ negsuc 0 → trylock m me ≡ (record m { owner = me }, true)
unfolding trylock
trylock-free m me e = rw e

-- `mutex_lock` returns, and its caller then owns the mutex, if at some retry the caller finds the
-- mutex free, whatever the other tasks do during the yields before that.
pub lock_returns :
    (env : List (Mutex → Mutex)) (me : ℤ) (k : ℕ) (m : Mutex)
    → k ≤ length env
    → (state_at me k m env).owner ≡ negsuc 0
    → (m' : Mutex) × (lock me m env ≡ some m') × (m'.owner ≡ me)
unfolding lock state_at
lock_returns [] me zero m h free =
    let got = ap (λ r. r.1) (trylock-free m me free) in
    ((trylock m me).0, rw got, trylock-owner m me got)
lock_returns (others ∷ env) me zero m h free =
    let got = ap (λ r. r.1) (trylock-free m me free) in
    ((trylock m me).0, rw got, trylock-owner m me got)
lock_returns [] me (suc k) m h free = elim h [ ]
lock_returns (others ∷ env) me (suc k) m h free = elim (Bool-cases (trylock m me).1) [
  | inl got ↦ ((trylock m me).0, rw got, trylock-owner m me got)
  | inr busy ↦
      let (m', returned, owns) =
        lock_returns env me k (others (trylock m me).0) (omega arith) free in
      (m', rw busy returned, owns)
]
