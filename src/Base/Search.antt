-- ===== src/Base/Search.antt =====
-- The search loop `for (i = 0; i < N; i++) if (test) …`: the first index whose cell passes.
use Prim.Native.Nat.{ℕ, zero, suc, ◌<◌}
use mathlib.Core.Path.{◌≡◌, refl}
use mathlib.Core.Logic.{inl, inr}
use mathlib.Core.Bool.{Bool, true, false}
use mathlib.Core.Option.{Option, none, some}
use mathlib.Core.Option
use mathlib.Core.List.{List, [], ◌∷◌, map}
use native.Mathlib.Omega.{arith}
use aeos.Base.Tests.{if◌then◌else◌, Bool-cases}
use aeos.Base.Lists.{length, get_or}

module _ {ℓ} {A : Type ℓ} (test : A → Bool) where
  unfoldable pub find_index : List A → Option ℕ
  find_index [] = none
  find_index (x ∷ xs) = if test x then some 0 else Option.map suc (find_index xs)

  -- What the search promises: the first cell that passes, or that none does.
  abbrev pub Finds : List A → Option ℕ → Type ℓ
  Finds xs none = (i : ℕ) (d : A) → i < length xs → test (get_or xs i d) ≡ false
  Finds xs (some k) =
      (k < length xs)
      × ((d : A) → test (get_or xs k d) ≡ true)
      × ((i : ℕ) (d : A) → i < k → test (get_or xs i d) ≡ false)

  none_cons :
      (x : A) (xs : List A)
      → test x ≡ false
      → Finds xs none
      → (i : ℕ) (d : A) → i < suc (length xs)
      → test (get_or (x ∷ xs) i d) ≡ false
  none_cons x xs e f zero d h = e
  none_cons x xs e f (suc i) d h = f i d (omega arith)

  below_cons :
      (x : A) (xs : List A) (k : ℕ)
      → test x ≡ false
      → Finds xs (some k)
      → (i : ℕ) (d : A) → i < suc k
      → test (get_or (x ∷ xs) i d) ≡ false
  below_cons x xs k e f zero d h = e
  below_cons x xs k e f (suc i) d h = f.2 i d (omega arith)

  Finds-cons :
      (x : A) (xs : List A) (r : Option ℕ)
      → test x ≡ false
      → Finds xs r
      → Finds (x ∷ xs) (Option.map suc r)
  Finds-cons x xs none e f = none_cons x xs e f
  Finds-cons x xs (some k) e f = (omega (arith, f.0), f.1, below_cons x xs k e f)

  none_nil : Finds [] none
  none_nil i d h = elim h [ ]

  pub find_index-Finds : (xs : List A) → Finds xs (find_index xs)
  unfolding find_index
  find_index-Finds [] = none_nil
  find_index-Finds (x ∷ xs) = elim (Bool-cases (test x)) [
    | inl e ↦ rw e (omega arith, (λ d. e), (λ i d h. elim h [ ]))
    | inr e ↦ rw e (Finds-cons x xs (find_index xs) e (find_index-Finds xs))
  ]

  pub find_index-some : (xs : List A) (k : ℕ) → find_index xs ≡ some k → Finds xs (some k)
  find_index-some xs k e = rw e at (find_index-Finds xs)

  pub find_index-none : (xs : List A) → find_index xs ≡ none → Finds xs none
  find_index-none xs e = rw e at (find_index-Finds xs)

-- Searching the images is searching with the composed test.
pub find_index-map {ℓ κ} :
    {A : Type ℓ} {B : Type κ} (f : A → B) (test : B → Bool) (xs : List A)
    → find_index test (map f xs) ≡ find_index (λ x. test (f x)) xs
unfolding find_index
find_index-map f test [] = refl
find_index-map f test (x ∷ xs) = rw (find_index-map f test xs)
