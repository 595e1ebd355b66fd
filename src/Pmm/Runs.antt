-- ===== src/Pmm/Runs.antt =====
-- `pmm_alloc_pages` of boot/aarch64/pmm.c: a run of frames.
use aeos.Pmm.Valid.{IsValid, count_bound}
use aeos.Pmm.Count.{count, count_flip}
use aeos.Pmm.Frames.{IsBitmap, test_bit-set_bit, set_bit-IsBitmap}
use aeos.Base.{
  List, ℕ, Bool, ◌≡◌, Option, arith, ◌≤◌, ◌<◌, false, leb, true, suc, ◌+◌, ◌&&◌, zero, ℕ_discrete,
  Bool-cases, ltb, refl, if◌then◌else◌, ◌==◌, ◌∙◌, not_==_of_ne, ap, inl, some, inr, none, ◌⊎◌, ◌-◌,
  ◌||◌, if_ind, sub64,
}
use aeos.Pmm.{
  find_run, run_free, set_run, total, test_bit, set_bit, alloc_pages, Pmm, take_run, frame_to_phys,
}

-- All of the `n` frames from `f` on are clear.
abbrev pub RunFree : List ℕ → ℕ → ℕ → Type 0
RunFree bitmap f n = (g : ℕ) → f ≤ g → g < f + n → test_bit bitmap g ≡ false

run_free-true : (bitmap : List ℕ) (f n : ℕ) → run_free bitmap f n ≡ true → RunFree bitmap f n
unfolding run_free
run_free-true bitmap f zero e = λ g l u. absurd (omega arith)
run_free-true bitmap f (suc n) e = λ g l u. elim (Bool-cases (test_bit bitmap f)) [
  | inl t ↦ absurd (ground (arith, e, t))
  | inr t ↦ elim (ℕ_discrete f g) [
    | yes s ↦ rw (← s) t
    | no ne ↦ run_free-true bitmap (suc f) n (rw t at e) g (omega (arith, ne)) (omega arith)
  ]
]

-- And back: the test passes on a clear run.
run_free_complete : (bitmap : List ℕ) (f n : ℕ) → RunFree bitmap f n → run_free bitmap f n ≡ true
unfolding run_free
run_free_complete bitmap f zero h = refl
run_free_complete bitmap f (suc n) h =
    rw (h f (omega arith) (omega arith))
      (run_free_complete bitmap (suc f) n (λ g l u. h g (omega arith) (omega arith)))

-- What the search for a run promises: the lowest clear run, or that there is none.
abbrev pub FirstRun : List ℕ → ℕ → ℕ → ℕ → Option ℕ → Type 0
FirstRun bitmap count f n none = (g : ℕ) → f ≤ g → g < f + n → run_free bitmap g count ≡ false
FirstRun bitmap count f n (some k) =
    (f ≤ k)
    × (k < f + n)
    × (run_free bitmap k count ≡ true)
    × ((g : ℕ) → f ≤ g → g < k → run_free bitmap g count ≡ false)

here_blocked :
    (bitmap : List ℕ) (count f g : ℕ)
    → run_free bitmap f count ≡ false
    → (suc f ≤ g → run_free bitmap g count ≡ false)
    → f ≤ g
    → run_free bitmap g count ≡ false
here_blocked bitmap count f g e h l = elim (ℕ_discrete f g) [
  | yes s ↦ rw (← s) e
  | no ne ↦ h (omega (arith, ne))
]

FirstRun-step :
    (bitmap : List ℕ) (count f n : ℕ) (r : Option ℕ)
    → run_free bitmap f count ≡ false
    → FirstRun bitmap count (suc f) n r
    → FirstRun bitmap count f (suc n) r
FirstRun-step bitmap count f n none e h =
    λ g l u. here_blocked bitmap count f g e (λ k. h g k (omega arith)) l
FirstRun-step bitmap count f n (some k) e h = (
  omega (arith, h.0),
  omega (arith, h.1),
  h.2,
  λ g l u. here_blocked bitmap count f g e (λ le. h.3 g le u) l,
)

pub find_run-FirstRun :
    (bitmap : List ℕ) (count f n : ℕ) → FirstRun bitmap count f n (find_run bitmap count f n)
unfolding find_run
find_run-FirstRun bitmap count f zero = λ g l u. absurd (omega arith)
find_run-FirstRun bitmap count f (suc n) = elim (Bool-cases (run_free bitmap f count)) [
  | inl e ↦ rw e (omega arith, omega arith, e, (λ g l u. absurd (omega arith)))
  | inr e ↦ rw e (
      FirstRun-step bitmap count f n (find_run bitmap count (suc f) n) e
        (find_run-FirstRun bitmap count (suc f) n))
]

-- Marking a run keeps the invariant; the count goes down by its length.
abbrev pub in_run : ℕ → ℕ → ℕ → Bool
in_run f n g = leb f g && ltb g (f + n)

pub set_run_lem :
    (bitmap : List ℕ) (f n : ℕ)
    → IsBitmap total bitmap
    → f + n ≤ total
    → RunFree bitmap f n
    → IsBitmap total (set_run bitmap f n)
      × ((g : ℕ)
          → test_bit (set_run bitmap f n) g ≡ (if in_run f n g then true else test_bit bitmap g))
      × (count (test_bit (set_run bitmap f n)) total + n ≡ count (test_bit bitmap) total)
unfolding set_run
set_run_lem bitmap f zero b le h = (b, (λ g. ground arith), omega arith)
set_run_lem bitmap f (suc n) b le h =
    let lt : f < total = omega arith in
    let law : ((g : ℕ)
        → test_bit (set_bit bitmap f) g ≡ (if f == g then true else test_bit bitmap g)) =
      (λ g. test_bit-set_bit bitmap total f g b lt) in
    let rest : (IsBitmap total (set_run (set_bit bitmap f) (suc f) n)
        × ((g : ℕ)
            → test_bit (set_run (set_bit bitmap f) (suc f) n) g
              ≡ (if in_run (suc f) n g then true else test_bit (set_bit bitmap f) g))
        × (count (test_bit (set_run (set_bit bitmap f) (suc f) n)) total + n
            ≡ count (test_bit (set_bit bitmap f)) total)) =
      set_run_lem (set_bit bitmap f) (suc f) n (set_bit-IsBitmap bitmap total f b lt) (omega arith)
        (λ g l u.
          law g ∙ rw (not_==_of_ne f g (λ e. omega arith)) (h g (omega arith) (omega arith))) in
    (
      rest.0,
      (λ g. rest.1 g ∙ ap (λ t. if in_run (suc f) n g then true else t) (law g) ∙ ground arith),
      omega (
        arith,
        rest.2,
        count_flip (test_bit bitmap) (test_bit (set_bit bitmap f)) f true total law
            (h f (omega arith) (omega arith)) lt,
      ),
    )

-- A call takes the lowest run of clear frames and no other, or fails with no change.
pub RunEnds : Pmm → ℕ → ℕ × Pmm → Type 0
RunEnds p count r =
    (((f : ℕ) → 0 < count → f + count ≤ total → ¬ RunFree p.bitmap f count) × (r ≡ (0, p)))
    ⊎ ((f : ℕ) × (f + count ≤ total)
        × RunFree p.bitmap f count
        × ((g : ℕ) → g < f → ¬ RunFree p.bitmap g count)
        × (r.0 ≡ frame_to_phys f)
        × ((g : ℕ)
            → test_bit r.1.bitmap g ≡ (if in_run f count g then true else test_bit p.bitmap g))
        × (r.1.free_count + count ≡ p.free_count)
        × IsValid r.1)

not_RunFree : (bitmap : List ℕ) (f n : ℕ) → run_free bitmap f n ≡ false → ¬ RunFree bitmap f n
not_RunFree bitmap f n e h = ground (arith, run_free_complete bitmap f n h, e)

-- A clear run is counted.
run_counted :
    (p : Pmm) (f n : ℕ) → IsValid p → f + n ≤ total → RunFree p.bitmap f n → n ≤ p.free_count
run_counted p f n v le h = omega (arith, v.2, (set_run_lem p.bitmap f n v.0 le h).2)

take_run-RunEnds :
    (p : Pmm) (n : ℕ) (o : Option ℕ)
    → IsValid p
    → 0 < n
    → n ≤ p.free_count
    → FirstRun p.bitmap n 0 (total - n + 1) o
    → RunEnds p n (take_run p n o)
unfolding take_run RunEnds
take_run-RunEnds p n none v pos le h =
    inl ((λ f z u. not_RunFree p.bitmap f n (h f (omega arith) (omega arith))), refl)
take_run-RunEnds p n (some f) v pos le h =
    let bound : f + n ≤ total = omega (arith, h.1, count_bound p v) in
    let clear = run_free-true p.bitmap f n h.2 in
    let s = set_run_lem p.bitmap f n v.0 bound clear in
    let less : sub64 p.free_count n + n ≡ p.free_count = omega (arith, le, count_bound p v) in
    inr (
      f,
      bound,
      clear,
      (λ g l. not_RunFree p.bitmap g n (h.3 g (omega arith) l)),
      refl,
      s.1,
      less,
      (s.0, v.1, omega (arith, v.2, s.2, less)),
    )

-- A valid allocator asked for a run of pages hands out the lowest run of clear frames, marks exactly these and keeps its count exact; it returns 0, changed in nothing, only when the RAM has no such run.
pub alloc_pages-RunEnds : (p : Pmm) (n : ℕ) → IsValid p → RunEnds p n (alloc_pages p n)
unfolding alloc_pages RunEnds
alloc_pages-RunEnds p n v =
    if_ind (RunEnds p n) (n == 0 || ltb p.free_count n) (0, p)
      (take_run p n (find_run p.bitmap n 0 (total - n + 1)))
      (λ e. inl ((λ f pos le h. short e pos (run_counted p f n v le h)), refl))
      (λ e.
        take_run-RunEnds p n (find_run p.bitmap n 0 (total - n + 1)) v (ground (arith, e))
          (ground (arith, e)) (find_run-FirstRun p.bitmap n 0 (total - n + 1)))
  where
    short : (n == 0 || ltb p.free_count n) ≡ true → 0 < n → n ≤ p.free_count → ⊥
    short e pos le = ground (arith, e)
