-- ===== src/Ramfs/Names.antt =====
-- Names in kernel/ramfs.c: what `ramfs_create` stores, `find_file` finds.
use aeos.Base.{
  List, ℕ, Option, get_or, ◌<◌, ◌≡◌, find_index, suc, ◌+◌, length, not, if_ind, ◌∷◌, ap, true,
  arith, Option-cases, ◌==◌, ◌∙◌, refl, zero, ==_iff, get_or-replicate, sym, inl, find_index-none,
  inr, some, find_index-some, length-set, get_or-set_self, none,
}
use aeos.Ramfs.{
  Ramfs, first_diff, exists, store_name, create, File, same_name, max_name, ok, is_file, zero_file,
  create_at, is_found, find_file,
}

-- Once a name has ended, its bytes stay zero.
abbrev pub IsPadded : List ℕ → Type 0
IsPadded name = (j : ℕ) → get_or name j 0 ≡ 0 → get_or name (suc j) 0 ≡ 0

stays_zero :
    (name : List ℕ) (i j : ℕ) → IsPadded name → get_or name i 0 ≡ 0 → get_or name (i + j) 0 ≡ 0
stays_zero name i zero p e = ap (λ k. get_or name k 0) (omega arith) ∙ e
stays_zero name i (suc j) p e =
    ap (λ k. get_or name k 0) (omega arith) ∙ p (i + j) (stays_zero name i j p e)

get_or-cons_text :
    (x : ℕ) (xs name : List ℕ) (i j : ℕ)
    → x ≡ get_or name i 0
    → ((k : ℕ) → j ≡ suc k → get_or xs k 0 ≡ get_or name (suc i + k) 0)
    → get_or (x ∷ xs) j 0 ≡ get_or name (i + j) 0
get_or-cons_text x xs name i zero e h = e ∙ ap (λ k. get_or name k 0) (omega arith)
get_or-cons_text x xs name i (suc j) e h = h j refl ∙ ap (λ k. get_or name k 0) (omega arith)

-- The bytes stored are those of the name.
get_or-store_name :
    (name : List ℕ) (i n j : ℕ)
    → IsPadded name
    → j < n
    → get_or (store_name name i n) j 0 ≡ get_or name (i + j) 0
unfolding store_name
get_or-store_name name i zero j p h = elim h [ ]
get_or-store_name name i (suc n) j p h =
    if_ind (λ (l : List ℕ). get_or l j 0 ≡ get_or name (i + j) 0) (get_or name i 0 == 0) _ _
      (λ e.
        get_or-replicate (suc n) j 0 0 h
        ∙ sym (stays_zero name i j p ((==_iff (get_or name i 0) 0).0 e)))
      (λ e.
        get_or-cons_text (get_or name i 0) (store_name name (suc i) n) name i j refl
          (λ k q. get_or-store_name name (suc i) n k p (omega (arith, q, h))))

first_diff_none :
    (a b : List ℕ) (i n : ℕ)
    → ((j : ℕ) → j < n → get_or a (i + j) 0 ≡ get_or b (i + j) 0)
    → first_diff a b i n ≡ i + n
unfolding first_diff
first_diff_none a b i zero h = omega arith
first_diff_none a b i (suc n) h =
    rw ((==_iff (get_or a i 0) (get_or b i 0)).1 here)
      (first_diff_none a b (suc i) n rest ∙ omega arith)
  where
    here : get_or a i 0 ≡ get_or b i 0
    here =
        ap (λ k. get_or a k 0) (omega arith)
        ∙ h 0 (omega arith)
        ∙ ap (λ k. get_or b k 0) (omega arith)

    rest : (j : ℕ) → j < n → get_or a (suc i + j) 0 ≡ get_or b (suc i + j) 0
    rest j l =
        ap (λ k. get_or a k 0) (omega arith)
        ∙ h (suc j) (omega (arith, l))
        ∙ ap (λ k. get_or b k 0) (omega arith)

pub same_name_stored :
    (name : List ℕ) → IsPadded name → same_name (store_name name 0 max_name) name ≡ true
same_name_stored name p =
    rw (first_diff_none (store_name name 0 max_name) name 0 max_name stored) refl
  where
    stored :
        (j : ℕ)
        → j < max_name
        → get_or (store_name name 0 max_name) (0 + j) 0 ≡ get_or name (0 + j) 0
    stored j l =
        ap (λ k. get_or (store_name name 0 max_name) k 0) (omega arith)
        ∙ get_or-store_name name 0 max_name j p l

-- A table with a passing cell has a found one.
is_found_of :
    (files : List File) (name : List ℕ) (k : ℕ)
    → k < length files
    → is_file name (get_or files k zero_file) ≡ true
    → is_found (find_file files name) ≡ true
is_found_of files name k h e = elim (Option-cases (find_file files name)) [
  | inl n ↦ absurd (ground (arith, e, find_index-none (is_file name) files n k zero_file h))
  | inr (i, s) ↦ rw s refl
]

create_at_found :
    (fs : Ramfs) (name : List ℕ) (o : Option ℕ)
    → IsPadded name
    → find_index (λ f. not f.in_use) fs.files ≡ o
    → (create_at fs name o).0 ≡ ok
    → is_found (find_file (create_at fs name o).1.files name) ≡ true
create_at_found fs name none p s e = absurd (ground (arith, e))
create_at_found fs name (some k) p s e =
    let lt = (find_index-some (λ f. not f.in_use) fs.files k s).0 in
    is_found_of (create_at fs name (some k)).1.files name k
      (omega (
        arith,
        lt,
        length-set fs.files k (record (get_or fs.files k zero_file) {
          name = store_name name 0 max_name;
          size = 0;
          in_use = true;
        }),
      ))
      (ap (is_file name) (get_or-set_self fs.files k _ zero_file lt) ∙ same_name_stored name p)

-- After a successful `ramfs_create` of a name whose buffer is zero from its end on, `ramfs_exists` of that name is true.
pub exists-create :
    (fs : Ramfs) (name : List ℕ)
    → IsPadded name
    → (create fs name).0 ≡ ok
    → exists (create fs name).1 name ≡ true
unfolding exists create
exists-create fs name p e = elim (Option-cases (find_file fs.files name)) [
  | inl n ↦
      rw n (create_at_found fs name (find_index (λ f. not f.in_use) fs.files) p refl (rw n at e))
  | inr (k, s) ↦ rw s (rw s refl)
]
