-- ===== src/Log/Bounds.antt =====
-- The formatter of kernel/log.c never writes past its buffer.
use aeos.Base.{
  ℕ, List, length, ltb, ◌<◌, ◌≡◌, ◌≤◌, true, arith, if_ind, ◌-◌, ◌++◌, [], ◌==◌, ◌∷◌, length-append,
}
use aeos.Log.{format, vsnprintf, emit, Arg, convert, args_after, takes_arg, shown}

emit-le : (limit : ℕ) (out cs : List ℕ) → length out ≤ limit → length (emit limit out cs) ≤ limit
unfolding emit
emit-le limit out [] h = h
emit-le limit out (c ∷ cs) h =
    if_ind (λ (l : List ℕ). length l ≤ limit) (ltb (length out) limit) _ _
      (λ e. emit-le limit (out ++ (c ∷ [])) cs (ground (arith, e, length-append out (c ∷ []))))
      (λ e. h)

convert-le :
    (limit c : ℕ) (args : List Arg) (out : List ℕ)
    → length out ≤ limit
    → length (convert limit c args out) ≤ limit
convert-le limit c [] out h =
    if_ind (λ (l : List ℕ). length l ≤ limit) (c == 37) _ _ (λ e. emit-le limit out (37 ∷ []) h)
      (λ e. h)
convert-le limit c (a ∷ args) out h =
    if_ind (λ (l : List ℕ). length l ≤ limit) (takes_arg c) _ _
      (λ e. emit-le limit out (shown c a) h)
      (λ e.
        if_ind (λ (l : List ℕ). length l ≤ limit) (c == 37) _ _ (λ f. emit-le limit out (37 ∷ []) h)
          (λ f. h))

one_more :
    (limit c : ℕ) (out : List ℕ) → ltb (length out) limit ≡ true → length (out ++ (c ∷ [])) ≤ limit
one_more limit c out e = ground (arith, e, length-append out (c ∷ []))

format-le :
    (limit : ℕ) (fmt : List ℕ) (args : List Arg) (out : List ℕ)
    → length out ≤ limit
    → length (format limit fmt args out) ≤ limit
unfolding format
format-le limit [] args out h = h
format-le limit (c ∷ []) args out h =
    if_ind (λ (l : List ℕ). length l ≤ limit) (ltb (length out) limit) _ _
      (λ e.
        if_ind (λ (l : List ℕ). length l ≤ limit) (c == 37) _ _ (λ f. h)
          (λ f. one_more limit c out e))
      (λ e. h)
format-le limit (c ∷ d ∷ fmt) args out h =
    if_ind (λ (l : List ℕ). length l ≤ limit) (ltb (length out) limit) _ _
      (λ e.
        if_ind (λ (l : List ℕ). length l ≤ limit) (c == 37) _ _
          (λ f.
            format-le limit fmt (args_after d args) (convert limit d args out)
              (convert-le limit d args out h))
          (λ f. format-le limit (d ∷ fmt) args (out ++ (c ∷ [])) (one_more limit c out e)))
      (λ e. h)

-- For every format and every arguments, what is formatted into a buffer that is not empty fits with its final NUL.
pub length-vsnprintf :
    (bufsize : ℕ) (fmt : List ℕ) (args : List Arg)
    → 0 < bufsize
    → length (vsnprintf bufsize fmt args) < bufsize
unfolding vsnprintf
length-vsnprintf bufsize fmt args h =
    omega (arith, h, format-le (bufsize - 1) fmt args [] (omega arith))
