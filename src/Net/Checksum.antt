-- ===== src/Net/Checksum.antt =====
-- The checksum of kernel/net.c, and what its users store.
use aeos.Net.{add_words, fold_carries, ip_header, cksum, checked_header}
use aeos.Base.{
  ℕ, List, ◌+◌, ◌<◌, ◌^◌, ◌%◌, ◌≡◌, arith, ◌∷◌, add32, ◌*◌, ◌∙◌, [], sym, ◌-◌, ◌/◌, ◌≤◌,
  if◌then◌else◌, ap, suc, ◌≢◌, ◌==◌, if_ind,
}

-- The one's complement of a sum: 1, …, 65535, with 0 only for 0.
abbrev pub residue : ℕ → ℕ
residue s = if s == 0 then 0 else suc ((s - 1) % 65535)

-- One round of the folding loop keeps the residue.
residue_step : (s : ℕ) → residue (s % 65536 + s / 65536) ≡ residue s
residue_step s = ground arith

residue_small : (s : ℕ) → s < 65536 → residue s ≡ s
residue_small s h = ground (arith, h)

-- `n` rounds are enough for the sums that one round makes small enough for `n` - 1.
fold_next :
    (n s : ℕ)
    → (65536 ≤ s → fold_carries n (s % 65536 + s / 65536) ≡ residue (s % 65536 + s / 65536))
    → fold_carries (suc n) s ≡ residue s
unfolding fold_carries
fold_next n s h =
    if_ind (λ r. r ≡ residue s) (s / 65536 == 0) s _
      (λ e. sym (residue_small s (ground (arith, e)))) (λ e. h (ground (arith, e)) ∙ residue_step s)

fold_none : (s : ℕ) → s < 65536 → fold_carries 0 s ≡ residue s
unfolding fold_carries
fold_none s h = sym (residue_small s h)

pub fold_carries-residue : (s : ℕ) → s < 2 ^ 32 → fold_carries 3 s ≡ residue s
fold_carries-residue s h = fold_next 2 s (λ a. fold_next 1 (s % 65536 + s / 65536) (λ b.
    fold_next 0 (again (again s))
      (λ c. fold_none (again (again (again s))) (omega (arith, h, a, b, c)))))
  where
    again : ℕ → ℕ
    again t = t % 65536 + t / 65536

-- The sum of the words without wrapping
abbrev pub words : List ℕ → ℕ
words [] = 0
words (b ∷ []) = b * 256
words (b ∷ c ∷ bytes) = b * 256 + c + words bytes

add_words_lem :
    (s : ℕ) (bytes : List ℕ) → s + words bytes < 2 ^ 32 → add_words s bytes ≡ s + words bytes
unfolding add_words
add_words_lem s [] h = omega arith
add_words_lem s (b ∷ []) h = omega (arith, h)
add_words_lem s (b ∷ c ∷ bytes) h =
    add_words_lem (add32 s (b * 256 + c)) bytes (omega (arith, h)) ∙ omega (arith, h)

-- Of any bytes whose words sum to less than 2^32, `cksum` is the complement of the one's complement sum of the words.
pub cksum-residue :
    (bytes : List ℕ) → words bytes < 2 ^ 32 → cksum bytes ≡ 65535 - residue (words bytes)
unfolding cksum
cksum-residue bytes h =
    ap (λ s. 65535 - fold_carries 3 s) (add_words_lem 0 bytes (omega (arith, h)) ∙ omega arith)
    ∙ ap (λ r. 65535 - r) (fold_carries-residue (words bytes) h)

-- The words of an IP header without its checksum
abbrev rest_of : ℕ → ℕ → ℕ → ℕ → ℕ → ℕ → ℕ
rest_of a b c d proto blen = words (ip_header (a ∷ b ∷ c ∷ d ∷ []) proto blen (0 ∷ 0 ∷ []))

-- A stored checksum adds its own word.
header_words :
    (a b c d proto blen x y : ℕ)
    → words (ip_header (a ∷ b ∷ c ∷ d ∷ []) proto blen (x ∷ y ∷ []))
      ≡ rest_of a b c d proto blen + (x * 256 + y)
header_words a b c d proto blen x y = omega arith

residue_le : (s : ℕ) → residue s ≤ 65535
residue_le s = ground arith

-- Two different checksums cannot both verify, unless they are the two zeros.
swapped_residue :
    (s c : ℕ)
    → 0 < s
    → s < 2 ^ 31
    → c ≡ 65535 - residue s
    → c / 256 ≢ c % 256
    → residue (s + (c % 256 * 256 + c / 256 % 256)) ≢ 65535
swapped_residue s c p h e ne eq = ground (arith, p, e, ne, eq)

-- The header that `ip_send` sends to any address does not verify, except where the two bytes of its checksum are the same: the value is stored low byte first, while `cksum` computes and a receiver reads it high byte first.
pub header_swapped :
    (a b c d proto blen : ℕ)
    → a < 256
    → b < 256
    → c < 256
    → d < 256
    → proto < 256
    → cksum (ip_header (a ∷ b ∷ c ∷ d ∷ []) proto blen (0 ∷ 0 ∷ [])) / 256
      ≢ cksum (ip_header (a ∷ b ∷ c ∷ d ∷ []) proto blen (0 ∷ 0 ∷ [])) % 256
    → cksum (checked_header (a ∷ b ∷ c ∷ d ∷ []) proto blen) ≢ 0
header_swapped a b c d proto blen ha hb hc hd hp ne zero_sum =
    swapped_residue s check positive small first ne
      (ground (arith, residue_le (s + swapped), sym second ∙ zero_sum))
  where
    check : ℕ
    check = cksum (ip_header (a ∷ b ∷ c ∷ d ∷ []) proto blen (0 ∷ 0 ∷ []))

    s : ℕ
    s = rest_of a b c d proto blen

    swapped : ℕ
    swapped = check % 256 * 256 + check / 256 % 256

    positive : 0 < s
    positive = omega arith

    small : s < 2 ^ 31
    small = omega (arith, ha, hb, hc, hd, hp)

    first : check ≡ 65535 - residue s
    first =
        cksum-residue (ip_header (a ∷ b ∷ c ∷ d ∷ []) proto blen (0 ∷ 0 ∷ []))
          (omega (arith, small))

    sum : words (checked_header (a ∷ b ∷ c ∷ d ∷ []) proto blen) ≡ s + swapped
    sum = header_words a b c d proto blen (check % 256) (check / 256 % 256)

    second : cksum (checked_header (a ∷ b ∷ c ∷ d ∷ []) proto blen) ≡ 65535 - residue (s + swapped)
    second =
        cksum-residue (checked_header (a ∷ b ∷ c ∷ d ∷ []) proto blen) (omega (arith, small, sum))
        ∙ ap (λ t. 65535 - residue t) sum
