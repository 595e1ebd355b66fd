-- ===== src/Net/Address.antt =====
-- `net_parse_ip` of kernel/net.c reads back the addresses that are written in decimal.
use aeos.Base.{
  ℕ, List, if◌then◌else◌, ◌<◌, ◌∷◌, ◌++◌, ltb, ◌*◌, ◌≡◌, ◌+◌, ◌%◌, ◌^◌, [], ◌/◌, suc, refl, leb, ap,
  ◌∙◌, some, ◌&&◌, if_ind, ◌≢◌, true, arith, ◌-◌, false,
}
use aeos.Net.{parse_parts, parse_ip, address_of}

-- A number below 256 in decimal, without leading zeros
abbrev pub in_decimal : ℕ → List ℕ
in_decimal n =
    if ltb n 10
    then (48 + n) ∷ []
    else if ltb n 100
    then (48 + n / 10) ∷ (48 + n % 10) ∷ []
    else (48 + n / 100) ∷ (48 + n / 10 % 10) ∷ (48 + n % 10) ∷ []

parse_digit :
    (out part parts d : ℕ) (s : List ℕ)
    → d < 10
    → part * 10 + d < 256
    → parse_parts out part parts ((48 + d) ∷ s) ≡ parse_parts out (part * 10 + d) parts s
unfolding parse_parts
parse_digit out part parts d s h k =
    let digit : ((leb 48 (48 + d) && leb (48 + d) 57) ≡ true) = ground (arith, h) in
    let same : 48 + d - 48 ≡ d = omega arith in
    let fits : (ltb 255 (part * 10 + d) ≡ false) = ground (arith, k) in rw (digit, same, fits) refl

parse_dot :
    (out part parts : ℕ) (s : List ℕ)
    → parse_parts out part parts (46 ∷ s) ≡ parse_parts (out * 256 % 2 ^ 32 + part) 0 (suc parts) s
unfolding parse_parts
parse_dot out part parts s = refl

parse_decimal :
    (out parts n : ℕ) (s : List ℕ)
    → n < 256
    → parse_parts out 0 parts (in_decimal n ++ s) ≡ parse_parts out n parts s
parse_decimal out parts n s h =
    if_ind Reads (ltb n 10) _ _
      (λ e. parse_digit out 0 parts n s (ground (arith, e)) (omega (arith, h)) ∙ at (omega arith))
      (λ e.
        if_ind Reads (ltb n 100) _ _
          (λ f.
            parse_digit out 0 parts (n / 10) ((48 + n % 10) ∷ s) (ground (arith, f))
              (omega (arith, h))
            ∙ parse_digit out (0 * 10 + n / 10) parts (n % 10) s (omega arith) (omega (arith, h))
            ∙ at (omega arith))
          (λ f.
            parse_digit out 0 parts (n / 100) ((48 + n / 10 % 10) ∷ (48 + n % 10) ∷ s)
              (omega (arith, h)) (omega (arith, h))
            ∙ parse_digit out (0 * 10 + n / 100) parts (n / 10 % 10) ((48 + n % 10) ∷ s)
                (omega arith) (omega (arith, h))
            ∙ parse_digit out ((0 * 10 + n / 100) * 10 + n / 10 % 10) parts (n % 10) s (omega arith)
                (omega (arith, h))
            ∙ at (omega arith)))
  where
    Reads : List ℕ → Type 0
    Reads l = parse_parts out 0 parts (l ++ s) ≡ parse_parts out n parts s

    at : {m : ℕ} → m ≡ n → parse_parts out m parts s ≡ parse_parts out n parts s
    at e = ap (λ p. parse_parts out p parts s) e

parse_part :
    (out parts n : ℕ) (s : List ℕ)
    → n < 256
    → parse_parts out 0 parts (in_decimal n ++ 46 ∷ s)
      ≡ parse_parts (out * 256 % 2 ^ 32 + n) 0 (suc parts) s
parse_part out parts n s h = parse_decimal out parts n (46 ∷ s) h ∙ parse_dot out n parts s

-- An address in dotted decimal
abbrev pub dotted : ℕ → ℕ → ℕ → ℕ → List ℕ
dotted a b c d =
    in_decimal a ++ 46 ∷ (in_decimal b ++ 46 ∷ (in_decimal c ++ 46 ∷ (in_decimal d ++ [])))

abbrev pub value : ℕ → ℕ → ℕ → ℕ → ℕ
value a b c d = ((a * 256 + b) * 256 + c) * 256 + d

dotted_parts :
    (a b c d : ℕ)
    → a < 256
    → b < 256
    → c < 256
    → d < 256
    → parse_parts 0 0 0 (dotted a b c d) ≡ some ((a * 256 + b) * 256 + c, d, 3)
unfolding parse_parts
dotted_parts a b c d ha hb hc hd =
    parse_part 0 0 a (in_decimal b ++ 46 ∷ (in_decimal c ++ 46 ∷ (in_decimal d ++ []))) ha
    ∙ parse_part a' 1 b (in_decimal c ++ 46 ∷ (in_decimal d ++ [])) hb
    ∙ parse_part b' 2 c (in_decimal d ++ []) hc
    ∙ parse_decimal c' 3 d [] hd
    ∙ ap (λ o. some (o, d, 3)) (omega (arith, ha, hb, hc))
  where
    a' : ℕ
    a' = 0 * 256 % 2 ^ 32 + a

    b' : ℕ
    b' = a' * 256 % 2 ^ 32 + b

    c' : ℕ
    c' = b' * 256 % 2 ^ 32 + c

-- Every address but 0.0.0.0 and 255.255.255.255, written in dotted decimal, is read back by `net_parse_ip`.
pub parse_ip-dotted :
    (a b c d : ℕ)
    → a < 256
    → b < 256
    → c < 256
    → d < 256
    → value a b c d ≢ 0
    → value a b c d ≢ 0xFFFFFFFF
    → parse_ip (dotted a b c d) ≡ value a b c d
unfolding parse_ip
parse_ip-dotted a b c d ha hb hc hd low high =
    ap address_of (dotted_parts a b c d ha hb hc hd) ∙ ground (arith, ha, hb, hc, hd, low, high)
