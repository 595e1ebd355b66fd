-- ===== src/Net/Replies.antt =====
-- What kernel/net.c answers to an ICMP echo request.
use aeos.Base.{
  ℕ, List, length, ◌<◌, ◌≡◌, get_or, take, ◌≤◌, ◌++◌, ◌+◌, ap, arith, ◌∷◌, suc, ◌∙◌, zero, [], refl,
  sym, ltb, length-take, get_or-take, false, drop, memcpy, length-append, length-memcpy,
  length-drop, if◌then◌else◌, if_ind,
}
use aeos.Net.{
  icmp_reply, Net, ip_send, put_check, checked_header, eth_send, be16, le16, bcast, cksum,
}

get_or_after :
    {A : Type 0} (xs ys : List A) (k i : ℕ) (d : A)
    → length xs ≡ k
    → get_or (xs ++ ys) (k + i) d ≡ get_or ys i d
get_or_after [] ys k i d e =
    let same : i ≡ k + i = omega (arith, e) in ap (λ j. get_or ys j d) (sym same)
get_or_after (x ∷ xs) ys zero i d e = absurd (omega (arith, e))
get_or_after (x ∷ xs) ys (suc k) i d e =
    let same : suc k + i ≡ suc (k + i) = omega arith in
    ap (λ j. get_or (x ∷ (xs ++ ys)) j d) same ∙ get_or_after xs ys k i d (omega (arith, e))

get_or-append :
    {A : Type 0} (xs ys : List A) (i : ℕ) (d : A)
    → i < length xs
    → get_or (xs ++ ys) i d ≡ get_or xs i d
get_or-append [] ys i d h = elim h [ ]
get_or-append (x ∷ xs) ys zero d h = refl
get_or-append (x ∷ xs) ys (suc i) d h = get_or-append xs ys i d (omega (arith, h))

-- The buffers have their sizes.
abbrev pub IsNet : Net → Type 0
IsNet net = (length net.gw_mac ≡ 6) × (length net.reply_body ≡ 1500)

-- The parts of a frame before its payload
framed :
    (dst mac payload : List ℕ) (kind : ℕ)
    → length dst ≡ 6
    → length mac ≡ 6
    → length payload ≤ 1486
    → (get_or (eth_send mac dst kind payload) 34 0 ≡ get_or payload 20 0)
      × (length (eth_send mac dst kind payload) ≡ 14 + length payload)
unfolding eth_send
framed dst mac payload kind hd hm hp = (
  get_or_after (take 6 dst) (mac ++ (be16 kind ++ take 1486 payload)) 6 28 0
        (omega (arith, length-take 6 dst, hd))
      ∙ get_or_after mac (be16 kind ++ take 1486 payload) 6 22 0 hm
      ∙ get_or-take 1486 20 payload 0 (omega arith),
  omega (
    arith,
    length-append (take 6 dst) (mac ++ (be16 kind ++ take 1486 payload)),
    length-append mac (be16 kind ++ take 1486 payload),
    length-take 6 dst,
    length-take 1486 payload,
    hd,
    hm,
    hp,
  ),
)

-- The 35th byte of a frame that carries an IP packet is the first of its body.
ip_send_body :
    (net : Net) (mac dst body : List ℕ) (proto : ℕ)
    → IsNet net
    → length mac ≡ 6
    → length dst ≡ 4
    → length body ≤ 1466
    → (get_or (ip_send net mac dst proto body) 34 0 ≡ get_or body 0 0)
      × (length (ip_send net mac dst proto body) ≡ 34 + length body)
unfolding ip_send
ip_send_body net mac dst body proto v hm hd h = (
  frame.0 ∙ get_or_after header sent 20 0 0 twenty ∙ get_or-take 1480 0 body 0 (omega arith),
  omega (arith, frame.1, total, sent_length),
)
  where
    sent : List ℕ
    sent = take 1480 body

    header : List ℕ
    header = checked_header dst proto (length sent)

    twenty : length header ≡ 20
    twenty = omega (arith, length-take 4 dst, hd)

    sent_length : length sent ≡ length body
    sent_length = omega (arith, length-take 1480 body, h)

    total : length (header ++ sent) ≡ 20 + length sent
    total = omega (arith, length-append header sent, twenty)

    target : length (if net.have_gw_mac then net.gw_mac else bcast) ≡ 6
    target =
        if_ind (λ (l : List ℕ). length l ≡ 6) net.have_gw_mac net.gw_mac bcast (λ e. v.0)
          (λ e. refl)

    frame :
        (get_or
            (eth_send mac (if net.have_gw_mac then net.gw_mac else bcast) 0x0800 (header ++ sent))
            34
            0
          ≡ get_or (header ++ sent) 20 0)
        × (length
              (eth_send mac (if net.have_gw_mac then net.gw_mac else bcast) 0x0800 (header ++ sent))
            ≡ 14 + length (header ++ sent))
    frame =
        framed (if net.have_gw_mac then net.gw_mac else bcast) mac (header ++ sent) 0x0800 target hm
          (omega (arith, total, sent_length, h))

-- Writing the checksum field moves nothing else.
checked :
    (body check : List ℕ)
    → 4 ≤ length body
    → length check ≡ 2
    → (get_or (put_check body check) 0 0 ≡ get_or body 0 0)
      × (length (put_check body check) ≡ length body)
checked body check h e = (
  get_or-append (take 2 body) (check ++ drop 4 body) 0 0 (omega (arith, length-take 2 body, h))
      ∙ get_or-take 2 0 body 0 (omega arith),
  omega (
    arith,
    length-append (take 2 body) (check ++ drop 4 body),
    length-append check (drop 4 body),
    length-take 2 body,
    length-drop 4 body,
    h,
    e,
  ),
)

-- An echo request of up to 1458 bytes is answered by a frame whose ICMP message has the request's own type, 8 for a request and not 0 for a reply, and is 8 bytes longer than the request.
icmp_reply_echo :
    (net : Net) (mac src req : List ℕ)
    → IsNet net
    → length mac ≡ 6
    → length src ≡ 4
    → 8 ≤ length req
    → length req ≤ 1458
    → (get_or (icmp_reply net mac src req).1 34 0 ≡ get_or req 0 0)
      × (length (icmp_reply net mac src req).1 ≡ 34 + (length req + 8))
unfolding icmp_reply
icmp_reply_echo net mac src req v hm hs lo hi = rw short (
  frame.0
      ∙ get_or-take (8 + length req) 0 second 0 (omega arith)
      ∙ two.0
      ∙ one.0
      ∙ get_or-append (take (length req) req) (drop (length req) net.reply_body) 0 0
          (omega (arith, whole, lo))
      ∙ get_or-take (length req) 0 req 0 (omega (arith, lo)),
  omega (arith, frame.1, message),
)
  where
    short : ltb 1492 (length req) ≡ false
    short = ground (arith, hi)

    whole : length (take (length req) req) ≡ length req
    whole = omega (arith, length-take (length req) req)

    copied : List ℕ
    copied = memcpy net.reply_body req (length req)

    copied_length : length copied ≡ 1500
    copied_length = omega (arith, length-memcpy net.reply_body req (length req), v.1, hi)

    first : List ℕ
    first = put_check copied (0 ∷ 0 ∷ [])

    one : (get_or first 0 0 ≡ get_or copied 0 0) × (length first ≡ length copied)
    one = checked copied (0 ∷ 0 ∷ []) (omega (arith, copied_length)) refl

    second : List ℕ
    second = put_check first (le16 (cksum (take (8 + length req) first)))

    two : (get_or second 0 0 ≡ get_or first 0 0) × (length second ≡ length first)
    two =
        checked first (le16 (cksum (take (8 + length req) first)))
          (omega (arith, one.1, copied_length)) refl

    message : length (take (8 + length req) second) ≡ 8 + length req
    message = omega (arith, length-take (8 + length req) second, two.1, one.1, copied_length, hi)

    frame :
        (get_or (ip_send net mac src 1 (take (8 + length req) second)) 34 0
          ≡ get_or (take (8 + length req) second) 0 0)
        × (length (ip_send net mac src 1 (take (8 + length req) second))
            ≡ 34 + length (take (8 + length req) second))
    frame =
        ip_send_body net mac src (take (8 + length req) second) 1 v hm hs
          (omega (arith, message, hi))
