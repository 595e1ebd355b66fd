-- ===== src/Net.antt =====
-- The network stack of kernel/net.c: Ethernet, ARP, IPv4 and ICMP on frames as lists of bytes. `mac`
-- is what vnet_get_mac gives; a function that sends returns the frame it hands to vnet_send.
use aeos.Base.{
  Option, List, ℕ, ◌-◌, drop, ◌/◌, take, replicate, some, Bool, ◌%◌, ◌∷◌, if◌then◌else◌, get_or,
  ltb, ◌*◌, ◌==◌, add32, ◌++◌, not, [], length, ◌+◌, ◌&&◌, ◌^◌, none, memcpy, ◌||◌, leb, true, suc,
  zero,
}
pub mod Checksum
pub mod Replies
pub mod Tests
pub mod Address

-- `VNET_ETH_MTU`
abbrev pub mtu : ℕ
mtu = 1500

abbrev pub our_ip : List ℕ
our_ip = 10 ∷ 0 ∷ 2 ∷ 15 ∷ []

abbrev pub gw_ip : List ℕ
gw_ip = 10 ∷ 0 ∷ 2 ∷ 2 ∷ []

abbrev pub bcast : List ℕ
bcast = replicate 6 255

-- The static state: what was learned of the gateway, and the buffer of `icmp_reply`.
pub record Net : Type 0 where
  pub gw_mac : List ℕ
  pub have_gw_mac : Bool
  pub reply_body : List ℕ

-- The first two loops' sum in `cksum`
unfoldable pub add_words : ℕ → List ℕ → ℕ
add_words sum [] = sum
add_words sum (b ∷ []) = add32 sum (b * 256)
add_words sum (b ∷ c ∷ bytes) = add_words (add32 sum (b * 256 + c)) bytes

-- `while (sum >> 16) sum = (sum & 0xFFFF) + (sum >> 16);`, `n` times at most
unfoldable pub fold_carries : ℕ → ℕ → ℕ
fold_carries zero sum = sum
fold_carries (suc n) sum =
    let rest = fold_carries n (sum % 65536 + sum / 65536) in if sum / 65536 == 0 then sum else rest

-- `cksum`; three rounds are enough for 32 bits.
unfoldable pub cksum : List ℕ → ℕ
cksum bytes = 65535 - fold_carries 3 (add_words 0 bytes)

-- A `uint16_t` as the processor stores it, low byte first, and as `be16` turns it
abbrev pub le16 : ℕ → List ℕ
le16 v = v % 256 ∷ v / 256 % 256 ∷ []

abbrev pub be16 : ℕ → List ℕ
be16 v = v / 256 % 256 ∷ v % 256 ∷ []

-- `eth_send`
pub eth_send : List ℕ → List ℕ → ℕ → List ℕ → List ℕ
eth_send mac dst kind payload = take 6 dst ++ (mac ++ (be16 kind ++ take (mtu - 14) payload))

-- `arp_send`
pub arp_send : List ℕ → ℕ → List ℕ → List ℕ → List ℕ
arp_send mac oper tha tpa = eth_send mac (if oper == 1 then bcast else tha) 0x0806 (
    be16 1 ++ be16 0x0800 ++ (6 ∷ 4 ∷ []) ++ be16 oper ++ mac ++ our_ip ++ take 6 tha ++ take 4 tpa)

-- The header that `ip_send` builds, with the two bytes given for its checksum
abbrev pub ip_header : List ℕ → ℕ → ℕ → List ℕ → List ℕ
ip_header dst proto blen check =
    (0x45 ∷ 0 ∷ [])
    ++ be16 (20 + blen)
    ++ be16 0x1234
    ++ (0 ∷ 0 ∷ 64 ∷ proto ∷ [])
    ++ check
    ++ our_ip
    ++ take 4 dst

-- `ip->checksum = cksum(ip, sizeof *ip)`: the value is stored as the processor stores it.
abbrev pub checked_header : List ℕ → ℕ → ℕ → List ℕ
checked_header dst proto blen =
    ip_header dst proto blen (le16 (cksum (ip_header dst proto blen (0 ∷ 0 ∷ []))))

-- `ip_send`
pub ip_send : Net → List ℕ → List ℕ → ℕ → List ℕ → List ℕ
ip_send net mac dst proto body =
    let sent = take 1480 body in
    eth_send mac (if net.have_gw_mac then net.gw_mac else bcast) 0x0800
      (checked_header dst proto (length sent) ++ sent)

-- The checksum field of an ICMP message, bytes 2 and 3
abbrev pub put_check : List ℕ → List ℕ → List ℕ
put_check body check = take 2 body ++ (check ++ drop 4 body)

-- `icmp_reply`: `len` bytes of the request go over what the static buffer held, and `len` + 8 are sent.
pub icmp_reply : Net → List ℕ → List ℕ → List ℕ → Net × List ℕ
icmp_reply net mac src req =
    let len = (if ltb 1492 (length req) then 1492 else length req) in
    let body = put_check (memcpy net.reply_body req len) (0 ∷ 0 ∷ []) in
    let checked = put_check body (le16 (cksum (take (8 + len) body))) in
    (record net { reply_body = checked }, ip_send net mac src 1 (take (8 + len) checked))

-- `icmp_echo_request`; `icmp_id` is stored as it is.
pub icmp_echo_request : Net → List ℕ → List ℕ → ℕ → List ℕ
icmp_echo_request net mac ip_be seq =
    let body = (8 ∷ 0 ∷ 0 ∷ 0 ∷ []) ++ le16 0x4145 ++ be16 seq ++ replicate 32 0 in
    ip_send net mac ip_be 1 (put_check body (le16 (cksum body)))

-- Bytes `i`, …, `i + n - 1`
abbrev pub slice : List ℕ → ℕ → ℕ → List ℕ
slice bytes i n = take n (drop i bytes)

abbrev pub word_at : List ℕ → ℕ → ℕ
word_at bytes i = get_or bytes i 0 * 256 + get_or bytes (suc i) 0

-- `memcmp(a, b, 4) == 0`
abbrev pub same_ip : List ℕ → List ℕ → Bool
same_ip a b =
    get_or a 0 0 == get_or b 0 0
    && (get_or a 1 0 == get_or b 1 0
        && (get_or a 2 0 == get_or b 2 0 && get_or a 3 0 == get_or b 3 0))

-- The ARP part of `handle_rx`: the answer to a question for our address, and the gateway learned
pub handle_arp : Net → List ℕ → List ℕ → Net × Option (List ℕ)
handle_arp net mac frame =
    let oper = word_at frame 20 in
    (
      (if oper == 2 && same_ip (slice frame 28 4) gw_ip
          then record net { gw_mac = slice frame 22 6; have_gw_mac = true }
          else net),
      (if oper == 1 && same_ip (slice frame 38 4) our_ip
          then some (arp_send mac 2 (slice frame 22 6) (slice frame 28 4))
          else none),
    )

abbrev pub replied : Net × List ℕ → Net × Option (List ℕ)
replied (net, frame) = (net, some frame)

-- The IPv4 part of `handle_rx`
pub handle_ip : Net → List ℕ → List ℕ → Net × Option (List ℕ)
handle_ip net mac frame =
    let body = drop 34 frame in
    if not (get_or frame 23 0 == 1)
    then (net, none)
    else if not (same_ip (slice frame 30 4) our_ip)
    then (net, none)
    else if leb 8 (length body) && get_or body 0 0 == 8
    then replied (icmp_reply net mac (slice frame 26 4) body)
    else (net, none)

-- `handle_rx`: the new state and the frame sent, if any
pub handle_rx : Net → List ℕ → List ℕ → Net × Option (List ℕ)
handle_rx net mac frame =
    if ltb (length frame) 16
    then (net, none)
    else if word_at frame 12 == 0x0806 && leb 42 (length frame)
    then handle_arp net mac frame
    else if word_at frame 12 == 0x0800 && leb 34 (length frame)
    then handle_ip net mac frame
    else (net, none)

-- `net_poll` on the frames that vnet_recv has, with the frames sent
pub poll : Net → List ℕ → List (List ℕ) → Net × List (Option (List ℕ))
poll net mac [] = (net, [])
poll net mac (frame ∷ frames) =
    let (net', sent) = handle_rx net mac frame in
    let (last, all_sent) = poll net' mac frames in (last, sent ∷ all_sent)

-- The loop of `net_parse_ip` on the characters left; `none` is `ok = 0`.
unfoldable pub parse_parts : ℕ → ℕ → ℕ → List ℕ → Option (ℕ × ℕ × ℕ)
parse_parts out part parts [] = some (out, part, parts)
parse_parts out part parts (c ∷ s) =
    let more = parse_parts out (part * 10 + (c - 48)) parts s in
    let next = parse_parts (out * 256 % 2 ^ 32 + part) 0 (suc parts) s in
    if leb 48 c && leb c 57
    then (if ltb 255 (part * 10 + (c - 48)) then none else more)
    else if c == 46
    then next
    else none

-- The end of `net_parse_ip`
abbrev pub address_of : Option (ℕ × ℕ × ℕ) → ℕ
address_of none = 0
address_of (some (out, part, parts)) =
    let ip = out * 256 % 2 ^ 32 + part in
    if not (parts == 3) then 0 else if ip == 0 || ip == 0xFFFFFFFF then 0 else ip

-- `net_parse_ip`
unfoldable pub parse_ip : List ℕ → ℕ
parse_ip s = address_of (parse_parts 0 0 0 s)
