-- ===== src/Net/Tests.antt =====
-- Concrete frames of kernel/net.c, and instances of the theorems about it.
use aeos.Net.Checksum.{residue, header_swapped, words, cksum-residue}
use aeos.Net.Address.{dotted, value, parse_ip-dotted}
use aeos.Net.Replies.{IsNet}
use aeos.Net.{parse_ip, cksum, Net, add_words, parse_parts, checked_header, fold_carries, ip_header}
use aeos.Base.{List, replicate, ◌∷◌, ℕ, length-replicate, ◌≡◌, [], false, refl, ◌≢◌, ◌-◌, arith}

abbrev mac : List ℕ
mac = 82 ∷ 84 ∷ 0 ∷ 18 ∷ 52 ∷ 86 ∷ []

abbrev fresh : Net
fresh = record { gw_mac = replicate 6 0; have_gw_mac = false; reply_body = replicate 1500 0 }

fresh-IsNet : IsNet fresh
fresh-IsNet = (refl, length-replicate {A = ℕ} 1500 0)

-- An echo request with four bytes of data
abbrev request : List ℕ
request = 8 ∷ 0 ∷ 1 ∷ 2 ∷ 0 ∷ 1 ∷ 0 ∷ 1 ∷ 97 ∷ 98 ∷ 99 ∷ 100 ∷ []

abbrev peer : List ℕ
peer = 10 ∷ 0 ∷ 2 ∷ 2 ∷ []

-- The checksum is 507d; the wire carries 7d50.
sent_check : cksum (ip_header peer 1 40 (0 ∷ 0 ∷ [])) ≡ 0x507d
unfolding cksum add_words fold_carries
sent_check = refl

header_swapped_example : cksum (checked_header (10 ∷ 0 ∷ 2 ∷ 2 ∷ []) 1 40) ≢ 0
header_swapped_example =
    header_swapped 10 0 2 2 1 40 (omega arith) (omega arith) (omega arith) (omega arith)
      (omega arith) (rw sent_check (omega arith))

cksum-residue_example :
    cksum (1 ∷ 2 ∷ 255 ∷ 255 ∷ 7 ∷ []) ≡ 65535 - residue (words (1 ∷ 2 ∷ 255 ∷ 255 ∷ 7 ∷ []))
cksum-residue_example = cksum-residue (1 ∷ 2 ∷ 255 ∷ 255 ∷ 7 ∷ []) (omega arith)

-- "10.0.2.15"
parse_ip-dotted_example : parse_ip (dotted 10 0 2 15) ≡ value 10 0 2 15
parse_ip-dotted_example =
    parse_ip-dotted 10 0 2 15 (omega arith) (omega arith) (omega arith) (omega arith) (omega arith)
      (omega arith)

-- Empty parts count as 0.
parse_gaps : parse_ip (49 ∷ 46 ∷ 46 ∷ 46 ∷ []) ≡ 0x01000000
unfolding parse_ip parse_parts
parse_gaps = refl
