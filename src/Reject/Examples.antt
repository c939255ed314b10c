-- ===== src/Reject/Examples.antt =====
-- The theorems of obsidian/ipv6_reject.go at a TCP SYN behind a hop-by-hop header.
use obsidian_vpn.Base.{ℕ, ◌≡◌, refl, List, [], ◌∷◌, Option, none, some, slice, arith}
use obsidian_vpn.Base.Bytes.{get_u16, get_u32, u16_bytes, u32_bytes}
use obsidian_vpn.Reject.{
  is_all_zero, ones_sum_with, fold_words, ipv6_sum, ipv6_checksum, ipv6_header, reset_header,
  segment_len, reset_numbers, write_reset, build_tcp_reset, is_extension, extension_walk, answer,
  build_ipv6_reject,
}
use obsidian_vpn.Reject.Reply.{IsReply}
use obsidian_vpn.Reject.Sound.{build_ipv6_reject-IsReply}

abbrev syn6 : List ℕ
syn6 =
    96 ∷ 0 ∷ 0 ∷ 0 ∷ 0 ∷ 28 ∷ 0 ∷ 64 ∷ 32 ∷ 1 ∷ 13 ∷ 184 ∷ 0 ∷ 0 ∷ 0 ∷ 0 ∷ 0 ∷ 0 ∷ 0 ∷ 0 ∷ 0 ∷ 0 ∷ 0
    ∷ 1 ∷ 32 ∷ 1 ∷ 13 ∷ 184 ∷ 0 ∷ 0 ∷ 0 ∷ 0 ∷ 0 ∷ 0 ∷ 0 ∷ 0 ∷ 0 ∷ 0 ∷ 0 ∷ 2 ∷ 6 ∷ 0 ∷ 1 ∷ 4 ∷ 0 ∷ 0
    ∷ 0 ∷ 0 ∷ 4 ∷ 210 ∷ 0 ∷ 80 ∷ 0 ∷ 0 ∷ 0 ∷ 7 ∷ 0 ∷ 0 ∷ 0 ∷ 0 ∷ 80 ∷ 2 ∷ 255 ∷ 255 ∷ 0 ∷ 0 ∷ 0 ∷ 0
    ∷ []

reply_of : Option (List ℕ) → List ℕ
reply_of none = []
reply_of (some reply) = reply

answered : build_ipv6_reject syn6 1280 ≡ some (reply_of (build_ipv6_reject syn6 1280))
unfolding reply_of is_all_zero ones_sum_with fold_words ipv6_sum ipv6_checksum ipv6_header
    reset_header segment_len reset_numbers write_reset build_tcp_reset is_extension extension_walk
    answer build_ipv6_reject get_u16 get_u32 u16_bytes u32_bytes
answered = refl

-- The reset acknowledges the SYN's sequence number and one more.
acknowledged : get_u32 (reply_of (build_ipv6_reject syn6 1280)) 48 ≡ 8
unfolding reply_of is_all_zero ones_sum_with fold_words ipv6_sum ipv6_checksum ipv6_header
    reset_header segment_len reset_numbers write_reset build_tcp_reset is_extension extension_walk
    answer build_ipv6_reject get_u16 get_u32 u16_bytes u32_bytes
acknowledged = refl

build_ipv6_reject-IsReply_example :
    IsReply (slice syn6 8 24) (slice syn6 24 40) (reply_of (build_ipv6_reject syn6 1280))
build_ipv6_reject-IsReply_example =
    build_ipv6_reject-IsReply syn6 1280 (reply_of (build_ipv6_reject syn6 1280)) (omega arith)
      answered

walked : extension_walk 9 syn6 0 40 ≡ some (6, 48)
unfolding extension_walk is_extension
walked = refl
