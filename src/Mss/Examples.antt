-- ===== src/Mss/Examples.antt =====
-- Runs of the functions of cmd/server/mss.go, and their theorems at concrete packets.
use obsidian_vpn.Base.{
  ℕ, ◌+◌, ◌≡◌, refl, List, [], ◌∷◌, false, Option, none, some, All, length, take, map, slice, arith,
  max,
}
use obsidian_vpn.Base.Bytes.{IsByte, get_u16, get_u32, put_u16, put_u32}
use obsidian_vpn.Base.Bits.{and_not}
use obsidian_vpn.Mss.{
  TcpLayout, locate_tcp, locate4, locate_rest, option_round, option_walk, mss_option_value,
}
use obsidian_vpn.Mss.Checksum.{
  ones_sum, ones_sum_from, fold_sum, fold_loop, complement, pseudo_sum, set_tcp_checksum,
  set_ipv4_checksum, set_mss_value, word_end,
}
use obsidian_vpn.Mss.Checksum.Valid.{SegmentVerifies}
use obsidian_vpn.Mss.Checksum.Patch.{set_mss_value-SegmentVerifies}
use obsidian_vpn.Mss.Syn.{
  tcp_of, at_layout, syn_option, syn_mss, external_mss, overhead, normalize_uplink_syn,
}
use obsidian_vpn.Mss.Syn.Effect.{Written, normalize_uplink_raises}
use obsidian_vpn.Mss.Segments.{ip_fields, tcp_fields, segment, split_loop, split_located, split_tcp}
use obsidian_vpn.Mss.Segments.Delivery.{Delivers, split_tcp-Delivers}
use obsidian_vpn.Mss.Fragments.{fragment_ipv4}
use obsidian_vpn.Mss.Fragments.Reassembly.{Reassembles, fragment_ipv4-Reassembles}

-- An IPv4 SYN with an MSS of 1200.
abbrev syn_packet : List ℕ
syn_packet =
    69 ∷ 0 ∷ 0 ∷ 44 ∷ 0 ∷ 1 ∷ 64 ∷ 0 ∷ 64 ∷ 6 ∷ 38 ∷ 201 ∷ 10 ∷ 0 ∷ 0 ∷ 1 ∷ 10 ∷ 0 ∷ 0 ∷ 2 ∷ 4 ∷ 210
    ∷ 0 ∷ 80 ∷ 0 ∷ 0 ∷ 0 ∷ 1 ∷ 0 ∷ 0 ∷ 0 ∷ 0 ∷ 96 ∷ 2 ∷ 255 ∷ 255 ∷ 128 ∷ 5 ∷ 0 ∷ 0 ∷ 2 ∷ 4 ∷ 4
    ∷ 176 ∷ []

abbrev syn_layout : TcpLayout
syn_layout = record { v6 = false; ip_len = 20; tcp_len = 24; total = 44 }

-- A TCP packet with ten bytes of payload, sequence number 100, PSH and ACK.
abbrev data_packet : List ℕ
data_packet =
    69 ∷ 0 ∷ 0 ∷ 50 ∷ 0 ∷ 7 ∷ 64 ∷ 0 ∷ 64 ∷ 6 ∷ 0 ∷ 0 ∷ 10 ∷ 0 ∷ 0 ∷ 1 ∷ 10 ∷ 0 ∷ 0 ∷ 2 ∷ 4 ∷ 210
    ∷ 0 ∷ 80 ∷ 0 ∷ 0 ∷ 0 ∷ 100 ∷ 0 ∷ 0 ∷ 0 ∷ 5 ∷ 80 ∷ 24 ∷ 255 ∷ 255 ∷ 0 ∷ 0 ∷ 0 ∷ 0 ∷ 1 ∷ 2 ∷ 3 ∷ 4
    ∷ 5 ∷ 6 ∷ 7 ∷ 8 ∷ 9 ∷ 10 ∷ []

abbrev data_layout : TcpLayout
data_layout = record { v6 = false; ip_len = 20; tcp_len = 20; total = 50 }

-- A UDP packet with twenty bytes behind the IP header.
abbrev udp_packet : List ℕ
udp_packet =
    69 ∷ 0 ∷ 0 ∷ 40 ∷ 0 ∷ 9 ∷ 0 ∷ 0 ∷ 64 ∷ 17 ∷ 0 ∷ 0 ∷ 10 ∷ 0 ∷ 0 ∷ 1 ∷ 10 ∷ 0 ∷ 0 ∷ 2 ∷ 1 ∷ 2 ∷ 3
    ∷ 4 ∷ 5 ∷ 6 ∷ 7 ∷ 8 ∷ 9 ∷ 10 ∷ 11 ∷ 12 ∷ 13 ∷ 14 ∷ 15 ∷ 16 ∷ 17 ∷ 18 ∷ 19 ∷ 20 ∷ []

syn_located : locate_tcp syn_packet ≡ some syn_layout
unfolding locate_tcp locate4 locate_rest get_u16
syn_located = refl

syn_header : mss_option_value (take 24 (slice syn_packet 20 44)) ≡ some 22
unfolding mss_option_value option_walk option_round
syn_header = refl

bytes_of_syn : All IsByte syn_packet
bytes_of_syn = omega arith

bytes_of_data : All IsByte data_packet
bytes_of_data = omega arith

bytes_of_udp : All IsByte udp_packet
bytes_of_udp = omega arith

syn_found : syn_mss syn_packet ≡ some (syn_layout, 22)
unfolding syn_mss syn_option at_layout tcp_of locate_tcp locate4 locate_rest get_u16
    mss_option_value option_walk option_round
syn_found = refl

syn_verifies : SegmentVerifies syn_packet false (tcp_of syn_packet syn_layout)
unfolding SegmentVerifies tcp_of pseudo_sum ones_sum ones_sum_from fold_sum fold_loop
syn_verifies = refl

normalize_uplink_raises_example :
    ((normalize_uplink_syn syn_packet).0
      ≡ get_u16 (tcp_of syn_packet syn_layout) 22 + overhead false)
    × Written
        (normalize_uplink_syn syn_packet).1
        syn_layout
        22
        (max (get_u16 (tcp_of syn_packet syn_layout) 22) (external_mss false))
normalize_uplink_raises_example =
    normalize_uplink_raises syn_packet syn_layout 22 bytes_of_syn syn_found syn_verifies

set_mss_value-SegmentVerifies_example :
    SegmentVerifies syn_packet false (set_mss_value (tcp_of syn_packet syn_layout) 22 1460)
unfolding tcp_of word_end
set_mss_value-SegmentVerifies_example =
    set_mss_value-SegmentVerifies syn_packet false (tcp_of syn_packet syn_layout) 22 1460
      bytes_of_syn (omega arith) (omega arith) (omega arith) (omega arith) (omega arith)
      syn_verifies

data_located : locate_tcp data_packet ≡ some data_layout
unfolding locate_tcp locate4 locate_rest get_u16
data_located = refl

split_tcp-Delivers_example :
    (segs : List (List ℕ)) × (split_tcp data_packet 44 ≡ some segs)
    × Delivers data_layout 44 (get_u32 data_packet 24) (slice data_packet 40 50) segs
split_tcp-Delivers_example =
    split_tcp-Delivers data_packet data_layout 44 bytes_of_data data_located (omega arith)
      (omega arith) (omega arith)

lengths_of : Option (List (List ℕ)) → List ℕ
lengths_of none = []
lengths_of (some packets) = map length packets

split-lengths : lengths_of (split_tcp data_packet 44) ≡ 44 ∷ 44 ∷ 42 ∷ []
unfolding lengths_of split_tcp split_located split_loop segment ip_fields tcp_fields locate_tcp
    locate4 locate_rest get_u16 get_u32 put_u16 put_u32 set_ipv4_checksum set_tcp_checksum ones_sum
    ones_sum_from fold_sum fold_loop complement pseudo_sum and_not
split-lengths = refl

fragment_ipv4-Reassembles_example :
    (frags : List (List ℕ)) × (fragment_ipv4 udp_packet 32 ≡ some frags)
    × Reassembles 20 32 0 (slice udp_packet 20 40) false frags
unfolding get_u16
fragment_ipv4-Reassembles_example =
    fragment_ipv4-Reassembles udp_packet 32 bytes_of_udp (omega arith) refl (omega arith)
      (omega arith) (omega arith) (omega arith) (omega arith) (omega arith)
