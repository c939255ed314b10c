-- ===== src/Mss/Layout.antt =====
-- cmd/server/mss.go, `locateTCP` and `mssOptionValue`: what a located packet is, and that the option
-- walk ends and stays within the header.
use obsidian_vpn.Base.{
  ℕ, zero, suc, ◌+◌, ◌*◌, ◌-◌, ◌/◌, ◌%◌, ◌^◌, ◌≤◌, ◌<◌, ◌≡◌, List, Option, some, Bool, true, false,
  length, arith, ◌↔◌, ◌∙◌, ap,
}
use obsidian_vpn.Base.Bytes.{at, get_u16}
use obsidian_vpn.Mss.Checksum.Valid.{addresses_end}
use obsidian_vpn.Mss.{
  TcpLayout, locate_rest, locate4, locate6, locate_tcp, option_round, option_walk, mss_option_value,
}

-- The IP header: an unfragmented IPv4 packet with protocol 6, or IPv6 without extension headers.
unfoldable pub IpFits : List ℕ → Bool → ℕ → ℕ → Type 0
IpFits pkt false ip_len total =
    (20 ≤ length pkt)
    × (at pkt 0 / 16 ≡ 4)
    × (ip_len ≡ at pkt 0 % 16 * 4)
    × (20 ≤ ip_len)
    × (total ≡ get_u16 pkt 2)
    × (ip_len ≤ total)
    × (at pkt 9 ≡ 6)
    × (get_u16 pkt 6 % 2 ^ 14 ≡ 0)
IpFits pkt true ip_len total =
    (40 ≤ length pkt)
    × (at pkt 0 / 16 ≡ 6)
    × (ip_len ≡ 40)
    × (total ≡ 40 + get_u16 pkt 4)
    × (at pkt 6 ≡ 6)

-- Both headers lie within the total length, and that within the packet.
pub record Located (pkt : List ℕ) (l : TcpLayout) : Type 0 where
  pub ip : IpFits pkt l.v6 l.ip_len l.total
  pub within : l.total ≤ length pkt
  pub room : l.ip_len + 20 ≤ l.total
  pub data_offset : l.tcp_len ≡ at pkt (l.ip_len + 12) / 16 * 4
  pub tcp_least : 20 ≤ l.tcp_len
  pub tcp_within : l.ip_len + l.tcp_len ≤ l.total

-- The checks after the switch, in one condition.
TcpFits : List ℕ → ℕ → ℕ → ℕ → Type 0
TcpFits pkt ip_len tcp_len total =
    (ip_len + 20 ≤ total)
    × (tcp_len ≡ at pkt (ip_len + 12) / 16 * 4)
    × (20 ≤ tcp_len)
    × (ip_len + tcp_len ≤ total)

layout_of : Bool → ℕ → ℕ → ℕ → TcpLayout
layout_of v6 ip_len tcp_len total = record {
  v6 = v6;
  ip_len = ip_len;
  tcp_len = tcp_len;
  total = total;
}

locate_rest_fits :
    (pkt : List ℕ) (v6 : Bool) (ip_len tcp_len total : ℕ)
    → TcpFits pkt ip_len tcp_len total
    → locate_rest pkt v6 ip_len total ≡ some (layout_of v6 ip_len tcp_len total)
unfolding locate_rest TcpFits layout_of
locate_rest_fits pkt v6 ip_len tcp_len total (room, offset, least, within) = ground arith

locate_rest-TcpFits :
    (pkt : List ℕ) (v6 : Bool) (ip_len total : ℕ) (l : TcpLayout)
    → locate_rest pkt v6 ip_len total ≡ some l
    → (l ≡ layout_of v6 ip_len l.tcp_len total) × TcpFits pkt ip_len l.tcp_len total
unfolding locate_rest TcpFits layout_of
locate_rest-TcpFits pkt v6 ip_len total l e = ground arith

locate_fits :
    (pkt : List ℕ) (v6 : Bool) (ip_len tcp_len total : ℕ)
    → IpFits pkt v6 ip_len total
    → total ≤ length pkt
    → TcpFits pkt ip_len tcp_len total
    → locate_tcp pkt ≡ some (layout_of v6 ip_len tcp_len total)
unfolding locate_tcp locate4 locate6 IpFits
locate_fits pkt false ip_len tcp_len total (long, version, ihl, least, len, le, proto, whole) within
      fits =
    ground (arith, locate_rest_fits pkt false ip_len tcp_len total fits)
locate_fits pkt true ip_len tcp_len total (long, version, ihl, len, proto) within fits =
    ground (arith, locate_rest_fits pkt true ip_len tcp_len total fits)

pub Located-locate : (pkt : List ℕ) (l : TcpLayout) → Located pkt l → locate_tcp pkt ≡ some l
unfolding TcpFits layout_of
Located-locate pkt l h =
    locate_fits pkt l.v6 l.ip_len l.tcp_len l.total h.ip h.within
      (h.room, h.data_offset, h.tcp_least, h.tcp_within)

locate4-Located :
    (pkt : List ℕ) (l : TcpLayout) → at pkt 0 / 16 ≡ 4 → locate4 pkt ≡ some l → Located pkt l
unfolding locate4 IpFits TcpFits layout_of
locate4-Located pkt l version e =
    ground (arith, locate_rest-TcpFits pkt false (at pkt 0 % 16 * 4) (get_u16 pkt 2) l)

locate6-Located :
    (pkt : List ℕ) (l : TcpLayout) → at pkt 0 / 16 ≡ 6 → locate6 pkt ≡ some l → Located pkt l
unfolding locate6 IpFits TcpFits layout_of
locate6-Located pkt l version e =
    ground (arith, locate_rest-TcpFits pkt true 40 (40 + get_u16 pkt 4) l)

-- Of the fuel, one round more than the bytes that are left is enough.
option_round_short :
    (hdr : List ℕ) (i : ℕ) (a b a' b' : Option ℕ)
    → (i + 1 ≤ length hdr → a ≡ a')
    → (2 ≤ at hdr (i + 1) → i < length hdr → b ≡ b')
    → option_round hdr i a b ≡ option_round hdr i a' b'
unfolding option_round
option_round_short hdr i a b a' b' p q = ground arith

option_walk_enough :
    (n : ℕ) (hdr : List ℕ) (i : ℕ)
    → length hdr ≤ n + i
    → option_walk (suc (suc n)) hdr i ≡ option_walk (suc n) hdr i
unfolding option_walk
option_walk_enough zero hdr i h =
    option_round_short hdr i _ _ _ _ (λ p. absurd (omega arith)) (λ s p. absurd (omega arith))
option_walk_enough (suc n) hdr i h =
    option_round_short hdr i _ _ _ _ (λ p. option_walk_enough n hdr (i + 1) (omega arith))
      (λ s p. option_walk_enough n hdr (i + at hdr (i + 1)) (omega arith))

-- What the walk finds from offset `i` on.
unfoldable pub OptionAt : List ℕ → ℕ → ℕ → Type 0
OptionAt hdr i k = (i + 2 ≤ k) × (k + 2 ≤ length hdr) × (at hdr (k - 2) ≡ 2) × (at hdr (k - 1) ≡ 4)

option_round-OptionAt :
    (hdr : List ℕ) (i k : ℕ) (a b : Option ℕ)
    → (a ≡ some k → OptionAt hdr (i + 1) k)
    → (b ≡ some k → OptionAt hdr (i + at hdr (i + 1)) k)
    → option_round hdr i a b ≡ some k
    → OptionAt hdr i k
unfolding option_round OptionAt
option_round-OptionAt hdr i k a b p q e = ground arith

option_walk-OptionAt :
    (n : ℕ) (hdr : List ℕ) (i k : ℕ) → option_walk n hdr i ≡ some k → OptionAt hdr i k
unfolding option_walk
option_walk-OptionAt zero hdr i k e = absurd (ground arith)
option_walk-OptionAt (suc n) hdr i k e =
    option_round-OptionAt hdr i k _ _ (option_walk-OptionAt n hdr (i + 1) k)
      (option_walk-OptionAt n hdr (i + at hdr (i + 1)) k) e

pub locate-Located : (pkt : List ℕ) (l : TcpLayout) → locate_tcp pkt ≡ some l → Located pkt l
unfolding locate_tcp
locate-Located pkt l e = ground (arith, locate4-Located pkt l, locate6-Located pkt l)

-- `locateTCP` finds the layout with the packet's own version, header lengths and total length, whose
-- two headers lie within that total and the packet, for an unfragmented IPv4 or plain IPv6 packet of
-- protocol 6; and it finds none where no layout fits.
pub locate_iff : (pkt : List ℕ) (l : TcpLayout) → (locate_tcp pkt ≡ some l) ↔ Located pkt l
locate_iff pkt l = (locate-Located pkt l, Located-locate pkt l)

-- An MSS option value that `mssOptionValue` finds lies within the TCP header, behind its fixed part,
-- right after the option's kind 2 and length 4.
pub mss_option_within : (hdr : List ℕ) (k : ℕ) → mss_option_value hdr ≡ some k → OptionAt hdr 20 k
unfolding mss_option_value
mss_option_within hdr k e = option_walk-OptionAt (suc (length hdr)) hdr 20 k e

-- The option walk of `mssOptionValue` ends: more rounds than the header has bytes find no more,
-- since an option of length 0 or 1 stops it.
pub mss_walk_ends :
    (hdr : List ℕ) (m : ℕ) → option_walk (suc (m + length hdr)) hdr 20 ≡ mss_option_value hdr
unfolding mss_option_value
mss_walk_ends hdr zero = ap (λ n. option_walk (suc n) hdr 20) (omega arith)
mss_walk_ends hdr (suc m) =
    ap (λ n. option_walk (suc n) hdr 20) (omega arith)
    ∙ option_walk_enough (m + length hdr) hdr 20 (omega arith)
    ∙ mss_walk_ends hdr m

pub addresses-le :
    (pkt : List ℕ) (v6 : Bool) (ip_len total : ℕ)
    → IpFits pkt v6 ip_len total
    → addresses_end v6 ≤ ip_len
unfolding IpFits addresses_end
addresses-le pkt true ip_len total (long, version, ihl, len, proto) = omega arith
addresses-le pkt false ip_len total (long, version, ihl, least, len, le, proto, whole) = least
