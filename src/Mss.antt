-- ===== src/Mss.antt =====
-- cmd/server/mss.go: where the TCP header of a packet lies, and where its MSS option does.
pub mod Layout
pub mod Checksum
pub mod Syn
pub mod Segments
pub mod Fragments
pub mod Examples
use obsidian_vpn.Base.{
  ℕ, zero, suc, ◌+◌, ◌*◌, ◌/◌, ◌%◌, ◌^◌, List, Option, none, some, Bool, true, false, ◌||◌, ◌&&◌,
  not, ltb, ◌==◌, if◌then◌else◌, length,
}
use obsidian_vpn.Base.Bytes.{at, get_u16}

abbrev pub external_mss4 : ℕ
external_mss4 = 1460

abbrev pub external_mss6 : ℕ
external_mss6 = 1440

abbrev pub max_tunnel_mtu : ℕ
max_tunnel_mtu = 1420

abbrev pub ip_proto_tcp : ℕ
ip_proto_tcp = 6

abbrev pub tcp_opt_mss : ℕ
tcp_opt_mss = 2

-- A negative configuration value counts as 0, as the code treats it.
unfoldable pub tunnel_mtu_for : ℕ → ℕ
tunnel_mtu_for configured =
    if configured == 0 || ltb max_tunnel_mtu configured then max_tunnel_mtu else configured

-- Where the TCP header sits: the lengths of both headers, and the packet's own total length.
pub record TcpLayout : Type 0 where
  pub v6 : Bool
  pub ip_len : ℕ
  pub tcp_len : ℕ
  pub total : ℕ

-- The checks that follow the switch on the IP version.
unfoldable pub locate_rest : List ℕ → Bool → ℕ → ℕ → Option TcpLayout
locate_rest pkt v6 ip_len total =
    let tcp_len = at pkt (ip_len + 12) / 16 * 4 in
    if ltb total (ip_len + 20)
    then none
    else if ltb tcp_len 20 || ltb total (ip_len + tcp_len)
    then none
    else some (record { v6 = v6; ip_len = ip_len; tcp_len = tcp_len; total = total })

-- `& 0x3fff` leaves the MF flag and the fragment offset.
unfoldable pub locate4 : List ℕ → Option TcpLayout
locate4 pkt =
    let ihl = at pkt 0 % 16 * 4 in
    let total = get_u16 pkt 2 in
    if ltb (length pkt) 20
    then none
    else if ltb ihl 20 || ltb total ihl || ltb (length pkt) total || not (at pkt 9 == ip_proto_tcp)
    then none
    else if not (get_u16 pkt 6 % 2 ^ 14 == 0)
    then none
    else locate_rest pkt false ihl total

unfoldable pub locate6 : List ℕ → Option TcpLayout
locate6 pkt =
    let total = 40 + get_u16 pkt 4 in
    if ltb (length pkt) 40 || not (at pkt 6 == ip_proto_tcp)
    then none
    else if ltb (length pkt) total
    then none
    else locate_rest pkt true 40 total

unfoldable pub locate_tcp : List ℕ → Option TcpLayout
locate_tcp pkt =
    if ltb (length pkt) 1
    then none
    else if at pkt 0 / 16 == 4
    then locate4 pkt
    else if at pkt 0 / 16 == 6
    then locate6 pkt
    else none

-- One round of the walk over the options at offset `i`, where `none` is the code's -1: the rest of
-- the walk after a NOP and after another option are the last two arguments.
unfoldable pub option_round : List ℕ → ℕ → Option ℕ → Option ℕ → Option ℕ
option_round hdr i after_nop after_option =
    let kind = at hdr i in
    let size = at hdr (i + 1) in
    if not (ltb i (length hdr))
    then none
    else if kind == 0
    then none
    else if kind == 1
    then after_nop
    else if not (ltb (i + 1) (length hdr)) || ltb size 2 || ltb (length hdr) (i + size)
    then none
    else if kind == tcp_opt_mss && size == 4
    then some (i + 2)
    else after_option

unfoldable pub option_walk : ℕ → List ℕ → ℕ → Option ℕ
option_walk zero hdr i = none
option_walk (suc fuel) hdr i =
    let after_nop = option_walk fuel hdr (i + 1) in
    let after_option = option_walk fuel hdr (i + at hdr (i + 1)) in
    option_round hdr i after_nop after_option

unfoldable pub mss_option_value : List ℕ → Option ℕ
mss_option_value hdr = option_walk (suc (length hdr)) hdr 20
