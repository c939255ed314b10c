-- ===== src/Mss/Syn.antt =====
-- cmd/server/mss.go, `normalizeUplinkSYN` and `clampDownlinkSYN`: the MSS of a SYN on its way in and
-- out of the tunnel.
pub mod Effect
use obsidian_vpn.Base.{
  ℕ, ◌+◌, ◌-◌, ◌/◌, ◌%◌, ◌^◌, List, ◌++◌, Bool, true, false, Option, none, some, ltb, leb, ◌==◌,
  if◌then◌else◌, length, take, drop, slice,
}
use obsidian_vpn.Base.Bytes.{at, get_u16}
use obsidian_vpn.Mss.{TcpLayout, locate_tcp, mss_option_value, external_mss4, external_mss6}
use obsidian_vpn.Mss.Checksum.{set_mss_value}

-- `pkt[l.ipLen:l.total]`, and the packet with these bytes replaced.
unfoldable pub tcp_of : List ℕ → TcpLayout → List ℕ
tcp_of pkt l = slice pkt l.ip_len l.total

unfoldable pub with_tcp : List ℕ → TcpLayout → List ℕ → List ℕ
with_tcp pkt l tcp = take l.ip_len pkt ++ (tcp ++ drop l.total pkt)

-- The layout and the offset of the MSS value of a SYN that has one: the guards both functions share.
unfoldable pub at_layout : TcpLayout → Option ℕ → Option (TcpLayout × ℕ)
at_layout l none = none
at_layout l (some idx) = some (l, idx)

unfoldable pub syn_option : List ℕ → Option TcpLayout → Option (TcpLayout × ℕ)
syn_option pkt none = none
syn_option pkt (some l) =
    if at (tcp_of pkt l) 13 / 2 % 2 == 0
    then none
    else at_layout l (mss_option_value (take l.tcp_len (tcp_of pkt l)))

unfoldable pub syn_mss : List ℕ → Option (TcpLayout × ℕ)
syn_mss pkt = syn_option pkt (locate_tcp pkt)

unfoldable pub external_mss : Bool → ℕ
external_mss v6 = if v6 then external_mss6 else external_mss4

unfoldable pub overhead : Bool → ℕ
overhead v6 = if v6 then 60 else 40

-- The return value, and the packet as it is left.
unfoldable pub raise_mss : List ℕ → Option (TcpLayout × ℕ) → ℕ × List ℕ
raise_mss pkt none = (0, pkt)
raise_mss pkt (some (l, idx)) =
    let tcp = tcp_of pkt l in
    let mss = get_u16 tcp idx in
    (
      mss + overhead l.v6,
      if ltb mss (external_mss l.v6)
          then with_tcp pkt l (set_mss_value tcp idx (external_mss l.v6))
          else pkt,
    )

unfoldable pub normalize_uplink_syn : List ℕ → ℕ × List ℕ
normalize_uplink_syn pkt = raise_mss pkt (syn_mss pkt)

-- A limit that does not exceed the headers leaves the packet alone.
unfoldable pub lower_mss : List ℕ → ℕ → Option (TcpLayout × ℕ) → List ℕ
lower_mss pkt limit_mtu none = pkt
lower_mss pkt limit_mtu (some (l, idx)) =
    let tcp = tcp_of pkt l in
    let limit = limit_mtu - overhead l.v6 in
    if leb limit_mtu (overhead l.v6)
    then pkt
    else if ltb limit (get_u16 tcp idx)
    then with_tcp pkt l (set_mss_value tcp idx (limit % 2 ^ 16))
    else pkt

unfoldable pub clamp_downlink_syn : List ℕ → ℕ → List ℕ
clamp_downlink_syn pkt limit_mtu = lower_mss pkt limit_mtu (syn_mss pkt)
