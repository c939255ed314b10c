-- ===== src/Mss/Segments.antt =====
-- cmd/server/mss.go, `splitTCP`: a TCP packet cut into segments.
pub mod Fields
pub mod Delivery
use obsidian_vpn.Base.{
  ℕ, zero, suc, ◌+◌, ◌-◌, ◌%◌, ◌^◌, min, List, [], ◌∷◌, ◌++◌, Bool, true, false, Option, none, some,
  ◌||◌, ltb, leb, ◌==◌, if◌then◌else◌, length, take, drop, slice, set,
}
use obsidian_vpn.Base.Bits.{and_not}
use obsidian_vpn.Base.Bytes.{at, get_u16, get_u32, put_u16, put_u32}
use obsidian_vpn.Mss.{TcpLayout, locate_tcp}
use obsidian_vpn.Mss.Checksum.{set_ipv4_checksum, set_tcp_checksum}

abbrev pub tcp_fin : ℕ
tcp_fin = 1

abbrev pub tcp_psh : ℕ
tcp_psh = 8

abbrev pub header_of : TcpLayout → ℕ
header_of l = l.ip_len + l.tcp_len

-- The length field, and for IPv4 the identification and the header checksum.
unfoldable pub ip_fields : List ℕ → TcpLayout → ℕ → ℕ → List ℕ → List ℕ
ip_fields pkt l i part buf =
    if l.v6
    then put_u16 buf 4 ((l.tcp_len + part) % 2 ^ 16)
    else let sized = put_u16 buf 2 (length buf % 2 ^ 16) in
      let numbered = put_u16 sized 4 ((get_u16 pkt 4 + i % 2 ^ 16) % 2 ^ 16) in
      set_ipv4_checksum (take l.ip_len numbered) ++ drop l.ip_len numbered

-- The sequence number, the flags and the TCP checksum.
unfoldable pub tcp_fields : List ℕ → TcpLayout → ℕ → Bool → List ℕ → List ℕ
tcp_fields pkt l off last buf =
    let flags = at pkt (l.ip_len + 13) in
    let placed =
      put_u32 buf (l.ip_len + 4) ((get_u32 pkt (l.ip_len + 4) + off % 2 ^ 32) % 2 ^ 32) in
    let flagged =
      set placed (l.ip_len + 13) (if last then flags else and_not flags (tcp_fin + tcp_psh)) in
    take l.ip_len flagged ++ set_tcp_checksum flagged l.v6 (drop l.ip_len flagged)

-- The packet for the payload's bytes `off` to `end`.
unfoldable pub segment : List ℕ → TcpLayout → List ℕ → ℕ → ℕ → ℕ → List ℕ
segment pkt l payload i off end =
    let buf = take (header_of l) pkt ++ slice payload off end in
    tcp_fields pkt l off (end == length payload) (ip_fields pkt l i (end - off) buf)

-- The loop, on fuel: the packets given to `emit`, in order.
unfoldable pub split_loop : ℕ → List ℕ → TcpLayout → List ℕ → ℕ → ℕ → ℕ → List (List ℕ)
split_loop zero pkt l payload chunk i off = []
split_loop (suc fuel) pkt l payload chunk i off =
    let rest = split_loop fuel pkt l payload chunk (i + 1) (off + chunk) in
    if ltb off (length payload)
    then segment pkt l payload i off (min (off + chunk) (length payload)) ∷ rest
    else []

unfoldable pub split_located : List ℕ → ℕ → Option TcpLayout → Option (List (List ℕ))
split_located pkt max_len none = none
split_located pkt max_len (some l) =
    let chunk = max_len - header_of l in
    let payload = slice pkt (header_of l) l.total in
    if chunk == 0 || leb (length payload) chunk
    then none
    else some (split_loop (length payload) pkt l payload chunk 0 0)

-- `none` where the code returns false and emits nothing.
unfoldable pub split_tcp : List ℕ → ℕ → Option (List (List ℕ))
split_tcp pkt max_len = split_located pkt max_len (locate_tcp pkt)
