-- ===== src/Reject.antt =====
-- obsidian/ipv6_reject.go: the local reply to an IPv6 packet that the tunnel does not carry.
pub mod Checksum
pub mod Reply
pub mod Sound
pub mod Walk
pub mod Examples
use obsidian_vpn.Base.{
  ℕ, zero, suc, ◌+◌, ◌-◌, ◌*◌, ◌/◌, ◌%◌, ◌^◌, min, List, [], ◌∷◌, ◌++◌, Bool, true, false, Option,
  none, some, ◌||◌, ◌&&◌, not, ltb, ◌==◌, if◌then◌else◌, length, take, slice, replicate,
}
use obsidian_vpn.Base.Bytes.{at, get_u16, get_u32, u16_bytes, u32_bytes}

abbrev pub ipv6_header_len : ℕ
ipv6_header_len = 40

abbrev pub ipv6_min_mtu : ℕ
ipv6_min_mtu = 1280

-- `ipv6MinMTU - ipv6HeaderLen - 8`
abbrev pub icmpv6_quote_max : ℕ
icmpv6_quote_max = 1232

unfoldable pub is_all_zero : List ℕ → Bool
is_all_zero [] = true
is_all_zero (v ∷ b) = let rest = is_all_zero b in if not (v == 0) then false else rest

-- `onesSum` of this file takes the sum so far; `|` of the shifted byte and the next adds them.
unfoldable pub ones_sum_with : List ℕ → ℕ → ℕ
ones_sum_with [] sum = sum
ones_sum_with (a ∷ []) sum = (sum + a * 256) % 2 ^ 32
ones_sum_with (a ∷ b ∷ rest) sum = ones_sum_with rest ((sum + (a * 256 + b)) % 2 ^ 32)

-- The fold loop of `ipv6Checksum`, on fuel.
unfoldable pub fold_words : ℕ → ℕ → ℕ
fold_words zero sum = sum
fold_words (suc fuel) sum =
    let rest = fold_words fuel (sum % 2 ^ 16 + sum / 2 ^ 16) in
    if sum / 2 ^ 16 == 0 then sum else rest

-- What is folded: both addresses, the length's two halves, the protocol and the segment.
unfoldable pub ipv6_sum : List ℕ → List ℕ → ℕ → List ℕ → ℕ
ipv6_sum src dst next seg =
    let addresses = ones_sum_with dst (ones_sum_with src 0) in
    let halves = length seg / 2 ^ 16 + length seg % 2 ^ 16 in
    ones_sum_with seg ((addresses + halves + next) % 2 ^ 32)

unfoldable pub ipv6_checksum : List ℕ → List ℕ → ℕ → List ℕ → ℕ
ipv6_checksum src dst next seg = 2 ^ 16 - 1 - fold_words 2 (ipv6_sum src dst next seg) % 2 ^ 16

unfoldable pub ipv6_header : List ℕ → List ℕ → ℕ → ℕ → List ℕ
ipv6_header src dst payload_len next =
    0x60 ∷ 0 ∷ 0 ∷ 0 ∷ (u16_bytes (payload_len % 2 ^ 16) ++ next ∷ 64 ∷ src) ++ dst

-- The TCP header of the reset, with its checksum field as given.
unfoldable pub reset_header : List ℕ → ℕ → ℕ → ℕ → ℕ → ℕ → List ℕ
reset_header pkt off rseq rack rflags checksum =
    u16_bytes (get_u16 pkt (off + 2))
    ++ u16_bytes (get_u16 pkt off)
    ++ u32_bytes rseq
    ++ u32_bytes rack
    ++ (0x50 ∷ rflags ∷ 0 ∷ 0 ∷ [])
    ++ u16_bytes checksum
    ++ (0 ∷ 0 ∷ [])

-- `segLen`, SYN and FIN included.
unfoldable pub segment_len : List ℕ → ℕ → ℕ → ℕ → ℕ
segment_len pkt off doff flags =
    let end = min (40 + get_u16 pkt 4) (length pkt) in
    ((end - off - doff) + flags / 2 % 2 + flags % 2) % 2 ^ 32

unfoldable pub reset_numbers : List ℕ → ℕ → ℕ → ℕ → ℕ × ℕ × ℕ
reset_numbers pkt off doff flags =
    if not (flags / 16 % 2 == 0)
    then (get_u32 pkt (off + 8), 0, 4)
    else (0, (get_u32 pkt (off + 4) + segment_len pkt off doff flags) % 2 ^ 32, 0x14)

unfoldable pub write_reset : List ℕ → ℕ → ℕ × ℕ × ℕ → List ℕ → List ℕ → List ℕ
write_reset pkt off (rseq, rack, rflags) src dst =
    let blank = reset_header pkt off rseq rack rflags 0 in
    ipv6_header dst src 20 6
    ++ reset_header pkt off rseq rack rflags (ipv6_checksum dst src 6 blank)

unfoldable pub build_tcp_reset : List ℕ → ℕ → List ℕ → List ℕ → Option (List ℕ)
build_tcp_reset pkt off src dst =
    let doff = at pkt (off + 12) / 16 * 4 in
    let flags = at pkt (off + 13) in
    if ltb (length pkt) (off + 20)
    then none
    else if ltb doff 20 || ltb (length pkt) (off + doff)
    then none
    else if not (flags / 4 % 2 == 0)
    then none
    else some (write_reset pkt off (reset_numbers pkt off doff flags) src dst)

unfoldable pub unreach_message : List ℕ → ℕ → List ℕ
unreach_message pkt checksum =
    (1 ∷ 1 ∷ [])
    ++ u16_bytes checksum
    ++ (0 ∷ 0 ∷ 0 ∷ 0 ∷ take (min (length pkt) icmpv6_quote_max) pkt)

unfoldable pub build_icmpv6_unreach : List ℕ → List ℕ → List ℕ → List ℕ
build_icmpv6_unreach pkt src dst =
    let blank = unreach_message pkt 0 in
    ipv6_header dst src (8 + min (length pkt) icmpv6_quote_max) 58
    ++ unreach_message pkt (ipv6_checksum dst src 58 blank)

-- Hop-by-hop options, routing and destination options.
unfoldable pub is_extension : ℕ → Bool
is_extension next = next == 0 || next == 43 || next == 60

-- The walk over the extension headers: the upper protocol and its offset.
unfoldable pub extension_walk : ℕ → List ℕ → ℕ → ℕ → Option (ℕ × ℕ)
extension_walk zero pkt next off = none
extension_walk (suc fuel) pkt next off =
    let off' = off + (at pkt (off + 1) + 1) * 8 in
    let rest = extension_walk fuel pkt (at pkt off) off' in
    if not (is_extension next)
    then some (next, off)
    else if ltb (length pkt) (off + 2)
    then none
    else if ltb (length pkt) off'
    then none
    else rest

unfoldable pub answer : List ℕ → List ℕ → List ℕ → Option (ℕ × ℕ) → Option (List ℕ)
answer pkt src dst none = none
answer pkt src dst (some (next, off)) =
    if next == 6
    then build_tcp_reset pkt off src dst
    else if next == 58 && ltb off (length pkt) && ltb (at pkt off) 128
    then none
    else some (build_icmpv6_unreach pkt src dst)

-- `BuildIPv6Reject` into a buffer of `room` bytes; `none` where nothing is to be sent.
unfoldable pub build_ipv6_reject : List ℕ → ℕ → Option (List ℕ)
build_ipv6_reject pkt room =
    let src = slice pkt 8 24 in
    let dst = slice pkt 24 40 in
    if ltb (length pkt) 40 || not (at pkt 0 / 16 == 6) || ltb room ipv6_min_mtu
    then none
    else if at dst 0 == 255 || at src 0 == 255 || is_all_zero src
    then none
    else answer pkt src dst (extension_walk (length pkt) pkt (at pkt 6) 40)
