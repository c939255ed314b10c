-- ===== src/Mss/Fragments.antt =====
-- cmd/server/mss.go, `fragmentIPv4`: an IPv4 packet cut into fragments.
pub mod Reassembly
use obsidian_vpn.Base.{
  ℕ, zero, suc, ◌+◌, ◌-◌, ◌*◌, ◌/◌, ◌%◌, ◌^◌, min, bit_or, List, [], ◌∷◌, ◌++◌, Bool, true, false,
  Option, none, some, ◌||◌, not, ltb, leb, ◌==◌, if◌then◌else◌, length, take, drop, slice,
}
use obsidian_vpn.Base.Bytes.{at, get_u16, put_u16}
use obsidian_vpn.Mss.Checksum.{set_ipv4_checksum}

-- The fragment for the payload's bytes `off` to `end`; `more` says whether one follows.
unfoldable pub fragment : List ℕ → ℕ → ℕ → List ℕ → ℕ → ℕ → Bool → List ℕ
fragment pkt ihl base payload off end more =
    let frag = take ihl pkt ++ slice payload off end in
    let f = (base + off) / 8 % 2 ^ 16 in
    let sized = put_u16 frag 2 (length frag % 2 ^ 16) in
    let placed = put_u16 sized 6 (if more then bit_or f 0x2000 else f) in
    set_ipv4_checksum (take ihl placed) ++ drop ihl placed

unfoldable pub fragment_loop : ℕ → List ℕ → ℕ → ℕ → Bool → List ℕ → ℕ → ℕ → List (List ℕ)
fragment_loop zero pkt ihl base more_frags payload per off = []
fragment_loop (suc fuel) pkt ihl base more_frags payload per off =
    let end = min (off + per) (length payload) in
    let rest = fragment_loop fuel pkt ihl base more_frags payload per (off + per) in
    if ltb off (length payload)
    then fragment pkt ihl base payload off end (not (end == length payload) || more_frags) ∷ rest
    else []

-- `none` where the code returns false and emits nothing; `&^ 7` clears the low three bits.
unfoldable pub fragment_ipv4 : List ℕ → ℕ → Option (List (List ℕ))
fragment_ipv4 pkt max_len =
    let ihl = at pkt 0 % 16 * 4 in
    let total = get_u16 pkt 2 in
    let per = (max_len - ihl) / 8 * 8 in
    let ff = get_u16 pkt 6 in
    let payload = slice pkt ihl total in
    if ltb (length pkt) 20 || not (at pkt 0 / 16 == 4)
    then none
    else if ltb ihl 20 || ltb total ihl || ltb (length pkt) total || leb total max_len
    then none
    else if per == 0
    then none
    else some (
        fragment_loop (length payload) pkt ihl (ff % 2 ^ 13 * 8) (not (ff / 2 ^ 13 % 2 == 0))
          payload per 0)
