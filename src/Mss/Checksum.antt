-- ===== src/Mss/Checksum.antt =====
-- cmd/server/mss.go, the Internet checksum: the sum of 16-bit words, its fold, the TCP and IPv4
-- checksum fields and the update of RFC 1624.
pub mod Words
pub mod Valid
pub mod Patch
use obsidian_vpn.Base.{
  ℕ, zero, suc, ◌+◌, ◌-◌, ◌*◌, ◌/◌, ◌%◌, ◌^◌, List, [], ◌∷◌, Bool, true, false, ◌==◌, if◌then◌else◌,
  length, slice,
}
use obsidian_vpn.Base.Bytes.{at, get_u16, put_u16}
use obsidian_vpn.Mss.{ip_proto_tcp}

-- The uint32 sum wraps; an odd byte at the end stands before a zero.
unfoldable pub ones_sum_from : ℕ → List ℕ → ℕ
ones_sum_from sum [] = sum
ones_sum_from sum (a ∷ []) = (sum + a * 256) % 2 ^ 32
ones_sum_from sum (a ∷ b ∷ rest) = ones_sum_from ((sum + (a * 256 + b)) % 2 ^ 32) rest

unfoldable pub ones_sum : List ℕ → ℕ
ones_sum b = ones_sum_from 0 b

-- The fold loop, on fuel.
unfoldable pub fold_loop : ℕ → ℕ → ℕ
fold_loop zero sum = sum % 2 ^ 16
fold_loop (suc fuel) sum =
    let rest = fold_loop fuel (sum % 2 ^ 16 + sum / 2 ^ 16) in
    if sum / 2 ^ 16 == 0 then sum % 2 ^ 16 else rest

unfoldable pub fold_sum : ℕ → ℕ
fold_sum sum = fold_loop 2 sum

-- Go's `^` on a uint16.
unfoldable pub complement : ℕ → ℕ
complement v = 2 ^ 16 - 1 - v

unfoldable pub pseudo_sum : List ℕ → Bool → ℕ → ℕ
pseudo_sum ip true seg_len = (ones_sum (slice ip 8 40) + ip_proto_tcp + seg_len % 2 ^ 32) % 2 ^ 32
pseudo_sum ip false seg_len = (ones_sum (slice ip 12 20) + ip_proto_tcp + seg_len % 2 ^ 32) % 2 ^ 32

-- `setTCPChecksum`: the new bytes of `tcp`.
unfoldable pub set_tcp_checksum : List ℕ → Bool → List ℕ → List ℕ
set_tcp_checksum ip v6 tcp =
    let blank = put_u16 tcp 16 0 in
    let sum = (pseudo_sum ip v6 (length tcp) + ones_sum blank) % 2 ^ 32 in
    put_u16 blank 16 (complement (fold_sum sum))

unfoldable pub set_ipv4_checksum : List ℕ → List ℕ
set_ipv4_checksum h =
    let blank = put_u16 h 10 0 in put_u16 blank 10 (complement (fold_sum (ones_sum blank)))

-- `idx &^ 1` and `(idx + 3) &^ 1`
unfoldable pub word_start : ℕ → ℕ
word_start idx = idx / 2 * 2

unfoldable pub word_end : ℕ → ℕ
word_end idx = (idx + 3) / 2 * 2

unfoldable pub set_mss_value : List ℕ → ℕ → ℕ → List ℕ
set_mss_value tcp idx mss =
    let m = fold_sum (ones_sum (slice tcp (word_start idx) (word_end idx))) in
    let tcp' = put_u16 tcp idx mss in
    let m' = fold_sum (ones_sum (slice tcp' (word_start idx) (word_end idx))) in
    let hc = get_u16 tcp' 16 in
    put_u16 tcp' 16 (complement (fold_sum ((complement hc + complement m + m') % 2 ^ 32)))
