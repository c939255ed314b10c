-- ===== src/Mss/Checksum/Valid.antt =====
-- cmd/server/mss.go, `setTCPChecksum` and `setIPv4Checksum`: a receiver's sum over what they leave is
-- all ones.
use obsidian_vpn.Base.{
  ℕ, ◌+◌, ◌-◌, ◌%◌, ◌^◌, ◌≤◌, ◌<◌, ◌≡◌, ◌≢◌, refl, ap, ◌∙◌, List, Bool, true, false, length, arith,
  All, take, drop, length-take, slice-prefix, get_or-append, get_or-take, ◌++◌, if◌then◌else◌,
}
use obsidian_vpn.Base.Bytes.{IsByte, at, get_u16, put_u16}
use obsidian_vpn.Base.Bytes.Put.{
  length-put_u16, get_u16-put_u16, put_u16-IsByte, at-put_u16_ne, take-IsByte, drop-IsByte,
}
use obsidian_vpn.Mss.Checksum.{
  ones_sum, fold_sum, complement, pseudo_sum, set_tcp_checksum, set_ipv4_checksum,
}
use obsidian_vpn.Mss.Checksum.Words.{
  word_sum, word_sum-le, ones_sum-word_sum, fold_sum_mod, word_sum-put_u16,
}

-- A sum that is a positive multiple of 65535 folds to all ones.
pub fold_full : (s : ℕ) → s < 2 ^ 32 → s ≢ 0 → s % 65535 ≡ 0 → fold_sum s ≡ 65535
fold_full s h p q =
    let (m, le, below, pos) = fold_sum_mod s h in
    let nonzero : fold_sum s ≢ 0 = pos p in omega arith

-- The receiver of RFC 791 and RFC 9293 adds all words, with the pseudo-header for TCP.
unfoldable pub HeaderVerifies : List ℕ → Type 0
HeaderVerifies h = fold_sum (ones_sum h) ≡ 65535

unfoldable pub SegmentVerifies : List ℕ → Bool → List ℕ → Type 0
SegmentVerifies ip v6 tcp =
    fold_sum ((pseudo_sum ip v6 (length tcp) + ones_sum tcp) % 2 ^ 32) ≡ 65535

-- The complement of a folded sum, put into a blank word, makes the sum with `s` before it full.
checksum_fills :
    (h : List ℕ) (i s t u : ℕ)
    → i % 2 ≡ 0
    → i + 2 ≤ length h
    → s + word_sum h + 65535 < 2 ^ 32
    → get_u16 h i ≡ 0
    → t ≡ s + word_sum h
    → u ≡ s + word_sum (put_u16 h i (complement (fold_sum t)))
    → fold_sum u ≡ 65535
unfolding complement
checksum_fills h i s t u even fits small blank et eu =
    let (m, le, below, pos) = fold_sum_mod t (omega arith) in
    let e = word_sum-put_u16 h i (2 ^ 16 - 1 - fold_sum t) even fits (omega arith) in
    fold_full u (omega arith) (omega arith) (omega arith)

addresses_le :
    (ip : List ℕ) (a n : ℕ) → All IsByte ip → n ≤ 32 → ones_sum (take n (drop a ip)) ≤ 2 ^ 20
addresses_le ip a n bytes h =
    let few = take-IsByte n (drop a ip) (drop-IsByte a ip bytes) in
    let long = length-take n (drop a ip) in
    omega (
      arith,
      ones_sum-word_sum (take n (drop a ip)) few (omega arith),
      word_sum-le (take n (drop a ip)) few,
    )

pub pseudo_sum_range :
    (ip : List ℕ) (v6 : Bool) (n : ℕ)
    → All IsByte ip
    → n ≤ 2 ^ 16
    → (6 ≤ pseudo_sum ip v6 n) × (pseudo_sum ip v6 n ≤ 2 ^ 21)
unfolding pseudo_sum
pseudo_sum_range ip true n bytes h = omega (arith, addresses_le ip 8 32 bytes (omega arith))
pseudo_sum_range ip false n bytes h = omega (arith, addresses_le ip 12 8 bytes (omega arith))

-- For a TCP header and payload of at most 65535 bytes, and at least the 18 up to the checksum, the
-- receiver's sum over the pseudo-header and what `setTCPChecksum` leaves is all ones.
pub set_tcp_checksum-SegmentVerifies :
    (ip : List ℕ) (v6 : Bool) (tcp : List ℕ)
    → All IsByte ip
    → All IsByte tcp
    → 18 ≤ length tcp
    → length tcp ≤ 65535
    → SegmentVerifies ip v6 (set_tcp_checksum ip v6 tcp)
unfolding set_tcp_checksum SegmentVerifies
set_tcp_checksum-SegmentVerifies ip v6 tcp bi bt least most =
    let blank = put_u16 tcp 16 0 in
    let bb = put_u16-IsByte tcp 16 0 bt in
    let p = pseudo_sum ip v6 (length tcp) in
    let p_le = pseudo_sum_range ip v6 (length tcp) bi (omega arith) in
    let v = complement (fold_sum ((p + ones_sum blank) % 2 ^ 32)) in
    let bc = put_u16-IsByte blank 16 v bb in
    let same = length-put_u16 tcp 16 0 in
    let same' = length-put_u16 blank 16 v in
    let final = put_u16 blank 16 v in
    let whole : length final ≡ length tcp = omega arith in
    checksum_fills blank 16 p ((p + ones_sum blank) % 2 ^ 32)
      ((pseudo_sum ip v6 (length final) + ones_sum final) % 2 ^ 32) refl (omega arith)
      (omega (arith, word_sum-le blank bb)) (get_u16-put_u16 tcp 16 0 (omega arith) (omega arith))
      (omega (arith, ones_sum-word_sum blank bb (omega arith), word_sum-le blank bb))
      (omega (
        arith,
        ap (pseudo_sum ip v6) whole,
        ones_sum-word_sum final bc (omega arith),
        word_sum-le final bc,
      ))

-- For an IPv4 header of at least 12 and at most 65535 bytes, the receiver's sum over what
-- `setIPv4Checksum` leaves is all ones.
pub set_ipv4_checksum-HeaderVerifies :
    (h : List ℕ)
    → All IsByte h
    → 12 ≤ length h
    → length h ≤ 65535
    → HeaderVerifies (set_ipv4_checksum h)
unfolding set_ipv4_checksum HeaderVerifies
set_ipv4_checksum-HeaderVerifies h bytes least most =
    let blank = put_u16 h 10 0 in
    let bb = put_u16-IsByte h 10 0 bytes in
    let v = complement (fold_sum (ones_sum blank)) in
    let bc = put_u16-IsByte blank 10 v bb in
    checksum_fills blank 10 0 (ones_sum blank) (ones_sum (put_u16 blank 10 v)) refl
      (omega (arith, length-put_u16 h 10 0))
      (omega (arith, word_sum-le blank bb, length-put_u16 h 10 0))
      (get_u16-put_u16 h 10 0 (omega arith) (omega arith))
      (omega (arith, ones_sum-word_sum blank bb (omega (arith, length-put_u16 h 10 0))))
      (omega (
        arith,
        ones_sum-word_sum (put_u16 blank 10 v) bc
            (omega (arith, length-put_u16 h 10 0, length-put_u16 blank 10 v)),
      ))

-- Where the addresses end.
unfoldable pub addresses_end : Bool → ℕ
addresses_end v6 = if v6 then 40 else 20

-- Both pseudo-headers are sums over the addresses.
pub pseudo_sum-prefix :
    (pkt rest : List ℕ) (v6 : Bool) (ip_len n : ℕ)
    → addresses_end v6 ≤ ip_len
    → ip_len ≤ length pkt
    → pseudo_sum (take ip_len pkt ++ rest) v6 n ≡ pseudo_sum pkt v6 n
unfolding pseudo_sum addresses_end
pseudo_sum-prefix pkt rest true ip_len n far h =
    ap (λ a. (ones_sum a + 6 + n % 2 ^ 32) % 2 ^ 32) (slice-prefix 8 40 ip_len pkt rest far h)
pseudo_sum-prefix pkt rest false ip_len n far h =
    ap (λ a. (ones_sum a + 6 + n % 2 ^ 32) % 2 ^ 32) (slice-prefix 12 20 ip_len pkt rest far h)

pub length-set_ipv4_checksum : (h : List ℕ) → length (set_ipv4_checksum h) ≡ length h
unfolding set_ipv4_checksum
length-set_ipv4_checksum h = length-put_u16 (put_u16 h 10 0) 10 _ ∙ length-put_u16 h 10 0

pub set_ipv4_checksum-IsByte : (h : List ℕ) → All IsByte h → All IsByte (set_ipv4_checksum h)
unfolding set_ipv4_checksum
set_ipv4_checksum-IsByte h b = put_u16-IsByte (put_u16 h 10 0) 10 _ (put_u16-IsByte h 10 0 b)

pub at-set_ipv4_checksum : (h : List ℕ) (j : ℕ) → j < 10 → at (set_ipv4_checksum h) j ≡ at h j
unfolding set_ipv4_checksum
at-set_ipv4_checksum h j p =
    at-put_u16_ne (put_u16 h 10 0) 10 _ j (λ e. omega arith) (λ e. omega arith)
    ∙ at-put_u16_ne h 10 0 j (λ e. omega arith) (λ e. omega arith)

-- A field before the checksum, read from a packet whose header checksum was set last.
pub get_u16-checksum_set :
    (out : List ℕ) (ip_len j : ℕ)
    → 20 ≤ ip_len
    → ip_len ≤ length out
    → j + 1 < 10
    → get_u16 (set_ipv4_checksum (take ip_len out) ++ drop ip_len out) j ≡ get_u16 out j
unfolding get_u16
get_u16-checksum_set out ip_len j least fits h =
    let head = set_ipv4_checksum (take ip_len out) in
    let n = length-set_ipv4_checksum (take ip_len out) in
    let m = length-take ip_len out in
    omega (
      arith,
      get_or-append head (drop ip_len out) j 0 (omega arith),
      get_or-append head (drop ip_len out) (j + 1) 0 (omega arith),
      at-set_ipv4_checksum (take ip_len out) j (omega arith),
      at-set_ipv4_checksum (take ip_len out) (j + 1) (omega arith),
      get_or-take ip_len out j 0 (omega arith),
      get_or-take ip_len out (j + 1) 0 (omega arith),
    )
