-- ===== src/Reject/Sound.antt =====
-- obsidian/ipv6_reject.go: whatever `BuildIPv6Reject` writes is a well-formed reply.
use Prim.{tt}
use obsidian_vpn.Base.{
  ℕ, ◌+◌, ◌-◌, ◌*◌, ◌/◌, ◌%◌, ◌≤◌, ◌≡◌, subst, List, length, arith, All, drop, slice, length-slice,
  Option, none, some, false, not, ltb, ◌==◌, ◌||◌, ◌&&◌, Bool-cases, inl, inr,
}
use obsidian_vpn.Base.Bytes.{IsByte, at}
use obsidian_vpn.Base.Bytes.Put.{take-IsByte, drop-IsByte}
use obsidian_vpn.Reject.{
  reset_numbers, build_tcp_reset, answer, build_ipv6_reject, is_all_zero, extension_walk,
}
use obsidian_vpn.Reject.Reply.{IsReply, unreach-IsReply, reset-IsReply, reset_flags}

-- Whatever `answer` sends is such a reply.
IsSound : List ℕ → List ℕ → Option (List ℕ) → Type 0
IsSound src dst none = Unit {0}
IsSound src dst (some reply) = IsReply src dst reply

build_tcp_reset-IsSound :
    (pkt : List ℕ) (off : ℕ) (src dst : List ℕ)
    → All IsByte src
    → All IsByte dst
    → length src ≡ 16
    → length dst ≡ 16
    → IsSound src dst (build_tcp_reset pkt off src dst)
unfolding build_tcp_reset IsSound
build_tcp_reset-IsSound pkt off src dst bs bd ls ld =
    let doff = at pkt (off + 12) / 16 * 4 in
    let flags = at pkt (off + 13) in
    let done =
      reset-IsReply pkt off (reset_numbers pkt off doff flags) src dst
        (reset_flags pkt off doff flags) bs bd ls ld in
    elim (Bool-cases (ltb (length pkt) (off + 20))) [
      | inl cut ↦ rw cut tt
      | inr whole ↦ elim (Bool-cases (ltb doff 20 || ltb (length pkt) (off + doff))) [
        | inl bad ↦ rw (whole, bad) tt
        | inr good ↦ elim (Bool-cases (flags / 4 % 2 == 0)) [
          | inl live ↦ rw (whole, good, live) done
          | inr rst ↦ rw (whole, good, rst) tt
        ]
      ]
    ]

answer-IsSound :
    (pkt src dst : List ℕ) (found : Option (ℕ × ℕ))
    → All IsByte pkt
    → All IsByte src
    → All IsByte dst
    → length src ≡ 16
    → length dst ≡ 16
    → IsSound src dst (answer pkt src dst found)
unfolding answer IsSound
answer-IsSound pkt src dst none bp bs bd ls ld = tt
answer-IsSound pkt src dst (some (next, off)) bp bs bd ls ld = elim (Bool-cases (next == 6)) [
  | inl tcp ↦ rw tcp (build_tcp_reset-IsSound pkt off src dst bs bd ls ld)
  | inr other ↦ elim (Bool-cases (next == 58 && ltb off (length pkt) && ltb (at pkt off) 128)) [
    | inl error ↦ rw (other, error) tt
    | inr plain ↦ rw (other, plain) (unreach-IsReply pkt src dst bp bs bd ls ld)
  ]
]

slice-IsByte : (pkt : List ℕ) (a b : ℕ) → All IsByte pkt → All IsByte (slice pkt a b)
slice-IsByte pkt a b bytes = take-IsByte (b - a) (drop a pkt) (drop-IsByte a pkt bytes)

enough_bytes :
    (pkt : List ℕ) (room : ℕ)
    → (ltb (length pkt) 40 || not (at pkt 0 / 16 == 6) || ltb room 1280) ≡ false
    → 40 ≤ length pkt
enough_bytes pkt room h = ground arith

build_ipv6_reject-IsSound :
    (pkt : List ℕ) (room : ℕ)
    → All IsByte pkt
    → IsSound (slice pkt 8 24) (slice pkt 24 40) (build_ipv6_reject pkt room)
unfolding build_ipv6_reject IsSound
build_ipv6_reject-IsSound pkt room bytes =
    let src = slice pkt 8 24 in
    let dst = slice pkt 24 40 in
    let bad = ltb (length pkt) 40 || not (at pkt 0 / 16 == 6) || ltb room 1280 in
    let odd = at dst 0 == 255 || at src 0 == 255 || is_all_zero src in
    let found = extension_walk (length pkt) pkt (at pkt 6) 40 in
    elim (Bool-cases bad) [
      | inl refused ↦ rw refused tt
      | inr taken ↦ elim (Bool-cases odd) [
        | inl silent ↦ rw (taken, silent) tt
        | inr fine ↦
            let long = enough_bytes pkt room taken in
            rw (taken, fine)
              (answer-IsSound pkt src dst found bytes (slice-IsByte pkt 8 24 bytes)
                (slice-IsByte pkt 24 40 bytes) (length-slice pkt 8 24 (omega arith) (omega arith))
                (length-slice pkt 24 40 (omega arith) (omega arith)))
      ]
    ]

-- Every reply that `BuildIPv6Reject` writes is an IPv6 packet of at most 1280 bytes from the packet's
-- destination to its source, with its own length in the header and a checksum over pseudo-header and
-- payload that the receiver's sum finds correct.
pub build_ipv6_reject-IsReply :
    (pkt : List ℕ) (room : ℕ) (reply : List ℕ)
    → All IsByte pkt
    → build_ipv6_reject pkt room ≡ some reply
    → IsReply (slice pkt 8 24) (slice pkt 24 40) reply
unfolding IsSound
build_ipv6_reject-IsReply pkt room reply bytes e =
    subst (IsSound (slice pkt 8 24) (slice pkt 24 40)) e (build_ipv6_reject-IsSound pkt room bytes)
