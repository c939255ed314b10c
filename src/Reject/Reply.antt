-- ===== src/Reject/Reply.antt =====
-- obsidian/ipv6_reject.go: the reset and the ICMPv6 error are well-formed packets back to the sender.
use mathlib.Core.List.{append_assoc}
use obsidian_vpn.Base.{
  ℕ, ◌+◌, ◌/◌, ◌%◌, ◌≤◌, ◌<◌, ◌≡◌, refl, ap, sym, subst, ◌∙◌, List, ◌++◌, length, arith, All,
  length-append, min, take, drop, slice, length-take, ◌==◌, take-joined, drop-joined, Bool-cases,
  inl, inr,
}
use obsidian_vpn.Base.Bytes.{IsByte, at, get_u16, u16_bytes, u32_bytes}
use obsidian_vpn.Base.Bytes.Put.{take-IsByte}
use obsidian_vpn.Mss.Checksum.Words.{word_sum}
use obsidian_vpn.Reject.{
  ipv6_checksum, ipv6_header, reset_header, reset_numbers, write_reset, unreach_message,
  build_icmpv6_unreach,
}
use obsidian_vpn.Reject.Checksum.{ReplyVerifies, ipv6_checksum-fills}

-- A packet of at most 1280 bytes with the addresses swapped, its length and its checksum right.
pub record IsReply (src dst reply : List ℕ) : Type 0 where
  pub version : at reply 0 ≡ 0x60
  pub bounded : length reply ≤ 1280
  pub sized : length reply ≡ 40 + get_u16 reply 4
  pub from_dst : slice reply 8 24 ≡ dst
  pub to_src : slice reply 24 40 ≡ src
  pub verifies : ReplyVerifies dst src (at reply 6) (drop 40 reply)

length-ipv6_header :
    (src dst : List ℕ) (n next : ℕ)
    → length (ipv6_header src dst n next) ≡ 8 + length src + length dst
unfolding ipv6_header u16_bytes
length-ipv6_header src dst n next = omega (arith, length-append src dst)

header-IsReply :
    (src dst seg : List ℕ) (next : ℕ)
    → length src ≡ 16
    → length dst ≡ 16
    → length seg ≤ 1240
    → ReplyVerifies dst src next seg
    → IsReply src dst (ipv6_header dst src (length seg) next ++ seg)
unfolding ipv6_header u16_bytes get_u16
header-IsReply src dst seg next ls ld small ok =
    let assoc : (dst ++ src) ++ seg ≡ dst ++ (src ++ seg) = append_assoc dst src seg in
    let len = length-append (dst ++ src) seg in
    let len' = length-append dst src in
    let front = take-joined dst 16 (src ++ seg) ld in
    let back = drop-joined dst 16 16 (src ++ seg) (omega arith) ld in
    let tail : drop 32 ((dst ++ src) ++ seg) ≡ seg =
      drop-joined (dst ++ src) 32 32 seg (omega arith) (omega arith) in
    record {
      version = refl;
      bounded = omega arith;
      sized = omega arith;
      from_dst = ap (take 16) assoc ∙ front;
      to_src =
          ap (λ xs. take 16 (drop 16 xs)) assoc ∙ ap (take 16) back ∙ take-joined src 16 seg ls;
      verifies = subst (ReplyVerifies dst src next) (sym tail) ok;
    }

ipv6_checksum-le :
    (src dst : List ℕ) (next : ℕ) (seg : List ℕ) → ipv6_checksum src dst next seg ≤ 65535
unfolding ipv6_checksum
ipv6_checksum-le src dst next seg = omega arith

-- The ICMPv6 error.
unreach-sum :
    (pkt : List ℕ) (v : ℕ)
    → v ≤ 65535
    → word_sum (unreach_message pkt v) ≡ word_sum (unreach_message pkt 0) + v
unfolding unreach_message u16_bytes word_sum
unreach-sum pkt v h = omega arith

unreach-IsByte : (pkt : List ℕ) (v : ℕ) → All IsByte pkt → All IsByte (unreach_message pkt v)
unfolding unreach_message u16_bytes
unreach-IsByte pkt v b = (
  omega arith,
  (
    omega arith,
    (
      omega arith,
      (
        omega arith,
        (
          omega arith,
          (omega arith, (omega arith, (omega arith, take-IsByte (min (length pkt) 1232) pkt b))),
        ),
      ),
    ),
  ),
)

length-unreach : (pkt : List ℕ) (v : ℕ) → length (unreach_message pkt v) ≡ 8 + min (length pkt) 1232
unfolding unreach_message u16_bytes
length-unreach pkt v = omega (arith, length-take (min (length pkt) 1232) pkt)

pub unreach-IsReply :
    (pkt src dst : List ℕ)
    → All IsByte pkt
    → All IsByte src
    → All IsByte dst
    → length src ≡ 16
    → length dst ≡ 16
    → IsReply src dst (build_icmpv6_unreach pkt src dst)
unfolding build_icmpv6_unreach
unreach-IsReply pkt src dst bp bs bd ls ld =
    let blank = unreach_message pkt 0 in
    let v = ipv6_checksum dst src 58 blank in
    let seg = unreach_message pkt v in
    let n_blank = length-unreach pkt 0 in
    let n_seg = length-unreach pkt v in
    subst (λ n. IsReply src dst (ipv6_header dst src n 58 ++ seg)) n_seg
      (header-IsReply src dst seg 58 ls ld (omega arith) (
        ipv6_checksum-fills dst src 58 blank seg bd bs (unreach-IsByte pkt 0 bp)
          (unreach-IsByte pkt v bp) (omega arith) (omega arith) (omega arith) (omega arith)
          (omega arith) (omega arith) (unreach-sum pkt v (ipv6_checksum-le dst src 58 blank))))

-- The TCP reset.
reset-sum :
    (pkt : List ℕ) (off rseq rack rflags v : ℕ)
    → v ≤ 65535
    → word_sum (reset_header pkt off rseq rack rflags v)
      ≡ word_sum (reset_header pkt off rseq rack rflags 0) + v
unfolding reset_header u16_bytes u32_bytes word_sum
reset-sum pkt off rseq rack rflags v h = omega arith

reset-IsByte :
    (pkt : List ℕ) (off rseq rack rflags v : ℕ)
    → rflags < 256
    → All IsByte (reset_header pkt off rseq rack rflags v)
unfolding reset_header u16_bytes u32_bytes
reset-IsByte pkt off rseq rack rflags v h = omega arith

length-reset :
    (pkt : List ℕ) (off rseq rack rflags v : ℕ)
    → length (reset_header pkt off rseq rack rflags v) ≡ 20
unfolding reset_header u16_bytes u32_bytes
length-reset pkt off rseq rack rflags v = refl

pub reset-IsReply :
    (pkt : List ℕ) (off : ℕ) (numbers : ℕ × ℕ × ℕ) (src dst : List ℕ)
    → numbers.2 < 256
    → All IsByte src
    → All IsByte dst
    → length src ≡ 16
    → length dst ≡ 16
    → IsReply src dst (write_reset pkt off numbers src dst)
unfolding write_reset
reset-IsReply pkt off (rseq, rack, rflags) src dst hf bs bd ls ld =
    let blank = reset_header pkt off rseq rack rflags 0 in
    let v = ipv6_checksum dst src 6 blank in
    let seg = reset_header pkt off rseq rack rflags v in
    let n_blank = length-reset pkt off rseq rack rflags 0 in
    let n_seg = length-reset pkt off rseq rack rflags v in
    subst (λ n. IsReply src dst (ipv6_header dst src n 6 ++ seg)) n_seg
      (header-IsReply src dst seg 6 ls ld (omega arith) (
        ipv6_checksum-fills dst src 6 blank seg bd bs (reset-IsByte pkt off rseq rack rflags 0 hf)
          (reset-IsByte pkt off rseq rack rflags v hf) (omega arith) (omega arith) (omega arith)
          (omega arith) (omega arith) (omega arith)
          (reset-sum pkt off rseq rack rflags v (ipv6_checksum-le dst src 6 blank))))

pub reset_flags : (pkt : List ℕ) (off doff flags : ℕ) → (reset_numbers pkt off doff flags).2 < 256
unfolding reset_numbers
reset_flags pkt off doff flags = elim (Bool-cases (flags / 16 % 2 == 0)) [
  | inl plain ↦ rw plain (omega arith)
  | inr ack ↦ rw ack (omega arith)
]
