-- ===== src/Reject/Walk.antt =====
-- obsidian/ipv6_reject.go: the walk over the extension headers ends, within the packet.
use obsidian_vpn.Base.{
  ℕ, zero, suc, ◌+◌, ◌*◌, ◌≤◌, ◌<◌, ◌≡◌, ap, ◌∙◌, List, length, arith, some, false, ltb, Bool-cases,
  ltb_false→le, inl, inr,
}
use obsidian_vpn.Base.Bytes.{at}
use obsidian_vpn.Reject.{is_extension, extension_walk}

-- More rounds than bytes are left find the same.
extension_walk_more :
    (n : ℕ) (pkt : List ℕ) (next off : ℕ)
    → off ≤ length pkt
    → length pkt < n + off
    → extension_walk (suc n) pkt next off ≡ extension_walk n pkt next off
unfolding extension_walk
extension_walk_more zero pkt next off k h = absurd (omega arith)
extension_walk_more (suc n) pkt next off k h =
    let off' = off + (at pkt (off + 1) + 1) * 8 in
    elim (Bool-cases (ltb (length pkt) off')) [
      | inl past ↦ rw past
      | inr within ↦
          let le = ltb_false→le (length pkt) off' within in
          rw (extension_walk_more n pkt (at pkt off) off' le (omega arith))
    ]

-- The walk over the extension headers ends: any number of rounds beyond the packet's length finds
-- what that many find, since each header moves it on by 8 bytes or more.
pub extension_walk_ends :
    (m : ℕ) (pkt : List ℕ) (next : ℕ)
    → 40 ≤ length pkt
    → extension_walk (m + length pkt) pkt next 40 ≡ extension_walk (length pkt) pkt next 40
extension_walk_ends zero pkt next h =
    let e : 0 + length pkt ≡ length pkt = omega arith in ap (λ n. extension_walk n pkt next 40) e
extension_walk_ends (suc m) pkt next h =
    let e : suc m + length pkt ≡ suc (m + length pkt) = omega arith in
    ap (λ n. extension_walk n pkt next 40) e
    ∙ extension_walk_more (m + length pkt) pkt next 40 h (omega arith)
    ∙ extension_walk_ends m pkt next h

-- What the walk over the extension headers finds is a header of another kind, and it starts within
-- the packet and not before the offset that the walk starts from.
pub extension_walk_found :
    (n : ℕ) (pkt : List ℕ) (next off upper at_off : ℕ)
    → off ≤ length pkt
    → extension_walk n pkt next off ≡ some (upper, at_off)
    → (is_extension upper ≡ false) × (off ≤ at_off) × (at_off ≤ length pkt)
unfolding extension_walk
extension_walk_found zero pkt next off upper at_off h e = absurd (ground arith)
extension_walk_found (suc n) pkt next off upper at_off h e =
    let off' = off + (at pkt (off + 1) + 1) * 8 in
    ground (arith, extension_walk_found n pkt (at pkt off) off' upper at_off)
