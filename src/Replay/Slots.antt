-- ===== src/Replay/Slots.antt =====
-- The 4096 slots of the bitmap, one bit each, under `mark` and `unmark`.
use obsidian_vpn.Base.{
  ℕ, ◌/◌, ◌%◌, ◌^◌, ◌<◌, ◌≡◌, sym, ◌∙◌, ap, ◌≢◌, List, ◌==◌, get_or, set, length, get_or-set_self,
  get_or-set_ne, get_or-replicate, replicate, arith, bit_or,
}
use obsidian_vpn.Base.Bits.{
  bit, and_not, bit-or, bit-lt, bit-and_not, bit-zero, bit-pow_self, bit-pow_ne, bit_and-pow,
}
use obsidian_vpn.Replay.{mark, unmark, is_marked}
use native.Mathlib.Decide.{ℕ_discrete}
use native.Mathlib.Nat.{one-le-pow}

pub slot : List ℕ → ℕ → ℕ
slot bm idx = bit (get_or bm (idx / 64) 0) (idx % 64)

pub slot-mark_self :
    (bm : List ℕ) (idx : ℕ) → length bm ≡ 64 → idx < 4096 → slot (mark bm idx) idx ≡ 1
unfolding slot mark
slot-mark_self bm idx l h =
    rw
      (get_or-set_self bm (idx / 64) (bit_or (get_or bm (idx / 64) 0) (2 ^ (idx % 64))) 0
        (omega arith))
      (omega (
        arith,
        bit-or (get_or bm (idx / 64) 0) (2 ^ (idx % 64)) (idx % 64),
        bit-lt (get_or bm (idx / 64) 0) (idx % 64),
        bit-pow_self (idx % 64),
      ))

pub slot-unmark_self :
    (bm : List ℕ) (idx : ℕ) → length bm ≡ 64 → idx < 4096 → slot (unmark bm idx) idx ≡ 0
unfolding slot unmark
slot-unmark_self bm idx l h =
    rw
      (get_or-set_self bm (idx / 64) (and_not (get_or bm (idx / 64) 0) (2 ^ (idx % 64))) 0
        (omega arith))
      (omega (
        arith,
        bit-and_not (get_or bm (idx / 64) 0) (2 ^ (idx % 64)) (idx % 64),
        bit-lt (get_or bm (idx / 64) 0) (idx % 64),
        bit-pow_self (idx % 64),
      ))

-- A write of a word that keeps all bits but one keeps all slots but one.
slot-set_ne :
    (bm : List ℕ) (v idx j : ℕ)
    → length bm ≡ 64
    → idx < 4096
    → ((k : ℕ) → idx % 64 ≢ k → bit v k ≡ bit (get_or bm (idx / 64) 0) k)
    → idx ≢ j
    → slot (set bm (idx / 64) v) j ≡ slot bm j
unfolding slot
slot-set_ne bm v idx j l h keep ne = elim (ℕ_discrete (idx / 64) (j / 64)) [
  | yes p ↦
      ap (λ i. bit (get_or (set bm (idx / 64) v) i 0) (j % 64)) (sym p)
      ∙ ap (λ w. bit w (j % 64)) (get_or-set_self bm (idx / 64) v 0 (omega arith))
      ∙ keep (j % 64) (λ e. ne (omega arith))
      ∙ ap (λ i. bit (get_or bm i 0) (j % 64)) p
  | no p ↦ ap (λ w. bit w (j % 64)) (get_or-set_ne bm (idx / 64) (j / 64) v 0 p)
]

pub slot-mark_ne :
    (bm : List ℕ) (idx j : ℕ)
    → length bm ≡ 64
    → idx < 4096
    → idx ≢ j
    → slot (mark bm idx) j ≡ slot bm j
unfolding mark
slot-mark_ne bm idx j l h ne =
    slot-set_ne bm _ idx j l h
      (λ k q.
        omega
          (arith, bit-or (get_or bm (idx / 64) 0) (2 ^ (idx % 64)) k, bit-pow_ne (idx % 64) k q))
      ne

pub slot-unmark_ne :
    (bm : List ℕ) (idx j : ℕ)
    → length bm ≡ 64
    → idx < 4096
    → idx ≢ j
    → slot (unmark bm idx) j ≡ slot bm j
unfolding unmark
slot-unmark_ne bm idx j l h ne =
    slot-set_ne bm _ idx j l h
      (λ k q.
        omega (
          arith,
          bit-and_not (get_or bm (idx / 64) 0) (2 ^ (idx % 64)) k,
          bit-pow_ne (idx % 64) k q,
        ))
      ne

pub slot-replicate : (idx : ℕ) → slot (replicate 64 0) idx ≡ 0
unfolding slot
slot-replicate idx = ap (λ w. bit w (idx % 64)) (get_or-replicate 64 (idx / 64) 0) ∙ bit-zero _

-- `Check` reads the slot.
pub is_marked-slot : (bm : List ℕ) (idx : ℕ) → is_marked bm idx ≡ (slot bm idx == 1)
unfolding slot is_marked
is_marked-slot bm idx =
    let w = get_or bm (idx / 64) 0 in
    elim (ℕ_discrete (bit w (idx % 64)) 0) [
      | yes p ↦ rw (bit_and-pow w (idx % 64), p) (ground arith)
      | no p ↦
          let q : bit w (idx % 64) ≡ 1 = omega (arith, bit-lt w (idx % 64)) in
          rw (bit_and-pow w (idx % 64), q) (ground (arith, one-le-pow (idx % 64) 2))
    ]
