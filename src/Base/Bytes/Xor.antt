-- ===== src/Base/Bytes/Xor.antt =====
-- Exclusive or, of numbers and of slices byte by byte: doing it twice undoes it.
use Prim.Native.Nat.{ℕ, zero, suc, ◌+◌, ◌/◌, ◌^◌, ◌≤◌, ◌<◌, bit_xor}
use mathlib.Core.Path.{◌≡◌, refl, sym, ap, ap₂, ◌∙◌}
use mathlib.Core.List.{List, [], ◌∷◌}
use native.Mathlib.Nat.{pow-suc}
use native.Mathlib.Omega.{arith}
use obsidian_vpn.Base.Lists.{length}
use obsidian_vpn.Base.Bits.{bit_xor_lowest}

bit_xor_twice_fuel : (n a b : ℕ) → a ≤ n → b ≤ n → bit_xor (bit_xor a b) b ≡ a
bit_xor_twice_fuel zero zero zero p q = refl
bit_xor_twice_fuel zero zero (suc b) p q = absurd (omega arith)
bit_xor_twice_fuel zero (suc a) b p q = absurd (omega arith)
bit_xor_twice_fuel (suc n) a b p q =
    let x = bit_xor a b in
    let half : x / 2 ≡ bit_xor (a / 2) (b / 2) = omega (arith, bit_xor_lowest a b) in
    omega (
      arith,
      bit_xor_lowest x b,
      bit_xor_lowest a b,
      ap (λ t. bit_xor t (b / 2)) half,
      bit_xor_twice_fuel n (a / 2) (b / 2) (omega arith) (omega arith),
    )

pub bit_xor_twice : (a b : ℕ) → bit_xor (bit_xor a b) b ≡ a
bit_xor_twice a b = bit_xor_twice_fuel (a + b) a b (omega arith) (omega arith)

bit_xor_again_fuel : (n a b : ℕ) → a ≤ n → b ≤ n → bit_xor a (bit_xor a b) ≡ b
bit_xor_again_fuel zero zero zero p q = refl
bit_xor_again_fuel zero zero (suc b) p q = absurd (omega arith)
bit_xor_again_fuel zero (suc a) b p q = absurd (omega arith)
bit_xor_again_fuel (suc n) a b p q =
    let x = bit_xor a b in
    let half : x / 2 ≡ bit_xor (a / 2) (b / 2) = omega (arith, bit_xor_lowest a b) in
    omega (
      arith,
      bit_xor_lowest a x,
      bit_xor_lowest a b,
      ap (bit_xor (a / 2)) half,
      bit_xor_again_fuel n (a / 2) (b / 2) (omega arith) (omega arith),
    )

pub bit_xor_cancel : (a b c : ℕ) → bit_xor a b ≡ bit_xor a c → b ≡ c
bit_xor_cancel a b c e =
    sym (bit_xor_again_fuel (a + b) a b (omega arith) (omega arith))
    ∙ ap (bit_xor a) e
    ∙ bit_xor_again_fuel (a + c) a c (omega arith) (omega arith)

-- The exclusive or of two numbers of `k` bits has `k` bits.
pub bit_xor-lt : (k a b : ℕ) → a < 2 ^ k → b < 2 ^ k → bit_xor a b < 2 ^ k
bit_xor-lt zero zero zero p q = p
bit_xor-lt zero zero (suc b) p q = absurd (omega arith)
bit_xor-lt zero (suc a) b p q = absurd (omega arith)
bit_xor-lt (suc k) a b p q = omega (
  arith,
  bit_xor_lowest a b,
  pow-suc 2 k,
  bit_xor-lt k (a / 2) (b / 2) (omega (arith, pow-suc 2 k)) (omega (arith, pow-suc 2 k)),
)

-- `for i := range xs { xs[i] ^= mask[i] }`, up to the end of the mask.
unfoldable pub xor_bytes : List ℕ → List ℕ → List ℕ
xor_bytes [] mask = []
xor_bytes (x ∷ xs) [] = x ∷ xs
xor_bytes (x ∷ xs) (m ∷ mask) = bit_xor x m ∷ xor_bytes xs mask

pub xor_bytes_twice : (xs mask : List ℕ) → xor_bytes (xor_bytes xs mask) mask ≡ xs
unfolding xor_bytes
xor_bytes_twice [] mask = refl
xor_bytes_twice (x ∷ xs) [] = refl
xor_bytes_twice (x ∷ xs) (m ∷ mask) = ap₂ ◌∷◌ (bit_xor_twice x m) (xor_bytes_twice xs mask)

pub length-xor_bytes : (xs mask : List ℕ) → length (xor_bytes xs mask) ≡ length xs
unfolding xor_bytes
length-xor_bytes [] mask = refl
length-xor_bytes (x ∷ xs) [] = refl
length-xor_bytes (x ∷ xs) (m ∷ mask) = ap suc (length-xor_bytes xs mask)

-- Masks that are not longer than the slice can be told from the result.
pub xor_bytes_cancel :
    (xs m m' : List ℕ)
    → length m ≤ length xs
    → length m' ≡ length m
    → xor_bytes xs m ≡ xor_bytes xs m'
    → m ≡ m'
unfolding xor_bytes
xor_bytes_cancel xs [] [] h l e = refl
xor_bytes_cancel xs [] (b ∷ m') h l e = absurd (omega arith)
xor_bytes_cancel xs (a ∷ m) [] h l e = absurd (omega arith)
xor_bytes_cancel [] (a ∷ m) (b ∷ m') h l e = absurd (omega arith)
xor_bytes_cancel (x ∷ xs) (a ∷ m) (b ∷ m') h l e =
    ap₂ ◌∷◌ (bit_xor_cancel x a b (cc)) (xor_bytes_cancel xs m m' (omega arith) (omega arith) (cc))
