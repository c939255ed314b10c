-- ===== src/Base/Bits.antt =====
-- The native bit operations at variables: the digits of a word, lowest first.
use Prim.Native.Nat.{
  differ, ℕ, zero, suc, ◌+◌, ◌-◌, ◌*◌, ◌/◌, ◌%◌, ◌^◌, ◌≤◌, ◌<◌, min, max, bit_and, bit_or, bit_xor,
  digits, bitwise, bit_and-bitwise, bit_or-bitwise, bit_xor-bitwise,
}
use mathlib.Core.Path.{◌≡◌, refl, sym, ap, ◌∙◌}
use mathlib.Core.Logic.{◌≢◌}
use native.Mathlib.Nat.{pow-suc}
use native.Mathlib.Omega.{arith}

-- Bit `k` of `w`, as 0 or 1.
pub bit : ℕ → ℕ → ℕ
bit w zero = w % 2
bit w (suc k) = bit (w / 2) k

-- Go's `a &^ b`.
unfoldable pub and_not : ℕ → ℕ → ℕ
and_not a b = bit_xor a (bit_and a b)

module _ (z : ℕ → ℕ) (f : ℕ → ℕ → ℕ) where
  -- No digits are left of 0, whatever the fuel.
  digits_of_zero : (n b : ℕ) → digits z f n 0 b ≡ z b
  digits_of_zero zero b = refl
  digits_of_zero (suc n) b = refl

  -- With fuel for all digits of the first number, more fuel changes nothing.
  digits-eq-digits : (m n a b : ℕ) → a ≤ min m n → digits z f m a b ≡ digits z f n a b
  digits-eq-digits m n zero b h = digits_of_zero m b ∙ sym (digits_of_zero n b)
  digits-eq-digits zero n (suc a) b h = absurd (omega arith)
  digits-eq-digits (suc m) zero (suc a) b h = absurd (omega arith)
  digits-eq-digits (suc m) (suc n) (suc a) b h =
      ap (λ (t : ℕ). t * 2 + f (suc a % 2) (b % 2))
        (digits-eq-digits m n (suc a / 2) (b / 2) (omega arith))

  digits_lowest :
      (a b : ℕ)
      → bitwise z f (suc a) b ≡ bitwise z f (suc a / 2) (b / 2) * 2 + f (suc a % 2) (b % 2)
  digits_lowest a b =
      ap (λ (t : ℕ). t * 2 + f (suc a % 2) (b % 2))
        (digits-eq-digits a (suc a / 2) (suc a / 2) (b / 2) (omega arith))

bit_and_lowest : (a b : ℕ) → bit_and a b ≡ bit_and (a / 2) (b / 2) * 2 + min (a % 2) (b % 2)
bit_and_lowest zero b = simp bit_and-bitwise (omega arith)
bit_and_lowest (suc a) b = simp bit_and-bitwise (digits_lowest (λ y. 0) min a b)

bit_or_lowest : (a b : ℕ) → bit_or a b ≡ bit_or (a / 2) (b / 2) * 2 + max (a % 2) (b % 2)
bit_or_lowest zero b = simp bit_or-bitwise (omega arith)
bit_or_lowest (suc a) b = simp bit_or-bitwise (digits_lowest (λ y. y) max a b)

-- `differ` on digits.
differ_digits : (x y : ℕ) → x < 2 → y < 2 → differ x y ≡ (x + y) % 2
differ_digits zero y p q = omega arith
differ_digits (suc zero) zero p q = omega arith
differ_digits (suc zero) (suc zero) p q = omega arith
differ_digits (suc zero) (suc (suc y)) p q = absurd (omega arith)
differ_digits (suc (suc x)) y p q = absurd (omega arith)

pub bit_xor_lowest : (a b : ℕ) → bit_xor a b ≡ bit_xor (a / 2) (b / 2) * 2 + (a + b) % 2
bit_xor_lowest zero b = simp bit_xor-bitwise (omega arith)
bit_xor_lowest (suc a) b = simp bit_xor-bitwise (
    omega (
      arith,
      digits_lowest (λ y. y) differ a b,
      differ_digits (suc a % 2) (b % 2) (omega arith) (omega arith),
    ))

pub bit-and : (a b k : ℕ) → bit (bit_and a b) k ≡ min (bit a k) (bit b k)
unfolding bit
bit-and a b zero = omega (arith, bit_and_lowest a b)
bit-and a b (suc k) =
    ap (λ w. bit w k) (omega (arith, bit_and_lowest a b)) ∙ bit-and (a / 2) (b / 2) k

pub bit-or : (a b k : ℕ) → bit (bit_or a b) k ≡ max (bit a k) (bit b k)
unfolding bit
bit-or a b zero = omega (arith, bit_or_lowest a b)
bit-or a b (suc k) = ap (λ w. bit w k) (omega (arith, bit_or_lowest a b)) ∙ bit-or (a / 2) (b / 2) k

pub bit-xor : (a b k : ℕ) → bit (bit_xor a b) k ≡ (bit a k + bit b k) % 2
unfolding bit
bit-xor a b zero = omega (arith, bit_xor_lowest a b)
bit-xor a b (suc k) =
    ap (λ w. bit w k) (omega (arith, bit_xor_lowest a b)) ∙ bit-xor (a / 2) (b / 2) k

pub bit-lt : (w k : ℕ) → bit w k < 2
unfolding bit
bit-lt w zero = omega arith
bit-lt w (suc k) = bit-lt (w / 2) k

pub bit-and_not : (a b k : ℕ) → bit (and_not a b) k ≡ bit a k - bit b k
unfolding and_not
bit-and_not a b k = omega (arith, bit-xor a (bit_and a b) k, bit-and a b k, bit-lt a k, bit-lt b k)

-- Every digit of 0 is 0.
pub bit-zero : (k : ℕ) → bit 0 k ≡ 0
unfolding bit
bit-zero zero = refl
bit-zero (suc k) = bit-zero k

half_pow : (k : ℕ) → 2 ^ suc k / 2 ≡ 2 ^ k
half_pow k = omega (arith, pow-suc 2 k)

pub bit-pow_self : (k : ℕ) → bit (2 ^ k) k ≡ 1
unfolding bit
bit-pow_self zero = refl
bit-pow_self (suc k) = rw half_pow (bit-pow_self k)

pub bit-pow_ne : (k j : ℕ) → k ≢ j → bit (2 ^ k) j ≡ 0
unfolding bit
bit-pow_ne zero zero h = absurd (h refl)
bit-pow_ne zero (suc j) h = bit-zero j
bit-pow_ne (suc k) zero h = omega (arith, pow-suc 2 k)
bit-pow_ne (suc k) (suc j) h = rw half_pow (bit-pow_ne k j (λ e. h (ap suc e)))

digits_and_zero : (n a : ℕ) → digits (λ y. 0) min n a 0 ≡ 0
digits_and_zero zero a = refl
digits_and_zero (suc n) zero = refl
digits_and_zero (suc n) (suc a) = omega (arith, digits_and_zero n (suc a / 2))

bit_and-zero : (a : ℕ) → bit_and a 0 ≡ 0
bit_and-zero a = bit_and-bitwise a 0 ∙ digits_and_zero a a

-- The mask of one bit keeps that bit.
pub bit_and-pow : (w k : ℕ) → bit_and w (2 ^ k) ≡ bit w k * 2 ^ k
unfolding bit
bit_and-pow w zero = omega (arith, bit_and_lowest w 1, bit_and-zero (w / 2))
bit_and-pow w (suc k) = omega (
  arith,
  bit_and_lowest w (2 ^ suc k),
  ap (bit_and (w / 2)) (half_pow k),
  bit_and-pow (w / 2) k,
  ap (λ (t : ℕ). bit (w / 2) k * t) (pow-suc 2 k),
  pow-suc 2 k,
)

bit_and_le_fuel : (n a b : ℕ) → a ≤ n → bit_and a b ≤ a
bit_and_le_fuel n zero b h = simp bit_and-bitwise (omega arith)
bit_and_le_fuel zero (suc a) b h = absurd (omega arith)
bit_and_le_fuel (suc n) (suc a) b h =
    omega (arith, bit_and_lowest (suc a) b, bit_and_le_fuel n (suc a / 2) (b / 2) (omega arith))

pub bit_and-le : (a b : ℕ) → bit_and a b ≤ a
bit_and-le a b = bit_and_le_fuel a a b (omega arith)

-- Setting a bit above all others adds it.
pub bit_or_pow : (k a : ℕ) → a < 2 ^ k → bit_or a (2 ^ k) ≡ a + 2 ^ k
bit_or_pow zero zero h = refl
bit_or_pow zero (suc a) h = absurd (omega arith)
bit_or_pow (suc k) a h = omega (
  arith,
  bit_or_lowest a (2 ^ suc k),
  ap (bit_or (a / 2)) (half_pow k),
  bit_or_pow k (a / 2) (omega (arith, pow-suc 2 k)),
  pow-suc 2 k,
)
