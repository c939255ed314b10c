-- ===== src/Mss/Checksum/Words.antt =====
-- cmd/server/mss.go, `onesSum` and `foldSum`: the sum without wrap, the fold modulo 65535, and what a
-- write of one word does to the sum.
use obsidian_vpn.Base.{
  ℕ, zero, suc, ◌+◌, ◌*◌, ◌/◌, ◌%◌, ◌^◌, ◌≤◌, ◌<◌, ◌≡◌, ◌≢◌, ap, List, [], ◌∷◌, length, arith, All,
  take, drop, set,
}
use obsidian_vpn.Base.Bytes.{IsByte, at, get_u16, put_u16}
use obsidian_vpn.Mss.Checksum.{ones_sum_from, ones_sum, fold_loop, fold_sum}

-- The sum of the words as a number without bound.
unfoldable pub word_sum : List ℕ → ℕ
word_sum [] = 0
word_sum (a ∷ []) = a * 256
word_sum (a ∷ b ∷ rest) = a * 256 + b + word_sum rest

pub word_sum-le : (xs : List ℕ) → All IsByte xs → word_sum xs ≤ 65535 * ((length xs + 1) / 2)
unfolding word_sum
word_sum-le [] h = omega arith
word_sum-le (a ∷ []) (ha, h) = omega arith
word_sum-le (a ∷ b ∷ rest) (ha, (hb, h)) = omega (arith, word_sum-le rest h)

pub ones_sum_from-word_sum :
    (s : ℕ) (xs : List ℕ) → s + word_sum xs < 2 ^ 32 → ones_sum_from s xs ≡ s + word_sum xs
unfolding word_sum ones_sum_from
ones_sum_from-word_sum s [] h = omega arith
ones_sum_from-word_sum s (a ∷ []) h = omega arith
ones_sum_from-word_sum s (a ∷ b ∷ rest) h =
    let small : (s + (a * 256 + b)) % 2 ^ 32 ≡ s + (a * 256 + b) = omega arith in
    omega (
      arith,
      ap (λ t. ones_sum_from t rest) small,
      ones_sum_from-word_sum (s + (a * 256 + b)) rest (omega arith),
    )

-- Up to 131072 bytes the uint32 sum does not wrap.
pub ones_sum-word_sum :
    (xs : List ℕ) → All IsByte xs → length xs ≤ 131072 → ones_sum xs ≡ word_sum xs
unfolding ones_sum
ones_sum-word_sum xs h long =
    omega (arith, ones_sum_from-word_sum 0 xs (omega (arith, word_sum-le xs h)))

-- `foldSum` of a uint32 is a uint16 with the same remainder modulo 65535, not above it, and 0 only
-- for 0.
pub fold_sum_mod :
    (s : ℕ)
    → s < 2 ^ 32
    → (fold_sum s % 65535 ≡ s % 65535)
      × (fold_sum s ≤ 65535)
      × (fold_sum s ≤ s)
      × (s ≢ 0 → fold_sum s ≢ 0)
unfolding fold_sum fold_loop
fold_sum_mod s h = ground arith

-- More rounds than the two of `foldSum` change nothing.
pub fold_loop_enough : (n s : ℕ) → s < 2 ^ 32 → fold_loop (suc (suc n)) s ≡ fold_sum s
unfolding fold_sum fold_loop
fold_loop_enough zero s h = ground arith
fold_loop_enough (suc n) s h = ground arith

put_u16-later :
    (a b : ℕ) (rest : List ℕ) (i v : ℕ)
    → put_u16 (a ∷ b ∷ rest) (suc (suc i)) v ≡ a ∷ b ∷ put_u16 rest i v
unfolding put_u16
put_u16-later a b rest i v =
    let e : suc (suc i) + 1 ≡ suc (suc (i + 1)) = omega arith in
    ap (λ j. set (set (a ∷ b ∷ rest) (suc (suc i)) (v / 256 % 256)) j (v % 256)) e

get_u16-later :
    (a b : ℕ) (rest : List ℕ) (i : ℕ) → get_u16 (a ∷ b ∷ rest) (suc (suc i)) ≡ get_u16 rest i
unfolding get_u16
get_u16-later a b rest i =
    let e : suc (suc i) + 1 ≡ suc (suc (i + 1)) = omega arith in
    ap (λ j. at rest i * 256 + at (a ∷ b ∷ rest) j) e

pub word_sum-put_u16 :
    (xs : List ℕ) (i v : ℕ)
    → i % 2 ≡ 0
    → i + 2 ≤ length xs
    → v < 2 ^ 16
    → word_sum (put_u16 xs i v) + get_u16 xs i ≡ word_sum xs + v
unfolding word_sum put_u16 get_u16
word_sum-put_u16 [] i v e h hv = absurd (omega arith)
word_sum-put_u16 (a ∷ []) i v e h hv = absurd (omega arith)
word_sum-put_u16 (a ∷ b ∷ rest) zero v e h hv = omega arith
word_sum-put_u16 (a ∷ b ∷ rest) (suc zero) v e h hv = absurd (omega arith)
word_sum-put_u16 (a ∷ b ∷ rest) (suc (suc i)) v e h hv = omega (
  arith,
  ap word_sum (put_u16-later a b rest i v),
  get_u16-later a b rest i,
  word_sum-put_u16 rest i v (omega arith) (omega arith) hv,
)

pub word_sum_split :
    (n : ℕ) (xs : List ℕ)
    → n % 2 ≡ 0
    → n ≤ length xs
    → word_sum xs ≡ word_sum (take n xs) + word_sum (drop n xs)
unfolding word_sum
word_sum_split zero xs e h = omega arith
word_sum_split (suc zero) xs e h = absurd (omega arith)
word_sum_split (suc (suc n)) [] e h = absurd (omega arith)
word_sum_split (suc (suc n)) (a ∷ []) e h = absurd (omega arith)
word_sum_split (suc (suc n)) (a ∷ b ∷ rest) e h =
    omega (arith, word_sum_split n rest (omega arith) (omega arith))
