-- ===== src/Base/Bytes/Put.antt =====
-- Writes of big-endian fields into a byte slice: lengths, what is read back, and what stays.
use Prim.Native.Nat.{ℕ, zero, suc, ◌+◌, ◌*◌, ◌/◌, ◌%◌, ◌^◌, ◌≤◌, ◌<◌}
use mathlib.Core.Path.{◌≡◌, refl, ap, ◌∙◌}
use mathlib.Core.Logic.{◌≢◌}
use mathlib.Core.List.{List, [], ◌∷◌, ◌++◌}
use Prim.{tt}
use native.Mathlib.Omega.{arith}
use obsidian_vpn.Base.Lists.{
  length, set, All, take, drop, length-set, get_or-set_self, get_or-set_ne,
}
use obsidian_vpn.Base.Bytes.{IsByte, at, get_u16, get_u32, put_u16, put_u32}

pub length-put_u16 : (xs : List ℕ) (i v : ℕ) → length (put_u16 xs i v) ≡ length xs
unfolding put_u16
length-put_u16 xs i v =
    length-set (set xs i (v / 256 % 256)) (i + 1) (v % 256) ∙ length-set xs i (v / 256 % 256)

-- A write elsewhere is not seen.
pub at-put_u16_ne : (xs : List ℕ) (i v j : ℕ) → i ≢ j → i + 1 ≢ j → at (put_u16 xs i v) j ≡ at xs j
unfolding put_u16
at-put_u16_ne xs i v j p q =
    get_or-set_ne (set xs i (v / 256 % 256)) (i + 1) j (v % 256) 0 q
    ∙ get_or-set_ne xs i j (v / 256 % 256) 0 p

pub get_u16-put_u16 :
    (xs : List ℕ) (i v : ℕ) → i + 2 ≤ length xs → v < 2 ^ 16 → get_u16 (put_u16 xs i v) i ≡ v
unfolding put_u16 get_u16
get_u16-put_u16 xs i v h hv = omega (
  arith,
  get_or-set_ne (set xs i (v / 256 % 256)) (i + 1) i (v % 256) 0 (omega arith),
  get_or-set_self xs i (v / 256 % 256) 0 (omega arith),
  get_or-set_self (set xs i (v / 256 % 256)) (i + 1) (v % 256) 0
      (omega (arith, length-set xs i (v / 256 % 256))),
)

pub get_u16-put_u16_ne :
    (xs : List ℕ) (i v j : ℕ)
    → i ≢ j
    → i + 1 ≢ j
    → i ≢ j + 1
    → get_u16 (put_u16 xs i v) j ≡ get_u16 xs j
unfolding get_u16
get_u16-put_u16_ne xs i v j p q r =
    omega (arith, at-put_u16_ne xs i v j p q, at-put_u16_ne xs i v (j + 1) r (omega arith))

pub set-IsByte : (xs : List ℕ) (i v : ℕ) → All IsByte xs → IsByte v → All IsByte (set xs i v)
set-IsByte [] i v h hv = h
set-IsByte (x ∷ xs) zero v h hv = (hv, h.1)
set-IsByte (x ∷ xs) (suc i) v h hv = (h.0, set-IsByte xs i v h.1 hv)

pub put_u16-IsByte : (xs : List ℕ) (i v : ℕ) → All IsByte xs → All IsByte (put_u16 xs i v)
unfolding put_u16
put_u16-IsByte xs i v h =
    set-IsByte (set xs i (v / 256 % 256)) (i + 1) (v % 256)
      (set-IsByte xs i (v / 256 % 256) h (omega arith)) (omega arith)

pub at-IsByte : (xs : List ℕ) (i : ℕ) → All IsByte xs → at xs i < 256
at-IsByte [] i h = omega arith
at-IsByte (x ∷ xs) zero h = h.0
at-IsByte (x ∷ xs) (suc i) h = at-IsByte xs i h.1

pub get_u16-lt : (xs : List ℕ) (i : ℕ) → All IsByte xs → get_u16 xs i < 2 ^ 16
unfolding get_u16
get_u16-lt xs i h = omega (arith, at-IsByte xs i h, at-IsByte xs (i + 1) h)

pub take-IsByte : (n : ℕ) (xs : List ℕ) → All IsByte xs → All IsByte (take n xs)
take-IsByte zero xs h = tt
take-IsByte (suc n) [] h = tt
take-IsByte (suc n) (x ∷ xs) h = (h.0, take-IsByte n xs h.1)

pub drop-IsByte : (n : ℕ) (xs : List ℕ) → All IsByte xs → All IsByte (drop n xs)
drop-IsByte zero xs h = h
drop-IsByte (suc n) [] h = tt
drop-IsByte (suc n) (x ∷ xs) h = drop-IsByte n xs h.1

pub append-IsByte : (xs ys : List ℕ) → All IsByte xs → All IsByte ys → All IsByte (xs ++ ys)
append-IsByte [] ys h k = k
append-IsByte (x ∷ xs) ys h k = (h.0, append-IsByte xs ys h.1 k)

-- A write at or after `n` leaves what stands before it, and one before `n` what stands after.
pub take-set : (n : ℕ) (xs : List ℕ) (i v : ℕ) → n ≤ i → take n (set xs i v) ≡ take n xs
take-set zero xs i v h = refl
take-set (suc n) [] i v h = refl
take-set (suc n) (x ∷ xs) zero v h = absurd (omega arith)
take-set (suc n) (x ∷ xs) (suc i) v h = ap (◌∷◌ x) (take-set n xs i v (omega arith))

pub drop-set : (n : ℕ) (xs : List ℕ) (i v : ℕ) → i < n → drop n (set xs i v) ≡ drop n xs
drop-set zero xs i v h = absurd (omega arith)
drop-set (suc n) [] i v h = refl
drop-set (suc n) (x ∷ xs) zero v h = refl
drop-set (suc n) (x ∷ xs) (suc i) v h = drop-set n xs i v (omega arith)

pub take-put_u16 : (n : ℕ) (xs : List ℕ) (i v : ℕ) → n ≤ i → take n (put_u16 xs i v) ≡ take n xs
unfolding put_u16
take-put_u16 n xs i v h =
    take-set n (set xs i (v / 256 % 256)) (i + 1) (v % 256) (omega arith)
    ∙ take-set n xs i (v / 256 % 256) h

pub drop-put_u16 : (n : ℕ) (xs : List ℕ) (i v : ℕ) → i + 2 ≤ n → drop n (put_u16 xs i v) ≡ drop n xs
unfolding put_u16
drop-put_u16 n xs i v h =
    drop-set n (set xs i (v / 256 % 256)) (i + 1) (v % 256) (omega arith)
    ∙ drop-set n xs i (v / 256 % 256) (omega arith)

pub length-put_u32 : (xs : List ℕ) (i v : ℕ) → length (put_u32 xs i v) ≡ length xs
unfolding put_u32
length-put_u32 xs i v = length-put_u16 (put_u16 xs i _) (i + 2) _ ∙ length-put_u16 xs i _

pub put_u32-IsByte : (xs : List ℕ) (i v : ℕ) → All IsByte xs → All IsByte (put_u32 xs i v)
unfolding put_u32
put_u32-IsByte xs i v h = put_u16-IsByte (put_u16 xs i _) (i + 2) _ (put_u16-IsByte xs i _ h)

pub take-put_u32 : (n : ℕ) (xs : List ℕ) (i v : ℕ) → n ≤ i → take n (put_u32 xs i v) ≡ take n xs
unfolding put_u32
take-put_u32 n xs i v h =
    take-put_u16 n (put_u16 xs i _) (i + 2) _ (omega arith) ∙ take-put_u16 n xs i _ h

pub drop-put_u32 : (n : ℕ) (xs : List ℕ) (i v : ℕ) → i + 4 ≤ n → drop n (put_u32 xs i v) ≡ drop n xs
unfolding put_u32
drop-put_u32 n xs i v h =
    drop-put_u16 n (put_u16 xs i _) (i + 2) _ (omega arith) ∙ drop-put_u16 n xs i _ (omega arith)

get_u32-words : (xs : List ℕ) (i : ℕ) → get_u32 xs i ≡ get_u16 xs i * 65536 + get_u16 xs (i + 2)
unfolding get_u32 get_u16
get_u32-words xs i = let e : i + 2 + 1 ≡ i + 3 = omega arith in omega (arith, ap (at xs) e)

pub get_u32-put_u32 :
    (xs : List ℕ) (i v : ℕ) → i + 4 ≤ length xs → v < 2 ^ 32 → get_u32 (put_u32 xs i v) i ≡ v
unfolding put_u32
get_u32-put_u32 xs i v h hv =
    let hi = v / 2 ^ 16 % 2 ^ 16 in
    let lo = v % 2 ^ 16 in
    let ys = put_u16 xs i hi in
    omega (
      arith,
      get_u32-words (put_u16 ys (i + 2) lo) i,
      get_u16-put_u16 ys (i + 2) lo (omega (arith, length-put_u16 xs i hi)) (omega arith),
      get_u16-put_u16_ne ys (i + 2) lo i (λ e. omega arith) (λ e. omega arith) (λ e. omega arith),
      get_u16-put_u16 xs i hi (omega arith) (omega arith),
    )

pub get_u32-lt : (xs : List ℕ) (i : ℕ) → All IsByte xs → get_u32 xs i < 2 ^ 32
get_u32-lt xs i h = omega (arith, get_u32-words xs i, get_u16-lt xs i h, get_u16-lt xs (i + 2) h)
