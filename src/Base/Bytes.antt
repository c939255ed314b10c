-- ===== src/Base/Bytes.antt =====
-- Byte slices as lists of numbers: big-endian fields, and the exclusive or of two slices.
mod Xor
pub mod Put
unfoldable pub use Xor.*
use Prim.Native.Nat.{ℕ, zero, suc, ◌+◌, ◌-◌, ◌*◌, ◌/◌, ◌%◌, ◌^◌, ◌≤◌, ◌<◌}
use mathlib.Core.Path.{◌≡◌, refl, ap}
use mathlib.Core.List.{List, [], ◌∷◌, ◌++◌}
use native.Mathlib.Omega.{arith}
use obsidian_vpn.Base.Lists.{length, get_or, set, All}

abbrev pub IsByte : ℕ → Type 0
IsByte b = b < 256

-- Go's `xs[i]`; the models read within bounds, beyond them this is 0.
abbrev pub at : List ℕ → ℕ → ℕ
at xs i = get_or xs i 0

-- `binary.BigEndian.Uint16(xs[i:])` and `Uint32`.
unfoldable pub get_u16 : List ℕ → ℕ → ℕ
get_u16 xs i = at xs i * 256 + at xs (i + 1)

unfoldable pub get_u32 : List ℕ → ℕ → ℕ
get_u32 xs i = ((at xs i * 256 + at xs (i + 1)) * 256 + at xs (i + 2)) * 256 + at xs (i + 3)

-- The bytes that `PutUint16`, `PutUint32` and `PutUint64` write.
unfoldable pub u16_bytes : ℕ → List ℕ
u16_bytes v = (v / 256 % 256) ∷ (v % 256) ∷ []

unfoldable pub u32_bytes : ℕ → List ℕ
u32_bytes v = (v / 2 ^ 24 % 256) ∷ (v / 2 ^ 16 % 256) ∷ (v / 256 % 256) ∷ (v % 256) ∷ []

unfoldable pub u64_bytes : ℕ → List ℕ
u64_bytes v = u32_bytes (v / 2 ^ 32 % 2 ^ 32) ++ u32_bytes (v % 2 ^ 32)

-- `binary.BigEndian.PutUint16(xs[i:], v)`
unfoldable pub put_u16 : List ℕ → ℕ → ℕ → List ℕ
put_u16 xs i v = set (set xs i (v / 256 % 256)) (i + 1) (v % 256)

unfoldable pub put_u32 : List ℕ → ℕ → ℕ → List ℕ
put_u32 xs i v = put_u16 (put_u16 xs i (v / 2 ^ 16 % 2 ^ 16)) (i + 2) (v % 2 ^ 16)

pub get_u32-bytes : (v : ℕ) (rest : List ℕ) → v < 2 ^ 32 → get_u32 (u32_bytes v ++ rest) 0 ≡ v
unfolding get_u32 u32_bytes
get_u32-bytes v rest h = omega arith

unfoldable pub get_u64 : List ℕ → ℕ → ℕ
get_u64 xs i = get_u32 xs i * 2 ^ 32 + get_u32 xs (i + 4)

pub get_u64-bytes : (v : ℕ) → v < 2 ^ 64 → get_u64 (u64_bytes v) 0 ≡ v
unfolding get_u64 get_u32 u64_bytes u32_bytes
get_u64-bytes v h = omega arith

pub length-u64_bytes : (v : ℕ) → length (u64_bytes v) ≡ 8
unfolding u64_bytes u32_bytes
length-u64_bytes v = refl
