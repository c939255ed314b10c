-- ===== src/Cipher.antt =====
-- obsidian/crypto.go, the AEAD with its running nonce (`Cipher`) and the userspace random bytes.
-- ChaCha20-Poly1305 is not under the repository: `Aead` states what the code relies on. The
-- generator `math/rand/v2` is the record `Rand` of what its calls return.
pub mod Nonce
pub mod Concrete
mod Examples
use obsidian_vpn.Base.{
  ℕ, zero, suc, ◌+◌, ◌-◌, ◌*◌, ◌/◌, ◌%◌, ◌^◌, ◌<◌, ◌≡◌, refl, ◌∙◌, List, [], ◌∷◌, ◌++◌, Option,
  none, some, arith, ltb, leb, if◌then◌else◌, length, length-append, max, min,
}
use obsidian_vpn.Base.Bytes.{xor_bytes}

abbrev pub tag_size : ℕ
tag_size = 16

-- `Seal` and `Open` of a cipher.AEAD: opening what was sealed under the same nonce and additional
-- data gives the plaintext back, and sealing adds `Overhead()` bytes.
pub record Aead : Type 0 where
  pub seal : List ℕ → List ℕ → List ℕ → List ℕ
  pub unseal : List ℕ → List ℕ → List ℕ → Option (List ℕ)
  pub unseal-seal :
      (nonce plaintext aad : List ℕ) → unseal nonce (seal nonce plaintext aad) aad ≡ some plaintext
  pub length-seal :
      (nonce plaintext aad : List ℕ) → length (seal nonce plaintext aad) ≡ length plaintext + 16

pub record Cipher : Type 0 where
  pub aead : Aead
  pub base_iv : List ℕ
  pub counter : ℕ

-- The `k` low bytes of `u`, lowest first.
unfoldable pub le_bytes : ℕ → ℕ → List ℕ
le_bytes zero u = []
le_bytes (suc k) u = (u % 256) ∷ le_bytes k (u / 256)

-- `nonce` before its counter moves on: the counter, little-endian, over the first eight bytes.
unfoldable pub nonce : Cipher → List ℕ
nonce c = xor_bytes c.base_iv (le_bytes 8 c.counter)

-- `c.counter.Add(1)`
unfoldable pub bump : Cipher → Cipher
bump c = record c { counter = (c.counter + 1) % 2 ^ 64 }

-- `Encrypt` and `EncryptWithBuffer`.
unfoldable pub encrypt : Cipher → List ℕ → List ℕ → List ℕ × Cipher
encrypt c plaintext aad = (c.aead.seal (nonce c) plaintext aad, bump c)

-- `Decrypt` and `DecryptWithBuffer`: the counter moves on a failure too.
unfoldable pub decrypt : Cipher → List ℕ → List ℕ → Option (List ℕ) × Cipher
decrypt c ciphertext aad = (c.aead.unseal (nonce c) ciphertext aad, bump c)

-- What the generator returns: `IntN`, `Uint32N`, and the successive `Uint64` of one call.
pub record Rand : Type 0 where
  pub int_n : ℕ → ℕ
  pub uint32_n : ℕ → ℕ
  pub uint64 : ℕ → ℕ
  pub int_n-lt : (n : ℕ) → 0 < n → int_n n < n
  pub uint32_n-lt : (n : ℕ) → 0 < n → uint32_n n < n

-- The loop of `FastRandomBytes` from its `i`-th draw on: `rounds` whole words, then `rest` bytes.
unfoldable pub fill : Rand → ℕ → ℕ → ℕ → List ℕ
fill r i zero rest = le_bytes rest (r.uint64 i)
fill r i (suc rounds) rest = le_bytes 8 (r.uint64 i) ++ fill r (suc i) rounds rest

unfoldable pub fast_random_bytes : Rand → ℕ → List ℕ
fast_random_bytes r n = fill r 0 (n / 8) (n % 8)

-- The length that `FastRandomPaddingInplace` chooses in a buffer of `room` bytes.
unfoldable pub random_padding_len : Rand → ℕ → ℕ → ℕ → ℕ
random_padding_len r room pad_min pad_max =
    if leb pad_max pad_min
    then min pad_min room
    else min (pad_min + r.int_n (pad_max - pad_min)) room

pub length-le_bytes : (k u : ℕ) → length (le_bytes k u) ≡ k
unfolding le_bytes
length-le_bytes zero u = refl
length-le_bytes (suc k) u = omega (arith, length-le_bytes k (u / 256))

length-fill : (r : Rand) (i rounds rest : ℕ) → length (fill r i rounds rest) ≡ 8 * rounds + rest
unfolding fill
length-fill r i zero rest = omega (arith, length-le_bytes rest (r.uint64 i))
length-fill r i (suc rounds) rest = omega (
  arith,
  length-append (le_bytes 8 (r.uint64 i)) (fill r (suc i) rounds rest),
  length-le_bytes 8 (r.uint64 i),
  length-fill r (suc i) rounds rest,
)

-- `FastRandomBytes` fills the slice.
pub length-fast_random_bytes : (r : Rand) (n : ℕ) → length (fast_random_bytes r n) ≡ n
unfolding fast_random_bytes
length-fast_random_bytes r n = omega (arith, length-fill r 0 (n / 8) (n % 8))
