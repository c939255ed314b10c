-- ===== src/Cipher/Nonce.antt =====
-- No nonce comes twice under one key before the counter has gone round.
use obsidian_vpn.Base.{
  ℕ, zero, suc, ◌+◌, ◌/◌, ◌%◌, ◌^◌, ◌≤◌, ◌<◌, ◌≡◌, refl, ◌≢◌, sym, ap, ◌∙◌, arith, length,
}
use obsidian_vpn.Base.Bytes.{xor_bytes, xor_bytes_cancel}
use obsidian_vpn.Cipher.{Cipher, le_bytes, nonce, bump, length-le_bytes}
use native.Mathlib.Nat.{pow-suc}

le_bytes_injective : (k u v : ℕ) → u < 256 ^ k → v < 256 ^ k → le_bytes k u ≡ le_bytes k v → u ≡ v
unfolding le_bytes
le_bytes_injective zero u v hu hv e = omega arith
le_bytes_injective (suc k) u v hu hv e =
    let low : u % 256 ≡ v % 256 = cc in
    let high : u / 256 ≡ v / 256 =
      le_bytes_injective k (u / 256) (v / 256) (omega (arith, pow-suc 256 k))
        (omega (arith, pow-suc 256 k)) (cc) in
    omega arith

-- `n` more calls of the cipher.
unfoldable pub advance : ℕ → Cipher → Cipher
advance zero c = c
advance (suc n) c = advance n (bump c)

counter-advance :
    (n : ℕ) (c : Cipher) → c.counter < 2 ^ 64 → (advance n c).counter ≡ (c.counter + n) % 2 ^ 64
unfolding advance bump
counter-advance zero c h = omega arith
counter-advance (suc n) c h = omega (arith, counter-advance n (bump c) (omega arith))

base_iv-advance : (n : ℕ) (c : Cipher) → (advance n c).base_iv ≡ c.base_iv
unfolding advance bump
base_iv-advance zero c = refl
base_iv-advance (suc n) c = base_iv-advance n (bump c)

-- Of a cipher whose IV has at least eight bytes, two calls that are fewer than 2^64 calls apart
-- use different nonces.
pub nonce_fresh :
    (c : Cipher) (n : ℕ)
    → 8 ≤ length c.base_iv
    → c.counter < 2 ^ 64
    → 0 < n
    → n < 2 ^ 64
    → nonce (advance n c) ≢ nonce c
unfolding nonce
nonce_fresh c n iv h lo hi e =
    let later = (advance n c).counter in
    let at_later = counter-advance n c h in
    let same : le_bytes 8 later ≡ le_bytes 8 c.counter =
      xor_bytes_cancel c.base_iv (le_bytes 8 later) (le_bytes 8 c.counter)
        (omega (arith, length-le_bytes 8 later))
        (length-le_bytes 8 c.counter ∙ sym (length-le_bytes 8 later))
        (ap (λ iv. xor_bytes iv (le_bytes 8 later)) (sym (base_iv-advance n c)) ∙ e) in
    absurd (
      omega (
        arith,
        at_later,
        le_bytes_injective 8 later c.counter (omega (arith, at_later)) (omega arith) same,
      ))
