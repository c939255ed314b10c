-- ===== src/Keys/Examples.antt =====
-- Keys and cookies at concrete inputs, with stand-ins for the primitives.
use obsidian_vpn.Base.{
  ℕ, ◌≡◌, ◌↔◌, refl, List, [], ◌∷◌, ◌++◌, true, false, some, arith, replicate, length,
  length-replicate,
}
use obsidian_vpn.Base.Bytes.{get_u64, u64_bytes, get_u32, u32_bytes}
use obsidian_vpn.Router.{same_bytes}
use obsidian_vpn.Keys.{Primitives, SessionKeys, derive_keys, derive_next_epoch_keys}
use obsidian_vpn.Keys.Material.{AreCut, derived-AreCut}
use obsidian_vpn.Keys.Cookies.{
  ip_bytes, cookie_input, generate_handshake_cookie, age_limit, is_fresh, validate_handshake_cookie,
}
use obsidian_vpn.Keys.Cookies.Validation.{validate_iff}

abbrev primitives : Primitives
primitives = record {
  x25519 = λ scalar point. some point;
  hmac = λ key text. replicate 32 (length text);
  hkdf = λ secret salt info i. i;
  extract = λ secret salt. replicate 32 0;
  length-hmac = λ key text. length-replicate 32 (length text);
}

abbrev client_ip : List ℕ
client_ip = 192 ∷ 0 ∷ 2 ∷ 7 ∷ []

-- The same address, mapped.
abbrev mapped_ip : List ℕ
mapped_ip = replicate 10 0 ++ 255 ∷ 255 ∷ 192 ∷ 0 ∷ 2 ∷ 7 ∷ []

abbrev cookie : List ℕ
unfolding generate_handshake_cookie u64_bytes u32_bytes cookie_input ip_bytes same_bytes
cookie = generate_handshake_cookie primitives (1 ∷ []) client_ip (replicate 32 5) (9 ∷ []) 1000

-- A cookie for an address is good for its mapped form, and stale after the limit.
cookie_runs :
    (validate_handshake_cookie primitives cookie (1 ∷ []) mapped_ip (replicate 32 5) (9 ∷ []) 0 1030
      ≡ true)
    × (validate_handshake_cookie primitives cookie
          (1 ∷ [])
          mapped_ip
          (replicate 32 5)
          (9 ∷ [])
          0
          1031
        ≡ false)
    × (validate_handshake_cookie primitives cookie
          (1 ∷ [])
          mapped_ip
          (replicate 32 5)
          (9 ∷ [])
          0
          984
        ≡ false)
unfolding validate_handshake_cookie generate_handshake_cookie is_fresh age_limit cookie_input
    ip_bytes same_bytes get_u64 get_u32 u64_bytes u32_bytes
cookie_runs = (refl, refl, refl)

abbrev bytes : List ℕ
bytes = replicate 8 0 ++ replicate 24 45

validate_iff_example :
    (validate_handshake_cookie primitives bytes (1 ∷ []) client_ip (replicate 32 5) (9 ∷ []) 0 20
      ≡ true)
    ↔ ((bytes
          ≡ generate_handshake_cookie primitives
              (1 ∷ [])
              client_ip
              (replicate 32 5)
              (9 ∷ [])
              (get_u64 bytes 0))
        × (is_fresh (get_u64 bytes 0) 20 (age_limit 0) ≡ true))
validate_iff_example =
    validate_iff primitives (1 ∷ []) client_ip (replicate 32 5) (9 ∷ []) 0 20
      (λ e. absurd (omega arith)) bytes (omega arith)

derived-AreCut_example :
    let sk = derive_keys primitives (replicate 32 1) [] (replicate 32 2) (replicate 32 3) in
    (stream : ℕ → ℕ) × (next : ℕ → ℕ) × (sk' : SessionKeys) × AreCut stream sk
    × (derive_next_epoch_keys primitives (some sk) 1 ≡ some sk')
    × AreCut next sk'
derived-AreCut_example =
    derived-AreCut primitives (replicate 32 1) [] (replicate 32 2) (replicate 32 3) 1
