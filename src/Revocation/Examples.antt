-- ===== src/Revocation/Examples.antt =====
-- A key of the configuration, one of the file, and a store with a file that comes, breaks and goes.
use obsidian_vpn.Base.{
  ℕ, zero, suc, ◌≡◌, refl, List, [], ◌∷◌, true, false, Option, none, some, replicate, if◌then◌else◌,
  ◌||◌,
}
use obsidian_vpn.Router.{same_bytes, put_at}
use obsidian_vpn.Revocation.{
  not_exist, info, DenyFile, Unmarshal, RevocationStore, hex_decode, hex_pair, hex_digit, add_from,
  add_revoked_keys, put_key, sized_key, new_revocation_store, first_load, reload, reload_at,
  is_revoked, after_checks,
}
use obsidian_vpn.Revocation.Denied.{stays_revoked}
use obsidian_vpn.Revocation.Listed.{is_listed, are_keys, is_revoked-load, missing_file_admits}

-- A file that is one value.
abbrev one_value : Unmarshal
one_value bytes = some (bytes ∷ [])

-- Hexadecimal text of `n` equal bytes.
abbrev text : ℕ → ℕ → ℕ → List ℕ
text a b zero = []
text a b (suc n) = a ∷ b ∷ text a b n

abbrev static : List (List ℕ)
static = text b'0' b'7' 32 ∷ []

abbrev static_key : List ℕ
static_key = replicate 32 7

abbrev path : List ℕ
path = b'f' ∷ []

abbrev absent : DenyFile
absent = record { stat = not_exist; contents = none }

abbrev listed : DenyFile
listed = record { stat = info 2500000000; contents = some (text b'A' b'b' 32) }

abbrev broken : DenyFile
broken = record { stat = info 9000000000; contents = some (b'x' ∷ []) }

decoded : hex_decode (text b'A' b'b' 2) ≡ some (0xab ∷ 0xab ∷ [])
unfolding hex_decode hex_pair hex_digit
decoded = refl

abbrev made : RevocationStore
made = record { path = path; keys = λ k. false; mod_time = 1000000000; initialized = true }

abbrev with_key : RevocationStore
with_key = record made { keys = λ k. true }

stays_revoked_example :
    (is_revoked one_value absent
      (after_checks one_value with_key ((broken, static_key) ∷ []))
      static_key).0
    ≡ true
stays_revoked_example =
    stays_revoked one_value static_key with_key ((broken, static_key) ∷ []) absent
      (record { loaded = refl; member = refl })

is_revoked-load_example : (is_revoked one_value listed made (replicate 32 0xab)).0 ≡ (
    if are_keys (text b'A' b'b' 32 ∷ [])
    then is_listed (replicate 32 0xab) (text b'A' b'b' 32 ∷ []) || false
    else true)
is_revoked-load_example =
    is_revoked-load one_value listed made (replicate 32 0xab) 2500000000 (text b'A' b'b' 32)
      (text b'A' b'b' 32 ∷ []) refl refl refl refl refl

-- The store that is made while there is no file.
abbrev store_of : Option RevocationStore → RevocationStore
store_of none = made
store_of (some r) = r

abbrev no_file : RevocationStore
no_file = store_of (new_revocation_store one_value absent static path)

no_file_made : new_revocation_store one_value absent static path ≡ some no_file
unfolding new_revocation_store first_load reload reload_at add_revoked_keys add_from put_key
    sized_key hex_decode hex_pair hex_digit
no_file_made = refl

-- It has the key of the configuration.
has_static : no_file.keys static_key ≡ true
unfolding new_revocation_store first_load reload reload_at add_revoked_keys add_from put_key
    sized_key hex_decode hex_pair hex_digit put_at same_bytes
has_static = refl

missing_file_admits_example : is_revoked one_value absent no_file static_key ≡ (false, no_file)
missing_file_admits_example =
    missing_file_admits one_value absent absent static path no_file static_key refl refl refl
      no_file_made
