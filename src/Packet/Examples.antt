-- ===== src/Packet/Examples.antt =====
-- The round trip of packets at a concrete packet.
use obsidian_vpn.Base.{ℕ, ◌+◌, ◌≤◌, ◌≡◌, refl, List, [], ◌∷◌, some, none, arith, length, replicate}
use obsidian_vpn.Header.{
  noise, default_header_config, validate, validate_outer, validate_inner, overlap, range_for,
}
use obsidian_vpn.Header.Ranges.{IsUsable}
use obsidian_vpn.Cipher.{bump}
use obsidian_vpn.Cipher.Concrete.{plain_cipher, lowest_draws}
use obsidian_vpn.Packet.{Keystream, ok, encode_packet, decode_packet, max_pad}
use obsidian_vpn.Packet.RoundTrip.{decode-encode}

abbrev counting : Keystream
counting key nonce = 1 ∷ 2 ∷ 3 ∷ 4 ∷ 5 ∷ 6 ∷ 7 ∷ 8 ∷ []

default_is_valid : validate default_header_config ≡ none
unfolding validate validate_outer validate_inner overlap default_header_config
default_is_valid = refl

noise-IsUsable : IsUsable (range_for default_header_config noise)
unfolding range_for default_header_config
noise-IsUsable = record { ordered = omega arith; word = omega arith; partial_range = omega arith }

decode-encode_example :
    (bytes : List ℕ) × (encode_packet counting lowest_draws 512 plain_cipher
        (some (replicate 32 1))
        default_header_config
        noise
        (10 ∷ 20 ∷ 30 ∷ [])
        16
        128
      ≡ (ok bytes, bump plain_cipher))
    × (length bytes ≤ 3 + max_pad 16 128 + 24)
    × (decode_packet counting plain_cipher (some (replicate 32 1)) default_header_config bytes
        ≡ (ok (record { ptype = noise; payload = 10 ∷ 20 ∷ 30 ∷ [] }), bump plain_cipher))
decode-encode_example =
    decode-encode counting lowest_draws 512 plain_cipher (some (replicate 32 1))
      default_header_config noise (10 ∷ 20 ∷ 30 ∷ []) 16 128 default_is_valid tt noise-IsUsable
      (omega arith) (unfold max_pad in omega arith)
