-- ===== src/Framer/Concrete.antt =====
-- A sender and a receiver in step, to run the models with.
use obsidian_vpn.Base.{◌≡◌, refl, [], ◌∷◌, none, arith, replicate}
use obsidian_vpn.Header.{
  data_packet, close, default_header_config, validate, validate_outer, validate_inner, overlap,
  range_for,
}
use obsidian_vpn.Cipher.Concrete.{plain_cipher}
use obsidian_vpn.Packet.{Keystream}
use obsidian_vpn.Framer.{Sha256, StreamFramer, new_protected_stream_framer}
use obsidian_vpn.Framer.Sync.{InSync, CanSend}

abbrev pub constant_sha : Sha256
constant_sha = record {
  sum256 = λ xs. replicate 32 9;
  sum256-IsByte = λ xs. omega arith;
  length-sum256 = λ xs. refl;
}

abbrev pub counting : Keystream
counting key nonce = 1 ∷ 2 ∷ 3 ∷ 4 ∷ 5 ∷ 6 ∷ 7 ∷ 8 ∷ []

unfoldable pub near : StreamFramer
unfolding new_protected_stream_framer
near = new_protected_stream_framer plain_cipher plain_cipher (replicate 32 1) (replicate 32 2)

unfoldable pub far : StreamFramer
unfolding new_protected_stream_framer
far = new_protected_stream_framer plain_cipher plain_cipher (replicate 32 2) (replicate 32 1)

pub near-far : InSync near far
unfolding near far
near-far = record {
  cipher = refl;
  header_cfg = refl;
  header_key = refl;
  frame_key = refl;
  frame_ctr = refl;
}

pub default_is_valid : validate default_header_config ≡ none
unfolding validate validate_outer validate_inner overlap default_header_config
default_is_valid = refl

pub default_data-CanSend : CanSend default_header_config data_packet
unfolding range_for default_header_config
default_data-CanSend = record {
  valid = default_is_valid;
  known = tt;
  usable = record { ordered = omega arith; word = omega arith; partial_range = omega arith };
}

pub default_close-CanSend : CanSend default_header_config close
unfolding range_for default_header_config
default_close-CanSend = record {
  valid = default_is_valid;
  known = tt;
  usable = record { ordered = omega arith; word = omega arith; partial_range = omega arith };
}

pub near-CanSend : CanSend near.header_cfg data_packet
unfolding near
near-CanSend = default_data-CanSend
