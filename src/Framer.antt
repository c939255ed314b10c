-- ===== src/Framer.antt =====
-- obsidian/protocol.go, the framer of the TCP stream: `StreamFramer`, its length masking by a
-- hand-written HMAC, and its padding policy. SHA-256 is not under the repository: `Sha256`.
pub mod Sync
pub mod Into
pub mod Concrete
mod Examples
use obsidian_vpn.Base.{
  ℕ, zero, suc, ◌+◌, ◌-◌, ◌/◌, ◌%◌, ◌^◌, ◌<◌, ◌≡◌, refl, List, [], ◌∷◌, ◌++◌, Option, none, some,
  Bool, true, false, not, ltb, leb, ◌==◌, if◌then◌else◌, length, max, min, take, drop, map,
  replicate, bit_xor, All, ◌&&◌,
}
use obsidian_vpn.Base.Bytes.{IsByte, get_u32, u32_bytes, u64_bytes}
use obsidian_vpn.Header.{
  PacketType, data_packet, noise, keepalive, HeaderConfig, default_header_config,
}
use obsidian_vpn.Cipher.{Cipher, Rand}
use obsidian_vpn.Packet.{
  Error, short_buffer, Result, ok, err, Packet, Keystream, encode_packet, decode_packet, max_pad,
}
use obsidian_vpn.Padding.{calculate_bucket_padding_with_trailer}

-- `sha256.Sum256`: 32 bytes.
pub record Sha256 : Type 0 where
  pub sum256 : List ℕ → List ℕ
  pub sum256-IsByte : (xs : List ℕ) → All IsByte (sum256 xs)
  pub length-sum256 : (xs : List ℕ) → length (sum256 xs) ≡ 32

pub record PaddingConfig : Type 0 where
  pub data_min : ℕ
  pub data_max : ℕ
  pub noise_min : ℕ
  pub noise_max : ℕ
  pub keepalive_min : ℕ
  pub keepalive_max : ℕ
  pub use_bucket_padding : Bool
  pub bucket_mtu : ℕ
  pub max_trailer : ℕ

unfoldable pub default_padding_config : PaddingConfig
default_padding_config = record {
  data_min = 0;
  data_max = 32;
  noise_min = 16;
  noise_max = 128;
  keepalive_min = 8;
  keepalive_max = 64;
  use_bucket_padding = true;
  bucket_mtu = 1360;
  max_trailer = 32;
}

pub record StreamFramer : Type 0 where
  pub enc_cipher : Cipher
  pub dec_cipher : Cipher
  pub header_cfg : HeaderConfig
  pub padding_cfg : PaddingConfig
  pub enc_header_key : Option (List ℕ)
  pub dec_header_key : Option (List ℕ)
  pub enc_frame_key : Option (List ℕ)
  pub dec_frame_key : Option (List ℕ)
  pub enc_frame_ctr : ℕ
  pub dec_frame_ctr : ℕ

unfoldable pub new_stream_framer : Cipher → Cipher → StreamFramer
unfolding default_padding_config
new_stream_framer enc dec = record {
  enc_cipher = enc;
  dec_cipher = dec;
  header_cfg = default_header_config;
  padding_cfg = default_padding_config;
  enc_header_key = none;
  dec_header_key = none;
  enc_frame_key = none;
  dec_frame_key = none;
  enc_frame_ctr = 0;
  dec_frame_ctr = 0;
}

unfoldable pub new_protected_stream_framer : Cipher → Cipher → List ℕ → List ℕ → StreamFramer
unfolding new_stream_framer
new_protected_stream_framer enc dec enc_key dec_key =
    let f : StreamFramer = new_stream_framer enc dec in
    record f {
      enc_header_key = some enc_key;
      dec_header_key = some dec_key;
      enc_frame_key = some enc_key;
      dec_frame_key = some dec_key;
    }

-- An array of `n` bytes with `xs` copied to its front.
unfoldable pub copy_into : ℕ → List ℕ → List ℕ
copy_into n xs = take n (xs ++ replicate n 0)

-- `fastHmacSHA256Stack`
unfoldable pub fast_hmac_sha256_stack : Sha256 → List ℕ → List ℕ → List ℕ
fast_hmac_sha256_stack sha key text =
    let k = if ltb 64 (length key) then copy_into 64 (sha.sum256 key) else copy_into 64 key in
    let inner = sha.sum256 (map (λ b. bit_xor b 0x36) k ++ text) in
    sha.sum256 (map (λ b. bit_xor b 0x5c) k ++ inner)

-- The sixteen bytes of "obsidian_frame_v3" that `copy(msg[:16], …)` takes.
abbrev pub frame_label : List ℕ
frame_label =
    b'o' ∷ b'b' ∷ b's' ∷ b'i' ∷ b'd' ∷ b'i' ∷ b'a' ∷ b'n' ∷ b'_' ∷ b'f' ∷ b'r' ∷ b'a' ∷ b'm' ∷ b'e'
    ∷ b'_' ∷ b'v' ∷ []

unfoldable pub mask_frame_len : Sha256 → Option (List ℕ) → ℕ → ℕ → ℕ
mask_frame_len sha none ctr n = n
mask_frame_len sha (some key) ctr n =
    bit_xor n (get_u32 (fast_hmac_sha256_stack sha key (frame_label ++ u64_bytes ctr)) 0)

unfoldable pub padding_for : PaddingConfig → PacketType → ℕ × ℕ
padding_for p data_packet = (p.data_min, p.data_max)
padding_for p noise = (p.noise_min, p.noise_max)
padding_for p keepalive = (p.keepalive_min, p.keepalive_max)
padding_for p _ = (16, 64)

unfoldable pub is_data : PacketType → Bool
is_data data_packet = true
is_data _ = false

-- `padMin` and `padMax` as `Frame` and `FrameWithBuffer` choose them.
unfoldable pub frame_padding : Rand → PaddingConfig → PacketType → ℕ → ℕ × ℕ
frame_padding r p ptype pay_len =
    let pad_len =
      calculate_bucket_padding_with_trailer pay_len p.bucket_mtu p.max_trailer
        (r.int_n (p.max_trailer / 4 + 1)) in
    if is_data ptype && p.use_bucket_padding then (pad_len, pad_len) else padding_for p ptype

-- The length prefix before an encoded packet; a packet that is not encoded moves no frame counter.
unfoldable pub prefix_frame :
    Sha256 → StreamFramer → Result (List ℕ) × Cipher → Result (List ℕ) × StreamFramer
prefix_frame sha f (err e, c) = (err e, record f { enc_cipher = c })
prefix_frame sha f (ok pkt, c) = (
  ok (u32_bytes (mask_frame_len sha f.enc_frame_key f.enc_frame_ctr (length pkt % 2 ^ 32)) ++ pkt),
  record f { enc_cipher = c; enc_frame_ctr = (f.enc_frame_ctr + 1) % 2 ^ 64 },
)

-- `FrameWithBuffer` into a buffer of `room` bytes: the bytes that it writes.
unfoldable pub frame_with_buffer :
    Keystream
    → Sha256
    → Rand
    → ℕ
    → StreamFramer
    → PacketType
    → List ℕ
    → Result (List ℕ) × StreamFramer
frame_with_buffer ks sha r room f ptype payload =
    let (pad_min, pad_max) = frame_padding r f.padding_cfg ptype (length payload) in
    if ltb room 4
    then (err short_buffer, f)
    else prefix_frame sha f (
        encode_packet ks r (room - 4) f.enc_cipher f.enc_header_key f.header_cfg ptype payload
          pad_min pad_max)

-- `Frame`: the buffer is allocated with room for the longest padding.
unfoldable pub frame :
    Keystream → Sha256 → Rand → StreamFramer → PacketType → List ℕ → Result (List ℕ) × StreamFramer
frame ks sha r f ptype payload =
    let (pad_min, pad_max) = frame_padding r f.padding_cfg ptype (length payload) in
    prefix_frame sha f (
      encode_packet ks r (8 + length payload + max_pad pad_min pad_max + 16) f.enc_cipher
        f.enc_header_key f.header_cfg ptype payload pad_min pad_max)

unfoldable pub decode_frame_len : Sha256 → StreamFramer → ℕ → ℕ × StreamFramer
decode_frame_len sha f masked = (
  mask_frame_len sha f.dec_frame_key f.dec_frame_ctr masked,
  record f { dec_frame_ctr = (f.dec_frame_ctr + 1) % 2 ^ 64 },
)

unfoldable pub parse_frame : Keystream → StreamFramer → List ℕ → Result Packet × StreamFramer
parse_frame ks f raw =
    let (p, c) = decode_packet ks f.dec_cipher f.dec_header_key f.header_cfg raw in
    (p, record f { dec_cipher = c })
