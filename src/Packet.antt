-- ===== src/Packet.antt =====
-- obsidian/protocol.go, packets on the wire: header protection, `encodePacket…Buffer` and
-- `decodePacketWithHeaderProtection`. A function that moves a cipher's counter returns the cipher.
-- ChaCha20 is not under the repository: `keystream key nonce` is the first eight bytes it makes.
pub mod RoundTrip
mod Examples
use obsidian_vpn.Base.{
  ℕ, zero, suc, ◌+◌, ◌-◌, ◌/◌, ◌%◌, ◌^◌, ◌<◌, ◌≡◌, refl, List, [], ◌∷◌, ◌++◌, Option, none, some,
  Bool, true, false, not, ltb, leb, ◌==◌, if◌then◌else◌, length, max, min, take, drop,
}
use obsidian_vpn.Base.Bytes.{xor_bytes, at, get_u16, get_u32, u16_bytes, u32_bytes}
use obsidian_vpn.Header.{PacketType, HeaderConfig, pick, type_id_to_packet_type, range_for}
use obsidian_vpn.Cipher.{
  Cipher, Rand, encrypt, decrypt, fast_random_bytes, random_padding_len, tag_size,
}

abbrev pub obsidian_version : ℕ
obsidian_version = 2

abbrev pub max_payload : ℕ
max_payload = 65535

abbrev pub packet_header_size : ℕ
packet_header_size = 8

pub data Error : Type 0 where
  payload_too_large short_buffer packet_too_short unknown_version unknown_type_id : Error
  length_mismatch decrypt_failed invalid_header_size sample_too_short panic : Error

pub data Result {ℓ} (A : Type ℓ) : Type ℓ where
  ok : A → Result A
  err : Error → Result A

pub record Packet : Type 0 where
  pub ptype : PacketType
  pub payload : List ℕ

-- `keystream key nonce`, for the key and the nonce of ChaCha20.
abbrev pub Keystream : Type 0
Keystream = List ℕ → List ℕ → List ℕ

-- `xorPacketHeader`: no key, no protection.
unfoldable pub xor_packet_header : Keystream → Option (List ℕ) → List ℕ → List ℕ → Result (List ℕ)
xor_packet_header ks none header sample = ok header
xor_packet_header ks (some key) header sample =
    if not (length header == packet_header_size)
    then err invalid_header_size
    else if ltb (length sample) 16
    then err sample_too_short
    else ok (xor_bytes header (ks key (take 12 sample)))

-- `aad`, the plain header.
unfoldable pub plain_header : ℕ → ℕ → ℕ → List ℕ
plain_header type_id pay_len pad_len =
    u32_bytes type_id ++ u16_bytes (pay_len % 2 ^ 16) ++ (pad_len % 256) ∷ obsidian_version ∷ []

-- `maxPad`
unfoldable pub max_pad : ℕ → ℕ → ℕ
max_pad pad_min pad_max = min (max pad_max pad_min) 255

unfoldable pub finish_encode : Result (List ℕ) → List ℕ → Cipher → Result (List ℕ) × Cipher
finish_encode (ok header) ct c = (ok (header ++ ct), c)
finish_encode (err e) ct c = (err e, c)

-- From `typeID := hc.rangeFor(ptype).Pick()` on.
unfoldable pub seal_packet :
    Keystream → Cipher → Option (List ℕ) → Option ℕ → ℕ → ℕ → List ℕ → Result (List ℕ) × Cipher
seal_packet ks c hk none pay_len pad_len plaintext = (err panic, c)
seal_packet ks c hk (some type_id) pay_len pad_len plaintext =
    let aad = plain_header type_id pay_len pad_len in
    let (ct, c') = encrypt c plaintext aad in
    finish_encode (xor_packet_header ks hk aad (take tag_size ct)) ct c'

-- `encodePacketWithHeaderProtectionBuffer` into a buffer of `room` bytes: the bytes that it writes.
unfoldable pub encode_packet :
    Keystream
    → Rand
    → ℕ
    → Cipher
    → Option (List ℕ)
    → HeaderConfig
    → PacketType
    → List ℕ
    → ℕ
    → ℕ
    → Result (List ℕ) × Cipher
encode_packet ks r room c hk hc ptype payload pad_min pad_max =
    let pad_len = random_padding_len r (max_pad pad_min pad_max) pad_min pad_max in
    let plaintext = payload ++ fast_random_bytes r pad_len in
    if ltb max_payload (length payload)
    then (err payload_too_large, c)
    else if ltb room (packet_header_size + length plaintext + tag_size)
    then (err short_buffer, c)
    else seal_packet ks c hk (pick r.uint32_n (range_for hc ptype)) (length payload) pad_len
        plaintext

unfoldable pub finish_decode : PacketType → ℕ → Option (List ℕ) × Cipher → Result Packet × Cipher
finish_decode ptype pay_len (none, c) = (err decrypt_failed, c)
finish_decode ptype pay_len (some plaintext, c) =
    (ok (record { ptype = ptype; payload = take pay_len plaintext }), c)

unfoldable pub open_packet : Cipher → Option PacketType → List ℕ → List ℕ → Result Packet × Cipher
open_packet c none aad ct = (err unknown_type_id, c)
open_packet c (some ptype) aad ct =
    if not (length ct == get_u16 aad 4 + at aad 6 + tag_size)
    then (err length_mismatch, c)
    else finish_decode ptype (get_u16 aad 4) (decrypt c ct aad)

-- From `typeID := …` on, the header being unmasked.
unfoldable pub read_header :
    Cipher → HeaderConfig → Result (List ℕ) → List ℕ → Result Packet × Cipher
read_header c hc (err e) ct = (err e, c)
read_header c hc (ok aad) ct =
    if not (at aad 7 == obsidian_version)
    then (err unknown_version, c)
    else open_packet c (type_id_to_packet_type hc (get_u32 aad 0)) aad ct

-- `decodePacketWithHeaderProtection`
unfoldable pub decode_packet :
    Keystream → Cipher → Option (List ℕ) → HeaderConfig → List ℕ → Result Packet × Cipher
decode_packet ks c hk hc bytes =
    let ct = drop packet_header_size bytes in
    if ltb (length bytes) (packet_header_size + tag_size)
    then (err packet_too_short, c)
    else read_header c hc (xor_packet_header ks hk (take packet_header_size bytes) ct) ct
