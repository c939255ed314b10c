-- ===== src/Packet/RoundTrip.antt =====
-- What is encoded is decoded, and both ciphers move on together.
use obsidian_vpn.Base.{
  ℕ, zero, suc, ◌+◌, ◌^◌, ◌≤◌, ◌<◌, ◌≡◌, refl, sym, ap, ◌∙◌, List, [], ◌∷◌, ◌++◌, Option, none,
  some, false, ltb, arith, length, length-append, max, min, take, drop, take-append, drop-append,
  length-take, le→ltb, eq→==,
}
use obsidian_vpn.Base.Bytes.{
  xor_bytes, xor_bytes_twice, length-xor_bytes, at, get_u16, get_u32, u16_bytes, u32_bytes,
}
use obsidian_vpn.Header.{PacketType, HeaderConfig, type_id_to_packet_type, range_for, validate}
use obsidian_vpn.Header.Ranges.{IsUsable}
use obsidian_vpn.Header.Classify.{IsKnown, classify-pick}
use obsidian_vpn.Cipher.{
  Cipher, Rand, encrypt, decrypt, bump, nonce, fast_random_bytes, random_padding_len,
  length-fast_random_bytes,
}
use obsidian_vpn.Packet.{
  Result, ok, Keystream, xor_packet_header, plain_header, max_pad, finish_encode, seal_packet,
  encode_packet, finish_decode, open_packet, read_header, decode_packet,
}

random_padding_len_le : (r : Rand) (room a b : ℕ) → random_padding_len r room a b ≤ room
unfolding random_padding_len
random_padding_len_le r room a b = ground arith

-- The padding fits the one byte of its length.
pad_len_le : (r : Rand) (a b : ℕ) → random_padding_len r (max_pad a b) a b ≤ 255
unfolding max_pad
pad_len_le r a b = omega (arith, random_padding_len_le r (min (max b a) 255) a b)

length-plain_header : (t p q : ℕ) → length (plain_header t p q) ≡ 8
unfolding plain_header u32_bytes u16_bytes
length-plain_header t p q = refl

-- The four fields of the plain header are read back.
plain_header_fields :
    (t p q : ℕ)
    → t < 2 ^ 32
    → p < 2 ^ 16
    → q < 256
    → (get_u32 (plain_header t p q) 0 ≡ t)
      × (get_u16 (plain_header t p q) 4 ≡ p)
      × (at (plain_header t p q) 6 ≡ q)
      × (at (plain_header t p q) 7 ≡ 2)
unfolding plain_header u32_bytes u16_bytes get_u32 get_u16
plain_header_fields t p q ht hp hq = (omega arith, omega arith, omega arith, refl)

take-take : (n : ℕ) (xs ys : List ℕ) → n ≤ length xs → take n (take n xs) ≡ take n xs
take-take zero xs ys h = refl
take-take (suc n) [] ys h = refl
take-take (suc n) (x ∷ xs) ys h = ap (◌∷◌ x) (take-take n xs ys (omega arith))

take_of_take : (m n : ℕ) (xs : List ℕ) → m ≤ n → take m (take n xs) ≡ take m xs
take_of_take zero n xs h = refl
take_of_take (suc m) zero xs h = absurd (omega arith)
take_of_take (suc m) (suc n) [] h = refl
take_of_take (suc m) (suc n) (x ∷ xs) h = ap (◌∷◌ x) (take_of_take m n xs (omega arith))

-- Masking a header of eight bytes and unmasking it with the whole ciphertext as the sample.
unmask :
    (ks : Keystream) (hk : Option (List ℕ)) (header ct : List ℕ)
    → length header ≡ 8
    → 16 ≤ length ct
    → (masked : List ℕ) × (xor_packet_header ks hk header (take 16 ct) ≡ ok masked)
      × (xor_packet_header ks hk masked ct ≡ ok header)
      × (length masked ≡ 8)
unfolding xor_packet_header
unmask ks none header ct l s = (header, refl, refl, l)
unmask ks (some key) header ct l s =
    let mask = ks key (take 12 ct) in
    let sample : length (take 16 ct) ≡ 16 = omega (arith, length-take 16 ct) in
    let m = length-xor_bytes header mask ∙ l in
    (
      xor_bytes header mask,
      rw (l, sample, take_of_take 12 16 ct (omega arith)),
      rw (m, le→ltb (length ct) 16 s, xor_bytes_twice header mask),
      m,
    )

-- What a receiver in step with the sender makes of a sealed packet.
abbrev Carries :
    Keystream
    → Cipher
    → Option (List ℕ)
    → HeaderConfig
    → PacketType
    → List ℕ
    → ℕ
    → Result (List ℕ) × Cipher
    → Type 0
Carries ks c hk hc ptype payload size sent =
    (bytes : List ℕ) × (sent ≡ (ok bytes, bump c))
    × (length bytes ≡ size)
    × (decode_packet ks c hk hc bytes ≡ (ok (record { ptype = ptype; payload = payload }), bump c))

open_sealed :
    (c : Cipher) (ptype : PacketType) (aad payload pad : List ℕ)
    → get_u16 aad 4 ≡ length payload
    → at aad 6 ≡ length pad
    → open_packet c (some ptype) aad (c.aead.seal (nonce c) (payload ++ pad) aad)
      ≡ (ok (record { ptype = ptype; payload = payload }), bump c)
unfolding open_packet decrypt finish_decode
open_sealed c ptype aad payload pad hp hq =
    let size : length (c.aead.seal (nonce c) (payload ++ pad) aad) ≡ get_u16 aad 4 + at aad 6 + 16 =
      omega (arith, c.aead.length-seal (nonce c) (payload ++ pad) aad, length-append payload pad) in
    rw (eq→== _ _ size, c.aead.unseal-seal (nonce c) (payload ++ pad) aad, hp, take-append)

-- A packet is split into its header and its ciphertext, and the header is unmasked and checked.
decode_joined :
    (ks : Keystream) (c : Cipher) (hk : Option (List ℕ)) (hc : HeaderConfig) (ptype : PacketType)
    (masked ct aad : List ℕ)
    → length masked ≡ 8
    → 16 ≤ length ct
    → xor_packet_header ks hk masked ct ≡ ok aad
    → at aad 7 ≡ 2
    → type_id_to_packet_type hc (get_u32 aad 0) ≡ some ptype
    → decode_packet ks c hk hc (masked ++ ct) ≡ open_packet c (some ptype) aad ct
unfolding decode_packet read_header
decode_joined ks c hk hc ptype masked ct aad eight long back version known =
    let front : take 8 (masked ++ ct) ≡ masked = rw (← eight) (take-append masked ct) in
    let behind : drop 8 (masked ++ ct) ≡ ct = rw (← eight) (drop-append masked ct) in
    let whole : ltb (length (masked ++ ct)) 24 ≡ false =
      le→ltb _ _ (omega (arith, length-append masked ct)) in
    rw (whole, front, behind, back, version, known)

seal_packet-Carries :
    (ks : Keystream) (c : Cipher) (hk : Option (List ℕ)) (hc : HeaderConfig) (ptype : PacketType)
    (id : ℕ) (payload pad : List ℕ)
    → id < 2 ^ 32
    → length payload ≤ 65535
    → length pad ≤ 255
    → type_id_to_packet_type hc id ≡ some ptype
    → Carries ks c hk hc ptype payload
        (length payload + length pad + 24)
        (seal_packet ks c hk (some id) (length payload) (length pad) (payload ++ pad))
unfolding seal_packet encrypt finish_encode decode_packet read_header
seal_packet-Carries ks c hk hc ptype id payload pad hid hp hq known =
    let aad = plain_header id (length payload) (length pad) in
    let ct = c.aead.seal (nonce c) (payload ++ pad) aad in
    let size : length ct ≡ length payload + length pad + 16 =
      omega (arith, c.aead.length-seal (nonce c) (payload ++ pad) aad, length-append payload pad) in
    let (masked, mask, back, eight) =
      unmask ks hk aad ct (length-plain_header id (length payload) (length pad))
        (omega (arith, size)) in
    let (f_id, f_pay, f_pad, f_version) =
      plain_header_fields id (length payload) (length pad) hid (omega arith) (omega arith) in
    (
      masked ++ ct,
      rw mask,
      omega (arith, length-append masked ct, size, eight),
      decode_joined ks c hk hc ptype masked ct aad eight (omega (arith, size)) back f_version
            (ap (type_id_to_packet_type hc) f_id ∙ known)
          ∙ open_sealed c ptype aad payload pad f_pay f_pad,
    )

-- Under a configuration that `Validate` accepts, for one of the five known types whose range is not
-- inverted, lies within uint32 and is not all of it, a payload of at most 65535 bytes is encoded
-- into any buffer with room for it, the longest padding and 24 bytes, and takes no more; a decoder
-- with the same keys and counter reads the type and the payload back, and both counters have moved
-- on by one.
pub decode-encode :
    (ks : Keystream) (r : Rand) (room : ℕ) (c : Cipher) (hk : Option (List ℕ)) (hc : HeaderConfig)
    (ptype : PacketType) (payload : List ℕ) (pad_min pad_max : ℕ)
    → validate hc ≡ none
    → IsKnown ptype
    → IsUsable (range_for hc ptype)
    → length payload ≤ 65535
    → length payload + max_pad pad_min pad_max + 24 ≤ room
    → (bytes : List ℕ) × (encode_packet ks r room c hk hc ptype payload pad_min pad_max
        ≡ (ok bytes, bump c))
      × (length bytes ≤ length payload + max_pad pad_min pad_max + 24)
      × (decode_packet ks c hk hc bytes
          ≡ (ok (record { ptype = ptype; payload = payload }), bump c))
unfolding encode_packet
decode-encode ks r room c hk hc ptype payload pad_min pad_max v k u fits has_room =
    let pad_len = random_padding_len r (max_pad pad_min pad_max) pad_min pad_max in
    let pad = fast_random_bytes r pad_len in
    let full : length pad ≡ pad_len = length-fast_random_bytes r pad_len in
    let most = random_padding_len_le r (max_pad pad_min pad_max) pad_min pad_max in
    let (id, picked, known, word) = classify-pick r.uint32_n hc ptype r.uint32_n-lt v k u in
    let (bytes, sent, size, got) =
      seal_packet-Carries ks c hk hc ptype id payload pad word fits
        (omega (arith, full, pad_len_le r pad_min pad_max)) known in
    (
      bytes,
      rw
          (
            le→ltb 65535 (length payload) fits,
            le→ltb room (8 + length (payload ++ pad) + 16)
                (omega (arith, length-append payload pad, full, most)),
            picked,
          )
          (ap (λ q. seal_packet ks c hk (some id) (length payload) q (payload ++ pad)) (sym full)
            ∙ sent),
      omega (arith, size, full, most),
      got,
    )
