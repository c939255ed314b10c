-- ===== src/Framer/Sync.antt =====
-- A sender's framer and a receiver's framer stay in step.
use obsidian_vpn.Base.{
  ℕ, ◌+◌, ◌-◌, ◌%◌, ◌^◌, ◌≤◌, ◌<◌, ◌≡◌, refl, ap, List, [], ◌∷◌, ◌++◌, Option, none, some, arith,
  length, length-append, All, le→ltb,
}
use obsidian_vpn.Base.Bytes.{IsByte, get_u32, u32_bytes, get_u32-bytes, bit_xor_twice, bit_xor-lt}
use obsidian_vpn.Header.{PacketType, HeaderConfig, validate, range_for}
use obsidian_vpn.Header.Ranges.{IsUsable}
use obsidian_vpn.Header.Classify.{IsKnown}
use obsidian_vpn.Cipher.{Rand, bump}
use obsidian_vpn.Packet.{ok, Keystream, max_pad}
use obsidian_vpn.Packet.RoundTrip.{decode-encode}
use obsidian_vpn.Framer.{
  Sha256, StreamFramer, fast_hmac_sha256_stack, mask_frame_len, frame_padding, prefix_frame,
  frame_with_buffer, decode_frame_len, parse_frame,
}

-- The receiver `b` is where the sender `a` is.
pub record InSync (a b : StreamFramer) : Type 0 where
  pub cipher : b.dec_cipher ≡ a.enc_cipher
  pub header_cfg : b.header_cfg ≡ a.header_cfg
  pub header_key : b.dec_header_key ≡ a.enc_header_key
  pub frame_key : b.dec_frame_key ≡ a.enc_frame_key
  pub frame_ctr : b.dec_frame_ctr ≡ a.enc_frame_ctr

get_u32-lt : (xs : List ℕ) → All IsByte xs → 4 ≤ length xs → get_u32 xs 0 < 2 ^ 32
unfolding get_u32
get_u32-lt [] bs h = absurd (omega arith)
get_u32-lt (a ∷ []) bs h = absurd (omega arith)
get_u32-lt (a ∷ b ∷ []) bs h = absurd (omega arith)
get_u32-lt (a ∷ b ∷ c ∷ []) bs h = absurd (omega arith)
get_u32-lt (a ∷ b ∷ c ∷ d ∷ xs) (ha, (hb, (hc, (hd, bs)))) h = omega arith

mask_frame_len-lt :
    (sha : Sha256) (key : Option (List ℕ)) (ctr n : ℕ)
    → n < 2 ^ 32
    → mask_frame_len sha key ctr n < 2 ^ 32
unfolding mask_frame_len fast_hmac_sha256_stack
mask_frame_len-lt sha none ctr n h = h
mask_frame_len-lt sha (some key) ctr n h =
    bit_xor-lt 32 n _ h (get_u32-lt _ (sha.sum256-IsByte _) (omega (arith, sha.length-sum256)))

-- Unmasking under the same key and counter.
mask_frame_len_twice :
    (sha : Sha256) (key : Option (List ℕ)) (ctr n : ℕ)
    → mask_frame_len sha key ctr (mask_frame_len sha key ctr n) ≡ n
unfolding mask_frame_len
mask_frame_len_twice sha none ctr n = refl
mask_frame_len_twice sha (some key) ctr n = bit_xor_twice n _

abbrev pub sender_after : StreamFramer → StreamFramer
sender_after a = record a {
  enc_cipher = bump a.enc_cipher;
  enc_frame_ctr = (a.enc_frame_ctr + 1) % 2 ^ 64;
}

abbrev pub receiver_after : StreamFramer → StreamFramer
receiver_after b = record b {
  dec_cipher = bump b.dec_cipher;
  dec_frame_ctr = (b.dec_frame_ctr + 1) % 2 ^ 64;
}

pub after-InSync : (a b : StreamFramer) → InSync a b → InSync (sender_after a) (receiver_after b)
after-InSync a b s = record {
  cipher = ap bump s.cipher;
  header_cfg = s.header_cfg;
  header_key = s.header_key;
  frame_key = s.frame_key;
  frame_ctr = ap (λ (n : ℕ). (n + 1) % 2 ^ 64) s.frame_ctr;
}

-- The headers allow packets of type `ptype`.
pub record CanSend (hc : HeaderConfig) (ptype : PacketType) : Type 0 where
  pub valid : validate hc ≡ none
  pub known : IsKnown ptype
  pub usable : IsUsable (range_for hc ptype)

max_pad_le : (a b : ℕ) → max_pad a b ≤ 255
unfolding max_pad
max_pad_le a b = omega arith

length-u32_bytes : (v : ℕ) → length (u32_bytes v) ≡ 4
unfolding u32_bytes
length-u32_bytes v = refl

prefix_read :
    (sha : Sha256) (a b : StreamFramer) (pkt : List ℕ)
    → InSync a b
    → length pkt < 2 ^ 32
    → decode_frame_len sha b (
        get_u32
          (u32_bytes (mask_frame_len sha a.enc_frame_key a.enc_frame_ctr (length pkt % 2 ^ 32))
            ++ pkt)
          0)
      ≡ (length pkt, record b { dec_frame_ctr = (b.dec_frame_ctr + 1) % 2 ^ 64 })
unfolding decode_frame_len
prefix_read sha a b pkt s h =
    let small : length pkt % 2 ^ 32 ≡ length pkt = omega arith in
    let n = mask_frame_len sha a.enc_frame_key a.enc_frame_ctr (length pkt) in
    rw (small, get_u32-bytes n pkt (mask_frame_len-lt sha a.enc_frame_key a.enc_frame_ctr _ h))
      (rw (s.frame_key, s.frame_ctr, mask_frame_len_twice sha a.enc_frame_key a.enc_frame_ctr) refl)

-- Under a configuration that `Validate` accepts, for one of the five known types whose range is not
-- inverted, lies within uint32 and is not all of it, a payload of at most 65535 bytes is framed
-- into a buffer with room for it and 283 bytes, 28 of overhead and the greatest padding of 255; a
-- receiver in step reads the length of what follows the four bytes of the prefix, parses that into
-- the type and the payload, and both framers are in step again.
pub frame-InSync :
    (ks : Keystream) (sha : Sha256) (r : Rand) (room : ℕ) (a b : StreamFramer) (ptype : PacketType)
    (payload : List ℕ)
    → InSync a b
    → CanSend a.header_cfg ptype
    → length payload ≤ 65535
    → length payload + 283 ≤ room
    → (head pkt : List ℕ) × (frame_with_buffer ks sha r room a ptype payload
        ≡ (ok (head ++ pkt), sender_after a))
      × (length head ≡ 4)
      × (length (head ++ pkt) ≤ room)
      × (decode_frame_len sha b (get_u32 (head ++ pkt) 0)
          ≡ (length pkt, record b { dec_frame_ctr = (b.dec_frame_ctr + 1) % 2 ^ 64 }))
      × (parse_frame ks (record b { dec_frame_ctr = (b.dec_frame_ctr + 1) % 2 ^ 64 }) pkt
          ≡ (ok (record { ptype = ptype; payload = payload }), receiver_after b))
      × InSync (sender_after a) (receiver_after b)
unfolding frame_with_buffer prefix_frame parse_frame
frame-InSync ks sha r room a b ptype payload s can fits has_room =
    let pads = frame_padding r a.padding_cfg ptype (length payload) in
    let (pkt, sent, size, got) =
      decode-encode ks r (room - 4) a.enc_cipher a.enc_header_key a.header_cfg ptype payload pads.0
        pads.1 can.valid can.known can.usable fits (omega (arith, max_pad_le pads.0 pads.1)) in
    let head =
      u32_bytes (mask_frame_len sha a.enc_frame_key a.enc_frame_ctr (length pkt % 2 ^ 32)) in
    let four : length head ≡ 4 = length-u32_bytes _ in
    (
      head,
      pkt,
      rw (le→ltb room 4 (omega arith), sent),
      four,
      omega (arith, length-append head pkt, four, size, max_pad_le pads.0 pads.1),
      prefix_read sha a b pkt s (omega (arith, size, max_pad_le pads.0 pads.1)),
      rw (s.cipher, s.header_cfg, s.header_key, got),
      after-InSync a b s,
    )
