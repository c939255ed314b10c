-- ===== src/Framer/Into.antt =====
-- obsidian/protocol.go, `ParseFrameInto` and `ParseFrameWithBuffer`: parsing into a caller's buffer.
use obsidian_vpn.Base.{
  ℕ, suc, ◌+◌, ◌≤◌, ◌≡◌, refl, ap, ◌∙◌, List, [], ◌∷◌, Option, none, some, not, ltb, ◌==◌,
  if◌then◌else◌, length, take, drop, arith, Bool-cases, inl, inr, ==→eq, length-drop, zero,
}
use obsidian_vpn.Base.Bytes.{at, get_u16, get_u32}
use obsidian_vpn.Header.{PacketType, HeaderConfig, type_id_to_packet_type}
use obsidian_vpn.Cipher.{Cipher, decrypt}
use obsidian_vpn.Packet.{
  packet_too_short, unknown_version, unknown_type_id, length_mismatch, decrypt_failed, Result, ok,
  err, Packet, Keystream, xor_packet_header, decode_packet, read_header, open_packet, finish_decode,
}
use obsidian_vpn.Framer.{StreamFramer, parse_frame}

-- The type, the payload's length, and what is written to the front of the buffer.
pub record Parsed : Type 0 where
  pub ptype : PacketType
  pub pay_len : ℕ
  pub written : List ℕ

-- With a buffer too small for payload and padding, the payload is copied as far as it goes.
unfoldable pub finish_into :
    ℕ → PacketType → ℕ → ℕ → Option (List ℕ) × Cipher → Result Parsed × Cipher
finish_into room ptype pay_len pad_len (none, c) = (err decrypt_failed, c)
finish_into room ptype pay_len pad_len (some plaintext, c) = (
  ok (record {
    ptype = ptype;
    pay_len = pay_len;
    written =
        if ltb room (pay_len + pad_len) then take room (take pay_len plaintext) else plaintext;
  }),
  c,
)

unfoldable pub open_into : ℕ → Cipher → Option PacketType → List ℕ → List ℕ → Result Parsed × Cipher
open_into room c none aad ct = (err unknown_type_id, c)
open_into room c (some ptype) aad ct =
    if not (length ct == get_u16 aad 4 + at aad 6 + 16)
    then (err length_mismatch, c)
    else finish_into room ptype (get_u16 aad 4) (at aad 6) (decrypt c ct aad)

unfoldable pub read_into :
    ℕ → Cipher → HeaderConfig → Result (List ℕ) → List ℕ → Result Parsed × Cipher
read_into room c hc (err e) ct = (err e, c)
read_into room c hc (ok aad) ct =
    if not (at aad 7 == 2)
    then (err unknown_version, c)
    else open_into room c (type_id_to_packet_type hc (get_u32 aad 0)) aad ct

-- `ParseFrameInto` a buffer of `room` bytes.
unfoldable pub parse_frame_into :
    Keystream → ℕ → StreamFramer → List ℕ → Result Parsed × StreamFramer
parse_frame_into ks room f raw =
    let ct = drop 8 raw in
    let (p, c) =
      if ltb (length raw) (8 + 16)
      then (err packet_too_short, f.dec_cipher)
      else read_into room f.dec_cipher f.header_cfg
          (xor_packet_header ks f.dec_header_key (take 8 raw) ct) ct in
    (p, record f { dec_cipher = c })

-- The packet that the buffer then holds.
abbrev pub packet_of : Parsed → Packet
packet_of p = record { ptype = p.ptype; payload = take p.pay_len p.written }

take_of_take : (n m : ℕ) (xs : List ℕ) → n ≤ m → take n (take m (take n xs)) ≡ take n xs
take_of_take zero m xs h = refl
take_of_take (suc n) zero xs h = absurd (omega arith)
take_of_take (suc n) (suc m) [] h = refl
take_of_take (suc n) (suc m) (x ∷ xs) h = ap (◌∷◌ x) (take_of_take n m xs (omega arith))

abbrev pub packet_result : Result Parsed × Cipher → Result Packet × Cipher
packet_result (ok p, c) = (ok (packet_of p), c)
packet_result (err e, c) = (err e, c)

finish_into-packet :
    (room : ℕ) (ptype : PacketType) (pay_len pad_len : ℕ) (r : Option (List ℕ) × Cipher)
    → pay_len ≤ room
    → packet_result (finish_into room ptype pay_len pad_len r) ≡ finish_decode ptype pay_len r
unfolding finish_into finish_decode
finish_into-packet room ptype pay_len pad_len (none, c) h = refl
finish_into-packet room ptype pay_len pad_len (some plaintext, c) h =
    ground (arith, take_of_take pay_len room plaintext h)

open_into-packet :
    (room : ℕ) (c : Cipher) (known : Option PacketType) (aad ct : List ℕ)
    → length ct ≤ room + 16
    → packet_result (open_into room c known aad ct) ≡ open_packet c known aad ct
unfolding open_into open_packet
open_into-packet room c none aad ct h = refl
open_into-packet room c (some ptype) aad ct h =
    elim (Bool-cases (length ct == get_u16 aad 4 + at aad 6 + 16)) [
      | inl fits ↦ rw fits (
          finish_into-packet room ptype (get_u16 aad 4) (at aad 6) (decrypt c ct aad)
            (omega (arith, ==→eq _ _ fits)))
      | inr off ↦ rw off
    ]

read_into-packet :
    (room : ℕ) (c : Cipher) (hc : HeaderConfig) (header : Result (List ℕ)) (ct : List ℕ)
    → length ct ≤ room + 16
    → packet_result (read_into room c hc header ct) ≡ read_header c hc header ct
unfolding read_into read_header
read_into-packet room c hc (err e) ct h = refl
read_into-packet room c hc (ok aad) ct h = elim (Bool-cases (at aad 7 == 2)) [
  | inl same ↦
      rw same (open_into-packet room c (type_id_to_packet_type hc (get_u32 aad 0)) aad ct h)
  | inr off ↦ rw off
]

abbrev pub framer_result : Result Parsed × StreamFramer → Result Packet × StreamFramer
framer_result (ok p, f) = (ok (packet_of p), f)
framer_result (err e, f) = (err e, f)

framer_result-pair :
    (f : StreamFramer) (r : Result Parsed × Cipher)
    → framer_result (r.0, record f { dec_cipher = r.1 })
      ≡ ((packet_result r).0, record f { dec_cipher = (packet_result r).1 })
framer_result-pair f (ok p, c) = refl
framer_result-pair f (err e, c) = refl

-- Into a buffer with room for all but the 24 bytes of header and tag, `ParseFrameInto` gives the
-- packet or the error that `ParseFrame` gives, and leaves the framer as it does.
pub parse_frame_into-parse_frame :
    (ks : Keystream) (room : ℕ) (f : StreamFramer) (raw : List ℕ)
    → length raw ≤ room + 24
    → framer_result (parse_frame_into ks room f raw) ≡ parse_frame ks f raw
unfolding parse_frame_into parse_frame decode_packet
parse_frame_into-parse_frame ks room f raw h = elim (Bool-cases (ltb (length raw) 24)) [
  | inl short ↦ rw short
  | inr long ↦
      let header = xor_packet_header ks f.dec_header_key (take 8 raw) (drop 8 raw) in
      rw long (
        framer_result-pair f (read_into room f.dec_cipher f.header_cfg header (drop 8 raw))
        ∙ ap (λ r. (r.0, record f { dec_cipher = r.1 }))
            (read_into-packet room f.dec_cipher f.header_cfg header (drop 8 raw)
              (omega (arith, length-drop 8 raw))))
]
