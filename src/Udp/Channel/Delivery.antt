-- ===== src/Udp/Channel/Delivery.antt =====
-- Datagrams between two endpoints: what one seals, the other lets through.
use obsidian_vpn.Base.{
  ℕ, ◌+◌, ◌-◌, ◌/◌, ◌^◌, ◌≤◌, ◌<◌, ◌≡◌, ap, ◌∙◌, ◌⊎◌, inl, inr, List, true, false, some, ltb,
  length, take, drop, arith, le→ltb, max,
}
use obsidian_vpn.Cipher.{Rand}
use obsidian_vpn.Padding.Bounds.{padding_within}
use obsidian_vpn.Replay.{ReplayWindow, check}
use obsidian_vpn.Udp.Datagram.{
  Endpoint, SendDraws, pad_len, plain_payload, datagram, header_offset, admit, checked,
}
use obsidian_vpn.Udp.Datagram.Opening.{
  IsPlain, datagram-Locates, length-seal_body, seal_body_tag, open_body-seal_body,
}
use obsidian_vpn.Udp.Datagram.Framing.{
  IsFramed, plain_payload_off, unframe-plain_payload, length-plain_payload,
}
use obsidian_vpn.Udp.Channel.{keys_for, open_with, authentic, receive}

-- No bucket padding, or a payload that is framed within the bucket MTU.
abbrev pub FitsBucket : Endpoint → List ℕ → Type 0
FitsBucket ep payload =
    (ep.use_bucket_padding ≡ false)
    ⊎ ((4 ≤ ep.bucket_mtu) × (2 + length payload ≤ ep.bucket_mtu) × (ep.bucket_mtu ≤ 2000))

-- A sender whose datagrams can be told apart, and a receiver set as it is.
pub record Pairs (a b : Endpoint) : Type 0 where
  pub four : length a.tag ≡ 4
  pub within : a.send_ctr < 2 ^ 64
  pub plain : IsPlain a
  pub same : b.use_bucket_padding ≡ a.use_bucket_padding

pad_len_within :
    (r : Rand) (ep : Endpoint) (payload : List ℕ)
    → 4 ≤ ep.bucket_mtu
    → 2 + length payload ≤ ep.bucket_mtu
    → 2 + length payload + pad_len r ep payload ≤ ep.bucket_mtu
unfolding pad_len
pad_len_within r ep payload least fits =
    padding_within (2 + length payload) ep.bucket_mtu ep.max_trailer
      (r.int_n (ep.max_trailer / 4 + 1)) least fits

FitsBucket-IsFramed :
    (r : Rand) (ep : Endpoint) (payload : List ℕ) → FitsBucket ep payload → IsFramed r ep payload
FitsBucket-IsFramed r ep payload (inl off) = inl off
FitsBucket-IsFramed r ep payload (inr (least, fits, most)) =
    inr (omega (arith, pad_len_within r ep payload least fits))

pub plain_payload_short :
    (r : Rand) (ep : Endpoint) (payload : List ℕ)
    → FitsBucket ep payload
    → length (plain_payload r ep payload) ≤ max 2000 (length payload)
plain_payload_short r ep payload (inl off) =
    omega (arith, ap length (plain_payload_off r ep payload off))
plain_payload_short r ep payload (inr (least, fits, most)) =
    omega (arith, length-plain_payload r ep payload, pad_len_within r ep payload least fits)

module _ (d : SendDraws) (msg_type : ℕ) (a b : Endpoint) (p : Pairs a b)
    (small : msg_type < 2 ^ 14) where
  -- A datagram is not dropped for its length, and carries the sender's tag where it is looked for.
  pub datagram_long :
      (plain : List ℕ)
      → length plain + 28 < 2 ^ 16
      → let x = datagram d msg_type a plain in ltb (length x - header_offset x) 28 ≡ false
  datagram_long plain short =
      let (size, part) = datagram-Locates d msg_type a plain p.four small short p.plain in
      le→ltb _ _ (omega (arith, size, length-seal_body a plain p.four))

  pub datagram_tag :
      (plain : List ℕ)
      → length plain + 28 < 2 ^ 16
      → let x = datagram d msg_type a plain in take 4 (drop (header_offset x) x) ≡ a.tag
  datagram_tag plain short =
      let (size, part) = datagram-Locates d msg_type a plain p.four small short p.plain in
      ap (take 4) part ∙ seal_body_tag a plain p.four

  pub authentic-datagram :
      (plain : List ℕ)
      → keys_for b a.tag ≡ some (a.enc, a.hp)
      → length plain + 28 < 2 ^ 16
      → authentic b (datagram d msg_type a plain) ≡ some (a.send_ctr, plain)
  unfolding authentic open_with
  authentic-datagram plain keys short =
      let (size, part) = datagram-Locates d msg_type a plain p.four small short p.plain in
      rw (datagram_long plain short, part, seal_body_tag a plain p.four, keys)
        (open_body-seal_body a plain p.four p.within)

  -- The payload is let through if its counter is new.
  pub receive-datagram :
      (payload : List ℕ) (w : ReplayWindow)
      → keys_for b a.tag ≡ some (a.enc, a.hp)
      → length payload + 28 < 2 ^ 16
      → FitsBucket a payload
      → check b.replay a.send_ctr ≡ some (true, w)
      → receive b (datagram d msg_type a (plain_payload d.rand a payload))
        ≡ some (some payload, record b { replay = w })
  unfolding receive admit checked
  receive-datagram payload w keys short fits new =
      let plain = plain_payload d.rand a payload in
      rw (
        authentic-datagram plain keys (omega (arith, plain_payload_short d.rand a payload fits)),
        new,
        unframe-plain_payload d.rand a b payload p.same (FitsBucket-IsFramed d.rand a payload fits),
      )
