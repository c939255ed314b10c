-- ===== src/Udp/Channel/Sending.antt =====
-- What the two ways to send from a channel return, buffers included.
use obsidian_vpn.Base.{
  ℕ, ◌+◌, ◌≤◌, ◌<◌, ◌≡◌, ◌⊎◌, inl, inr, List, true, false, Option, ltb, length, arith, le→ltb,
  Bool-cases, ltb→lt, ltb_false→le,
}
use obsidian_vpn.Packet.{Result, ok, err, short_buffer, panic}
use obsidian_vpn.Udp.Datagram.{
  Endpoint, SendDraws, plain_payload, datagram, pad_len, take_counter, sent_offset,
}
use obsidian_vpn.Udp.Datagram.Framing.{is_framed, length-plain_if, framed_parts, framed_back}
use obsidian_vpn.Udp.Channel.{UdpAddr, UdpChannel, send_into, required, send, send_with_buffer}
use obsidian_vpn.Udp.Channel.Delivery.{FitsBucket, plain_payload_short}

sent_offset-le : (ep : Endpoint) → sent_offset ep ≤ 20
unfolding sent_offset
sent_offset-le ep = ground arith

-- What a channel writes, and the channel with its counter moved on.
abbrev pub written_by :
    SendDraws → UdpChannel → List ℕ → Result (Option UdpAddr × List ℕ) × UdpChannel
written_by d ch payload = (
  ok (ch.dest_addr, datagram d 1 ch.ep (plain_payload d.rand ch.ep payload)),
  record ch { ep = take_counter ch.ep },
)

send_into_fits :
    (cap : ℕ) (d : SendDraws) (ch : UdpChannel) (payload : List ℕ)
    → FitsBucket ch.ep payload
    → 2048 ≤ cap
    → required payload ≤ cap
    → send_into cap d ch payload ≡ written_by d ch payload
unfolding send_into required
send_into_fits cap d ch payload fits room enough = rw (
    le→ltb cap (sent_offset ch.ep + 12 + length (plain_payload d.rand ch.ep payload) + 16)
      (omega (arith, sent_offset-le ch.ep, plain_payload_short d.rand ch.ep payload fits)))

pub send_lem :
    (pooled : ℕ) (d : SendDraws) (ch : UdpChannel) (payload : List ℕ)
    → FitsBucket ch.ep payload
    → 2048 ≤ pooled
    → send pooled d ch payload ≡ written_by d ch payload
unfolding send
send_lem pooled d ch payload fits room = elim (Bool-cases (ltb pooled (required payload))) [
  | inl small ↦ rw small (
      send_into_fits (required payload) d ch payload fits
        (omega (arith, ltb→lt pooled (required payload) small)) (omega arith))
  | inr enough ↦ rw enough (
      send_into_fits pooled d ch payload fits room
        (omega (arith, ltb_false→le pooled (required payload) enough)))
]

-- Bucket padding is on, the payload is not empty and its padded frame fits the pooled plaintext buffer;
-- and the frame with its headers and tag is longer than the caller's buffer.
abbrev pub Overflows : ℕ → SendDraws → UdpChannel → List ℕ → Type 0
Overflows cap d ch payload =
    (ch.ep.use_bucket_padding ≡ true)
    × (0 < length payload)
    × (2 + length payload + pad_len d.rand ch.ep payload ≤ 2048)
    × (cap < sent_offset ch.ep + 2 + length payload + pad_len d.rand ch.ep payload + 28)

-- What `SendWithBuffer` returns: the sentinel error, the datagram, or a panic.
pub data Outcome (room cap : ℕ) (d : SendDraws) (ch : UdpChannel) (payload : List ℕ)
    (r : Result (Option UdpAddr × List ℕ) × UdpChannel) : Type 0 where
  refused : room < required payload → r ≡ (err short_buffer, ch) → Outcome room cap d ch payload r
  sent :
      required payload ≤ room
      → ¬ Overflows cap d ch payload
      → r ≡ written_by d ch payload
      → Outcome room cap d ch payload r
  panicked :
      required payload ≤ room
      → Overflows cap d ch payload
      → r ≡ (err panic, record ch { ep = take_counter ch.ep })
      → Outcome room cap d ch payload r

cap_splits :
    (room cap : ℕ) (d : SendDraws) (ch : UdpChannel) (payload : List ℕ)
    → room ≤ cap
    → required payload ≤ room
    → ((ltb cap (sent_offset ch.ep + 12 + length (plain_payload d.rand ch.ep payload) + 16) ≡ false)
        × (¬ Overflows cap d ch payload))
      ⊎ ((ltb cap (sent_offset ch.ep + 12 + length (plain_payload d.rand ch.ep payload) + 16)
            ≡ true)
          × Overflows cap d ch payload)
unfolding required
cap_splits room cap d ch payload h enough =
    let total = sent_offset ch.ep + 12 + length (plain_payload d.rand ch.ep payload) + 16 in
    let size = length-plain_if d.rand ch.ep payload in
    elim (Bool-cases (is_framed d.rand ch.ep payload)) [
      | inl framed ↦
          let (on, some_bytes, small) = framed_parts d.rand ch.ep payload framed in
          let long : length (plain_payload d.rand ch.ep payload)
              ≡ 2 + length payload + pad_len d.rand ch.ep payload =
            ground (arith, size, framed) in
          elim (Bool-cases (ltb cap total)) [
            | inl over ↦
                inr (over, (on, some_bytes, small, omega (arith, ltb→lt cap total over, long)))
            | inr fits ↦ inl (fits, λ o. ground (arith, ltb_false→le cap total fits, long, o.3))
          ]
      | inr bare ↦
          let short : length (plain_payload d.rand ch.ep payload) ≡ length payload =
            ground (arith, size, bare) in
          inl (
            le→ltb _ _ (omega (arith, sent_offset-le ch.ep, short)),
            λ o. ground (arith, framed_back d.rand ch.ep payload o.0 o.1 o.2, bare),
          )
    ]

-- With a buffer of length `room` and capacity `cap`, `SendWithBuffer` returns io.ErrShortBuffer and
-- takes no counter exactly if `room` is less than 112 bytes more than the payload. Otherwise it takes
-- one counter. Then it panics exactly if bucket padding is on, the payload is not empty, its
-- padded frame is at most 2048 bytes and this with the headers and the tag is longer than `cap`; else it writes the
-- datagram to the current destination.
pub send_with_buffer-Outcome :
    (room cap : ℕ) (d : SendDraws) (ch : UdpChannel) (payload : List ℕ)
    → room ≤ cap
    → Outcome room cap d ch payload (send_with_buffer room cap d ch payload)
unfolding send_with_buffer send_into
send_with_buffer-Outcome room cap d ch payload h = elim (Bool-cases (ltb room (required payload))) [
  | inl small ↦ refused (ltb→lt room _ small) (rw small)
  | inr enough ↦
      let big = ltb_false→le room (required payload) enough in
      elim (cap_splits room cap d ch payload h big) [
        | inl (fits, never) ↦ sent big never (rw (enough, fits))
        | inr (over, long) ↦ panicked big long (rw (enough, over))
      ]
]
