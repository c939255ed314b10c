-- ===== src/Udp/Channel/Ratchet.antt =====
-- `RatchetEpoch`: which keys an endpoint has for a tag before, during and after it.
use obsidian_vpn.Base.{
  ℕ, ◌+◌, ◌<◌, ◌^◌, ◌≡◌, refl, sym, ap, subst, ◌∙◌, inl, List, true, false, Option, none, some,
  if◌then◌else◌, length, arith,
}
use obsidian_vpn.Cipher.{Aead}
use obsidian_vpn.Replay.{ReplayWindow, check}
use obsidian_vpn.Router.{same_bytes}
use obsidian_vpn.Router.Keys.{same_bytes_self}
use obsidian_vpn.Udp.{Block, Crypto, UdpKeys}
use obsidian_vpn.Udp.Datagram.{
  Endpoint, SendDraws, plain_payload, datagram, admit, ratchet_send, ratchet_recv, ratchet_with,
  ratchet_epoch,
}
use obsidian_vpn.Udp.Channel.{prev_keys, keys_for, open_with, authentic, receive}
use obsidian_vpn.Udp.Channel.Delivery.{
  Pairs, FitsBucket, plain_payload_short, datagram_long, datagram_tag, receive-datagram,
}

-- What a ratchet that succeeds has made of the keys.
pub record Ratcheted (c : Crypto) (keys : UdpKeys) (ep ep' : Endpoint) : Type 0 where
  pub enc : Aead
  pub dec : Aead
  pub hp : Block
  pub sends : c.new_aead keys.send_key ≡ some enc
  pub receives : c.new_aead keys.recv_key ≡ some dec
  pub masks : c.new_block keys.header_key ≡ some hp
  pub now : ep' ≡ ratchet_recv (ratchet_send ep enc hp keys.session_tag) dec ep.hp ep.tag

ratchet_parts :
    (c : Crypto) (keys : UdpKeys) (ep ep' : Endpoint) (x y : Option Aead) (z : Option Block)
    → c.new_aead keys.send_key ≡ x
    → c.new_aead keys.recv_key ≡ y
    → c.new_block keys.header_key ≡ z
    → ratchet_with ep x y z keys.session_tag ≡ some ep'
    → Ratcheted c keys ep ep'
unfolding ratchet_with
ratchet_parts c keys ep ep' (some enc) (some dec) (some hp) p q r e = record {
  enc = enc;
  dec = dec;
  hp = hp;
  sends = p;
  receives = q;
  masks = r;
  now = cc;
}
ratchet_parts c keys ep ep' (some enc) (some dec) none p q r e = absurd (ground arith)
ratchet_parts c keys ep ep' (some enc) none z p q r e = absurd (ground arith)
ratchet_parts c keys ep ep' none y z p q r e = absurd (ground arith)

pub ratchet_epoch-Ratcheted :
    (c : Crypto) (keys : UdpKeys) (ep ep' : Endpoint)
    → ratchet_epoch c ep keys ≡ some ep'
    → Ratcheted c keys ep ep'
unfolding ratchet_epoch
ratchet_epoch-Ratcheted c keys ep ep' e =
    ratchet_parts c keys ep ep' (c.new_aead keys.send_key) (c.new_aead keys.recv_key)
      (c.new_block keys.header_key) refl refl refl e

-- After a ratchet there are keys for the new tag and for the one before it, and for no other.
keys_for-ratchet :
    (ep : Endpoint) (enc dec : Aead) (hp : Block) (new tag : List ℕ)
    → keys_for (ratchet_recv (ratchet_send ep enc hp new) dec ep.hp ep.tag) tag ≡ (
        if same_bytes tag new
        then some (dec, hp)
        else if same_bytes tag ep.tag
        then some (ep.dec, ep.hp)
        else none)
unfolding keys_for prev_keys ratchet_recv ratchet_send
keys_for-ratchet ep enc dec hp new tag = refl

module _ (c : Crypto) (ka kb : UdpKeys) (a b a' b' : Endpoint)
    (ratchet_a : ratchet_epoch c a ka ≡ some a') (ratchet_b : ratchet_epoch c b kb ≡ some b')
    (agree : ka.send_key ≡ kb.recv_key) (header : ka.header_key ≡ kb.header_key)
    (tags : ka.session_tag ≡ kb.session_tag) (four : length kb.session_tag ≡ 4)
    (fresh : same_bytes a.tag kb.session_tag ≡ false) (stun : a.enable_stun ≡ true)
    (pairs : Pairs a b) (in_step : a.tag ≡ b.tag)
    (old : keys_for b a.tag ≡ some (a.enc, a.hp)) where
  abbrev ra : Ratcheted c ka a a'
  ra = ratchet_epoch-Ratcheted c ka a a' ratchet_a

  abbrev rb : Ratcheted c kb b b'
  rb = ratchet_epoch-Ratcheted c kb b b' ratchet_b

  own : same_bytes a.tag b.tag ≡ true
  own = ap (same_bytes a.tag) (sym in_step) ∙ same_bytes_self a.tag

  current : keys_for b a.tag ≡ some (b.dec, b.hp)
  unfolding keys_for
  current = rw own

  pub keys_before : keys_for b' a.tag ≡ some (a.enc, a.hp)
  keys_before =
      ap (λ e. keys_for e a.tag) rb.now
      ∙ keys_for-ratchet b rb.enc rb.dec rb.hp kb.session_tag a.tag
      ∙ rw (fresh, own) (sym current ∙ old)

  new_tag : a'.tag ≡ kb.session_tag
  unfolding ratchet_send ratchet_recv
  new_tag = ap (λ e. e.tag) ra.now ∙ tags

  same_aead : some ra.enc ≡ some rb.dec
  same_aead = sym ra.sends ∙ ap c.new_aead agree ∙ rb.receives

  same_block : some ra.hp ≡ some rb.hp
  same_block = sym ra.masks ∙ ap c.new_block header ∙ rb.masks

  pub keys_after : keys_for b' a'.tag ≡ some (a'.enc, a'.hp)
  unfolding ratchet_send ratchet_recv
  keys_after =
      let sends : a'.enc ≡ ra.enc = ap (λ e. e.enc) ra.now in
      let masks : a'.hp ≡ ra.hp = ap (λ e. e.hp) ra.now in
      ap (λ e. keys_for e a'.tag) rb.now
      ∙ ap (keys_for (ratchet_recv (ratchet_send b rb.enc rb.hp kb.session_tag) rb.dec b.hp b.tag))
          new_tag
      ∙ keys_for-ratchet b rb.enc rb.dec rb.hp kb.session_tag kb.session_tag
      ∙ rw (same_bytes_self kb.session_tag) (cc (same_aead, same_block))

  old-Pairs : Pairs a b'
  unfolding ratchet_send ratchet_recv
  old-Pairs = record {
    four = pairs.four;
    within = pairs.within;
    plain = pairs.plain;
    same = ap (λ e. e.use_bucket_padding) rb.now ∙ pairs.same;
  }

  new-Pairs : Pairs a' b'
  unfolding ratchet_send ratchet_recv
  new-Pairs = record {
    four = ap length new_tag ∙ four;
    within = subst (λ e. e.send_ctr < 2 ^ 64) (sym ra.now) pairs.within;
    plain = inl (ap (λ e. e.enable_stun) ra.now ∙ stun);
    same =
        ap (λ e. e.use_bucket_padding) rb.now
        ∙ pairs.same
        ∙ ap (λ e. e.use_bucket_padding) (sym ra.now);
  }

  -- Two endpoints with one tag and matching keys for it, the sender with STUN headers on, a tag of
  -- four bytes and a counter below 2^64, both with bucket padding on or both off, ratchet to keys
  -- that agree, under a tag of four bytes that is not the one before. If bucket padding is on, the
  -- sender's bucket MTU is between 4 and 2000 and holds the payload with its two length bytes. Then
  -- the receiver lets through, under any STUN message type below 2^14, a payload of at most 65507
  -- bytes with a new counter, unchanged, whether the sender sealed it before its own ratchet or
  -- after: the datagrams on the way while only one end has ratcheted are not lost, and the counters
  -- go on.
  pub receive-ratchet :
      (d : SendDraws) (t : ℕ) (payload : List ℕ) (w : ReplayWindow)
      → t < 2 ^ 14
      → length payload + 28 < 2 ^ 16
      → FitsBucket a payload
      → check b.replay a.send_ctr ≡ some (true, w)
      → (receive b' (datagram d t a (plain_payload d.rand a payload))
          ≡ some (some payload, record b' { replay = w }))
        × (receive b' (datagram d t a' (plain_payload d.rand a' payload))
            ≡ some (some payload, record b' { replay = w }))
  unfolding ratchet_send ratchet_recv
  receive-ratchet d t payload w small short fits new =
      let window : b'.replay ≡ b.replay = ap (λ e. e.replay) rb.now in
      let counter : a'.send_ctr ≡ a.send_ctr = ap (λ e. e.send_ctr) ra.now in
      let fits' : FitsBucket a' payload = subst (λ e. FitsBucket e payload) (sym ra.now) fits in
      (
        receive-datagram d t a b' old-Pairs small payload w keys_before short fits
            (ap (λ r. check r a.send_ctr) window ∙ new),
        receive-datagram d t a' b' new-Pairs small payload w keys_after short fits'
            (ap (λ r. check r a'.send_ctr) window ∙ ap (check b.replay) counter ∙ new),
      )

-- Between the two critical sections of the receiver's first ratchet, a datagram sealed under the tag
-- before it is dropped: the tag is already replaced, and not yet kept as the previous one.
pub mid_ratchet_drops :
    (d : SendDraws) (t : ℕ) (a b : Endpoint) (enc : Aead) (hp : Block) (new payload : List ℕ)
    → Pairs a b
    → t < 2 ^ 14
    → length payload + 28 < 2 ^ 16
    → b.prev_dec ≡ none
    → same_bytes a.tag new ≡ false
    → FitsBucket a payload
    → receive (ratchet_send b enc hp new) (datagram d t a (plain_payload d.rand a payload))
      ≡ some (none, ratchet_send b enc hp new)
unfolding receive admit authentic open_with keys_for prev_keys ratchet_send
mid_ratchet_drops d t a b enc hp new payload p small short first fresh fits =
    let len = plain_payload_short d.rand a payload fits in
    let plain = plain_payload d.rand a payload in
    simp (
      datagram_long d t a b p small plain (omega (arith, len)),
      datagram_tag d t a b p small plain (omega (arith, len)),
      fresh,
      first,
    )
