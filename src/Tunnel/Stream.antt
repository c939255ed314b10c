-- ===== src/Tunnel/Stream.antt =====
-- What one end writes, the other end's `recvLoop` delivers.
use obsidian_vpn.Base.{
  ℕ, suc, ◌+◌, ◌%◌, ◌^◌, ◌≤◌, ◌≡◌, refl, sym, ap, ◌∙◌, List, [], ◌∷◌, ◌++◌, Option, none, some,
  Bool, false, ltb, length, drop, arith, Bool-cases, inl, inr, All, subst, length-append,
  take-append, drop-append, le→ltb,
}
use obsidian_vpn.Base.Bytes.{get_u32}
use obsidian_vpn.Header.{
  HeaderConfig, PacketType, data_packet, keepalive, noise, handshake, close, other,
}
use obsidian_vpn.Cipher.{Rand}
use obsidian_vpn.Packet.{Packet, Result, ok, err, Keystream}
use obsidian_vpn.Framer.{Sha256, StreamFramer, frame_with_buffer, decode_frame_len, parse_frame}
use obsidian_vpn.Framer.Sync.{InSync, CanSend, frame-InSync, sender_after, receiver_after}
use obsidian_vpn.Framer.Into.{Parsed, framer_result, parse_frame_into-parse_frame}
use obsidian_vpn.Tunnel.{
  Tunnel, Write, WriteError, write_packet, write_framed, after_write, write_frame, Received,
  dispatch, after_parse, recv_loop, session_expired,
}
use obsidian_vpn.Tunnel.Writes.{write_frame_whole}
use mathlib.Core.List.{append_assoc}

-- Calls of `writePacket` that all returned no error, in the order of the lock, and the bytes that
-- they put on the stream.
pub data Sends (ks : Keystream) (sha : Sha256) : Tunnel → List Packet → List ℕ → Type 0 where
  nothing : {t : Tunnel} → Sends ks sha t [] []
  then_send :
      {t t' : Tunnel} {sent more : List ℕ} {ps : List Packet} (r : Rand) (elapsed : ℕ)
      (calls : List Write) (p : Packet)
      → write_packet ks sha r elapsed calls t p.ptype p.payload
        ≡ some (record { sent = sent; error = none; tunnel = t' })
      → Sends ks sha t' ps more
      → Sends ks sha t (p ∷ ps) (sent ++ more)

-- The payloads of the data packets before the first close packet.
unfoldable pub data_payloads : List Packet → List (List ℕ)
data_payloads [] = []
data_payloads (p ∷ ps) =
    let rest = data_payloads ps in
    elim p.ptype [ data_packet ↦ p.payload ∷ rest | close ↦ [] | _ ↦ rest ]

delivered-dispatch :
    (ptype : PacketType) (payload : List ℕ) (rest : Received) (ps : List Packet)
    → rest.delivered ≡ data_payloads ps
    → (dispatch ptype payload rest).delivered
      ≡ data_payloads (record { ptype = ptype; payload = payload } ∷ ps)
unfolding dispatch data_payloads
delivered-dispatch data_packet payload rest ps e = ap (◌∷◌ payload) e
delivered-dispatch keepalive payload rest ps e = e
delivered-dispatch noise payload rest ps e = e
delivered-dispatch handshake payload rest ps e = e
delivered-dispatch close payload rest ps e = refl
delivered-dispatch (other n) payload rest ps e = e

after_parse_ok :
    (go : StreamFramer → Received) (r : Result Parsed × StreamFramer) (p : Packet)
    (g : StreamFramer)
    → framer_result r ≡ (ok p, g)
    → after_parse go r ≡ dispatch p.ptype p.payload (go g)
unfolding after_parse
after_parse_ok go (ok q, f) p g e = cc
after_parse_ok go (err x, f) p g e = cc

get_u32-append : (xs ys : List ℕ) → 4 ≤ length xs → get_u32 (xs ++ ys) 0 ≡ get_u32 xs 0
unfolding get_u32
get_u32-append [] ys h = absurd (omega arith)
get_u32-append (a ∷ []) ys h = absurd (omega arith)
get_u32-append (a ∷ b ∷ []) ys h = absurd (omega arith)
get_u32-append (a ∷ b ∷ c ∷ []) ys h = absurd (omega arith)
get_u32-append (a ∷ b ∷ c ∷ d ∷ xs) ys h = refl

abbrev pub never : ℕ → Bool
never i = false

-- One round of the loop on a whole frame.
recv_round :
    (ks : Keystream) (sha : Sha256) (fuel i : ℕ) (f f' g : StreamFramer) (head pkt more : List ℕ)
    (p : Packet)
    → length head ≡ 4
    → length pkt ≤ 66047
    → decode_frame_len sha f (get_u32 head 0) ≡ (length pkt, f')
    → parse_frame ks f' pkt ≡ (ok p, g)
    → recv_loop ks sha never (suc fuel) i f (head ++ (pkt ++ more))
      ≡ dispatch p.ptype p.payload (recv_loop ks sha never fuel (suc i) g more)
unfolding recv_loop
recv_round ks sha fuel i f f' g head pkt more p four fits len parsed =
    let body : drop 4 (head ++ (pkt ++ more)) ≡ pkt ++ more =
      rw (← four) (drop-append head (pkt ++ more)) in
    let long : ltb (length (head ++ (pkt ++ more))) 4 ≡ false =
      le→ltb _ _ (omega (arith, length-append head (pkt ++ more))) in
    let enough : ltb (length (pkt ++ more)) (length pkt) ≡ false =
      le→ltb _ _ (omega (arith, length-append pkt more)) in
    let agree = parse_frame_into-parse_frame ks (length pkt) f' pkt (omega arith) ∙ parsed in
    rw
      (
        get_u32-append head (pkt ++ more) (omega arith),
        len,
        long,
        body,
        le→ltb 66047 (length pkt) fits,
        enough,
        take-append pkt more,
        drop-append pkt more,
      )
      (after_parse_ok (λ h. recv_loop ks sha never fuel (suc i) h more) _ p g agree)

after_write_inv :
    (t t' : Tunnel) (bytes sent : List ℕ) (r : Option (List ℕ × Option WriteError))
    → ((out : List ℕ) → r ≡ some (out, none) → out ≡ bytes)
    → after_write t r ≡ some (record { sent = sent; error = none; tunnel = t' })
    → (sent ≡ bytes) × (t' ≡ t)
unfolding after_write
after_write_inv t t' bytes sent none whole e = cc
after_write_inv t t' bytes sent (some (out, none)) whole e =
    let same : sent ≡ out = cc in (same ∙ whole out refl, cc)
after_write_inv t t' bytes sent (some (out, some x)) whole e = cc

write_framed_inv :
    (calls : List Write) (t t' : Tunnel) (sent : List ℕ) (r : Result (List ℕ) × StreamFramer)
    → write_framed calls t r ≡ some (record { sent = sent; error = none; tunnel = t' })
    → r ≡ (ok sent, t'.framer)
unfolding write_framed
write_framed_inv calls t t' sent (err x, f) e = cc
write_framed_inv calls t t' sent (ok bytes, f) e =
    let (same, last) =
      after_write_inv (record t { framer = f }) t' bytes sent (write_frame calls [] bytes)
        (write_frame_whole calls bytes) e in
    rw (same, last)

-- A `writePacket` without an error has framed the packet and put the whole frame on the stream.
write_packet_inv :
    (ks : Keystream) (sha : Sha256) (r : Rand) (elapsed : ℕ) (calls : List Write) (t t' : Tunnel)
    (p : Packet) (sent : List ℕ)
    → write_packet ks sha r elapsed calls t p.ptype p.payload
      ≡ some (record { sent = sent; error = none; tunnel = t' })
    → frame_with_buffer ks sha r (4 + 8 + length p.payload + 256 + 16) t.framer p.ptype p.payload
      ≡ (ok sent, t'.framer)
unfolding write_packet
write_packet_inv ks sha r elapsed calls t t' p sent e =
    let count = (t.packet_count + 1) % 2 ^ 64 in
    elim (Bool-cases (session_expired t.limits elapsed count)) [
      | inl over ↦ cc (rw over at e)
      | inr going ↦
          write_framed_inv calls (record t { packet_count = count }) t' sent _ (rw going at e)
    ]

-- A packet that the framer takes.
pub record IsSendable (hc : HeaderConfig) (p : Packet) : Type 0 where
  pub can : CanSend hc p.ptype
  pub fits : length p.payload ≤ 65535

-- Let every packet have one of the five known types and a payload of at most 65535 bytes, under a
-- configuration that `Validate` accepts and in which the range of each packet's type is not
-- inverted, lies within uint32 and is not all of it. Then packets that `writePacket` sent without
-- an error, over writes of any sizes and under any draws, are received by a peer in step whose
-- session does not expire: from the bytes on the stream `recvLoop` delivers exactly the payloads of
-- the data packets before the first close packet, in their order. One round more than there are
-- packets is enough.
pub recv_loop-Sends :
    (ks : Keystream) (sha : Sha256) {t : Tunnel} {ps : List Packet} {stream : List ℕ} (i : ℕ)
    (hc : HeaderConfig) (b : StreamFramer)
    → Sends ks sha t ps stream
    → t.framer.header_cfg ≡ hc
    → InSync t.framer b
    → All (IsSendable hc) ps
    → (recv_loop ks sha never (suc (length ps)) i b stream).delivered ≡ data_payloads ps
recv_loop-Sends ks sha i hc b nothing h s ok_all = unfold recv_loop data_payloads in refl
recv_loop-Sends ks sha {t} i hc b
      (then_send {t' = t'} {sent = sent} {more = more} {ps = ps} r elapsed calls p w rest) h s
      (sendable, ok_all) =
    let framed = write_packet_inv ks sha r elapsed calls t t' p sent w in
    let (head, pkt, made, four, size, len, parsed, step) =
      frame-InSync ks sha r (4 + 8 + length p.payload + 256 + 16) t.framer b p.ptype p.payload s
        (subst (λ c. CanSend c p.ptype) (sym h) sendable.can) sendable.fits (omega arith) in
    let same : sent ≡ head ++ pkt = cc (framed, made) in
    let moved : t'.framer ≡ sender_after t.framer = cc (framed, made) in
    let small : length pkt ≤ 66047 = omega (arith, size, length-append head pkt, sendable.fits) in
    let round =
      recv_round ks sha (suc (length ps)) i b _ (receiver_after b) head pkt more p four small
        (ap (decode_frame_len sha b) (sym (get_u32-append head pkt (omega arith))) ∙ len) parsed in
    let later =
      recv_loop-Sends ks sha (suc i) hc (receiver_after b) rest
        (ap (λ (f : StreamFramer). f.header_cfg) moved ∙ h)
        (subst (λ f. InSync f (receiver_after b)) (sym moved) step) ok_all in
    let loop : List ℕ → Received = recv_loop ks sha never (suc (suc (length ps))) i b in
    ap (λ (q : Received). q.delivered)
      (ap (λ q. loop (q ++ more)) same ∙ ap loop (append_assoc head pkt more) ∙ round)
    ∙ delivered-dispatch p.ptype p.payload _ ps later
