-- ===== src/Udp/Mux/Delivery.antt =====
-- Payloads between a channel and the session that the server has for it, both ways.
use obsidian_vpn.Base.{
  ℕ, ◌+◌, ◌-◌, ◌≤◌, ◌<◌, ◌^◌, ◌≡◌, ap, ◌∙◌, List, [], ◌∷◌, true, false, some, ltb, length, take,
  drop, arith,
}
use obsidian_vpn.Cipher.{Aead}
use obsidian_vpn.Packet.{ok}
use obsidian_vpn.Replay.{ReplayWindow, check}
use obsidian_vpn.Udp.{Block}
use obsidian_vpn.Udp.Datagram.{
  SendDraws, plain_payload, datagram, header_offset, open_body, admit, take_counter,
}
use obsidian_vpn.Udp.Channel.{
  UdpAddr, UdpChannel, send, recv, receive, authentic, open_with, keys_for,
}
use obsidian_vpn.Udp.Channel.Delivery.{
  Pairs, FitsBucket, plain_payload_short, datagram_long, datagram_tag, receive-datagram,
}
use obsidian_vpn.Udp.Channel.Sending.{send_lem}
use obsidian_vpn.Udp.Mux.Lookup.{IsRouted, find_lem, epoch_keys-keys_for}
use obsidian_vpn.Udp.Mux.{
  UdpSession, UdpMux, put_session, or_current, written, send_to, session_send, push_data, hand_over,
  accept, store_session, handle, route_datagram, handle_datagram,
}

-- A datagram with the tag of a session is given to it, by the keys of the tag's epoch.
handle_routed :
    (d : SendDraws) (m : UdpMux) (sock : ℕ) (addr : UdpAddr) (x : List ℕ) (s : ℕ) (u : UdpSession)
    (tag : List ℕ) (keys : Aead × Block)
    → m.session s ≡ some u
    → ltb (length x - header_offset x) 28 ≡ false
    → take 4 (drop (header_offset x) x) ≡ tag
    → IsRouted m tag s
    → keys_for u.ep tag ≡ some keys
    → handle_datagram d m sock addr x
      ≡ store_session
          (record m { mru_session = some s })
          s
          (accept d m.conn sock addr u (receive u.ep x))
unfolding handle_datagram route_datagram handle receive authentic open_with
handle_routed d m sock addr x s u tag keys at_s long has routed chosen =
    let found = find_lem m tag s routed in
    let round = λ (k : Aead × Block).
      store_session (record m { mru_session = some s }) s
        (accept d m.conn sock addr u (admit u.ep (open_body k (drop (header_offset x) x)))) in
    simp (long, has, found, at_s, chosen) (ap round (epoch_keys-keys_for u tag keys chosen))

-- What the session is after it has taken a payload.
abbrev pub taken : UdpSession → ReplayWindow → UdpAddr → ℕ → List ℕ → UdpSession
taken u w addr sock payload =
    push_data
      (record u {
        ep = record u.ep { replay = w };
        client_addr = some addr;
        active_conn = some sock;
      })
      payload

module _ (d d' : SendDraws) (ch : UdpChannel) (m : UdpMux) (s sock : ℕ) (addr : UdpAddr)
    (u : UdpSession) (at_s : m.session s ≡ some u) (routed : IsRouted m ch.ep.tag s)
    (keys : keys_for u.ep ch.ep.tag ≡ some (ch.ep.enc, ch.ep.hp)) (pairs : Pairs ch.ep u.ep) where
  -- The sender's tag has four bytes and its counter is below 2^64; its datagrams start with a STUN
  -- header, or with a tag whose first byte has bit 6 set, as no STUN or SRTP header has; both ends
  -- have bucket padding on or both off, and if it is on, the bucket MTU is between 4 and 2000 and
  -- holds the payload with its two length bytes. The server has a session under the client's tag,
  -- whose keys for that tag are the client's, no other session that matches the tag is the most
  -- recently used, and the pool's buffers hold at least 2048 bytes. Then a payload of 1 to 65507
  -- bytes that the client sends, in a datagram that reaches a socket of the server, is queued for
  -- that session if the counter is new: the state differs from that before only in the session,
  -- which has the payload at the end of its queue if there is room, the counter marked, and the
  -- datagram's address and socket, and in the most recently used session; nothing is sent back.
  pub handle_datagram-send :
      (pooled b : ℕ) (rest : List ℕ) (w : ReplayWindow)
      → 2048 ≤ pooled
      → length rest + 29 < 2 ^ 16
      → FitsBucket ch.ep (b ∷ rest)
      → check u.ep.replay ch.ep.send_ctr ≡ some (true, w)
      → (x : List ℕ) × ((send pooled d ch (b ∷ rest)).0 ≡ ok (ch.dest_addr, x))
        × (handle_datagram d' m sock addr x
            ≡ some (
              [],
              put_session (record m { mru_session = some s }) s (taken u w addr sock (b ∷ rest)),
            ))
  unfolding accept hand_over store_session
  handle_datagram-send pooled b rest w room short fits new =
      let plain = plain_payload d.rand ch.ep (b ∷ rest) in
      let x = datagram d 1 ch.ep plain in
      let len : length plain + 28 < 2 ^ 16 =
        omega (arith, plain_payload_short d.rand ch.ep (b ∷ rest) fits) in
      (
        x,
        ap (λ r. r.0) (send_lem pooled d ch (b ∷ rest) fits room),
        handle_routed d' m sock addr x s u ch.ep.tag (ch.ep.enc, ch.ep.hp) at_s
              (datagram_long d 1 ch.ep u.ep pairs (omega arith) plain len)
              (datagram_tag d 1 ch.ep u.ep pairs (omega arith) plain len) routed keys
            ∙ rw (
                receive-datagram d 1 ch.ep u.ep pairs (omega arith) (b ∷ rest) w keys (omega arith)
                  fits new),
      )

module _ (d : SendDraws) (ch : UdpChannel) (sock : ℕ) (addr : UdpAddr) (u : UdpSession)
    (keys : keys_for ch.ep u.ep.tag ≡ some (u.ep.enc, u.ep.hp)) (pairs : Pairs u.ep ch.ep) where
  -- The sender's tag has four bytes and its counter is below 2^64; its datagrams start with a STUN
  -- header, or with a tag whose first byte has bit 6 set, as no STUN or SRTP header has; both ends
  -- have bucket padding on or both off, and if it is on, the bucket MTU is between 4 and 2000 and
  -- holds the payload with its two length bytes. Then a payload of 1 to 65507 bytes that the server
  -- sends in an open session that has seen its client goes to the client's last address from the
  -- socket of its last datagram, and takes one counter; `Recv` of the client, into a slice with
  -- room for a datagram, returns it from that datagram, if the client's keys for the session's tag
  -- are the session's and the counter is new. The client's destination, keys and counters stay, the
  -- time of arrival is noted, and the datagrams behind it are left on the socket.
  pub recv-session_send :
      (now : ℕ → ℕ) (b : ℕ) (rest : List ℕ) (w : ReplayWindow) (behind : List (List ℕ))
      → u.done ≡ false
      → u.client_addr ≡ some addr
      → length rest + 29 < 2 ^ 16
      → FitsBucket u.ep (b ∷ rest)
      → check ch.ep.replay u.ep.send_ctr ≡ some (true, w)
      → (x : List ℕ) × (session_send d sock u (b ∷ rest)
          ≡ (written (or_current u.active_conn sock) addr x, record u { ep = take_counter u.ep }))
        × (recv now ch (x ∷ behind)
            ≡ some (
              some (b ∷ rest),
              record ch {
                ep = record ch.ep { replay = w };
                last_auth_recv_nano = now (length behind);
              },
              behind,
            ))
  unfolding session_send send_to recv
  recv-session_send now b rest w behind alive known short fits new =
      let x = datagram d 0x0101 u.ep (plain_payload d.rand u.ep (b ∷ rest)) in
      (
        x,
        simp (alive, known),
        rw (
          receive-datagram d 0x0101 u.ep ch.ep pairs (omega arith) (b ∷ rest) w keys (omega arith)
              fits new,
          recv,
        ),
      )
