-- ===== src/Udp/Channel.antt =====
-- obsidian/udp.go, UDPChannel: the client's end on a connected socket. What the socket reads is a list
-- of datagrams, after which it fails. `dst` of Recv has room for a datagram.
pub mod Delivery
pub mod Sending
pub mod Ratchet
pub mod Once
use obsidian_vpn.Base.{
  ℕ, ◌+◌, List, [], ◌∷◌, Bool, true, false, Option, none, some, ◌&&◌, ltb, if◌then◌else◌, length,
  ◌-◌, slice, take, drop,
}
use obsidian_vpn.Cipher.{Aead, tag_size}
use obsidian_vpn.Packet.{Result, ok, err, short_buffer, panic}
use obsidian_vpn.Router.{same_bytes}
use obsidian_vpn.Udp.{
  Block, Crypto, UdpKeys, stun_header_size, udp_header_size, udp_tag_size, udp_overhead,
}
use obsidian_vpn.Udp.Datagram.{
  Endpoint, SendDraws, plain_payload, datagram, take_counter, sent_offset, header_offset, open_body,
  admit, ratchet_epoch, new_endpoint,
}

pub record UdpAddr : Type 0 where
  pub ip : List ℕ
  pub port : ℕ
  pub zone : List ℕ

pub record UdpChannel : Type 0 where
  pub ep : Endpoint
  pub dest_addr : Option UdpAddr
  pub last_auth_recv_nano : ℕ

unfoldable pub channel_on : Option Endpoint → Option UdpChannel
channel_on none = none
channel_on (some ep) = some (record { ep = ep; dest_addr = none; last_auth_recv_nano = 0 })

unfoldable pub new_udp_channel : Crypto → UdpKeys → Option UdpChannel
new_udp_channel c keys = channel_on (new_endpoint c keys)

unfoldable pub ratcheted : UdpChannel → Option Endpoint → Option UdpChannel
ratcheted ch none = none
ratcheted ch (some ep) = some (record ch { ep = ep })

-- `RatchetEpoch`; on an error the channel stays as it is.
unfoldable pub ratchet_channel : Crypto → UdpChannel → UdpKeys → Option UdpChannel
ratchet_channel c ch keys = ratcheted ch (ratchet_epoch c ch.ep keys)

unfoldable pub switch_destination : UdpChannel → Option UdpAddr → UdpChannel
switch_destination ch none = ch
switch_destination ch (some addr) = record ch { dest_addr = some addr }

-- The host of the current destination, or of the socket's peer `remote`.
unfoldable pub at_port : UdpChannel → Option UdpAddr → Option UdpAddr → ℕ → UdpChannel
at_port ch (some cur) remote port = record ch { dest_addr = some (record cur { port = port }) }
at_port ch none (some rem) port = record ch { dest_addr = some (record rem { port = port }) }
at_port ch none none port = ch

unfoldable pub set_remote_port : UdpChannel → Option UdpAddr → ℕ → UdpChannel
set_remote_port ch remote port = at_port ch ch.dest_addr remote port

-- `sendWithBuffer` into a buffer of capacity `cap`: the datagram and where it is written, `none` for
-- the socket's peer. Where the sealed packet does not fit, `Seal` moves it to another array, and
-- the slice of `buf` up to its end is out of range.
unfoldable pub send_into :
    ℕ → SendDraws → UdpChannel → List ℕ → Result (Option UdpAddr × List ℕ) × UdpChannel
send_into cap d ch payload =
    let plain = plain_payload d.rand ch.ep payload in
    let sent = record ch { ep = take_counter ch.ep } in
    if ltb cap (sent_offset ch.ep + udp_header_size + length plain + tag_size)
    then (err panic, sent)
    else (ok (ch.dest_addr, datagram d 0x0001 ch.ep plain), sent)

unfoldable pub required : List ℕ → ℕ
required payload = stun_header_size + udp_header_size + length payload + tag_size + 64

-- `Send`, where the pool gives a buffer of capacity `pooled`.
unfoldable pub send :
    ℕ → SendDraws → UdpChannel → List ℕ → Result (Option UdpAddr × List ℕ) × UdpChannel
send pooled d ch payload =
    send_into (if ltb pooled (required payload) then required payload else pooled) d ch payload

-- `SendWithBuffer` with a buffer of length `room` and capacity `cap`.
unfoldable pub send_with_buffer :
    ℕ → ℕ → SendDraws → UdpChannel → List ℕ → Result (Option UdpAddr × List ℕ) × UdpChannel
send_with_buffer room cap d ch payload =
    let sent = send_into cap d ch payload in
    if ltb room (required payload) then (err short_buffer, ch) else sent

-- The previous epoch's keys, if the tag is its tag.
unfoldable pub prev_keys : Endpoint → Option Aead → Option Block → List ℕ → Option (Aead × Block)
prev_keys ep none hp tag = none
prev_keys ep (some dec) none tag = if same_bytes tag ep.prev_tag then some (dec, ep.hp) else none
prev_keys ep (some dec) (some hp) tag = if same_bytes tag ep.prev_tag then some (dec, hp) else none

unfoldable pub keys_for : Endpoint → List ℕ → Option (Aead × Block)
keys_for ep tag =
    if same_bytes tag ep.tag then some (ep.dec, ep.hp) else prev_keys ep ep.prev_dec ep.prev_hp tag

unfoldable pub open_with : Endpoint → Option (Aead × Block) → List ℕ → Option (ℕ × List ℕ)
open_with ep none packet = none
open_with ep (some keys) packet = open_body keys packet

-- The counter and the plaintext of a datagram that is authentic.
unfoldable pub authentic : Endpoint → List ℕ → Option (ℕ × List ℕ)
authentic ep d =
    let packet = drop (header_offset d) d in
    if ltb (length d - header_offset d) udp_overhead
    then none
    else open_with ep (keys_for ep (take udp_tag_size packet)) packet

-- One round of the loop of `Recv`; an empty payload is not returned.
unfoldable pub receive : Endpoint → List ℕ → Option (Option (List ℕ) × Endpoint)
receive ep d = admit ep (authentic ep d)

-- What is left of the socket is returned with the channel; `now` is the clock, by the datagrams left.
unfoldable pub recv :
    (ℕ → ℕ) → UdpChannel → List (List ℕ) → Option (Option (List ℕ) × UdpChannel × List (List ℕ))
recv now ch [] = some (none, ch, [])
recv now ch (d ∷ ds) = elim (receive ch.ep d) [
  | none ↦ none
  | some (none, ep) ↦ recv now (record ch { ep = ep }) ds
  | some (some [], ep) ↦ recv now (record ch { ep = ep; last_auth_recv_nano = now (length ds) }) ds
  | some (some (b ∷ payload), ep) ↦
      some (some (b ∷ payload), record ch { ep = ep; last_auth_recv_nano = now (length ds) }, ds)
]
