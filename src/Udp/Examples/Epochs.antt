-- ===== src/Udp/Examples/Epochs.antt =====
-- Ratchets, replays, full buffers, the session table and `Close`, at concrete inputs.
use obsidian_vpn.Base.{ℕ, ◌≡◌, refl, List, [], ◌∷◌, true, false, none, some, arith, replicate}
use obsidian_vpn.Cipher.Concrete.{plain_aead}
use obsidian_vpn.Replay.Refinement.{Represents, empty-Represents}
use obsidian_vpn.Router.{same_bytes}
use obsidian_vpn.Udp.{UdpKeys}
use obsidian_vpn.Udp.Datagram.{
  Endpoint, fresh_endpoint, ratchet_send, ratchet_recv, ratchet_with, ratchet_epoch, plain_payload,
  datagram,
}
use obsidian_vpn.Udp.Channel.{receive, authentic}
use obsidian_vpn.Udp.Channel.Delivery.{receive-datagram, authentic-datagram, plain_payload_short}
use obsidian_vpn.Udp.Channel.Ratchet.{receive-ratchet, mid_ratchet_drops}
use obsidian_vpn.Udp.Channel.Once.{receive_each, HasCounter, received_once}
use obsidian_vpn.Udp.Examples.{
  block, crypto, draws, tag, start_end, window, start-Pairs, start_keys, off, first_is_new,
}

abbrev next_tag : List ℕ
next_tag = replicate 4 8

abbrev next_keys : UdpKeys
next_keys = record {
  send_key = replicate 32 5;
  recv_key = replicate 32 5;
  header_key = replicate 16 5;
  session_tag = next_tag;
}

abbrev next_end : Endpoint
unfolding ratchet_recv ratchet_send
next_end = ratchet_recv (ratchet_send start_end plain_aead block next_tag) plain_aead block tag

ratchets : ratchet_epoch crypto start_end next_keys ≡ some next_end
unfolding ratchet_epoch ratchet_with fresh_endpoint ratchet_recv ratchet_send
ratchets = refl

tags_apart : same_bytes start_end.tag next_tag ≡ false
unfolding same_bytes fresh_endpoint
tags_apart = refl

with_stun_on : (start_end.enable_stun ≡ true) × (start_end.prev_dec ≡ none)
unfolding fresh_endpoint
with_stun_on = (refl, refl)

receive-ratchet_example :
    (receive next_end
        (datagram draws 1 start_end (plain_payload draws.rand start_end (69 ∷ 2 ∷ [])))
      ≡ some (some (69 ∷ 2 ∷ []), record next_end { replay = window }))
    × (receive next_end
          (datagram draws 1 next_end (plain_payload draws.rand next_end (69 ∷ 2 ∷ [])))
        ≡ some (some (69 ∷ 2 ∷ []), record next_end { replay = window }))
receive-ratchet_example =
    receive-ratchet crypto next_keys next_keys start_end start_end next_end next_end ratchets
      ratchets refl refl refl refl tags_apart with_stun_on.0 start-Pairs refl start_keys draws 1
      (69 ∷ 2 ∷ []) window (omega arith) (omega arith) off first_is_new

mid_ratchet_drops_example :
    receive
      (ratchet_send start_end plain_aead block next_tag)
      (datagram draws 1 start_end (plain_payload draws.rand start_end (69 ∷ 2 ∷ [])))
    ≡ some (none, ratchet_send start_end plain_aead block next_tag)
mid_ratchet_drops_example =
    mid_ratchet_drops draws 1 start_end start_end plain_aead block next_tag (69 ∷ 2 ∷ [])
      start-Pairs (omega arith) (omega arith) with_stun_on.1 tags_apart off

abbrev first_datagram : List ℕ
first_datagram = datagram draws 1 start_end (plain_payload draws.rand start_end (69 ∷ 2 ∷ []))

arrives :
    receive start_end first_datagram
    ≡ some (some (69 ∷ 2 ∷ []), record start_end { replay = window })
arrives =
    receive-datagram draws 1 start_end start_end start-Pairs (omega arith) (69 ∷ 2 ∷ []) window
      start_keys (omega arith) off first_is_new

opens :
    authentic start_end first_datagram ≡ some (0, plain_payload draws.rand start_end (69 ∷ 2 ∷ []))
unfolding fresh_endpoint
opens =
    authentic-datagram draws 1 start_end start_end start-Pairs (omega arith)
      (plain_payload draws.rand start_end (69 ∷ 2 ∷ [])) start_keys
      (omega (arith, plain_payload_short draws.rand start_end (69 ∷ 2 ∷ []) off))

has_counter : HasCounter start_end first_datagram
has_counter c p e = ground (arith, opens)

represents : Represents start_end.replay []
unfolding fresh_endpoint
represents = empty-Represents

received_once_example :
    (ep2 : Endpoint) × (ep3 : Endpoint) × (receive_each
        (record start_end { replay = window })
        (first_datagram ∷ [])
      ≡ some ep2)
    × (receive ep2 first_datagram ≡ some (none, ep3))
received_once_example =
    received_once start_end [] first_datagram (69 ∷ 2 ∷ []) (record start_end { replay = window })
      (first_datagram ∷ []) represents arrives has_counter (has_counter, tt)
