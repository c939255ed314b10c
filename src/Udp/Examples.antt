-- ===== src/Udp/Examples.antt =====
-- The UDP transport at concrete keys: a client channel, the server's session for it, and the theorems.
mod Epochs
mod Closing
use obsidian_vpn.Base.{
  ℕ, ◌+◌, ◌<◌, ◌≡◌, ◌≢◌, refl, inl, inr, List, [], ◌∷◌, Bool, true, false, Option, none, some,
  arith, replicate, if◌then◌else◌, not, ◌&&◌, length, take,
}
use obsidian_vpn.Cipher.{Aead, Rand}
use obsidian_vpn.Cipher.Concrete.{plain_aead, lowest_draws}
use obsidian_vpn.Packet.{Result, ok, err, panic}
use obsidian_vpn.Replay.{ReplayWindow, empty_window, check, check_fuel, mark, is_marked}
use obsidian_vpn.Replay.Refinement.{empty-Represents}
use obsidian_vpn.Router.{same_bytes, put_at, put_of}
use obsidian_vpn.Keys.{SessionKeys, read_full}
use obsidian_vpn.Udp.{Block, Crypto, UdpKeys, derive_udp_keys}
use obsidian_vpn.Udp.Datagram.{
  Endpoint, SendDraws, fresh_endpoint, endpoint_with, new_endpoint, plain_payload, datagram,
  take_counter,
}
use obsidian_vpn.Udp.Channel.{
  UdpAddr, UdpChannel, channel_on, new_udp_channel, recv, send, send_with_buffer, receive, keys_for,
}
use obsidian_vpn.Udp.Channel.Delivery.{Pairs, FitsBucket}
use obsidian_vpn.Udp.Sessions.{new_session_table, shard_for, table_get, table_set}
use obsidian_vpn.Udp.Mux.Lookup.{IsRouted}
use obsidian_vpn.Udp.Mux.Delivery.{taken, handle_datagram-send, recv-session_send}
use obsidian_vpn.Udp.Mux.{
  put_session, session_send, written, or_current, UdpSession, UdpMux, new_udp_mux, fresh_session,
  register_with, register_udp, handle_datagram,
}
use obsidian_vpn.Udp.Mux.Start.{derive_udp_keys_mirror, first_payload_arrives}

-- The mask of every sample.
abbrev block : Block
block sample = replicate 16 0x5a

abbrev crypto : Crypto
crypto = record {
  new_aead = λ key. some plain_aead;
  new_block = λ key. some block;
  hkdf = λ secret salt info i. i;
}

abbrev session_keys : SessionKeys
session_keys = record {
  client_key = replicate 32 1;
  server_key = replicate 32 2;
  client_iv = replicate 12 3;
  server_iv = replicate 12 4;
  session_id = replicate 16 7;
  dynamic_magic = replicate 16 6;
}

abbrev draws : SendDraws
draws = record { rand = lowest_draws; draw64 = 11; draw32 = 12 }

abbrev tag : List ℕ
tag = replicate 4 7

abbrev start_end : Endpoint
unfolding fresh_endpoint
start_end = fresh_endpoint plain_aead plain_aead block tag

abbrev channel : UdpChannel
channel = record { ep = start_end; dest_addr = none; last_auth_recv_nano = 0 }

abbrev address : UdpAddr
address = record { ip = 10 ∷ 0 ∷ 0 ∷ 2 ∷ []; port = 4000; zone = [] }

made_channel : new_udp_channel crypto (derive_udp_keys crypto session_keys true) ≡ some channel
unfolding new_udp_channel channel_on new_endpoint endpoint_with derive_udp_keys fresh_endpoint
    read_full
made_channel = refl

abbrev session : UdpSession
session = fresh_session 3 start_end

abbrev server : UdpMux
server = record {
  conn = 3;
  listeners = 3 ∷ [];
  table = table_set new_session_table tag 1;
  mru_session = some 1;
  session = put_of (λ s. none) 1 (some session);
}

made_server :
    register_udp crypto (new_udp_mux 3) 1 (derive_udp_keys crypto session_keys false) ≡ some server
unfolding register_udp register_with new_udp_mux new_endpoint endpoint_with derive_udp_keys
    fresh_endpoint read_full
made_server = refl

first_payload_arrives_example :
    (x : List ℕ) × (m : UdpMux) × (v : UdpSession) × ((send 2048 draws channel (69 ∷ 1 ∷ [])).0
      ≡ ok (none, x))
    × (handle_datagram draws server 4 address x ≡ some ([], m))
    × (m.session 1 ≡ some v)
    × (v.data_in ≡ (69 ∷ 1 ∷ []) ∷ [])
    × (v.client_addr ≡ some address)
    × (v.active_conn ≡ some 4)
first_payload_arrives_example =
    first_payload_arrives crypto session_keys channel (new_udp_mux 3) server 1 draws draws 2048 4
      address 69 (1 ∷ []) refl made_channel made_server (omega arith) (omega arith)

derive_udp_keys_mirror_example :
    let mine = derive_udp_keys crypto session_keys true in
    let theirs = derive_udp_keys crypto session_keys false in
    (mine.send_key ≡ theirs.recv_key)
    × (mine.recv_key ≡ theirs.send_key)
    × (mine.header_key ≡ theirs.header_key)
    × (mine.session_tag ≡ theirs.session_tag)
    × (length mine.send_key ≡ 32)
    × (length mine.recv_key ≡ 32)
    × (length mine.header_key ≡ 16)
    × (length mine.session_tag ≡ 4)
derive_udp_keys_mirror_example = derive_udp_keys_mirror crypto session_keys true refl

start-Pairs : Pairs start_end start_end
unfolding fresh_endpoint
start-Pairs = record { four = refl; within = omega arith; plain = inl refl; same = refl }

start_keys : keys_for start_end start_end.tag ≡ some (start_end.enc, start_end.hp)
unfolding keys_for fresh_endpoint same_bytes
start_keys = refl

-- The window after the first datagram.
abbrev window : ReplayWindow
window = record { max_seq = 0; bitmap = mark empty_window.bitmap 0 }

first_is_new : check start_end.replay start_end.send_ctr ≡ some (true, window)
unfolding check check_fuel is_marked fresh_endpoint
first_is_new = refl

start-IsRouted : IsRouted server start_end.tag 1
unfolding table_get table_set put_of put_at shard_for same_bytes fresh_endpoint
start-IsRouted = record { listed = refl; alone = λ o e other. absurd (other (cc e)) }

-- A session that has seen its client.
abbrev met : UdpSession
met = record session { client_addr = some address }

here : server.session 1 ≡ some session
unfolding put_of
here = refl

off : FitsBucket start_end (69 ∷ 2 ∷ [])
unfolding fresh_endpoint
off = inl refl

handle_datagram-send_example :
    (x : List ℕ) × ((send 2048 draws channel (69 ∷ 2 ∷ [])).0 ≡ ok (none, x))
    × (handle_datagram draws server 4 address x
        ≡ some (
          [],
          put_session
              (record server { mru_session = some 1 })
              1
              (taken session window address 4 (69 ∷ 2 ∷ [])),
        ))
unfolding fresh_session
handle_datagram-send_example =
    handle_datagram-send draws draws channel server 1 4 address session here start-IsRouted
      start_keys start-Pairs 2048 69 (2 ∷ []) window (omega arith) (omega arith) off first_is_new

recv-session_send_example :
    (x : List ℕ) × (session_send draws 3 met (69 ∷ 2 ∷ [])
      ≡ (written 3 address x, record met { ep = take_counter met.ep }))
    × (recv (λ left. 50 + left) channel (x ∷ [] ∷ [])
        ≡ some (
          some (69 ∷ 2 ∷ []),
          record channel { ep = record start_end { replay = window }; last_auth_recv_nano = 51 },
          [] ∷ [],
        ))
unfolding fresh_session or_current
recv-session_send_example =
    recv-session_send draws channel 3 address met start_keys start-Pairs (λ left. 50 + left) 69
      (2 ∷ []) window ([] ∷ []) refl refl (omega arith) off first_is_new
