-- ===== src/Udp/Examples/Closing.antt =====
-- Small buffers, the session table, batches and `Close`, at concrete inputs.
use obsidian_vpn.Base.{
  ℕ, ◌≡◌, ◌≢◌, refl, ◌⊎◌, inl, inr, List, [], ◌∷◌, true, false, none, some, arith, replicate,
  if◌then◌else◌, not, ◌&&◌, Bool-cases,
}
use obsidian_vpn.Cipher.Concrete.{plain_aead}
use obsidian_vpn.Router.{same_bytes, put_of}
use obsidian_vpn.Udp.{UdpKeys}
use obsidian_vpn.Udp.Datagram.{
  Endpoint, fresh_endpoint, endpoint_with, new_endpoint, ratchet_send, ratchet_recv, ratchet_with,
  ratchet_epoch,
}
use obsidian_vpn.Udp.Channel.{UdpChannel, send_with_buffer}
use obsidian_vpn.Udp.Channel.Sending.{Outcome, send_with_buffer-Outcome}
use obsidian_vpn.Udp.Sessions.{table_get, table_set, new_session_table, get-set}
use obsidian_vpn.Udp.Sessions.Map.{
  TableOp, set_op, delete_op, run_table, run_map, run_table-run_map,
}
use obsidian_vpn.Udp.Mux.{
  UdpSession, UdpMux, new_udp_mux, fresh_session, register_with, register_udp, ratchet_to,
  ratchet_session, put_session, zero_tag, close_session, session_send, failed, closed_pipe,
}
use obsidian_vpn.Udp.Mux.Closing.{ended, close_session-Ends}
use obsidian_vpn.Udp.Mux.Epochs.{first_tag_leaks}
use obsidian_vpn.Udp.Examples.{block, crypto, draws, tag, start_end, channel, session, server}

abbrev padded : UdpChannel
unfolding fresh_endpoint
padded = record channel { ep = record start_end { use_bucket_padding = true } }

send_with_buffer-Outcome_example :
    Outcome 300 300 draws padded
      (replicate 100 1)
      (send_with_buffer 300 300 draws padded (replicate 100 1))
send_with_buffer-Outcome_example =
    send_with_buffer-Outcome 300 300 draws padded (replicate 100 1) (omega arith)

-- Two sessions, and the first one's tag taken again.
abbrev ops : List TableOp
ops = set_op tag 1 ∷ set_op (replicate 4 8) 2 ∷ delete_op tag ∷ []

run_table-run_map_example :
    table_get (run_table new_session_table ops) tag ≡ run_map (λ t. none) ops tag
run_table-run_map_example = run_table-run_map ops tag

new_is_empty : (o : List ℕ) → table_get new_session_table o ≡ none
unfolding table_get new_session_table
new_is_empty o = refl

only_its_tag :
    (o : List ℕ)
    → table_get server.table o ≡ some 1
    → (same_bytes session.ep.tag o ≡ true)
      ⊎ ((zero_tag session.ep.prev_tag ≡ false) × (same_bytes session.ep.prev_tag o ≡ true))
unfolding fresh_session fresh_endpoint
only_its_tag o e = elim (Bool-cases (same_bytes tag o)) [
  | inl same ↦ inl same
  | inr apart ↦ absurd (ground (arith, get-set new_session_table tag o 1, new_is_empty o))
]

close_session-Ends_example :
    (table_get (close_session server 1 session).table tag ≢ some 1)
    × (table_get (close_session server 1 session).table tag ≡ (
        if not (zero_tag session.ep.prev_tag) && same_bytes session.ep.prev_tag tag
        then none
        else if same_bytes session.ep.tag tag
        then none
        else table_get server.table tag))
    × ((close_session server 1 session).session 1 ≡ some (ended session))
    × (session_send draws 3 (ended session) (69 ∷ []) ≡ (failed closed_pipe, ended session))
unfolding fresh_session
close_session-Ends_example =
    close_session-Ends draws server 1 session (69 ∷ []) tag refl only_its_tag

-- Three epochs.
abbrev keys_of : ℕ → UdpKeys
keys_of n = record {
  send_key = replicate 32 n;
  recv_key = replicate 32 n;
  header_key = replicate 16 n;
  session_tag = replicate 4 n;
}

abbrev end_of : ℕ → Endpoint → Endpoint
unfolding ratchet_recv ratchet_send
end_of n ep =
    ratchet_recv (ratchet_send ep plain_aead block (replicate 4 n)) plain_aead block ep.tag

abbrev second_session : UdpSession
second_session = record session { ep = end_of 8 start_end }

abbrev second_server : UdpMux
second_server = record server {
  table = table_set server.table (replicate 4 8) 1;
  session = put_of server.session 1 (some second_session);
}

abbrev third_session : UdpSession
third_session = record session { ep = end_of 9 (end_of 8 start_end) }

abbrev third_server : UdpMux
third_server = record second_server {
  table = table_set second_server.table (replicate 4 9) 1;
  session = put_of second_server.session 1 (some third_session);
}

registers : register_udp crypto (new_udp_mux 3) 1 (keys_of 7) ≡ some server
unfolding register_udp register_with new_udp_mux new_endpoint endpoint_with fresh_endpoint
registers = refl

ratchets_once : ratchet_session crypto server 1 session (keys_of 8) ≡ some second_server
unfolding ratchet_session ratchet_to ratchet_epoch ratchet_with put_session fresh_session
    fresh_endpoint ratchet_recv ratchet_send
ratchets_once = refl

ratchets_twice :
    ratchet_session crypto second_server 1 second_session (keys_of 9) ≡ some third_server
unfolding ratchet_session ratchet_to ratchet_epoch ratchet_with put_session fresh_session
    fresh_endpoint ratchet_recv ratchet_send
ratchets_twice = refl

stored :
    (server.session 1 ≡ some session)
    × (second_server.session 1 ≡ some second_session)
    × (third_server.session 1 ≡ some third_session)
unfolding put_of
stored = (refl, refl, refl)

apart : (same_bytes (replicate 4 8) tag ≡ false) × (same_bytes (replicate 4 9) tag ≡ false)
unfolding same_bytes
apart = (refl, refl)

first_tag_leaks_example : table_get (close_session third_server 1 third_session).table tag ≡ some 1
first_tag_leaks_example =
    first_tag_leaks crypto 1 (new_udp_mux 3) server second_server third_server (keys_of 7)
      (keys_of 8) (keys_of 9) session second_session third_session registers stored.0 ratchets_once
      stored.1 ratchets_twice stored.2 apart.0 apart.1
