-- ===== src/Tunnel/Examples.antt =====
-- A data packet, then a close packet, through the stream; the theorems at concrete inputs.
use obsidian_vpn.Base.{ℕ, ◌^◌, ◌≡◌, refl, List, [], ◌∷◌, ◌++◌, Option, some, none, false, arith}
use obsidian_vpn.Base.Bytes.{xor_bytes, get_u32, u16_bytes, u32_bytes, u64_bytes}
use obsidian_vpn.Header.{data_packet, close, default_header_config, pick, range_for}
use obsidian_vpn.Cipher.{
  fast_random_bytes, fill, random_padding_len, le_bytes, bump, encrypt, nonce,
}
use obsidian_vpn.Padding.{calculate_bucket_padding_with_trailer, padded, base_pad, fit, trailer_for}
use obsidian_vpn.Cipher.Concrete.{lowest_draws}
use obsidian_vpn.Packet.{
  Packet, encode_packet, max_pad, seal_packet, finish_encode, plain_header, xor_packet_header,
}
use obsidian_vpn.Framer.{
  frame_with_buffer, prefix_frame, frame_padding, is_data, copy_into, fast_hmac_sha256_stack,
  mask_frame_len, padding_for,
}
use obsidian_vpn.Framer.Concrete.{
  constant_sha, counting, near, far, near-far, default_data-CanSend, default_close-CanSend,
}
use obsidian_vpn.Tunnel.{
  Tunnel, Written, wrote, write_packet, write_framed, after_write, write_frame, session_expired,
  recv_loop,
}
use obsidian_vpn.Tunnel.Stream.{Sends, nothing, then_send, data_payloads, never, recv_loop-Sends}

abbrev three : List ℕ
three = 1 ∷ 2 ∷ 3 ∷ []

abbrev start : Tunnel
start = record {
  framer = near;
  limits = record { max_duration = 6; max_packets = 2 ^ 48 };
  packet_count = 0;
  cancelled = false;
}

abbrev ping : Packet
ping = record { ptype = data_packet; payload = 10 ∷ 20 ∷ [] }

abbrev bye : Packet
bye = record { ptype = close; payload = [] }

abbrev late : Packet
late = record { ptype = data_packet; payload = 30 ∷ [] }

abbrev sent_by : Option Written → List ℕ
sent_by none = []
sent_by (some w) = w.sent

abbrev tunnel_of : Option Written → Tunnel
tunnel_of none = start
tunnel_of (some w) = w.tunnel

-- The line names all that runs in it.
write : Tunnel → Packet → ℕ → Option Written
unfolding write_packet session_expired write_framed after_write write_frame near frame_with_buffer
    prefix_frame encode_packet fast_random_bytes fill random_padding_len frame_padding is_data
    calculate_bucket_padding_with_trailer padded base_pad fit trailer_for max_pad le_bytes
    seal_packet pick xor_bytes get_u32 u16_bytes u32_bytes u64_bytes bump encrypt nonce copy_into
    fast_hmac_sha256_stack mask_frame_len padding_for range_for default_header_config finish_encode
    plain_header xor_packet_header
write t p n = write_packet counting constant_sha lowest_draws 1 (wrote n ∷ []) t p.ptype p.payload

abbrev first : Option Written
first = write start ping 92

abbrev second : Option Written
second = write (tunnel_of first) bye 44

abbrev stream : List ℕ
stream = sent_by first ++ (sent_by second ++ [])

first_sent : first ≡ some (record { sent = sent_by first; error = none; tunnel = tunnel_of first })
unfolding write
first_sent = refl

second_sent :
    second ≡ some (record { sent = sent_by second; error = none; tunnel = tunnel_of second })
unfolding write
second_sent = refl

both_sent : Sends counting constant_sha start (ping ∷ bye ∷ []) stream
unfolding write
both_sent =
    then_send lowest_draws 1 (wrote 92 ∷ []) ping first_sent
      (then_send lowest_draws 1 (wrote 44 ∷ []) bye second_sent nothing)

recv_loop-Sends_example :
    (recv_loop counting constant_sha never 3 0 far stream).delivered
    ≡ data_payloads (ping ∷ bye ∷ [])
unfolding near
recv_loop-Sends_example =
    recv_loop-Sends counting constant_sha 0 default_header_config far both_sent refl near-far (
      record { can = default_data-CanSend; fits = omega arith },
      (record { can = default_close-CanSend; fits = omega arith }, tt),
    )
