-- ===== src/Framer/Examples.antt =====
-- The framer's theorems at a concrete sender and receiver.
use obsidian_vpn.Base.{ℕ, ◌+◌, ◌%◌, ◌^◌, ◌≤◌, ◌≡◌, List, [], ◌∷◌, ◌++◌, arith, length, replicate}
use obsidian_vpn.Base.Bytes.{get_u32}
use obsidian_vpn.Header.{data_packet}
use obsidian_vpn.Cipher.Concrete.{lowest_draws}
use obsidian_vpn.Packet.{ok}
use obsidian_vpn.Framer.{frame_with_buffer, decode_frame_len, parse_frame}
use obsidian_vpn.Framer.Concrete.{constant_sha, counting, near, far, near-far, near-CanSend}
use obsidian_vpn.Framer.Sync.{InSync, frame-InSync, sender_after, receiver_after}
use obsidian_vpn.Framer.Into.{parse_frame_into, framer_result, parse_frame_into-parse_frame}

frame-InSync_example :
    (head pkt : List ℕ) × (frame_with_buffer counting constant_sha lowest_draws 400 near data_packet
        (1 ∷ 2 ∷ [])
      ≡ (ok (head ++ pkt), sender_after near))
    × (length head ≡ 4)
    × (length (head ++ pkt) ≤ 400)
    × (decode_frame_len constant_sha far (get_u32 (head ++ pkt) 0)
        ≡ (length pkt, record far { dec_frame_ctr = (far.dec_frame_ctr + 1) % 2 ^ 64 }))
    × (parse_frame counting (record far { dec_frame_ctr = (far.dec_frame_ctr + 1) % 2 ^ 64 }) pkt
        ≡ (ok (record { ptype = data_packet; payload = 1 ∷ 2 ∷ [] }), receiver_after far))
    × InSync (sender_after near) (receiver_after far)
frame-InSync_example =
    frame-InSync counting constant_sha lowest_draws 400 near far data_packet (1 ∷ 2 ∷ []) near-far
      near-CanSend (omega arith) (omega arith)

parse_frame_into-parse_frame_example :
    framer_result (parse_frame_into counting 100 far (replicate 40 3))
    ≡ parse_frame counting far (replicate 40 3)
parse_frame_into-parse_frame_example =
    parse_frame_into-parse_frame counting 100 far (replicate 40 3) (omega arith)
