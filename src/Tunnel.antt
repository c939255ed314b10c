-- ===== src/Tunnel.antt =====
-- obsidian/obfuscation.go, the tunnel over a byte stream: session expiry, `writePacket` with its
-- write loop, and `recvLoop`. The connection is the list of bytes still to be read, or the list of
-- what its `Write` calls return; the clock and the counter shared by both directions are arguments.
pub mod Stream
pub mod Writes
mod Examples
use obsidian_vpn.Base.{
  ℕ, zero, suc, ◌+◌, ◌-◌, ◌%◌, ◌^◌, List, [], ◌∷◌, ◌++◌, Option, none, some, Bool, true, false, not,
  ltb, leb, ◌==◌, if◌then◌else◌, length, take, drop, bit_and, ◌&&◌,
}
use obsidian_vpn.Base.Bytes.{get_u32}
use obsidian_vpn.Header.{PacketType, data_packet, keepalive, noise, handshake, close, other}
use obsidian_vpn.Cipher.{Rand}
use obsidian_vpn.Packet.{Error, Result, ok, err, Keystream}
use obsidian_vpn.Framer.{Sha256, StreamFramer, frame_with_buffer, decode_frame_len}
use obsidian_vpn.Framer.Into.{Parsed, parse_frame_into}

abbrev pub max_frame_size : ℕ
max_frame_size = 65535 + 512

pub record Limits : Type 0 where
  pub max_duration : ℕ
  pub max_packets : ℕ

-- `sessionExpired`, `elapsed` being `time.Since(t.createdAt)`.
unfoldable pub session_expired : Limits → ℕ → ℕ → Bool
session_expired l elapsed count =
    if not (bit_and count 1023 == 0)
    then false
    else if ltb 0 l.max_duration && leb l.max_duration elapsed
    then true
    else ltb 0 l.max_packets && leb l.max_packets count

pub data WriteError : Type 0 where
  closed_pipe conn_failed short_write write_past_end : WriteError
  not_framed : Error → WriteError

-- What one `conn.Write` returns: the bytes taken, without an error or with one.
pub data Write : Type 0 where
  wrote : ℕ → Write
  failed : ℕ → Write

-- `writeFrameLocked`: the bytes put on the stream, and the error if any. `none` when the
-- connection's next call does not return.
unfoldable pub write_frame : List Write → List ℕ → List ℕ → Option (List ℕ × Option WriteError)
write_frame calls sent [] = some (sent, none)
write_frame [] sent (b ∷ bs) = none
write_frame (failed n ∷ calls) sent (b ∷ bs) = some (sent ++ take n (b ∷ bs), some conn_failed)
write_frame (wrote n ∷ calls) sent (b ∷ bs) =
    let rest = write_frame calls (sent ++ take n (b ∷ bs)) (drop n (b ∷ bs)) in
    if leb n 0
    then some (sent, some short_write)
    else if ltb (length (b ∷ bs)) n
    then some (sent, some write_past_end)
    else rest

-- Why `recvLoop` returned; `out_of_fuel` is no return of the program.
pub data Ended : Type 0 where
  expired read_failed invalid_length not_parsed closed_by_peer out_of_fuel : Ended

pub record Received : Type 0 where
  pub delivered : List (List ℕ)
  pub ended : Ended

abbrev deliver : List ℕ → Received → Received
deliver payload r = record r { delivered = payload ∷ r.delivered }

abbrev stop : Ended → Received
stop e = record { delivered = []; ended = e }

-- The switch on the packet's type; `rest` is what the loop goes on to receive.
unfoldable pub dispatch : PacketType → List ℕ → Received → Received
dispatch data_packet payload rest = deliver payload rest
dispatch close payload rest = stop closed_by_peer
dispatch keepalive payload rest = rest
dispatch noise payload rest = rest
dispatch handshake payload rest = rest
dispatch (other n) payload rest = rest

unfoldable pub after_parse : (StreamFramer → Received) → Result Parsed × StreamFramer → Received
after_parse go (err e, f) = stop not_parsed
after_parse go (ok p, f) = dispatch p.ptype (take p.pay_len p.written) (go f)

-- `recvLoop`. `check i` is what `sessionExpired` answers in round `i`; a payload delivered is one
-- that the consumer takes before the tunnel is cancelled.
unfoldable pub recv_loop :
    Keystream → Sha256 → (ℕ → Bool) → ℕ → ℕ → StreamFramer → List ℕ → Received
recv_loop ks sha check zero i f stream = stop out_of_fuel
recv_loop ks sha check (suc fuel) i f stream =
    let (n, f') = decode_frame_len sha f (get_u32 stream 0) in
    let body = drop 4 stream in
    let parsed = parse_frame_into ks n f' (take n body) in
    let go = λ (g : StreamFramer). recv_loop ks sha check fuel (suc i) g (drop n body) in
    let rest = after_parse go parsed in
    if check i
    then stop expired
    else if ltb (length stream) 4
    then stop read_failed
    else if ltb max_frame_size n
    then stop invalid_length
    else if ltb (length body) n
    then stop read_failed
    else rest

pub record Tunnel : Type 0 where
  pub framer : StreamFramer
  pub limits : Limits
  pub packet_count : ℕ
  pub cancelled : Bool

pub record Written : Type 0 where
  pub sent : List ℕ
  pub error : Option WriteError
  pub tunnel : Tunnel

unfoldable pub after_write : Tunnel → Option (List ℕ × Option WriteError) → Option Written
after_write t none = none
after_write t (some (sent, none)) = some (record { sent = sent; error = none; tunnel = t })
after_write t (some (sent, some e)) =
    some (record { sent = sent; error = some e; tunnel = record t { cancelled = true } })

unfoldable pub write_framed : List Write → Tunnel → Result (List ℕ) × StreamFramer → Option Written
write_framed calls t (err e, f) =
    some (record { sent = []; error = some (not_framed e); tunnel = record t { framer = f } })
write_framed calls t (ok bytes, f) =
    after_write (record t { framer = f }) (write_frame calls [] bytes)

-- `writePacket`: `elapsed` is the session's age, `calls` what the connection's writes return.
unfoldable pub write_packet :
    Keystream → Sha256 → Rand → ℕ → List Write → Tunnel → PacketType → List ℕ → Option Written
write_packet ks sha r elapsed calls t ptype payload =
    let count = (t.packet_count + 1) % 2 ^ 64 in
    let counted : Tunnel = record t { packet_count = count } in
    if session_expired t.limits elapsed count
    then some (record {
      sent = [];
      error = some closed_pipe;
      tunnel = record counted { cancelled = true };
    })
    else write_framed calls counted
        (frame_with_buffer ks sha r (4 + 8 + length payload + 256 + 16) t.framer ptype payload)
