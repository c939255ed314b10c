-- ===== src/Udp/Datagram.antt =====
-- obsidian/udp.go, one datagram: how an endpoint seals a payload into it and opens it again.
-- `Endpoint` is what UDPChannel and UDPSession both hold; their bodies of sending and receiving are
-- the same but for the STUN message type and what they do around them.
pub mod Opening
pub mod Framing
use obsidian_vpn.Base.{
  ℕ, ◌+◌, ◌-◌, ◌*◌, ◌/◌, ◌%◌, ◌^◌, List, [], ◌∷◌, ◌++◌, Bool, true, false, Option, none, some, ◌&&◌,
  ltb, leb, if◌then◌else◌, length, take, drop, slice,
}
use obsidian_vpn.Base.Bytes.{at, get_u16, get_u64, u16_bytes, u64_bytes}
use obsidian_vpn.Cipher.{Aead, Rand, fast_random_bytes}
use obsidian_vpn.Padding.{calculate_bucket_padding_with_trailer}
use obsidian_vpn.Packet.{Result, ok, err, short_buffer, panic}
use obsidian_vpn.Replay.{ReplayWindow, empty_window, check}
use obsidian_vpn.Router.{same_bytes}
use obsidian_vpn.Udp.{
  Block, Crypto, UdpKeys, is_stun_header, is_srtp_header, write_stun_header, stun_header_size,
  srtp_header_size, udp_header_size, udp_tag_size, udp_overhead, udp_nonce, protect_counter,
}

pub record Endpoint : Type 0 where
  pub enc : Aead
  pub dec : Aead
  pub prev_dec : Option Aead
  pub hp : Block
  pub prev_hp : Option Block
  pub tag : List ℕ
  pub prev_tag : List ℕ
  pub send_ctr : ℕ
  pub replay : ReplayWindow
  pub enable_stun : Bool
  pub use_bucket_padding : Bool
  pub bucket_mtu : ℕ
  pub max_trailer : ℕ

-- What is random in one call of Send: the padding's draws, and those of the STUN transaction id.
pub record SendDraws : Type 0 where
  pub rand : Rand
  pub draw64 : ℕ
  pub draw32 : ℕ

unfoldable pub pad_len : Rand → Endpoint → List ℕ → ℕ
pad_len r ep payload =
    calculate_bucket_padding_with_trailer (2 + length payload) ep.bucket_mtu ep.max_trailer
      (r.int_n (ep.max_trailer / 4 + 1))

-- `plainPayload`: framed and padded where the pooled buffer of 2048 bytes holds that.
unfoldable pub plain_payload : Rand → Endpoint → List ℕ → List ℕ
plain_payload r ep payload =
    let pad = pad_len r ep payload in
    if (ep.use_bucket_padding && ltb 0 (length payload)) && leb (2 + length payload + pad) 2048
    then u16_bytes (length payload % 2 ^ 16) ++ (payload ++ fast_random_bytes r pad)
    else payload

unfoldable pub udp_header : Endpoint → List ℕ
udp_header ep = ep.tag ++ u64_bytes ep.send_ctr

-- Tag, protected counter and ciphertext.
unfoldable pub seal_body : Endpoint → List ℕ → List ℕ
seal_body ep plain =
    let sealed = ep.enc.seal (udp_nonce ep.send_ctr) plain (udp_header ep) in
    ep.tag ++ (protect_counter ep.hp (u64_bytes ep.send_ctr) (take 16 sealed) ++ sealed)

-- `bodyLen` is a uint16, and the datagram is cut to it.
unfoldable pub with_stun : SendDraws → ℕ → List ℕ → List ℕ
with_stun d msg_type body =
    let body_len = length body % 2 ^ 16 in
    take (stun_header_size + body_len)
      (write_stun_header body_len msg_type d.draw64 d.draw32 ++ body)

unfoldable pub datagram : SendDraws → ℕ → Endpoint → List ℕ → List ℕ
datagram d msg_type ep plain =
    if ep.enable_stun then with_stun d msg_type (seal_body ep plain) else seal_body ep plain

-- `ch.sendCtr.Add(1)`
unfoldable pub take_counter : Endpoint → Endpoint
take_counter ep = record ep { send_ctr = (ep.send_ctr + 1) % 2 ^ 64 }

unfoldable pub sent_offset : Endpoint → ℕ
sent_offset ep = if ep.enable_stun then stun_header_size else 0

-- Where the receiver finds the tag.
unfoldable pub header_offset : List ℕ → ℕ
header_offset d =
    if is_stun_header d then stun_header_size else if is_srtp_header d then srtp_header_size else 0

unfoldable pub opened : ℕ → Option (List ℕ) → Option (ℕ × List ℕ)
opened ctr none = none
opened ctr (some plain) = some (ctr, plain)

-- The counter and the plaintext, by the keys of an epoch.
unfoldable pub open_body : Aead × Block → List ℕ → Option (ℕ × List ℕ)
open_body (dec, hp) packet =
    let ctr_buf = protect_counter hp (slice packet 4 12) (slice packet 12 28) in
    let ctr = get_u64 ctr_buf 0 in
    opened ctr (
      dec.unseal (udp_nonce ctr) (drop udp_header_size packet)
        (take udp_tag_size packet ++ ctr_buf))

-- The payload in a plaintext that is framed.
unfoldable pub unframe : Endpoint → List ℕ → List ℕ
unframe ep plain =
    let orig_len = get_u16 plain 0 in
    if ((ep.use_bucket_padding && leb 2 (length plain)) && ltb 0 orig_len)
      && leb orig_len (length plain - 2)
    then slice plain 2 (2 + orig_len)
    else plain

unfoldable pub checked :
    Endpoint → List ℕ → Option (Bool × ReplayWindow) → Option (Option (List ℕ) × Endpoint)
checked ep plain none = none
checked ep plain (some (false, w)) = some (none, record ep { replay = w })
checked ep plain (some (true, w)) = some (some (unframe ep plain), record ep { replay = w })

-- The payload of an authentic datagram that is new, and the window; `none` if `Check` does not end.
unfoldable pub admit : Endpoint → Option (ℕ × List ℕ) → Option (Option (List ℕ) × Endpoint)
admit ep none = some (none, ep)
admit ep (some (ctr, plain)) = checked ep plain (check ep.replay ctr)

-- The two critical sections of `RatchetEpoch`.
unfoldable pub ratchet_send : Endpoint → Aead → Block → List ℕ → Endpoint
ratchet_send ep enc hp tag = record ep { enc = enc; hp = hp; tag = tag }

unfoldable pub ratchet_recv : Endpoint → Aead → Block → List ℕ → Endpoint
ratchet_recv ep dec old_hp old_tag = record ep {
  prev_dec = some ep.dec;
  dec = dec;
  prev_hp = some old_hp;
  prev_tag = old_tag;
}

-- Without an error the whole of it, and with one nothing.
unfoldable pub ratchet_with :
    Endpoint → Option Aead → Option Aead → Option Block → List ℕ → Option Endpoint
ratchet_with ep (some enc) (some dec) (some hp) tag =
    some (ratchet_recv (ratchet_send ep enc hp tag) dec ep.hp ep.tag)
ratchet_with ep (some enc) (some dec) none tag = none
ratchet_with ep (some enc) none hp tag = none
ratchet_with ep none dec hp tag = none

unfoldable pub ratchet_epoch : Crypto → Endpoint → UdpKeys → Option Endpoint
ratchet_epoch c ep keys =
    ratchet_with ep (c.new_aead keys.send_key) (c.new_aead keys.recv_key)
      (c.new_block keys.header_key) keys.session_tag

-- The endpoint of `NewUDPChannel` and `RegisterSession`.
unfoldable pub fresh_endpoint : Aead → Aead → Block → List ℕ → Endpoint
fresh_endpoint enc dec hp tag = record {
  enc = enc;
  dec = dec;
  prev_dec = none;
  hp = hp;
  prev_hp = none;
  tag = tag;
  prev_tag = 0 ∷ 0 ∷ 0 ∷ 0 ∷ [];
  send_ctr = 0;
  replay = empty_window;
  enable_stun = true;
  use_bucket_padding = false;
  bucket_mtu = 1360;
  max_trailer = 0;
}

unfoldable pub endpoint_with : Option Aead → Option Aead → Option Block → List ℕ → Option Endpoint
endpoint_with (some enc) (some dec) (some hp) tag = some (fresh_endpoint enc dec hp tag)
endpoint_with (some enc) (some dec) none tag = none
endpoint_with (some enc) none hp tag = none
endpoint_with none dec hp tag = none

unfoldable pub new_endpoint : Crypto → UdpKeys → Option Endpoint
new_endpoint c keys =
    endpoint_with (c.new_aead keys.send_key) (c.new_aead keys.recv_key)
      (c.new_block keys.header_key) keys.session_tag
