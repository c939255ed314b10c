-- ===== src/Udp.antt =====
-- obsidian/udp.go, what both ends of the UDP transport share: the STUN and SRTP headers, the keys, the
-- nonce and the protection of the counter. AES, ChaCha20-Poly1305 and HKDF are not under the
-- repository: `Block` is one key's AES block, `Crypto` makes ciphers from keys and expands a secret.
pub mod Datagram
pub mod Channel
pub mod Sessions
pub mod Mux
mod Examples
use obsidian_vpn.Base.{
  ℕ, zero, suc, ◌+◌, ◌-◌, ◌*◌, ◌/◌, ◌%◌, ◌^◌, List, [], ◌∷◌, ◌++◌, Bool, true, false, Option, none,
  some, ◌||◌, ◌&&◌, ltb, leb, ◌==◌, if◌then◌else◌, length, take, replicate,
}
use obsidian_vpn.Base.Bytes.{at, get_u32, u16_bytes, u32_bytes, u64_bytes, xor_bytes}
use obsidian_vpn.Cipher.{Aead}
use obsidian_vpn.Keys.{SessionKeys, read_full}

abbrev pub udp_tag_size : ℕ
udp_tag_size = 4

abbrev pub udp_counter_size : ℕ
udp_counter_size = 8

abbrev pub udp_header_size : ℕ
udp_header_size = 12

abbrev pub udp_overhead : ℕ
udp_overhead = 28

abbrev pub stun_magic_cookie : ℕ
stun_magic_cookie = 0x2112a442

abbrev pub stun_header_size : ℕ
stun_header_size = 20

abbrev pub srtp_header_size : ℕ
srtp_header_size = 12

abbrev pub rtp_payload_type_opus : ℕ
rtp_payload_type_opus = 111

-- `b[0]&0xC0` of a byte is 64 times its quotient by 64, and `b[1]&0x7F` its remainder by 128.
unfoldable pub is_stun_header : List ℕ → Bool
is_stun_header b =
    if ltb (length b) stun_header_size
    then false
    else (at b 0 / 64 % 4 == 0) && (get_u32 b 4 == stun_magic_cookie)

unfoldable pub is_srtp_header : List ℕ → Bool
is_srtp_header b =
    if ltb (length b) srtp_header_size
    then false
    else (((at b 0 == 0x80) || (at b 0 / 64 % 4 == 2)) && leb 96 (at b 1 % 128))
      && leb (at b 1 % 128) 127

-- The twenty bytes written, from the draws of `Uint64` and `Uint32`.
unfoldable pub write_stun_header : ℕ → ℕ → ℕ → ℕ → List ℕ
write_stun_header msg_len msg_type draw64 draw32 =
    u16_bytes msg_type
    ++ (u16_bytes msg_len
        ++ (u32_bytes stun_magic_cookie ++ (u64_bytes draw64 ++ u32_bytes draw32)))

unfoldable pub write_srtp_header : ℕ → ℕ → ℕ → List ℕ
write_srtp_header seq ts ssrc =
    0x80 ∷ (rtp_payload_type_opus ∷ (u16_bytes seq ++ (u32_bytes ts ++ u32_bytes ssrc)))

-- `Encrypt` of an AES key: a block of sixteen bytes to its mask.
abbrev pub Block : Type 0
Block = List ℕ → List ℕ

-- `chacha20poly1305.New` and `aes.NewCipher`, `none` for their errors, and the `i`-th byte of the
-- stream of `hkdf.New` for a secret, a salt and an info.
pub record Crypto : Type 0 where
  pub new_aead : List ℕ → Option Aead
  pub new_block : List ℕ → Option Block
  pub hkdf : List ℕ → List ℕ → List ℕ → ℕ → ℕ

pub record UdpKeys : Type 0 where
  pub send_key : List ℕ
  pub recv_key : List ℕ
  pub header_key : List ℕ
  pub session_tag : List ℕ

-- "obsidian_udp_v2"
abbrev pub udp_info : List ℕ
udp_info =
    b'o' ∷ b'b' ∷ b's' ∷ b'i' ∷ b'd' ∷ b'i' ∷ b'a' ∷ b'n' ∷ b'_' ∷ b'u' ∷ b'd' ∷ b'p' ∷ b'_' ∷ b'v'
    ∷ b'2' ∷ []

unfoldable pub derive_udp_keys : Crypto → SessionKeys → Bool → UdpKeys
derive_udp_keys c sk is_client =
    let stream = c.hkdf (sk.client_key ++ sk.server_key) sk.session_id udp_info in
    let client_key = read_full stream 0 32 in
    let server_key = read_full stream 32 32 in
    record {
      send_key = if is_client then client_key else server_key;
      recv_key = if is_client then server_key else client_key;
      header_key = read_full stream 64 16;
      session_tag = take udp_tag_size sk.session_id;
    }

unfoldable pub udp_nonce : ℕ → List ℕ
udp_nonce counter = replicate 4 0 ++ u64_bytes counter

-- The counter under the mask of the sample; the mask's other bytes are not used.
unfoldable pub protect_counter : Block → List ℕ → List ℕ → List ℕ
protect_counter hp counter_buf sample = xor_bytes counter_buf (hp sample)
