-- ===== src/Keys.antt =====
-- obsidian/crypto.go, keys: X25519 key pairs, the session keys and their ratchet, the hopping port and
-- the handshake cookie. X25519, HKDF and HMAC-SHA256 are not under the repository: `Primitives`.
pub mod Material
pub mod Cookies
mod Examples
use obsidian_vpn.Base.{
  ℕ, zero, suc, ◌+◌, ◌-◌, ◌*◌, ◌/◌, ◌%◌, ◌^◌, ◌≡◌, List, [], ◌∷◌, ◌++◌, Bool, true, false, not,
  Option, none, some, ◌||◌, ◌&&◌, ltb, leb, ◌==◌, if◌then◌else◌, length, take, drop, slice,
  replicate, get_or, set, bit_and, bit_or, map,
}
use obsidian_vpn.Base.Bytes.{at, get_u32, get_u64, u64_bytes}
use obsidian_vpn.Cipher.{Rand, fast_random_bytes}
use obsidian_vpn.Router.{same_bytes}

abbrev pub key_size : ℕ
key_size = 32

-- `curve25519.X25519` of a scalar and a point, `none` for its error; `hmac.New` with one `Write` and
-- `Sum`, of 32 bytes; the `i`-th byte of the stream of `hkdf.New` for a secret, a salt and an info, and
-- `hkdf.Extract` of a secret and a salt.
pub record Primitives : Type 0 where
  pub x25519 : List ℕ → List ℕ → Option (List ℕ)
  pub hmac : List ℕ → List ℕ → List ℕ
  pub hkdf : List ℕ → List ℕ → List ℕ → ℕ → ℕ
  pub extract : List ℕ → List ℕ → List ℕ
  pub length-hmac : (key text : List ℕ) → length (hmac key text) ≡ 32

-- `io.ReadFull` of `n` bytes of a stream, of which `off` are read.
unfoldable pub read_full : (ℕ → ℕ) → ℕ → ℕ → List ℕ
read_full stream off zero = []
read_full stream off (suc n) = stream off ∷ read_full stream (off + 1) n

pub record Keypair : Type 0 where
  pub private : List ℕ
  pub public : List ℕ

-- `basepoint` is curve25519.Basepoint.
abbrev pub basepoint : List ℕ
basepoint = 9 ∷ replicate 31 0

unfoldable pub clamp : List ℕ → List ℕ
clamp private =
    let low = set private 0 (bit_and (at private 0) 248) in
    let high = set low 31 (bit_and (at low 31) 127) in set high 31 (bit_or (at high 31) 64)

unfoldable pub pair_with : List ℕ → Option (List ℕ) → Option Keypair
pair_with private none = none
pair_with private (some public) = some (record { private = private; public = public })

unfoldable pub keypair_from_private : Primitives → List ℕ → Option Keypair
keypair_from_private p private = pair_with (clamp private) (p.x25519 (clamp private) basepoint)

-- `random` is what rand.Reader gives, `none` for its error.
unfoldable pub generate_keypair : Primitives → Option (List ℕ) → Option Keypair
generate_keypair p none = none
generate_keypair p (some private) = pair_with (clamp private) (p.x25519 (clamp private) basepoint)

unfoldable pub zero_keypair : Keypair → Keypair
zero_keypair kp = record { private = map (λ b. 0) kp.private; public = map (λ b. 0) kp.public }

unfoldable pub dh : Primitives → List ℕ → List ℕ → Option (List ℕ)
dh p private peer_public = p.x25519 private peer_public

pub data DhError : Type 0 where
  x25519_failed zero_shared : DhError

pub data Shared : Type 0 where
  secret : List ℕ → Shared
  refused : DhError → Shared

unfoldable pub safe_shared : Option (List ℕ) → Shared
safe_shared none = refused x25519_failed
safe_shared (some shared) =
    if same_bytes shared (replicate key_size 0) then refused zero_shared else secret shared

unfoldable pub dh_safe : Primitives → List ℕ → List ℕ → Shared
dh_safe p private peer_public = safe_shared (dh p private peer_public)

pub record SessionKeys : Type 0 where
  pub client_key : List ℕ
  pub server_key : List ℕ
  pub client_iv : List ℕ
  pub server_iv : List ℕ
  pub session_id : List ℕ
  pub dynamic_magic : List ℕ

unfoldable pub zero_session_keys : SessionKeys → SessionKeys
zero_session_keys sk = record {
  client_key = map (λ b. 0) sk.client_key;
  server_key = map (λ b. 0) sk.server_key;
  client_iv = map (λ b. 0) sk.client_iv;
  server_iv = map (λ b. 0) sk.server_iv;
  session_id = map (λ b. 0) sk.session_id;
  dynamic_magic = map (λ b. 0) sk.dynamic_magic;
}

-- "obsidian_hybrid_x25519_mlkem768_v1"
abbrev pub hybrid_salt : List ℕ
hybrid_salt =
    b'o' ∷ b'b' ∷ b's' ∷ b'i' ∷ b'd' ∷ b'i' ∷ b'a' ∷ b'n' ∷ b'_' ∷ b'h' ∷ b'y' ∷ b'b' ∷ b'r' ∷ b'i'
    ∷ b'd' ∷ b'_' ∷ b'x' ∷ b'2' ∷ b'5' ∷ b'5' ∷ b'1' ∷ b'9' ∷ b'_' ∷ b'm' ∷ b'l' ∷ b'k' ∷ b'e'
    ∷ b'm' ∷ b'7' ∷ b'6' ∷ b'8' ∷ b'_' ∷ b'v' ∷ b'1' ∷ []

unfoldable pub derive_hybrid_secret : Primitives → List ℕ → List ℕ → List ℕ → List ℕ
derive_hybrid_secret p ss_x25519 ss_mlkem salt =
    p.extract (ss_x25519 ++ ss_mlkem) (if length salt == 0 then hybrid_salt else salt)

-- The six parts of 120 bytes.
unfoldable pub cut_keys : List ℕ → SessionKeys
cut_keys buf = record {
  client_key = slice buf 0 32;
  server_key = slice buf 32 64;
  client_iv = slice buf 64 76;
  server_iv = slice buf 76 88;
  session_id = slice buf 88 104;
  dynamic_magic = slice buf 104 120;
}

-- "obsidian_v2"
abbrev pub keys_info : List ℕ
keys_info = b'o' ∷ b'b' ∷ b's' ∷ b'i' ∷ b'd' ∷ b'i' ∷ b'a' ∷ b'n' ∷ b'_' ∷ b'v' ∷ b'2' ∷ []

unfoldable pub derive_keys : Primitives → List ℕ → List ℕ → List ℕ → List ℕ → SessionKeys
derive_keys p shared_secret salt client_pub server_pub =
    let stream = p.hkdf shared_secret salt (keys_info ++ (client_pub ++ server_pub)) in
    cut_keys (read_full stream 0 120)

-- "obsidian_tcp_header_v2"
abbrev pub tcp_header_info : List ℕ
tcp_header_info =
    b'o' ∷ b'b' ∷ b's' ∷ b'i' ∷ b'd' ∷ b'i' ∷ b'a' ∷ b'n' ∷ b'_' ∷ b't' ∷ b'c' ∷ b'p' ∷ b'_' ∷ b'h'
    ∷ b'e' ∷ b'a' ∷ b'd' ∷ b'e' ∷ b'r' ∷ b'_' ∷ b'v' ∷ b'2' ∷ []

-- The client's key and the server's.
unfoldable pub derive_tcp_header_keys : Primitives → SessionKeys → List ℕ × List ℕ
derive_tcp_header_keys p sk =
    let stream = p.hkdf (sk.client_key ++ sk.server_key) sk.session_id tcp_header_info in
    (read_full stream 0 32, read_full stream 32 32)

-- "obsidian_epoch_ratchet_v2"
abbrev pub epoch_info : List ℕ
epoch_info =
    b'o' ∷ b'b' ∷ b's' ∷ b'i' ∷ b'd' ∷ b'i' ∷ b'a' ∷ b'n' ∷ b'_' ∷ b'e' ∷ b'p' ∷ b'o' ∷ b'c' ∷ b'h'
    ∷ b'_' ∷ b'r' ∷ b'a' ∷ b't' ∷ b'c' ∷ b'h' ∷ b'e' ∷ b't' ∷ b'_' ∷ b'v' ∷ b'2' ∷ []

-- `none` are nil keys.
unfoldable pub derive_next_epoch_keys : Primitives → Option SessionKeys → ℕ → Option SessionKeys
derive_next_epoch_keys p none epoch = none
derive_next_epoch_keys p (some sk) epoch =
    let stream =
      p.hkdf (sk.client_key ++ (sk.server_key ++ sk.session_id)) (u64_bytes epoch ++ sk.session_id)
        epoch_info in
    some (cut_keys (read_full stream 0 120))

unfoldable pub random_padding : Rand → ℕ → ℕ → List ℕ
random_padding r min max =
    if leb max min then fast_random_bytes r min else fast_random_bytes r (min + r.int_n (max - min))
