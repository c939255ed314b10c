-- ===== src/Reality.antt =====
-- obsidian/reality.go: the authenticated session id of a TLS ClientHello, and the cache of those seen.
-- Times are whole seconds; a timestamp is the 64-bit word of an int64. Texts are ASCII.
pub mod SessionId
pub mod Once
mod Examples
use obsidian_vpn.Base.{
  ℕ, ◌+◌, ◌-◌, ◌%◌, ◌^◌, List, [], ◌∷◌, ◌++◌, Bool, true, false, not, Option, none, some, ◌||◌, ltb,
  leb, ◌==◌, if◌then◌else◌, length, take, drop,
}
use obsidian_vpn.Base.Bytes.{get_u64, u64_bytes}
use obsidian_vpn.Keys.{Primitives}
use obsidian_vpn.Router.{same_bytes}
use obsidian_vpn.Routes.{trim_space, to_lower}

abbrev pub tls_session_id_size : ℕ
tls_session_id_size = 32

abbrev pub auth_nonce_size : ℕ
auth_nonce_size = 16

abbrev pub auth_tag_size : ℕ
auth_tag_size = 8

abbrev pub default_auth_window : ℕ
default_auth_window = 30

-- "obsidian_reality_v3_session_id"
abbrev pub reality_auth_label : List ℕ
reality_auth_label =
    b'o' ∷ b'b' ∷ b's' ∷ b'i' ∷ b'd' ∷ b'i' ∷ b'a' ∷ b'n' ∷ b'_' ∷ b'r' ∷ b'e' ∷ b'a' ∷ b'l' ∷ b'i'
    ∷ b't' ∷ b'y' ∷ b'_' ∷ b'v' ∷ b'3' ∷ b'_' ∷ b's' ∷ b'e' ∷ b's' ∷ b's' ∷ b'i' ∷ b'o' ∷ b'n'
    ∷ b'_' ∷ b'i' ∷ b'd' ∷ []

unfoldable pub compute_auth_tag : Primitives → List ℕ → List ℕ → List ℕ → List ℕ
compute_auth_tag p auth_key nonce_and_ts sni =
    p.hmac auth_key (reality_auth_label ++ (nonce_and_ts ++ to_lower (trim_space sni)))

-- `nonce` is what `io.ReadFull` reads of the random source, `none` for its error.
unfoldable pub generate_session_id :
    Primitives → List ℕ → List ℕ → Option (List ℕ) → ℕ → Option (List ℕ)
generate_session_id p auth_key sni none now = none
generate_session_id p auth_key sni (some nonce) now =
    let front = nonce ++ u64_bytes now in
    some (front ++ take auth_tag_size (compute_auth_tag p auth_key front sni))

-- `-window <= diff && diff <= window`, of the word of an int64.
unfoldable pub in_window : ℕ → ℕ → Bool
in_window diff window = if ltb diff (2 ^ 63) then leb diff window else leb (2 ^ 64 - diff) window

-- A window that is not positive is given as 0.
unfoldable pub verify_session_id : Primitives → List ℕ → List ℕ → List ℕ → ℕ → ℕ → Bool
verify_session_id p session_id sni auth_key window_sec now =
    if not (length session_id == tls_session_id_size)
    then false
    else if length auth_key == 0
    then false
    else if not (
        in_window ((now + 2 ^ 64 - get_u64 (drop auth_nonce_size session_id) 0) % 2 ^ 64)
          (if window_sec == 0 then default_auth_window else window_sec))
    then false
    else same_bytes (drop 24 session_id)
        (take auth_tag_size (compute_auth_tag p auth_key (take 24 session_id) sni))

-- `seen` is the map from session ids to their ends, as a list of pairs.
pub record RealityReplayCache : Type 0 where
  pub ttl : ℕ
  pub entries : List (List ℕ × ℕ)

-- In nanoseconds, as the clock of the cache. One that is not positive is given as 0.
abbrev pub default_replay_ttl : ℕ
default_replay_ttl = 60_000_000_000

unfoldable pub new_reality_replay_cache : ℕ → RealityReplayCache
new_reality_replay_cache ttl = record {
  ttl = if ttl == 0 then default_replay_ttl else ttl;
  entries = [];
}

unfoldable pub expiry : List ℕ → List (List ℕ × ℕ) → Option ℕ
expiry key [] = none
expiry key ((k, exp) ∷ entries) =
    let rest = expiry key entries in if same_bytes k key then some exp else rest

unfoldable pub is_before : ℕ → Option ℕ → Bool
is_before now none = false
is_before now (some exp) = ltb now exp

unfoldable pub purge : ℕ → List (List ℕ × ℕ) → List (List ℕ × ℕ)
purge now [] = []
purge now ((k, exp) ∷ entries) =
    let rest = purge now entries in if ltb now exp then (k, exp) ∷ rest else rest

unfoldable pub put_expiry : List ℕ → ℕ → List (List ℕ × ℕ) → List (List ℕ × ℕ)
put_expiry key end [] = (key, end) ∷ []
put_expiry key end ((k, exp) ∷ entries) =
    let rest = put_expiry key end entries in
    if same_bytes k key then (k, end) ∷ entries else (k, exp) ∷ rest

unfoldable pub seen_or_add : RealityReplayCache → ℕ → List ℕ → Bool × RealityReplayCache
seen_or_add c now session_id =
    if not (length session_id == tls_session_id_size)
    then (false, c)
    else if is_before now (expiry session_id c.entries)
    then (true, c)
    else (
      false,
      record c {
        entries =
            put_expiry session_id (now + c.ttl)
              (if ltb 8192 (length c.entries) then purge now c.entries else c.entries);
      },
    )
