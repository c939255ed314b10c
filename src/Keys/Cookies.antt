-- ===== src/Keys/Cookies.antt =====
-- obsidian/crypto.go, what a keyed hash decides: the hopping port and the handshake cookie. Times are
-- seconds; a timestamp is the 64-bit word of an int64. `max_age` counts nanoseconds, from 0 on.
pub mod Validation
use obsidian_vpn.Base.{
  ℕ, ◌+◌, ◌-◌, ◌*◌, ◌/◌, ◌%◌, ◌^◌, List, [], ◌∷◌, ◌++◌, Bool, true, false, not, Option, none, some,
  ◌||◌, ◌&&◌, ltb, leb, ◌==◌, if◌then◌else◌, length, take, drop, get_or, replicate,
}
use obsidian_vpn.Base.Bytes.{get_u32, get_u64, u64_bytes}
use obsidian_vpn.Router.{same_bytes}
use obsidian_vpn.Keys.{Primitives}

-- "obsidian_port_hop_v1"
abbrev pub hop_label : List ℕ
hop_label =
    b'o' ∷ b'b' ∷ b's' ∷ b'i' ∷ b'd' ∷ b'i' ∷ b'a' ∷ b'n' ∷ b'_' ∷ b'p' ∷ b'o' ∷ b'r' ∷ b't' ∷ b'_'
    ∷ b'h' ∷ b'o' ∷ b'p' ∷ b'_' ∷ b'v' ∷ b'1' ∷ []

-- `none` is the error for an empty pool.
unfoldable pub derive_hopping_port : Primitives → List ℕ → ℕ → List ℕ → Option ℕ
derive_hopping_port p session_id epoch [] = none
derive_hopping_port p session_id epoch (port ∷ []) = some port
derive_hopping_port p session_id epoch (port ∷ next ∷ ports) =
    let pool = port ∷ next ∷ ports in
    let val = get_u32 (p.hmac session_id (hop_label ++ u64_bytes epoch)) 0 in
    some (get_or pool (val % (length pool % 2 ^ 32)) 0)

abbrev pub cookie_size : ℕ
cookie_size = 32

abbrev pub nanosecond : ℕ
nanosecond = 1_000_000_000

-- `To4` where it is not nil: an address of four bytes, or a mapped one of sixteen.
unfoldable pub ip_bytes : List ℕ → List ℕ
ip_bytes ip =
    if (length ip == 16) && same_bytes (take 12 ip) (replicate 10 0 ++ 255 ∷ 255 ∷ [])
    then drop 12 ip
    else ip

unfoldable pub cookie_input : List ℕ → List ℕ → List ℕ → List ℕ → List ℕ
cookie_input ip eph_pub salt ts_bytes = ip_bytes ip ++ (eph_pub ++ (salt ++ ts_bytes))

unfoldable pub generate_handshake_cookie :
    Primitives → List ℕ → List ℕ → List ℕ → List ℕ → ℕ → List ℕ
generate_handshake_cookie p key ip eph_pub salt ts =
    u64_bytes ts ++ take 24 (p.hmac key (cookie_input ip eph_pub salt (u64_bytes ts)))

-- The age limit in whole seconds; one that is not positive is replaced by 30 seconds.
unfoldable pub age_limit : ℕ → ℕ
age_limit max_age = (if max_age == 0 then 30 * nanosecond else max_age) / nanosecond

-- The negation of `tsSec > now+15 || now-tsSec > limit` on int64: from 2 ^ 63 on the word stands for a
-- negative time, and the difference wraps to a negative number from 2 ^ 63 on.
unfoldable pub is_fresh : ℕ → ℕ → ℕ → Bool
is_fresh ts now limit =
    let diff = now + 2 ^ 64 - ts in
    if ltb ts (2 ^ 63)
    then not (ltb (now + 15) ts || ltb limit (now - ts))
    else if ltb diff (2 ^ 63)
    then leb diff limit
    else true

unfoldable pub validate_handshake_cookie :
    Primitives → List ℕ → List ℕ → List ℕ → List ℕ → List ℕ → ℕ → ℕ → Bool
validate_handshake_cookie p cookie key ip eph_pub salt max_age now =
    if not (length cookie == cookie_size) || (length key == 0)
    then false
    else if not (is_fresh (get_u64 cookie 0) now (age_limit max_age))
    then false
    else same_bytes (drop 8 cookie)
        (take 24 (p.hmac key (cookie_input ip eph_pub salt (take 8 cookie))))
