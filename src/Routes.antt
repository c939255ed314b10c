-- ===== src/Routes.antt =====
-- obsidian/tun/plan.go: which routes go into the tunnel and which to the gateway. Texts are lists of
-- ASCII codes; an address is its 4 or 16 bytes, without a zone. `Netip` reads the text forms.
pub mod Planned
pub mod Wanted
pub mod Manager
mod Examples
use obsidian_vpn.Base.{
  ℕ, zero, suc, ◌+◌, ◌-◌, ◌*◌, ◌/◌, ◌^◌, List, [], ◌∷◌, ◌++◌, Bool, true, false, not, Option, none,
  some, ◌||◌, ◌&&◌, ltb, leb, ◌==◌, if◌then◌else◌, length, take, drop, replicate, map,
}
use obsidian_vpn.Base.Bytes.{at}
use obsidian_vpn.Keys.Cookies.{ip_bytes}
use obsidian_vpn.Router.{same_bytes}

pub record Prefix : Type 0 where
  pub addr : List ℕ
  pub bits : ℕ

-- `netip.ParsePrefix` and `netip.ParseAddr`, `none` for their errors.
pub record Netip : Type 0 where
  pub parse_prefix : List ℕ → Option Prefix
  pub parse_addr : List ℕ → Option (List ℕ)

-- "include" and "exclude"
abbrev pub split_mode_include : List ℕ
split_mode_include = b'i' ∷ b'n' ∷ b'c' ∷ b'l' ∷ b'u' ∷ b'd' ∷ b'e' ∷ []

abbrev pub split_mode_exclude : List ℕ
split_mode_exclude = b'e' ∷ b'x' ∷ b'c' ∷ b'l' ∷ b'u' ∷ b'd' ∷ b'e' ∷ []

-- 0.0.0.0/1 and 128.0.0.0/1
abbrev pub default_routes_v4 : List Prefix
default_routes_v4 =
    record { addr = replicate 4 0; bits = 1 } ∷ record { addr = 128 ∷ replicate 3 0; bits = 1 } ∷ []

-- ::/1 and 8000::/1
abbrev pub default_routes_v6 : List Prefix
default_routes_v6 =
    record { addr = replicate 16 0; bits = 1 }
    ∷ record { addr = 128 ∷ replicate 15 0; bits = 1 }
    ∷ []

unfoldable pub is_space : ℕ → Bool
is_space c = (leb 9 c && leb c 13) || (c == 32)

unfoldable pub trim_left : List ℕ → List ℕ
trim_left [] = []
trim_left (c ∷ cs) = let rest = trim_left cs in if is_space c then rest else c ∷ cs

-- Spaces at the end are dropped from there on.
unfoldable pub keep_text : ℕ → List ℕ → List ℕ
keep_text c [] = if is_space c then [] else c ∷ []
keep_text c (d ∷ ds) = c ∷ d ∷ ds

unfoldable pub trim_right : List ℕ → List ℕ
trim_right [] = []
trim_right (c ∷ cs) = keep_text c (trim_right cs)

-- `strings.TrimSpace`
unfoldable pub trim_space : List ℕ → List ℕ
trim_space s = trim_right (trim_left s)

-- `strings.ToLower`
unfoldable pub to_lower : List ℕ → List ℕ
to_lower = map (λ c. if leb b'A' c && leb c b'Z' then c + 32 else c)

-- `strings.TrimPrefix`
unfoldable pub trim_prefix : List ℕ → List ℕ → List ℕ
trim_prefix s prefix =
    if same_bytes (take (length prefix) s) prefix then drop (length prefix) s else s

-- `strings.TrimSuffix` of one character.
unfoldable pub trim_last : ℕ → List ℕ → List ℕ
trim_last c [] = []
trim_last c (d ∷ []) = if d == c then [] else d ∷ []
trim_last c (d ∷ e ∷ ds) = d ∷ trim_last c (e ∷ ds)

-- Up to the first of "/:?#".
unfoldable pub cut_at_mark : List ℕ → List ℕ
cut_at_mark [] = []
cut_at_mark (c ∷ cs) =
    let rest = cut_at_mark cs in
    if ((c == b'/') || (c == b':')) || ((c == b'?') || (c == b'#')) then [] else c ∷ rest

-- "http://" and "https://"
abbrev pub http : List ℕ
http = b'h' ∷ b't' ∷ b't' ∷ b'p' ∷ b':' ∷ b'/' ∷ b'/' ∷ []

abbrev pub https : List ℕ
https = b'h' ∷ b't' ∷ b't' ∷ b'p' ∷ b's' ∷ b':' ∷ b'/' ∷ b'/' ∷ []

unfoldable pub host_key : List ℕ → List ℕ
host_key raw =
    let d = trim_prefix (trim_prefix (to_lower (trim_space raw)) http) https in
    trim_last b'.' (trim_prefix (trim_prefix (cut_at_mark d) (b'*' ∷ b'.' ∷ [])) (b'.' ∷ []))

-- `netip.PrefixFrom(a, a.BitLen())`
unfoldable pub whole : List ℕ → Prefix
whole a = record { addr = a; bits = 8 * length a }

-- The first `bits` bits of the address, then zeros.
unfoldable pub mask : ℕ → List ℕ → List ℕ
mask bits [] = []
mask bits (b ∷ bs) =
    (if leb 8 bits then b else b / 2 ^ (8 - bits) * 2 ^ (8 - bits)) ∷ mask (bits - 8) bs

unfoldable pub is_4in6 : List ℕ → Bool
is_4in6 a = (length a == 16) && (length (ip_bytes a) == 4)

unfoldable pub masked : Prefix → Prefix
masked p = record p { addr = mask p.bits p.addr }

unfoldable pub normalize_prefix : Prefix → Prefix
normalize_prefix p =
    if is_4in6 p.addr
    then masked (record { addr = ip_bytes p.addr; bits = p.bits - 96 })
    else masked p

unfoldable pub by_addr : Option (List ℕ) → Option Prefix
by_addr none = none
by_addr (some a) = some (whole (ip_bytes a))

unfoldable pub by_prefix : Option Prefix → Option (List ℕ) → Option Prefix
by_prefix (some p) a = some (normalize_prefix p)
by_prefix none a = by_addr a

unfoldable pub entry_prefix : Netip → List ℕ → Option Prefix
entry_prefix n entry =
    by_prefix (n.parse_prefix (trim_space entry)) (n.parse_addr (trim_space entry))

unfoldable pub ip_to_prefix : List ℕ → Option Prefix
ip_to_prefix ip = if (length ip == 4) || (length ip == 16) then some (whole (ip_bytes ip)) else none

unfoldable pub is_valid : Prefix → Bool
is_valid p = ((length p.addr == 4) || (length p.addr == 16)) && leb p.bits (8 * length p.addr)

unfoldable pub keep : Bool → Prefix → Bool
keep ipv6 p = is_valid p && (ipv6 || (length p.addr == 4))

unfoldable pub same_prefix : Prefix → Prefix → Bool
same_prefix p q = same_bytes p.addr q.addr && (p.bits == q.bits)

-- A map from prefixes to true, as the list of its keys.
unfoldable pub has : Prefix → List Prefix → Bool
has p [] = false
has p (q ∷ qs) = same_prefix p q || has p qs

-- `addGW`; what is in gwSet is what is in viaGateway.
unfoldable pub add_gw : List Prefix → Prefix → List Prefix
add_gw gw p = if is_valid p && not (has p gw) then gw ++ p ∷ [] else gw

-- `addTun`, likewise.
unfoldable pub add_tun : List Prefix → List Prefix → Prefix → List Prefix
add_tun servers tun p =
    if (is_valid p && not (has p tun)) && not (has p servers) then tun ++ p ∷ [] else tun

unfoldable pub add_gws : List Prefix → List Prefix → List Prefix
add_gws gw [] = gw
add_gws gw (p ∷ ps) = add_gws (add_gw gw p) ps

unfoldable pub add_tuns : List Prefix → List Prefix → List Prefix → List Prefix
add_tuns servers tun [] = tun
add_tuns servers tun (p ∷ ps) = add_tuns servers (add_tun servers tun p) ps

unfoldable pub or_skip : Option Prefix → List Prefix → List Prefix
or_skip none ps = ps
or_skip (some p) ps = p ∷ ps

unfoldable pub server_prefixes : List (List ℕ) → List Prefix
server_prefixes [] = []
server_prefixes (ip ∷ ips) = or_skip (ip_to_prefix ip) (server_prefixes ips)

unfoldable pub kept : Bool → Option Prefix → List Prefix
kept ipv6 none = []
kept ipv6 (some p) = if keep ipv6 p then p ∷ [] else []

unfoldable pub resolved_prefixes : Bool → List (List ℕ) → List Prefix
resolved_prefixes ipv6 [] = []
resolved_prefixes ipv6 (ip ∷ ips) = kept ipv6 (ip_to_prefix ip) ++ resolved_prefixes ipv6 ips

unfoldable pub is_skipped : List ℕ → Bool
is_skipped [] = true
is_skipped (c ∷ cs) = c == b'#'

unfoldable pub from_entry : Bool → List (List ℕ) → Option Prefix → List Prefix
from_entry ipv6 ips (some p) = kept ipv6 (some p)
from_entry ipv6 ips none = resolved_prefixes ipv6 ips

-- `split`, of the entries.
unfoldable pub split_prefixes :
    Netip → (List ℕ → List (List ℕ)) → Bool → List (List ℕ) → List Prefix
split_prefixes n resolved ipv6 [] = []
split_prefixes n resolved ipv6 (raw ∷ entries) =
    let e = trim_space raw in
    let rest = split_prefixes n resolved ipv6 entries in
    if is_skipped e
    then rest
    else from_entry ipv6 (resolved (host_key e)) (entry_prefix n e) ++ rest

unfoldable pub dns_prefixes : Netip → Bool → List ℕ → List Prefix
dns_prefixes n ipv6 dns = kept ipv6 (by_addr (n.parse_addr (trim_space dns)))

-- The routes into the tunnel and those to the gateway; `resolved` is the map of resolved hosts.
unfoldable pub plan_routes :
    Netip
    → List ℕ
    → List (List ℕ)
    → (List ℕ → List (List ℕ))
    → List ℕ
    → List (List ℕ)
    → Bool
    → List Prefix × List Prefix
plan_routes n mode entries resolved dns server_ips ipv6 =
    let servers = server_prefixes server_ips in
    let gw = add_gws [] servers in
    let split = split_prefixes n resolved ipv6 entries in
    let dns_routes = dns_prefixes n ipv6 dns in
    let defaults = add_tuns servers (add_tuns servers [] default_routes_v4) default_routes_v6 in
    if same_bytes mode split_mode_include
    then (add_tuns servers (add_tuns servers [] split) dns_routes, gw)
    else if same_bytes mode split_mode_exclude
    then (add_tuns servers defaults dns_routes, add_gws gw split)
    else (add_tuns servers defaults dns_routes, gw)
