-- ===== src/Routes/Manager.antt =====
-- obsidian/tun/routemgr.go: the routes that the manager installs, refreshes and removes. What the
-- system answers to the commands and to lookups is an argument. `set` is a map as a function.
pub mod Installed
pub mod Course
pub mod Applied
use obsidian_vpn.Base.{
  ℕ, ◌+◌, List, [], ◌∷◌, ◌++◌, Bool, true, false, not, Option, none, some, ◌||◌, ◌&&◌, ◌==◌,
  if◌then◌else◌, length, take,
}
use mathlib.Core.List.{reverse}
use obsidian_vpn.Keys.Cookies.{ip_bytes}
use obsidian_vpn.Router.{same_bytes, put_at}
use obsidian_vpn.Routes.{
  Prefix, Netip, split_mode_include, trim_space, is_skipped, entry_prefix, host_key, same_prefix,
  plan_routes,
}

pub record Route : Type 0 where
  pub prefix : Prefix
  pub via_tun : Bool

unfoldable pub same_route : Route → Route → Bool
same_route r q = same_prefix r.prefix q.prefix && (if r.via_tun then q.via_tun else not q.via_tun)

-- What was run, and whether it succeeded.
pub data Command : Type 0 where
  added : Route → Bool → Command
  deleted : Route → Bool → Command

pub record RouteManager : Type 0 where
  pub mode : List ℕ
  pub entries : List (List ℕ)
  pub dns : List ℕ
  pub server_host : List ℕ
  pub ipv6 : Bool
  pub applied : List Route
  pub set : Route → Bool
  pub resolved : List ℕ → List (List ℕ)
  pub servers : List (List ℕ)
  pub closed : Bool
  pub commands : List Command

unfoldable pub new_route_manager : List ℕ → List (List ℕ) → List ℕ → List ℕ → Bool → RouteManager
new_route_manager mode entries dns server_host ipv6 = record {
  mode = mode;
  entries = entries;
  dns = dns;
  server_host = server_host;
  ipv6 = ipv6;
  applied = [];
  set = λ r. false;
  resolved = λ h. [];
  servers = [];
  closed = false;
  commands = [];
}

unfoldable pub after_add : Bool → RouteManager → Route → RouteManager
after_add true m r = record m {
  commands = m.commands ++ added r true ∷ [];
  set = λ q. if same_route r q then true else m.set q;
  applied = m.applied ++ r ∷ [];
}
after_add false m r = record m { commands = m.commands ++ added r false ∷ [] }

-- `works` tells whether the command with that number succeeds.
unfoldable pub add_locked : (ℕ → Bool) → RouteManager → Route → RouteManager
add_locked works m r = if m.set r then m else after_add (works (length m.commands)) m r

unfoldable pub add_all : (ℕ → Bool) → RouteManager → Bool → List Prefix → RouteManager
add_all works m via_tun [] = m
add_all works m via_tun (p ∷ ps) =
    add_all works (add_locked works m (record { prefix = p; via_tun = via_tun })) via_tun ps

unfoldable pub apply : (ℕ → Bool) → RouteManager → List Prefix × List Prefix → RouteManager
apply works m (via_tun, via_gw) =
    if m.closed then m else add_all works (add_all works m false via_gw) true via_tun

-- `Contains` of one character.
unfoldable pub contains_dot : List ℕ → Bool
contains_dot [] = false
contains_dot (c ∷ cs) = let rest = contains_dot cs in if c == b'.' then true else rest

unfoldable pub seen : List ℕ → List (List ℕ) → Bool
seen h [] = false
seen h (x ∷ xs) = same_bytes h x || seen h xs

-- The hosts to resolve and the entries that cannot be, from an entry that is a domain.
unfoldable pub add_domain :
    List ℕ → List ℕ → List (List ℕ) × List (List ℕ) → List (List ℕ) × List (List ℕ)
add_domain e h (hosts, unresolvable) =
    if length h == 0
    then (hosts, unresolvable)
    else if not (contains_dot h)
    then (hosts, unresolvable ++ e ∷ [])
    else if seen h hosts
    then (hosts, unresolvable)
    else (hosts ++ h ∷ [], unresolvable)

unfoldable pub add_entry :
    List ℕ → Option Prefix → List (List ℕ) × List (List ℕ) → List (List ℕ) × List (List ℕ)
add_entry e (some p) acc = acc
add_entry e none acc = if is_skipped e then acc else add_domain e (host_key e) acc

unfoldable pub domain_entries_from :
    Netip → List (List ℕ) × List (List ℕ) → List (List ℕ) → List (List ℕ) × List (List ℕ)
domain_entries_from n acc [] = acc
domain_entries_from n acc (raw ∷ entries) =
    let e = trim_space raw in
    domain_entries_from n (add_entry e (if is_skipped e then none else entry_prefix n e) acc)
      entries

unfoldable pub domain_entries : Netip → List (List ℕ) → List (List ℕ) × List (List ℕ)
domain_entries n entries = domain_entries_from n ([], []) entries

-- "www."
abbrev pub www : List ℕ
www = b'w' ∷ b'w' ∷ b'w' ∷ b'.' ∷ []

-- What the lookups of a host and of its www form leave in `fresh`: `none` if both fail. They run beside
-- one another, and `first` tells whether the host's own answer comes first.
unfoldable pub merged :
    Bool → Option (List (List ℕ)) → Option (List (List ℕ)) → Option (List (List ℕ))
merged first none none = none
merged first (some a) none = some a
merged first none (some b) = some b
merged first (some a) (some b) = some (if first then a ++ b else b ++ a)

unfoldable pub fresh_of :
    (List ℕ → Option (List (List ℕ))) → (List ℕ → Bool) → List ℕ → Option (List (List ℕ))
fresh_of lookup first h =
    if same_bytes (take 4 h) www then lookup h else merged (first h) (lookup h) (lookup (www ++ h))

unfoldable pub put_fresh :
    (List ℕ → List (List ℕ)) → List ℕ → Option (List (List ℕ)) → List ℕ → List (List ℕ)
put_fresh m h none = m
put_fresh m h (some ips) = put_at m h ips

unfoldable pub put_hosts :
    (List ℕ → Option (List (List ℕ)))
    → (List ℕ → Bool)
    → (List ℕ → List (List ℕ))
    → List (List ℕ)
    → List ℕ
    → List (List ℕ)
put_hosts lookup first m [] = m
put_hosts lookup first m (h ∷ hosts) =
    put_hosts lookup first (put_fresh m h (fresh_of lookup first h)) hosts

-- The first half of `refresh`, up to the lock's release: the resolved hosts, if the manager is open.
unfoldable pub resolve_hosts :
    Netip → (List ℕ → Option (List (List ℕ))) → (List ℕ → Bool) → RouteManager → RouteManager
resolve_hosts n lookup first m =
    let hosts = if length m.mode == 0 then [] else (domain_entries n m.entries).0 in
    if m.closed then m else record m { resolved = put_hosts lookup first m.resolved hosts }

-- The second half: the plan, of what was resolved, and its application.
unfoldable pub apply_plan : Netip → (ℕ → Bool) → RouteManager → RouteManager
apply_plan n works m =
    apply works m (plan_routes n m.mode m.entries m.resolved m.dns m.servers m.ipv6)

unfoldable pub refresh :
    Netip
    → (List ℕ → Option (List (List ℕ)))
    → (List ℕ → Bool)
    → (ℕ → Bool)
    → RouteManager
    → RouteManager
refresh n lookup first works m =
    if m.closed then m else apply_plan n works (resolve_hosts n lookup first m)

unfoldable pub dels : (ℕ → Bool) → ℕ → List Route → List Command
dels works k [] = []
dels works k (r ∷ rs) = deleted r (works k) ∷ dels works (k + 1) rs

-- The last route first; whether a deletion succeeds is not looked at. `close` waits for the refresher between its two critical sections.
unfoldable pub close_manager : (ℕ → Bool) → RouteManager → RouteManager
close_manager works m = if m.closed then m else record m {
  closed = true;
  commands = m.commands ++ dels works (length m.commands) (reverse m.applied);
  applied = [];
  set = λ r. false;
}

unfoldable pub if_unset : Option (List ℕ) → List ℕ → Option (List ℕ)
if_unset none a = some a
if_unset (some b) a = some b

-- `none` where no address is usable.
unfoldable pub primary_from : List (List ℕ) → Option (List ℕ) → Option (List ℕ)
primary_from [] v6 = v6
primary_from (ip ∷ ips) v6 =
    let a = ip_bytes ip in
    let skip = primary_from ips v6 in
    let later = primary_from ips (if_unset v6 a) in
    if not ((length ip == 4) || (length ip == 16))
    then skip
    else if length a == 4
    then some a
    else later

unfoldable pub primary_server : RouteManager → Option (List ℕ)
primary_server m = primary_from m.servers none
