-- ===== src/Routes/Examples.antt =====
-- The routes of one configuration: an IPv4 server, a resolved host, a DNS server, and their manager.
use obsidian_vpn.Base.{
  ℕ, Bool, length, ◌==◌, ◌≡◌, refl, List, [], ◌∷◌, true, false, not, Option, none, some, ◌&&◌, ◌||◌,
  if◌then◌else◌,
}
use obsidian_vpn.Keys.Cookies.{ip_bytes}
use mathlib.Core.List.{reverse}
use obsidian_vpn.Router.{same_bytes, put_at}
use obsidian_vpn.Routes.{
  Prefix, Netip, split_mode_include, is_valid, has, server_prefixes, split_prefixes, dns_prefixes,
  plan_routes, add_tuns, add_gws, kept, or_skip, by_addr, ip_to_prefix, trim_space, add_gw,
  trim_right, trim_left, whole, is_space, keep_text, keep, add_tun, is_skipped, from_entry,
  entry_prefix, by_prefix, cut_at_mark, host_key, is_4in6, mask, masked, normalize_prefix,
  resolved_prefixes, same_prefix, to_lower, trim_last, trim_prefix,
}
use obsidian_vpn.Routes.Planned.{Distinct}
use obsidian_vpn.Routes.Wanted.{is_allowed, named, named_dns, plan_routes_iff}
use obsidian_vpn.Routes.Manager.{
  Route, RouteManager, new_route_manager, apply, resolve_hosts, apply_plan, close_manager, add_all,
  add_locked, after_add, put_hosts, put_fresh, fresh_of, merged, domain_entries,
  domain_entries_from, add_entry, add_domain, contains_dot, seen, same_route,
}
use obsidian_vpn.Routes.Manager.Installed.{has_route, installed, undone, new_route_manager-IsKept}
use obsidian_vpn.Routes.Manager.Course.{
  Reach, start, then_step, serves, resolves, applies, reached_table,
}
use obsidian_vpn.Routes.Manager.Applied.{routes_of, apply_installs}

-- "9.9.9.9" is the one address that this resolver of texts reads.
abbrev dns : List ℕ
dns = b'9' ∷ b'.' ∷ b'9' ∷ b'.' ∷ b'9' ∷ b'.' ∷ b'9' ∷ []

abbrev netip : Netip
netip = record {
  parse_prefix = λ s. none;
  parse_addr = λ s. if same_bytes s dns then some (9 ∷ 9 ∷ 9 ∷ 9 ∷ []) else none;
}

-- "a.b"
abbrev host : List ℕ
host = b'a' ∷ b'.' ∷ b'b' ∷ []

abbrev entries : List (List ℕ)
entries = (b' ' ∷ host) ∷ (b'#' ∷ host) ∷ []

abbrev server : List ℕ
server = 1 ∷ 2 ∷ 3 ∷ 4 ∷ []

abbrev of_host : List ℕ → List (List ℕ)
of_host h = if same_bytes h host then (5 ∷ 6 ∷ 7 ∷ 8 ∷ []) ∷ server ∷ [] else []

abbrev lookup : List ℕ → Option (List (List ℕ))
lookup h = if same_bytes h host then some (of_host host) else none

abbrev whole_v4 : List ℕ → Prefix
whole_v4 a = record { addr = a; bits = 32 }

-- The host's address and the DNS server go into the tunnel, the server's, which the host has too, does not.
planned :
    plan_routes netip split_mode_include entries of_host dns (server ∷ []) false
    ≡ (whole_v4 (5 ∷ 6 ∷ 7 ∷ 8 ∷ []) ∷ whole_v4 (9 ∷ 9 ∷ 9 ∷ 9 ∷ []) ∷ [], whole_v4 server ∷ [])
unfolding plan_routes same_bytes add_tuns add_gws dns_prefixes server_prefixes kept or_skip by_addr
    ip_to_prefix trim_space add_gw trim_right is_valid trim_left whole is_space ip_bytes keep_text
    has keep add_tun split_prefixes is_skipped from_entry entry_prefix by_prefix cut_at_mark
    host_key is_4in6 mask masked normalize_prefix resolved_prefixes same_prefix to_lower trim_last
    trim_prefix
planned = refl

plan_routes_iff_example :
    let (via_tun, via_gateway) =
      plan_routes netip split_mode_include entries of_host dns (server ∷ []) false in
    (has (whole_v4 server) via_tun ≡ (
      (is_valid (whole_v4 server) && not (has (whole_v4 server) (server_prefixes (server ∷ []))))
      && ((is_allowed false (whole_v4 server)
            && has (whole_v4 server) (named netip of_host entries))
          || (is_allowed false (whole_v4 server) && has (whole_v4 server) (named_dns netip dns)))))
    × (has (whole_v4 server) via_gateway ≡ (
        is_valid (whole_v4 server)
        && (has (whole_v4 server) (server_prefixes (server ∷ [])) || false)))
    × Distinct via_tun
    × Distinct via_gateway
unfolding same_bytes
plan_routes_iff_example =
    plan_routes_iff netip split_mode_include entries of_host dns (server ∷ []) false
      (whole_v4 server)

abbrev fresh : RouteManager
fresh = new_route_manager split_mode_include entries dns host false

abbrev served : RouteManager
served = record fresh { servers = server ∷ [] }

abbrev all_but_second : ℕ → Bool
all_but_second k = not (k == 1)

-- The second command fails.
abbrev applied_once : RouteManager
applied_once = apply_plan netip all_but_second (resolve_hosts netip lookup (λ h. true) served)

abbrev to_server : Route
to_server = record { prefix = whole_v4 server; via_tun = false }

still_open : applied_once.closed ≡ false
unfolding apply_plan apply add_all add_locked after_add resolve_hosts new_route_manager put_hosts
    put_fresh fresh_of merged domain_entries domain_entries_from add_entry add_domain contains_dot
    seen put_at same_route plan_routes same_bytes add_tuns add_gws dns_prefixes server_prefixes kept
    or_skip by_addr ip_to_prefix trim_space add_gw trim_right is_valid trim_left whole is_space
    ip_bytes keep_text has keep add_tun split_prefixes is_skipped from_entry entry_prefix by_prefix
    cut_at_mark host_key is_4in6 mask masked normalize_prefix resolved_prefixes same_prefix to_lower
    trim_last trim_prefix
still_open = refl

abbrev reached : Reach fresh applied_once
reached =
    then_step
      (then_step (then_step start (serves fresh (server ∷ [])))
        (resolves netip lookup (λ h. true) served))
      (applies netip all_but_second (resolve_hosts netip lookup (λ h. true) served))

-- At the close no deletion succeeds, so the server's route stays in the table.
reached_table_example :
    (has_route to_server (installed applied_once) ≡ has_route to_server applied_once.applied)
    × (has_route to_server (installed applied_once) ≡ applied_once.set to_server)
    × (has_route to_server (installed (close_manager (λ k. false) applied_once)) ≡ (
        has_route to_server applied_once.applied
        && not (
            undone
              (λ k. false)
              (length applied_once.commands)
              to_server
              (reverse applied_once.applied))))
    × (has_route to_server (close_manager (λ k. false) applied_once).applied ≡ false)
    × ((close_manager (λ k. false) applied_once).set to_server ≡ false)
reached_table_example =
    reached_table split_mode_include dns host entries false applied_once
      (close_manager (λ k. false) applied_once) (λ k. false) to_server reached still_open start

apply_installs_example :
    has_route to_server
      (installed (apply (λ k. true) fresh (whole_v4 dns ∷ [], whole_v4 server ∷ [])))
    ≡ ((has_route to_server (installed fresh)
          || has_route to_server (routes_of false (whole_v4 server ∷ [])))
        || has_route to_server (routes_of true (whole_v4 dns ∷ [])))
unfolding new_route_manager
apply_installs_example =
    apply_installs (λ k. true) (λ k. refl) fresh (whole_v4 dns ∷ []) (whole_v4 server ∷ [])
      to_server refl (new_route_manager-IsKept split_mode_include dns host entries false)
