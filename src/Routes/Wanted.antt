-- ===== src/Routes/Wanted.antt =====
-- Which prefixes the planner wants where: what the entries and the DNS text name, and the IPv6 filter.
use obsidian_vpn.Base.{
  ℕ, ◌≡◌, refl, sym, ap, ◌∙◌, List, [], ◌∷◌, ◌++◌, Bool, true, false, not, Option, none, some, ◌||◌,
  ◌&&◌, ◌==◌, if◌then◌else◌, arith, Bool-cases, inl, inr, length,
}
use obsidian_vpn.Router.{same_bytes}
use obsidian_vpn.Routes.{
  Prefix, Netip, default_routes_v4, default_routes_v6, split_mode_include, split_mode_exclude,
  trim_space, host_key, entry_prefix, by_addr, ip_to_prefix, is_valid, keep, same_prefix, has,
  or_skip, server_prefixes, kept, resolved_prefixes, is_skipped, from_entry, split_prefixes,
  dns_prefixes, plan_routes,
}
use obsidian_vpn.Routes.Planned.{same_prefix-eq, has-append, Distinct, plan_routes-has}

-- What an entry names: its own prefix, or else the addresses that its host resolves to.
pub named_by : Option Prefix → List (List ℕ) → List Prefix
named_by (some q) ips = q ∷ []
named_by none ips = server_prefixes ips

-- What the entries name that are neither empty nor a comment, IPv6 or not.
pub named : Netip → (List ℕ → List (List ℕ)) → List (List ℕ) → List Prefix
named n resolved [] = []
named n resolved (raw ∷ entries) =
    let e = trim_space raw in
    (if is_skipped e then [] else named_by (entry_prefix n e) (resolved (host_key e)))
    ++ named n resolved entries

-- The address that the DNS text is, if it is one.
pub named_dns : Netip → List ℕ → List Prefix
named_dns n dns = or_skip (by_addr (n.parse_addr (trim_space dns))) []

-- IPv4, or any prefix if IPv6 is on.
pub is_allowed : Bool → Prefix → Bool
is_allowed ipv6 p = ipv6 || (length p.addr == 4)

keep_same :
    (ipv6 : Bool) (p q : Prefix)
    → same_prefix p q ≡ true
    → keep ipv6 q ≡ (is_valid p && is_allowed ipv6 p)
unfolding keep is_allowed
keep_same ipv6 p q h =
    ap (λ r. is_valid r && (ipv6 || (length r.addr == 4))) (sym (same_prefix-eq p q h))

module _ (ipv6 : Bool) (p : Prefix) where
  has-kept :
      (o : Option Prefix)
      → has p (kept ipv6 o) ≡ ((is_valid p && is_allowed ipv6 p) && has p (or_skip o []))
  unfolding kept has or_skip
  has-kept none = ground arith
  has-kept (some q) = elim (Bool-cases (same_prefix p q)) [
    | inl same ↦ ground (arith, keep_same ipv6 p q same)
    | inr apart ↦ ground arith
  ]

  or_skip_front : (o : Option Prefix) (ps : List Prefix) → or_skip o ps ≡ or_skip o [] ++ ps
  unfolding or_skip
  or_skip_front none ps = refl
  or_skip_front (some q) ps = refl

  has-resolved_prefixes :
      (ips : List (List ℕ))
      → has p (resolved_prefixes ipv6 ips)
        ≡ ((is_valid p && is_allowed ipv6 p) && has p (server_prefixes ips))
  unfolding resolved_prefixes server_prefixes has
  has-resolved_prefixes [] = ground arith
  has-resolved_prefixes (ip ∷ ips) =
      let o = ip_to_prefix ip in
      has-append p (kept ipv6 o) (resolved_prefixes ipv6 ips)
      ∙ ground (
        arith,
        has-kept o,
        has-resolved_prefixes ips,
        ap (has p) (or_skip_front o (server_prefixes ips)),
        has-append p (or_skip o []) (server_prefixes ips),
      )

  has-from_entry :
      (o : Option Prefix) (ips : List (List ℕ))
      → has p (from_entry ipv6 ips o)
        ≡ ((is_valid p && is_allowed ipv6 p) && has p (named_by o ips))
  unfolding from_entry named_by
  has-from_entry none ips = has-resolved_prefixes ips
  has-from_entry (some q) ips = has-kept (some q) ∙ (unfold or_skip in refl)

  -- What the planner takes of the entries is what they name, filtered.
  has-split_prefixes :
      (n : Netip) (resolved : List ℕ → List (List ℕ)) (entries : List (List ℕ))
      → has p (split_prefixes n resolved ipv6 entries)
        ≡ ((is_valid p && is_allowed ipv6 p) && has p (named n resolved entries))
  unfolding split_prefixes named has
  has-split_prefixes n resolved [] = ground arith
  has-split_prefixes n resolved (raw ∷ entries) =
      let e = trim_space raw in
      let ips = resolved (host_key e) in
      let rest = split_prefixes n resolved ipv6 entries in
      elim (Bool-cases (is_skipped e)) [
        | inl skip ↦ rw skip (has-split_prefixes n resolved entries)
        | inr taken ↦ rw taken (
            ground (
              arith,
              has-append p (from_entry ipv6 ips (entry_prefix n e)) rest,
              has-append p (named_by (entry_prefix n e) ips) (named n resolved entries),
              has-from_entry (entry_prefix n e) ips,
              has-split_prefixes n resolved entries,
            ))
      ]

  has-dns_prefixes :
      (n : Netip) (dns : List ℕ)
      → has p (dns_prefixes n ipv6 dns)
        ≡ ((is_valid p && is_allowed ipv6 p) && has p (named_dns n dns))
  unfolding dns_prefixes named_dns
  has-dns_prefixes n dns = has-kept (by_addr (n.parse_addr (trim_space dns)))

has_if :
    (b : Bool) (p : Prefix) (xs ys : List Prefix)
    → has p (if b then xs else ys) ≡ (if b then has p xs else has p ys)
has_if true p xs ys = refl
has_if false p xs ys = refl

-- A prefix is routed into the tunnel exactly if it is valid, is not one of the server's addresses, and
-- one of these holds: in include mode, an entry or a resolved host names it and it is IPv4 or IPv6 is on;
-- in any other mode, it is one of the four default routes, IPv6 on or off; in every mode, it is the
-- address of the DNS server and is IPv4 or IPv6 is on. It is routed to the gateway exactly if it is valid,
-- and one of the server's addresses or, in exclude mode, named by an entry or a resolved host
-- and IPv4 or with IPv6 on. No list holds a prefix twice.
pub plan_routes_iff :
    (n : Netip) (mode : List ℕ) (entries : List (List ℕ)) (resolved : List ℕ → List (List ℕ))
    (dns : List ℕ) (server_ips : List (List ℕ)) (ipv6 : Bool) (p : Prefix)
    → let (via_tun, via_gateway) = plan_routes n mode entries resolved dns server_ips ipv6 in
      (has p via_tun ≡ (
        (is_valid p && not (has p (server_prefixes server_ips)))
        && ((if same_bytes mode split_mode_include
              then is_allowed ipv6 p && has p (named n resolved entries)
              else has p (default_routes_v4 ++ default_routes_v6))
            || (is_allowed ipv6 p && has p (named_dns n dns)))))
      × (has p via_gateway ≡ (
          is_valid p
          && (has p (server_prefixes server_ips)
              || (same_bytes mode split_mode_exclude
                  && (is_allowed ipv6 p && has p (named n resolved entries))))))
      × Distinct via_tun
      × Distinct via_gateway
plan_routes_iff n mode entries resolved dns server_ips ipv6 p =
    let split = split_prefixes n resolved ipv6 entries in
    let include = same_bytes mode split_mode_include in
    let exclude = same_bytes mode split_mode_exclude in
    let (tun, gateway, tun_once, gateway_once) =
      plan_routes-has n mode entries resolved dns server_ips ipv6 p in
    let entries_in = has-split_prefixes ipv6 p n resolved entries in
    let none_in : has p [] ≡ false = unfold has in refl in
    (
      tun
          ∙ ap (λ b. (is_valid p && not (has p (server_prefixes server_ips))) && b)
              (has-append p (if include then split else default_routes_v4 ++ default_routes_v6)
                  (dns_prefixes n ipv6 dns)
                ∙ ap (λ b. b || has p (dns_prefixes n ipv6 dns))
                    (has_if include p split (default_routes_v4 ++ default_routes_v6)))
          ∙ ground (arith, entries_in, has-dns_prefixes ipv6 p n dns),
      gateway
          ∙ ap (λ b. is_valid p && b)
              (has-append p (server_prefixes server_ips) (if exclude then split else [])
                ∙ ap (λ b. has p (server_prefixes server_ips) || b) (has_if exclude p split []))
          ∙ ground (arith, entries_in, none_in),
      tun_once,
      gateway_once,
    )
