-- ===== src/Routes/Planned.antt =====
-- What the planner makes of its lists: every wanted route once, the server's only to the gateway.
use obsidian_vpn.Base.{
  ℕ, ◌≡◌, refl, ap, ◌∙◌, List, [], ◌∷◌, ◌++◌, Bool, true, false, not, ◌||◌, ◌&&◌, ◌==◌,
  if◌then◌else◌, arith, Bool-cases, inl, inr, ==→eq, eq→==,
}
use mathlib.Core.Path.{ap₂}
use obsidian_vpn.Router.{same_bytes}
use obsidian_vpn.Router.Keys.{same_bytes-eq, same_bytes_self}
use obsidian_vpn.Routes.{
  Prefix, Netip, default_routes_v4, default_routes_v6, split_mode_include, split_mode_exclude,
  is_valid, same_prefix, has, add_gw, add_tun, add_gws, add_tuns, server_prefixes, split_prefixes,
  dns_prefixes, plan_routes,
}

pub and_parts : (p q : Bool) → (p && q) ≡ true → (p ≡ true) × (q ≡ true)
and_parts p q h = ground arith

pub same_prefix-eq : (p q : Prefix) → same_prefix p q ≡ true → p ≡ q
unfolding same_prefix
same_prefix-eq p q h =
    let (addrs, sizes) = and_parts (same_bytes p.addr q.addr) (p.bits == q.bits) h in
    ap₂ (λ (a : List ℕ) (b : ℕ). let r : Prefix = record { addr = a; bits = b } in r)
      (same_bytes-eq p.addr q.addr addrs) (==→eq p.bits q.bits sizes)

pub same_prefix_self : (p : Prefix) → same_prefix p p ≡ true
unfolding same_prefix
same_prefix_self p = rw (same_bytes_self p.addr, eq→== p.bits p.bits refl)

same_prefix_comm : (p q : Prefix) → same_prefix p q ≡ true → same_prefix q p ≡ true
same_prefix_comm p q h = ap (λ r. same_prefix q r) (same_prefix-eq p q h) ∙ same_prefix_self q

pub has-append : (p : Prefix) (xs ys : List Prefix) → has p (xs ++ ys) ≡ (has p xs || has p ys)
unfolding has
has-append p [] ys = refl
has-append p (x ∷ xs) ys = ground (arith, has-append p xs ys)

-- What a test says of one of two prefixes that are the same, it says of the other.
has_same : (p q : Prefix) (xs : List Prefix) → same_prefix p q ≡ true → has p xs ≡ has q xs
has_same p q xs h = ap (λ r. has r xs) (same_prefix-eq p q h)

valid_same : (p q : Prefix) → same_prefix p q ≡ true → is_valid p ≡ is_valid q
valid_same p q h = ap is_valid (same_prefix-eq p q h)

one_more : (p q : Prefix) (xs : List Prefix) → has p (xs ++ q ∷ []) ≡ (has p xs || same_prefix p q)
one_more p q xs = has-append p xs (q ∷ []) ∙ (unfold has in ground arith)

has-add_gw :
    (p q : Prefix) (gw : List Prefix)
    → has p (add_gw gw q) ≡ (has p gw || (is_valid p && same_prefix p q))
unfolding add_gw
has-add_gw p q gw = elim (Bool-cases (same_prefix p q)) [
  | inl same ↦ ground (arith, has_same p q gw, valid_same p q, one_more p q gw)
  | inr apart ↦ ground (arith, one_more p q gw)
]

has-add_tun :
    (servers tun : List Prefix) (p q : Prefix)
    → has p (add_tun servers tun q)
      ≡ (has p tun || ((is_valid p && not (has p servers)) && same_prefix p q))
unfolding add_tun
has-add_tun servers tun p q = elim (Bool-cases (same_prefix p q)) [
  | inl same ↦
      ground (arith, has_same p q tun, has_same p q servers, valid_same p q, one_more p q tun)
  | inr apart ↦ ground (arith, one_more p q tun)
]

has-add_gws :
    (p : Prefix) (ps gw : List Prefix)
    → has p (add_gws gw ps) ≡ (has p gw || (is_valid p && has p ps))
unfolding add_gws has
has-add_gws p [] gw = ground arith
has-add_gws p (q ∷ ps) gw = ground (arith, has-add_gws p ps (add_gw gw q), has-add_gw p q gw)

has-add_tuns :
    (servers : List Prefix) (p : Prefix) (ps tun : List Prefix)
    → has p (add_tuns servers tun ps)
      ≡ (has p tun || ((is_valid p && not (has p servers)) && has p ps))
unfolding add_tuns has
has-add_tuns servers p [] tun = ground arith
has-add_tuns servers p (q ∷ ps) tun =
    ground (arith, has-add_tuns servers p ps (add_tun servers tun q), has-add_tun servers tun p q)

-- No prefix twice.
abbrev pub Distinct : List Prefix → Type 0
Distinct [] = Unit {0}
Distinct (p ∷ ps) = (has p ps ≡ false) × Distinct ps

more-Distinct :
    (q : Prefix) (xs : List Prefix) → has q xs ≡ false → Distinct xs → Distinct (xs ++ q ∷ [])
unfolding has
more-Distinct q [] new d = (refl, tt)
more-Distinct q (x ∷ xs) new d =
    (ground (arith, one_more x q xs, same_prefix_comm x q), more-Distinct q xs (ground arith) d.1)

add_gws-Distinct : (ps gw : List Prefix) → Distinct gw → Distinct (add_gws gw ps)
unfolding add_gws add_gw
add_gws-Distinct [] gw d = d
add_gws-Distinct (q ∷ ps) gw d = elim (Bool-cases (is_valid q && not (has q gw))) [
  | inl new ↦ rw new (add_gws-Distinct ps (gw ++ q ∷ []) (more-Distinct q gw (ground arith) d))
  | inr old ↦ rw old (add_gws-Distinct ps gw d)
]

add_tuns-Distinct :
    (servers ps tun : List Prefix) → Distinct tun → Distinct (add_tuns servers tun ps)
unfolding add_tuns add_tun
add_tuns-Distinct servers [] tun d = d
add_tuns-Distinct servers (q ∷ ps) tun d =
    elim (Bool-cases ((is_valid q && not (has q tun)) && not (has q servers))) [
      | inl new ↦
          rw new
            (add_tuns-Distinct servers ps (tun ++ q ∷ []) (more-Distinct q tun (ground arith) d))
      | inr old ↦ rw old (add_tuns-Distinct servers ps tun d)
    ]

has_nil : (p : Prefix) → has p [] ≡ false
unfolding has
has_nil p = refl

two_tuns :
    (servers : List Prefix) (p : Prefix) (xs ys : List Prefix)
    → has p (add_tuns servers (add_tuns servers [] xs) ys)
      ≡ ((is_valid p && not (has p servers)) && has p (xs ++ ys))
two_tuns servers p xs ys = ground (
  arith,
  has-add_tuns servers p ys (add_tuns servers [] xs),
  has-add_tuns servers p xs [],
  has-append p xs ys,
  has_nil p,
)

with_defaults :
    (servers : List Prefix) (p : Prefix) (ys : List Prefix)
    → has p (
        add_tuns servers
          (add_tuns servers (add_tuns servers [] default_routes_v4) default_routes_v6)
          ys)
      ≡ ((is_valid p && not (has p servers))
          && has p ((default_routes_v4 ++ default_routes_v6) ++ ys))
with_defaults servers p ys = ground (
  arith,
  has-add_tuns servers p ys
      (add_tuns servers (add_tuns servers [] default_routes_v4) default_routes_v6),
  two_tuns servers p default_routes_v4 default_routes_v6,
  has-append p (default_routes_v4 ++ default_routes_v6) ys,
)

two_gws :
    (p : Prefix) (xs ys : List Prefix)
    → has p (add_gws (add_gws [] xs) ys) ≡ (is_valid p && has p (xs ++ ys))
two_gws p xs ys =
    ground
      (arith, has-add_gws p ys (add_gws [] xs), has-add_gws p xs [], has-append p xs ys, has_nil p)

modes_apart :
    (mode : List ℕ)
    → same_bytes mode split_mode_include ≡ true
    → same_bytes mode split_mode_exclude ≡ false
modes_apart mode h =
    ap (λ m. same_bytes m split_mode_exclude) (same_bytes-eq mode split_mode_include h)
    ∙ (unfold same_bytes in refl)

module _ (n : Netip) (mode : List ℕ) (entries : List (List ℕ)) (resolved : List ℕ → List (List ℕ))
    (dns : List ℕ) (server_ips : List (List ℕ)) (ipv6 : Bool) where
  -- What is to go into the tunnel and to the gateway, whatever the order and however often.
  abbrev wanted_tun : List Prefix
  wanted_tun =
      (if same_bytes mode split_mode_include
        then split_prefixes n resolved ipv6 entries
        else default_routes_v4 ++ default_routes_v6)
      ++ dns_prefixes n ipv6 dns

  abbrev wanted_gw : List Prefix
  wanted_gw =
      server_prefixes server_ips
      ++ (if same_bytes mode split_mode_exclude then split_prefixes n resolved ipv6 entries else [])

  abbrev servers : List Prefix
  servers = server_prefixes server_ips

  abbrev split : List Prefix
  split = split_prefixes n resolved ipv6 entries

  abbrev dns_routes : List Prefix
  dns_routes = dns_prefixes n ipv6 dns

  defaults-Distinct : Distinct (
      add_tuns servers
        (add_tuns servers (add_tuns servers [] default_routes_v4) default_routes_v6)
        dns_routes)
  defaults-Distinct = add_tuns-Distinct servers dns_routes _ (
      add_tuns-Distinct servers default_routes_v6 _
        (add_tuns-Distinct servers default_routes_v4 [] tt))

  -- A prefix is routed into the tunnel exactly if it is valid, is not one of the server's addresses and is
  -- in the list that is wanted there, and to the gateway exactly if it is valid and in the other list. No
  -- result holds a prefix twice.
  pub plan_routes-has :
      (p : Prefix)
      → let (via_tun, via_gateway) = plan_routes n mode entries resolved dns server_ips ipv6 in
        (has p via_tun
          ≡ ((is_valid p && not (has p (server_prefixes server_ips))) && has p wanted_tun))
        × (has p via_gateway ≡ (is_valid p && has p wanted_gw))
        × Distinct via_tun
        × Distinct via_gateway
  unfolding plan_routes
  plan_routes-has p = elim (Bool-cases (same_bytes mode split_mode_include)) [
    | inl include ↦
        rw (include, modes_apart mode include)
          (
            two_tuns servers p split dns_routes,
            has-add_gws p servers [] ∙ (unfold has in ground (arith, has-append p servers [])),
            add_tuns-Distinct servers dns_routes (add_tuns servers [] split)
                (add_tuns-Distinct servers split [] tt),
            add_gws-Distinct servers [] tt,
          )
    | inr other ↦ elim (Bool-cases (same_bytes mode split_mode_exclude)) [
      | inl exclude ↦
          rw (other, exclude)
            (
              with_defaults servers p dns_routes,
              two_gws p servers split,
              defaults-Distinct,
              add_gws-Distinct split (add_gws [] servers) (add_gws-Distinct servers [] tt),
            )
      | inr off ↦
          rw (other, off)
            (
              with_defaults servers p dns_routes,
              has-add_gws p servers [] ∙ (unfold has in ground (arith, has-append p servers [])),
              defaults-Distinct,
              add_gws-Distinct servers [] tt,
            )
    ]
  ]
