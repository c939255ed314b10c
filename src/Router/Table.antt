-- ===== src/Router/Table.antt =====
-- cmd/server/tun_router.go: the addresses and the sessions agree, and every operation keeps that.
use obsidian_vpn.Base.{
  ℕ, ◌≡◌, ◌≢◌, refl, ap, sym, subst, ◌∙◌, List, Bool, true, false, Option, none, some, ◌==◌,
  if◌then◌else◌, arith, Bool-cases, inl, inr, ==→eq, eq→==, ne→==, ==_false→ne,
}
use obsidian_vpn.Router.{
  same_bytes, put_at, put_of, is_active, remove, Router, register_session, taken_from,
  learn_address, unrouted, close, new_router,
}
use obsidian_vpn.Router.Keys.{
  same_bytes_self, same_bytes-eq, is_active-remove_self, is_active-remove_ne,
}

-- An address leads to a session exactly when that session is registered and holds the address; a
-- closed session is not registered.
pub record WellRouted (r : Router) : Type 0 where
  pub leads :
      (a : List ℕ) (s : ℕ)
      → r.by_ip a ≡ some s
      → (is_active s r.sessions ≡ true) × (r.ips s a ≡ true)
  pub held :
      (a : List ℕ) (s : ℕ) → is_active s r.sessions ≡ true → r.ips s a ≡ true → r.by_ip a ≡ some s
  pub ended : (s : ℕ) → r.closed s ≡ true → is_active s r.sessions ≡ false

pub new_router-WellRouted : (mtu : ℕ) (normalize : Bool) → WellRouted (new_router mtu normalize)
unfolding new_router is_active
new_router-WellRouted mtu normalize = record {
  leads = λ a s e. absurd (ground arith);
  held = λ a s e. absurd (ground arith);
  ended = λ s e. refl;
}

other_than : (s t : ℕ) (ts : List ℕ) → is_active s ts ≡ false → is_active t ts ≡ true → s ≢ t
other_than s t ts p q e = ground (arith, ap (λ u. is_active u ts) e)

pub register_session-WellRouted :
    (r : Router) (s : ℕ)
    → WellRouted r
    → is_active s r.sessions ≡ false
    → WellRouted (register_session r s)
unfolding register_session is_active put_of
register_session-WellRouted r s w fresh = record {
  leads = λ a t e.
      let (active, has) = w.leads a t e in
      let ne = other_than s t r.sessions fresh active in
      let ne' = ne→== t s (λ q. ne (sym q)) in rw (ne→== s t ne, ne') (active, has);
  held = λ a t active has. ground (arith, w.held a t);
  ended = λ t e. ground (arith, w.ended t);
}

-- Taking an address from its last session changes nothing else.
taken_elsewhere :
    (ips : ℕ → List ℕ → Bool) (s : ℕ) (src : List ℕ) (o : Option ℕ) (t : ℕ) (a : List ℕ)
    → same_bytes src a ≡ false
    → taken_from ips s src o t a ≡ ips t a
unfolding taken_from put_of put_at
taken_elsewhere ips s src none t a h = refl
taken_elsewhere ips s src (some prev) t a h = ground arith

taken_away :
    (ips : ℕ → List ℕ → Bool) (s : ℕ) (src : List ℕ) (o : Option ℕ) (t : ℕ)
    → s ≢ t
    → taken_from ips s src o t src ≡ true
    → (ips t src ≡ true) × (o ≢ some t)
unfolding taken_from put_of put_at
taken_away ips s src none t ne h = (h, λ e. ground (arith))
taken_away ips s src (some prev) t ne h = let self = same_bytes_self src in ground arith

-- What `s` holds after it was given `src`.
given :
    (ips : ℕ → List ℕ → Bool) (s : ℕ) (src : List ℕ) (t : ℕ) (a : List ℕ)
    → same_bytes src a ≡ true
    → s ≡ t
    → put_of ips s (put_at (ips s) src true) t a ≡ true
unfolding put_of put_at
given ips s src t a same e = rw (eq→== s t e, same)

given_other :
    (ips : ℕ → List ℕ → Bool) (s : ℕ) (src : List ℕ) (t : ℕ) (a : List ℕ)
    → (s == t) ≡ false
    → put_of ips s (put_at (ips s) src true) t a ≡ ips t a
unfolding put_of
given_other ips s src t a e = rw e

given_elsewhere :
    (ips : ℕ → List ℕ → Bool) (s : ℕ) (src : List ℕ) (t : ℕ) (a : List ℕ)
    → same_bytes src a ≡ false
    → put_of ips s (put_at (ips s) src true) t a ≡ ips t a
unfolding put_of put_at
given_elsewhere ips s src t a apart = elim (Bool-cases (s == t)) [
  | inl same ↦ rw (same, apart) (ap (λ u. ips u a) (==→eq s t same))
  | inr other ↦ rw other
]

pub learn_address-WellRouted :
    (r : Router) (s : ℕ) (src : List ℕ)
    → WellRouted r
    → is_active s r.sessions ≡ true
    → WellRouted (learn_address r s src)
unfolding learn_address put_at
learn_address-WellRouted r s src w active =
    let ips = taken_from r.ips s src (r.by_ip src) in
    let after : (t : ℕ) (a : List ℕ)
        → same_bytes src a ≡ false
        → put_of ips s (put_at (ips s) src true) t a ≡ r.ips t a =
      λ t a apart.
        given_elsewhere ips s src t a apart ∙ taken_elsewhere r.ips s src (r.by_ip src) t a apart in
    record {
      leads = λ a t e. elim (Bool-cases (same_bytes src a)) [
        | inl same ↦
            let here : s ≡ t = ground arith in
            (subst (λ u. is_active u r.sessions ≡ true) here active, given ips s src t a same here)
        | inr apart ↦
            let old : r.by_ip a ≡ some t = ground arith in
            let (on, has) = w.leads a t old in (on, after t a apart ∙ has)
      ];
      held = λ a t on has. elim (Bool-cases (same_bytes src a)) [
        | inl same ↦ elim (Bool-cases (s == t)) [
          | inl own ↦ rw same (ap some (==→eq s t own))
          | inr other ↦
              let e = same_bytes-eq src a same in
              let still : ips t src ≡ true =
                ap (ips t) e ∙ sym (given_other ips s src t a other) ∙ has in
              let (had, gone) =
                taken_away r.ips s src (r.by_ip src) t (==_false→ne s t other) still in
              absurd (gone (w.held src t on had))
        ]
        | inr apart ↦ rw apart (w.held a t on (sym (after t a apart) ∙ has))
      ];
      ended = w.ended;
    }

unrouted-some : (s t : ℕ) (o : Option ℕ) → unrouted s o ≡ some t → (o ≡ some t) × (t ≢ s)
unfolding unrouted
unrouted-some s t none e = absurd (ground arith)
unrouted-some s t (some u) e = ground arith

unrouted_other : (s t : ℕ) (o : Option ℕ) → o ≡ some t → t ≢ s → unrouted s o ≡ some t
unfolding unrouted
unrouted_other s t none e h = e
unrouted_other s t (some u) e h = ground arith

still_led :
    (r : Router) (s t : ℕ) (a : List ℕ)
    → WellRouted r
    → (if r.ips s a then unrouted s (r.by_ip a) else r.by_ip a) ≡ some t
    → (r.by_ip a ≡ some t) × (t ≢ s)
still_led r s t a w e = elim (Bool-cases (r.ips s a)) [
  | inl has ↦ unrouted-some s t (r.by_ip a) (sym (rw has) ∙ e)
  | inr lacks ↦
      let old : r.by_ip a ≡ some t = ground arith in
      let (on, has) = w.leads a t old in (old, λ q. ground (arith, ap (λ u. r.ips u a) q))
]

led_elsewhere :
    (r : Router) (s t : ℕ) (a : List ℕ)
    → r.by_ip a ≡ some t
    → t ≢ s
    → (if r.ips s a then unrouted s (r.by_ip a) else r.by_ip a) ≡ some t
led_elsewhere r s t a old ne = elim (Bool-cases (r.ips s a)) [
  | inl has ↦ rw has (unrouted_other s t (r.by_ip a) old ne)
  | inr lacks ↦ rw lacks old
]

pub close-WellRouted : (r : Router) (s : ℕ) → WellRouted r → WellRouted (close r s)
unfolding close put_of
close-WellRouted r s w = elim (Bool-cases (r.closed s)) [
  | inl done ↦ rw done w
  | inr alive ↦ rw alive (record {
    leads = λ a t e.
        let (old, ne) = still_led r s t a w e in
        let (on, has) = w.leads a t old in
        (is_active-remove_ne s t r.sessions (λ q. ne (sym q)) ∙ on, has);
    held = λ a t on has.
        let ne = other_than s t (remove s r.sessions) (is_active-remove_self s r.sessions) on in
        let old = w.held a t (sym (is_active-remove_ne s t r.sessions ne) ∙ on) has in
        led_elsewhere r s t a old (λ q. ne (sym q));
    ended = λ t e. elim (Bool-cases (s == t)) [
      | inl own ↦
          subst (λ u. is_active u (remove s r.sessions) ≡ false) (==→eq s t own)
            (is_active-remove_self s r.sessions)
      | inr other ↦
          let was : r.closed t ≡ true = ground arith in
          is_active-remove_ne s t r.sessions (==_false→ne s t other) ∙ w.ended t was
    ];
  })
]
