-- ===== src/Router/Routing.antt =====
-- cmd/server/tun_router.go: over any order of registrations, client packets and closings, packets go
-- to registered sessions only, and what is queued fits the session's limit.
use obsidian_vpn.Base.{
  ℕ, ◌≡◌, ◌≢◌, refl, ap, ◌∙◌, List, [], ◌∷◌, Bool, true, false, Option, none, some, ◌||◌, ◌==◌,
  arith, Bool-cases, inl, inr, eq→==,
}
use obsidian_vpn.Reject.{is_all_zero}
use obsidian_vpn.Mss.Syn.{normalize_uplink_syn}
use obsidian_vpn.Router.{
  put_at, put_of, is_active, Router, new_router, register_session, packet_endpoints, is_multicast,
  learn_address, learn_source, learn_from_client_packet, note_mtu, after_syn, write_to_tun, close,
  single_session, session_at, session_for, session_for_packet,
}
use obsidian_vpn.Router.Keys.{same_bytes_self}
use obsidian_vpn.Router.Table.{
  WellRouted, new_router-WellRouted, register_session-WellRouted, learn_address-WellRouted,
  close-WellRouted,
}

learn_source-WellRouted :
    (r : Router) (s : ℕ) (found : Option (List ℕ × List ℕ))
    → WellRouted r
    → WellRouted (learn_source r s found)
unfolding learn_source
learn_source-WellRouted r s none w = w
learn_source-WellRouted r s (some (src, dst)) w =
    elim (Bool-cases (is_all_zero src || is_multicast src)) [
      | inl bad ↦ rw bad w
      | inr usable ↦ elim (Bool-cases (is_active s r.sessions)) [
        | inr gone ↦ rw (usable, gone) w
        | inl on ↦ elim (Bool-cases (r.ips s src)) [
          | inl known ↦ rw (usable, on, known) w
          | inr fresh ↦ rw (usable, on, fresh) (learn_address-WellRouted r s src w on)
        ]
      ]
    ]

note_mtu-WellRouted : (r : Router) (s m : ℕ) → WellRouted r → WellRouted (note_mtu r s m)
unfolding note_mtu
note_mtu-WellRouted r s m w = elim (Bool-cases (m == 0)) [
  | inl zero_mtu ↦ rw zero_mtu w
  | inr some_mtu ↦ rw some_mtu (record { leads = w.leads; held = w.held; ended = w.ended })
]

after_syn-WellRouted :
    (on : Bool) (r : Router) (s : ℕ) (packet : List ℕ) (raised : ℕ × List ℕ)
    → WellRouted r
    → WellRouted (after_syn on r s packet raised).0
unfolding after_syn
after_syn-WellRouted true r s packet (m, p) w = note_mtu-WellRouted r s m w
after_syn-WellRouted false r s packet raised w = w

write_to_tun-WellRouted :
    (r : Router) (s : ℕ) (packet : List ℕ) → WellRouted r → WellRouted (write_to_tun r s packet).0
unfolding write_to_tun learn_from_client_packet
write_to_tun-WellRouted r s packet w =
    after_syn-WellRouted r.normalize_mss (learn_source r s (packet_endpoints packet)) s packet
      (normalize_uplink_syn packet) (learn_source-WellRouted r s (packet_endpoints packet) w)

single-active : (ts : List ℕ) (s : ℕ) → single_session ts ≡ some s → is_active s ts ≡ true
unfolding single_session is_active
single-active [] s e = absurd (ground arith)
single-active (t ∷ []) s e = ground arith
single-active (t ∷ u ∷ ts) s e = absurd (ground arith)

session_at-active :
    (r : Router) (o : Option ℕ) (s : ℕ)
    → ((t : ℕ) → o ≡ some t → is_active t r.sessions ≡ true)
    → session_at r o ≡ some s
    → is_active s r.sessions ≡ true
unfolding session_at
session_at-active r none s h e = single-active r.sessions s e
session_at-active r (some t) s h e = h s e

session_for-active :
    (r : Router) (found : Option (List ℕ × List ℕ)) (s : ℕ)
    → WellRouted r
    → session_for r found ≡ some s
    → is_active s r.sessions ≡ true
unfolding session_for
session_for-active r none s w e = single-active r.sessions s e
session_for-active r (some (src, dst)) s w e =
    session_at-active r (r.by_ip dst) s (λ t q. (w.leads dst t q).0) e

-- The routers that registrations, packets from clients and closings lead to, in any order. The pointer
-- to a new session is that of no registered one.
pub data Reachable (mtu : ℕ) (normalize : Bool) : Router → Type 0 where
  started : Reachable mtu normalize (new_router mtu normalize)
  registered :
      {r : Router} (s : ℕ)
      → Reachable mtu normalize r
      → is_active s r.sessions ≡ false
      → Reachable mtu normalize (register_session r s)
  wrote :
      {r : Router} (s : ℕ) (packet : List ℕ)
      → Reachable mtu normalize r
      → Reachable mtu normalize (write_to_tun r s packet).0
  ended : {r : Router} (s : ℕ) → Reachable mtu normalize r → Reachable mtu normalize (close r s)

-- In every reachable router an address leads to a session exactly when that session is registered and
-- holds the address, so that no two sessions hold one address, and a closed session is not registered.
pub Reachable-WellRouted :
    (mtu : ℕ) (normalize : Bool) (r : Router) → Reachable mtu normalize r → WellRouted r
Reachable-WellRouted mtu normalize r started = new_router-WellRouted mtu normalize
Reachable-WellRouted mtu normalize r (registered {r = before} s h fresh) =
    register_session-WellRouted before s (Reachable-WellRouted mtu normalize before h) fresh
Reachable-WellRouted mtu normalize r (wrote {r = before} s packet h) =
    write_to_tun-WellRouted before s packet (Reachable-WellRouted mtu normalize before h)
Reachable-WellRouted mtu normalize r (ended {r = before} s h) =
    close-WellRouted before s (Reachable-WellRouted mtu normalize before h)

-- In every reachable router, a packet from the TUN device goes to a registered session or to none.
pub routed_active :
    (mtu : ℕ) (normalize : Bool) (r : Router) (packet : List ℕ) (s : ℕ)
    → Reachable mtu normalize r
    → session_for_packet r packet ≡ some s
    → is_active s r.sessions ≡ true
unfolding session_for_packet
routed_active mtu normalize r packet s h e =
    session_for-active r (packet_endpoints packet) s (Reachable-WellRouted mtu normalize r h) e

close-closed : (r : Router) (s : ℕ) → (close r s).closed s ≡ true
unfolding close put_of
close-closed r s = elim (Bool-cases (r.closed s)) [
  | inl done ↦ rw done done
  | inr alive ↦ rw (alive, eq→== s s refl)
]

-- After `Close`, in every reachable router, no packet goes to the closed session.
pub closed_unrouted :
    (mtu : ℕ) (normalize : Bool) (r : Router) (s : ℕ) (packet : List ℕ)
    → Reachable mtu normalize r
    → session_for_packet (close r s) packet ≢ some s
closed_unrouted mtu normalize r s packet h e =
    let after = ended s h in
    let on = routed_active mtu normalize (close r s) packet s after e in
    let off = (Reachable-WellRouted mtu normalize (close r s) after).ended s (close-closed r s) in
    ground (arith, on, off)

learn_source-by_ip :
    (r : Router) (s : ℕ) (src dst : List ℕ)
    → WellRouted r
    → is_active s r.sessions ≡ true
    → (is_all_zero src || is_multicast src) ≡ false
    → (learn_source r s (some (src, dst))).by_ip src ≡ some s
unfolding learn_source learn_address put_at
learn_source-by_ip r s src dst w on usable = elim (Bool-cases (r.ips s src)) [
  | inl known ↦ rw (usable, on, known) (w.held src s on known)
  | inr fresh ↦ rw (usable, on, fresh, same_bytes_self src)
]

note_mtu-by_ip : (r : Router) (s m : ℕ) (a : List ℕ) → (note_mtu r s m).by_ip a ≡ r.by_ip a
unfolding note_mtu
note_mtu-by_ip r s m a = elim (Bool-cases (m == 0)) [
  | inl zero_mtu ↦ rw zero_mtu
  | inr some_mtu ↦ rw some_mtu
]

after_syn-by_ip :
    (on : Bool) (r : Router) (s : ℕ) (packet : List ℕ) (raised : ℕ × List ℕ) (a : List ℕ)
    → (after_syn on r s packet raised).0.by_ip a ≡ r.by_ip a
unfolding after_syn
after_syn-by_ip true r s packet (m, p) a = note_mtu-by_ip r s m a
after_syn-by_ip false r s packet raised a = refl

write_to_tun-by_ip :
    (r : Router) (s : ℕ) (packet a : List ℕ)
    → (write_to_tun r s packet).0.by_ip a ≡ (learn_from_client_packet r s packet).by_ip a
unfolding write_to_tun
write_to_tun-by_ip r s packet a =
    after_syn-by_ip r.normalize_mss (learn_from_client_packet r s packet) s packet
      (normalize_uplink_syn packet) a

learned :
    (r : Router) (s : ℕ) (packet src dst : List ℕ)
    → packet_endpoints packet ≡ some (src, dst)
    → (learn_from_client_packet r s packet).by_ip src
      ≡ (learn_source r s (some (src, dst))).by_ip src
unfolding learn_from_client_packet
learned r s packet src dst e = ap (λ o. (learn_source r s o).by_ip src) e

-- Once a registered session has sent a packet from a source that is neither unspecified nor
-- multicast, a packet to that address goes to this session, whoever held the address before.
pub replies_return :
    (mtu : ℕ) (normalize : Bool) (r : Router) (s : ℕ) (packet reply src dst from : List ℕ)
    → Reachable mtu normalize r
    → is_active s r.sessions ≡ true
    → packet_endpoints packet ≡ some (src, dst)
    → (is_all_zero src || is_multicast src) ≡ false
    → packet_endpoints reply ≡ some (from, src)
    → session_for_packet (write_to_tun r s packet).0 reply ≡ some s
unfolding session_for_packet session_for session_at
replies_return mtu normalize r s packet reply src dst from h on e usable e' =
    let w = Reachable-WellRouted mtu normalize r h in
    let known : (write_to_tun r s packet).0.by_ip src ≡ some s =
      write_to_tun-by_ip r s packet src
      ∙ learned r s packet src dst e
      ∙ learn_source-by_ip r s src dst w on usable in
    rw (e', known)
