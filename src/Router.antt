-- ===== src/Router.antt =====
-- cmd/server/tun_router.go: which session a packet from the TUN device goes to, and what the sessions
-- learn from the packets of their clients.
pub mod Keys
pub mod Table
pub mod Routing
pub mod Examples
use obsidian_vpn.Base.{
  ℕ, zero, suc, ◌+◌, ◌/◌, ◌≤◌, min, max, List, [], ◌∷◌, ◌++◌, take, replicate, Bool, true, false,
  Option, none, some, ◌||◌, ◌&&◌, not, ltb, ◌==◌, if◌then◌else◌, length, slice,
}
use obsidian_vpn.Base.Bytes.{at}
use obsidian_vpn.Reject.{is_all_zero}
use obsidian_vpn.Mss.Syn.{normalize_uplink_syn, clamp_downlink_syn}
use obsidian_vpn.Mss.Segments.{split_tcp}
use obsidian_vpn.Mss.Fragments.{fragment_ipv4}

-- An address is its 4 or 16 bytes.
unfoldable pub same_bytes : List ℕ → List ℕ → Bool
same_bytes [] [] = true
same_bytes [] (b ∷ ys) = false
same_bytes (a ∷ xs) [] = false
same_bytes (a ∷ xs) (b ∷ ys) = let rest = same_bytes xs ys in (a == b) && rest

-- A write to a map from addresses.
unfoldable pub put_at {ℓ} : {A : Type ℓ} → (List ℕ → A) → List ℕ → A → List ℕ → A
put_at m key v a = if same_bytes key a then v else m a

unfoldable pub put_of {ℓ} : {A : Type ℓ} → (ℕ → A) → ℕ → A → ℕ → A
put_of m key v s = if key == s then v else m s

unfoldable pub is_active : ℕ → List ℕ → Bool
is_active s [] = false
is_active s (t ∷ ts) = let rest = is_active s ts in if s == t then true else rest

unfoldable pub remove : ℕ → List ℕ → List ℕ
remove s [] = []
remove s (t ∷ ts) = let rest = remove s ts in if s == t then rest else t ∷ rest

-- Sessions are pointers, here numbers. The fields of a session are maps from its number.
pub record Router : Type 0 where
  pub sessions : List ℕ
  pub by_ip : List ℕ → Option ℕ
  pub ips : ℕ → List ℕ → Bool
  pub closed : ℕ → Bool
  pub mtu : ℕ → ℕ
  pub tunnel_mtu : ℕ
  pub normalize_mss : Bool

unfoldable pub new_router : ℕ → Bool → Router
new_router tunnel_mtu normalize = record {
  sessions = [];
  by_ip = λ a. none;
  ips = λ s a. false;
  closed = λ s. false;
  mtu = λ s. 0;
  tunnel_mtu = tunnel_mtu;
  normalize_mss = normalize;
}

-- `s` is the pointer to the new session.
unfoldable pub register_session : Router → ℕ → Router
register_session r s = record r {
  sessions = s ∷ r.sessions;
  ips = put_of r.ips s (λ a. false);
  closed = put_of r.closed s false;
  mtu = put_of r.mtu s r.tunnel_mtu;
}

-- Source and destination.
unfoldable pub packet_endpoints : List ℕ → Option (List ℕ × List ℕ)
packet_endpoints packet =
    if length packet == 0
    then none
    else if at packet 0 / 16 == 4
    then (if ltb (length packet) 20 then none else some (slice packet 12 16, slice packet 16 20))
    else if at packet 0 / 16 == 6
    then (if ltb (length packet) 40 then none else some (slice packet 8 24, slice packet 24 40))
    else none

-- `IsMulticast` of net/netip; an IPv4 address that is mapped into IPv6 counts as the IPv4 address.
unfoldable pub is_multicast : List ℕ → Bool
is_multicast a =
    if length a == 4
    then at a 0 / 16 == 14
    else if same_bytes (take 12 a) (replicate 10 0 ++ 255 ∷ 255 ∷ [])
    then at a 12 / 16 == 14
    else at a 0 == 255

-- `delete(prev.ips, src)` when another session has the address.
unfoldable pub taken_from : (ℕ → List ℕ → Bool) → ℕ → List ℕ → Option ℕ → ℕ → List ℕ → Bool
taken_from ips s src none = ips
taken_from ips s src (some prev) =
    if prev == s then ips else put_of ips prev (put_at (ips prev) src false)

unfoldable pub learn_address : Router → ℕ → List ℕ → Router
learn_address r s src =
    let ips = taken_from r.ips s src (r.by_ip src) in
    record r { ips = put_of ips s (put_at (ips s) src true); by_ip = put_at r.by_ip src (some s) }

unfoldable pub learn_source : Router → ℕ → Option (List ℕ × List ℕ) → Router
learn_source r s none = r
learn_source r s (some (src, dst)) =
    if is_all_zero src || is_multicast src
    then r
    else if not (is_active s r.sessions)
    then r
    else if r.ips s src
    then r
    else learn_address r s src

unfoldable pub learn_from_client_packet : Router → ℕ → List ℕ → Router
learn_from_client_packet r s packet = learn_source r s (packet_endpoints packet)

unfoldable pub note_mtu : Router → ℕ → ℕ → Router
note_mtu r s client_mtu =
    if client_mtu == 0
    then r
    else record r { mtu = put_of r.mtu s (min (max client_mtu 1280) r.tunnel_mtu) }

-- The router, and the packet that is written to the TUN device: with MSS normalisation on, the
-- packet that `normalizeUplinkSYN` leaves, and the client's MTU noted.
unfoldable pub after_syn : Bool → Router → ℕ → List ℕ → ℕ × List ℕ → Router × List ℕ
after_syn true r s packet (client_mtu, raised) = (note_mtu r s client_mtu, raised)
after_syn false r s packet raised = (r, packet)

unfoldable pub write_to_tun : Router → ℕ → List ℕ → Router × List ℕ
write_to_tun r s packet =
    after_syn r.normalize_mss (learn_from_client_packet r s packet) s packet
      (normalize_uplink_syn packet)

-- The loop over `s.ips` deletes the addresses that still lead to `s`.
unfoldable pub unrouted : ℕ → Option ℕ → Option ℕ
unrouted s none = none
unrouted s (some t) = if t == s then none else some t

unfoldable pub close : Router → ℕ → Router
close r s = if r.closed s then r else record r {
  closed = put_of r.closed s true;
  sessions = remove s r.sessions;
  by_ip = λ a. if r.ips s a then unrouted s (r.by_ip a) else r.by_ip a;
}

unfoldable pub single_session : List ℕ → Option ℕ
single_session [] = none
single_session (s ∷ []) = some s
single_session (s ∷ t ∷ ts) = none

unfoldable pub session_at : Router → Option ℕ → Option ℕ
session_at r none = single_session r.sessions
session_at r (some s) = some s

unfoldable pub session_for : Router → Option (List ℕ × List ℕ) → Option ℕ
session_for r none = single_session r.sessions
session_for r (some (src, dst)) = session_at r (r.by_ip dst)

unfoldable pub session_for_packet : Router → List ℕ → Option ℕ
session_for_packet r packet = session_for r (packet_endpoints packet)

-- The packets that `sendOversized` queues.
unfoldable pub or_else : Option (List (List ℕ)) → Option (List (List ℕ)) → List (List ℕ)
or_else (some packets) other = packets
or_else none (some packets) = packets
or_else none none = []

unfoldable pub send_oversized : List ℕ → ℕ → List (List ℕ)
send_oversized packet limit = or_else (split_tcp packet limit) (fragment_ipv4 packet limit)

unfoldable pub downlink : Router → List ℕ → Option ℕ → Option (ℕ × List (List ℕ))
downlink r packet none = none
downlink r packet (some s) =
    let clamped = clamp_downlink_syn packet (r.mtu s) in
    if not r.normalize_mss
    then some (s, packet ∷ [])
    else if ltb (r.mtu s) (length packet)
    then some (s, send_oversized clamped (r.mtu s))
    else some (s, clamped ∷ [])

-- One round of `run`: the session and the packets given to its `enqueue`.
unfoldable pub route : Router → List ℕ → Option (ℕ × List (List ℕ))
route r packet = downlink r packet (session_for_packet r packet)
