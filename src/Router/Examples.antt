-- ===== src/Router/Examples.antt =====
-- The theorems of the TUN router at two sessions and a packet each way.
use obsidian_vpn.Base.{ℕ, ◌≡◌, ◌≢◌, refl, List, [], ◌∷◌, true, false, some, ◌||◌, slice}
use obsidian_vpn.Reject.{is_all_zero}
use obsidian_vpn.Router.{
  is_active, Router, new_router, register_session, packet_endpoints, is_multicast, write_to_tun,
  session_for_packet, close,
}
use obsidian_vpn.Router.Table.{WellRouted}
use obsidian_vpn.Router.Routing.{
  Reachable, started, registered, wrote, Reachable-WellRouted, closed_unrouted, replies_return,
}

-- From 10.0.0.1 to 10.0.0.2, and back.
abbrev packet : List ℕ
packet = 69 ∷ 0 ∷ 0 ∷ 20 ∷ 0 ∷ 0 ∷ 0 ∷ 0 ∷ 64 ∷ 17 ∷ 0 ∷ 0 ∷ 10 ∷ 0 ∷ 0 ∷ 1 ∷ 10 ∷ 0 ∷ 0 ∷ 2 ∷ []

abbrev reply : List ℕ
reply = 69 ∷ 0 ∷ 0 ∷ 20 ∷ 0 ∷ 0 ∷ 0 ∷ 0 ∷ 64 ∷ 17 ∷ 0 ∷ 0 ∷ 10 ∷ 0 ∷ 0 ∷ 2 ∷ 10 ∷ 0 ∷ 0 ∷ 1 ∷ []

abbrev two_sessions : Router
two_sessions = register_session (register_session (new_router 1420 true) 1) 2

two_sessions-Reachable : Reachable 1420 true two_sessions
unfolding is_active register_session new_router
two_sessions-Reachable = registered 2 (registered 1 started refl) refl

Reachable-WellRouted_example : WellRouted two_sessions
Reachable-WellRouted_example = Reachable-WellRouted 1420 true two_sessions two_sessions-Reachable

is_registered : is_active 1 two_sessions.sessions ≡ true
unfolding is_active register_session new_router
is_registered = refl

endpoints_of_packet : packet_endpoints packet ≡ some (slice packet 12 16, slice packet 16 20)
unfolding packet_endpoints
endpoints_of_packet = refl

endpoints_of_reply : packet_endpoints reply ≡ some (slice reply 12 16, slice packet 12 16)
unfolding packet_endpoints
endpoints_of_reply = refl

usable : (is_all_zero (slice packet 12 16) || is_multicast (slice packet 12 16)) ≡ false
unfolding is_all_zero is_multicast
usable = refl

replies_return_example : session_for_packet (write_to_tun two_sessions 1 packet).0 reply ≡ some 1
replies_return_example =
    replies_return 1420 true two_sessions 1 packet reply (slice packet 12 16) (slice packet 16 20)
      (slice reply 12 16) two_sessions-Reachable is_registered endpoints_of_packet usable
      endpoints_of_reply

closed_unrouted_example :
    session_for_packet (close (write_to_tun two_sessions 1 packet).0 1) reply ≢ some 1
closed_unrouted_example =
    closed_unrouted 1420 true (write_to_tun two_sessions 1 packet).0 1 reply
      (wrote 1 packet two_sessions-Reachable)
