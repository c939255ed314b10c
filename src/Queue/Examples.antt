-- ===== src/Queue/Examples.antt =====
-- The theorems of a session's queues at two packets.
use obsidian_vpn.Base.{ℕ, ◌+◌, ◌≡◌, refl, List, [], ◌∷◌, ◌++◌, false, some, drop, take, arith}
use obsidian_vpn.Queue.{RoutedPacket, Session, turn, take_prio, bulk_turn, chosen, send_prio}
use obsidian_vpn.Queue.Service.{Shuffles, Handles}
use obsidian_vpn.Queue.Turns.{Serves, turn-Serves, turn_serves_bulk}

abbrev bulk : RoutedPacket
bulk = record { buf = 1 ∷ 2 ∷ []; queued_at = 5 }

abbrev urgent : RoutedPacket
urgent = record { buf = 3 ∷ []; queued_at = 6 }

abbrev both_wait : Session
both_wait = record {
  prio = urgent ∷ [];
  out = bulk ∷ [];
  prio_run = 64;
  done = false;
  handled = 0;
  sent = [];
}

abbrev early : Session
early = record both_wait { prio_run = 3 }

-- A clock that moves by one for each packet.
abbrev clock : ℕ → ℕ
clock n = n + 10

urgent_first : turn clock early take_prio ≡ some (send_prio clock early urgent [])
unfolding turn bulk_turn chosen
urgent_first = refl

turn-Serves_example : Serves clock early (send_prio clock early urgent [])
turn-Serves_example =
    turn-Serves clock early (send_prio clock early urgent []) take_prio refl urgent_first

turn_serves_bulk_example :
    (after : Session) × (waiting : List RoutedPacket) × (more : List RoutedPacket) × (turn clock
        both_wait take_prio
      ≡ some after)
    × (both_wait.prio ≡ waiting ++ after.prio)
    × (after.out ≡ drop 31 [])
    × Shuffles waiting (bulk ∷ take 31 []) (bulk ∷ more)
    × Handles clock both_wait after (bulk ∷ more)
    × (after.prio_run ≡ 0)
turn_serves_bulk_example = turn_serves_bulk clock both_wait take_prio bulk [] (omega arith) refl
