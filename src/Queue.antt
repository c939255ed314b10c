-- ===== src/Queue.antt =====
-- cmd/server/tun_router.go: the two queues of a session and the loop that sends from them.
pub mod Bounds
pub mod Service
pub mod Batches
pub mod Turns
pub mod Examples
use obsidian_vpn.Base.{
  ℕ, zero, suc, ◌+◌, ◌-◌, ◌*◌, ◌/◌, ◌%◌, List, [], ◌∷◌, ◌++◌, Bool, true, false, Option, none, some,
  ◌||◌, ◌&&◌, not, ltb, leb, ◌==◌, if◌then◌else◌, length, take, drop, slice,
}
use obsidian_vpn.Base.Bytes.{at, get_u16}

abbrev pub routed_session_queue_size : ℕ
routed_session_queue_size = 1024

-- Nanoseconds.
abbrev pub routed_max_sojourn : ℕ
routed_max_sojourn = 100_000_000

abbrev pub routed_prio_queue_size : ℕ
routed_prio_queue_size = 256

abbrev pub routed_prio_burst : ℕ
routed_prio_burst = 64

pub record RoutedPacket : Type 0 where
  pub buf : List ℕ
  pub queued_at : ℕ

-- `done` is the closed channel; `handled` counts the packets given to `sendOne`, and `sent` holds what
-- it gave to `send`, in order.
pub record Session : Type 0 where
  pub prio : List RoutedPacket
  pub out : List RoutedPacket
  pub prio_run : ℕ
  pub done : Bool
  pub handled : ℕ
  pub sent : List (List ℕ)

-- Protocol, header length and total length.
unfoldable pub ip_fields_of : List ℕ → Option (ℕ × ℕ × ℕ)
ip_fields_of pkt =
    if leb 20 (length pkt) && (at pkt 0 / 16 == 4)
    then some (at pkt 9, at pkt 0 % 16 * 4, get_u16 pkt 2)
    else if leb 40 (length pkt) && (at pkt 0 / 16 == 6)
    then some (at pkt 6, 40, 40 + get_u16 pkt 4)
    else none

unfoldable pub tcp_is_empty : List ℕ → Bool
tcp_is_empty l4 =
    let tcp_hdr = at l4 12 / 16 * 4 in
    if ltb (length l4) 20
    then false
    else if ltb tcp_hdr 20 || ltb (length l4) tcp_hdr
    then false
    else length l4 - tcp_hdr == 0

unfoldable pub sensitive_fields : List ℕ → Option (ℕ × ℕ × ℕ) → Bool
sensitive_fields pkt none = false
sensitive_fields pkt (some (proto, ip_hdr, ip_len)) =
    if ltb ip_hdr 20 || ltb ip_len ip_hdr || ltb (length pkt) ip_len
    then false
    else if proto == 1 || proto == 58
    then true
    else if proto == 17
    then leb (length pkt) 600
    else if proto == 6
    then tcp_is_empty (slice pkt ip_hdr ip_len)
    else false

unfoldable pub is_latency_sensitive : List ℕ → Bool
is_latency_sensitive pkt = sensitive_fields pkt (ip_fields_of pkt)

-- The second `select`: with room in the queue and `done` closed, either case may run.
unfoldable pub enqueue_bulk : Session → RoutedPacket → Bool → Bool × Session
enqueue_bulk s p saw_done =
    if leb routed_session_queue_size (length s.out) || (s.done && saw_done)
    then (false, s)
    else (true, record s { out = s.out ++ p ∷ [] })

unfoldable pub enqueue : Session → ℕ → List ℕ → Bool → Bool × Session
enqueue s now packet saw_done =
    let p : RoutedPacket = record { buf = packet; queued_at = now } in
    if is_latency_sensitive packet && ltb (length s.prio) routed_prio_queue_size
    then (true, record s { prio = s.prio ++ p ∷ [] })
    else enqueue_bulk s p saw_done

-- The clock is read for each packet handled.
unfoldable pub send_one : (ℕ → ℕ) → Session → RoutedPacket → Session
send_one clock s p = record s {
  handled = s.handled + 1;
  sent =
      if ltb routed_max_sojourn (clock s.handled - p.queued_at)
      then s.sent
      else s.sent ++ p.buf ∷ [];
}

-- `sendPrioWaiting`, over the packets that wait.
unfoldable pub prio_waiting : (ℕ → ℕ) → Session → List RoutedPacket → Session
prio_waiting clock s [] = record s { prio = [] }
prio_waiting clock s (p ∷ ps) =
    let rest = prio_waiting clock (send_one clock (record s { prio_run = s.prio_run + 1 }) p) ps in
    if ltb s.prio_run routed_prio_burst then rest else record s { prio = p ∷ ps }

unfoldable pub send_prio_waiting : (ℕ → ℕ) → Session → Session
send_prio_waiting clock s = prio_waiting clock s s.prio

unfoldable pub send_batch : (ℕ → ℕ) → Session → List RoutedPacket → Session
send_batch clock s [] = s
send_batch clock s (p ∷ batch) =
    let s' = send_prio_waiting clock s in
    send_batch clock (send_one clock (record s' { prio_run = 0 }) p) batch

-- `takeQueued` moves up to 31 packets behind the first.
unfoldable pub send_bulk : (ℕ → ℕ) → Session → RoutedPacket → List RoutedPacket → Session
send_bulk clock s first queued =
    send_batch clock (record s { out = drop 31 queued }) (first ∷ take 31 queued)

unfoldable pub send_prio : (ℕ → ℕ) → Session → RoutedPacket → List RoutedPacket → Session
send_prio clock s p ps = send_one clock (record s { prio = ps; prio_run = s.prio_run + 1 }) p

unfoldable pub drain : Session → Session
drain s = record s { prio = []; out = [] }

-- The case that the second `select` of the loop takes among those that are ready.
pub data Choice : Type 0 where
  take_prio : Choice
  take_out : Choice
  take_done : Choice

-- `none` where the case is not ready.
unfoldable pub chosen :
    (ℕ → ℕ) → Session → Choice → List RoutedPacket → List RoutedPacket → Option Session
chosen clock s take_prio (p ∷ ps) out = some (send_prio clock s p ps)
chosen clock s take_prio [] out = none
chosen clock s take_out prio (p ∷ queued) = some (send_bulk clock s p queued)
chosen clock s take_out prio [] = none
chosen clock s take_done prio out = if s.done then some (drain s) else none

unfoldable pub bulk_turn : (ℕ → ℕ) → Session → Choice → List RoutedPacket → Option Session
bulk_turn clock s choice [] = chosen clock s choice s.prio []
bulk_turn clock s choice (p ∷ queued) =
    let other = chosen clock s choice s.prio (p ∷ queued) in
    if leb routed_prio_burst s.prio_run then some (send_bulk clock s p queued) else other

-- One round of `writeLoop`.
unfoldable pub turn : (ℕ → ℕ) → Session → Choice → Option Session
turn clock s choice = bulk_turn clock s choice s.out
