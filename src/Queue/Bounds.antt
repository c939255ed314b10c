-- ===== src/Queue/Bounds.antt =====
-- The two queues of a session stay within their sizes.
use obsidian_vpn.Base.{
  ℕ, ◌+◌, ◌≤◌, ◌≡◌, List, [], ◌∷◌, Bool, ◌||◌, ◌&&◌, ltb, leb, if◌then◌else◌, length, arith,
  Bool-cases, inl, inr, length-append,
}
use obsidian_vpn.Queue.{RoutedPacket, Session, is_latency_sensitive, enqueue_bulk, enqueue}

-- Both queues are channels of a fixed size.
pub record Bounded (s : Session) : Type 0 where
  pub prio_room : length s.prio ≤ 256
  pub out_room : length s.out ≤ 1024

-- `enqueue` keeps both queues within their sizes, and a packet that it accepts lengthens one of them by
-- one; a packet that it refuses changes nothing.
pub enqueue-Bounded :
    (s : Session) (now : ℕ) (packet : List ℕ) (saw_done : Bool)
    → Bounded s
    → Bounded (enqueue s now packet saw_done).1
      × (length (enqueue s now packet saw_done).1.prio
            + length (enqueue s now packet saw_done).1.out
          ≡ length s.prio + length s.out + (if (enqueue s now packet saw_done).0 then 1 else 0))
unfolding enqueue enqueue_bulk
enqueue-Bounded s now packet saw_done b =
    let p : RoutedPacket = record { buf = packet; queued_at = now } in
    let e1 = length-append s.prio (p ∷ []) in
    let e2 = length-append s.out (p ∷ []) in
    let q = b.prio_room in
    let o = b.out_room in
    elim (Bool-cases (is_latency_sensitive packet && ltb (length s.prio) 256)) [
      | inl fast ↦ rw fast (record { prio_room = ground arith; out_room = o }, omega arith)
      | inr slow ↦ elim (Bool-cases (leb 1024 (length s.out) || (s.done && saw_done))) [
        | inl full ↦ rw (slow, full) (b, omega arith)
        | inr room ↦
            rw (slow, room) (record { prio_room = q; out_room = ground arith }, omega arith)
      ]
    ]
