-- ===== src/Queue/Turns.antt =====
-- cmd/server/tun_router.go: what a round of the loop handles and writes, and bulk packets are not starved.
use obsidian_vpn.Base.{
  ℕ, ◌+◌, ◌≤◌, ◌≡◌, refl, ap, sym, subst, ◌∙◌, List, [], ◌∷◌, ◌++◌, false, some, leb, length, take,
  drop, arith, Bool-cases, inl, inr, take-append-drop, le→leb,
}
use obsidian_vpn.Queue.{
  RoutedPacket, Session, send_one, prio_waiting, send_prio_waiting, send_batch, send_bulk,
  send_prio, Choice, take_prio, take_out, take_done, chosen, bulk_turn, turn,
}
use obsidian_vpn.Queue.Service.{Shuffles, neither, from_left, from_right, Handles, send_one-Handles}
use obsidian_vpn.Queue.Batches.{Batched, send_batch-Batched, send_batch_first}

some_inj : (a b : Session) → some a ≡ some b → a ≡ b
some_inj a b e = cc

-- What a round did: of each queue it handled a part from the front, at least one packet in all; the two
-- parts keep their orders in what was handled; and exactly the packets handled that were not too old
-- were written, once each and in that order.
pub record Serves (clock : ℕ → ℕ) (s t : Session) : Type 0 where
  pub urgent : List RoutedPacket
  pub bulk : List RoutedPacket
  pub all : List RoutedPacket
  pub prio_split : s.prio ≡ urgent ++ t.prio
  pub out_split : s.out ≡ bulk ++ t.out
  pub order : Shuffles urgent bulk all
  pub some_handled : 1 ≤ length all
  pub handles : Handles clock s t all

length-Shuffles :
    {xs ys zs : List RoutedPacket} → Shuffles xs ys zs → length zs ≡ length xs + length ys
length-Shuffles neither = refl
length-Shuffles (from_left x h) = omega (arith, length-Shuffles h)
length-Shuffles (from_right y h) = omega (arith, length-Shuffles h)

send_prio-Serves :
    (clock : ℕ → ℕ) (s : Session) (p : RoutedPacket) (ps : List RoutedPacket)
    → s.prio ≡ p ∷ ps
    → Serves clock s (send_prio clock s p ps)
unfolding send_prio send_one
send_prio-Serves clock s p ps e =
    let h = send_one-Handles clock (record s { prio = ps; prio_run = s.prio_run + 1 }) p in
    record {
      urgent = p ∷ [];
      bulk = [];
      all = p ∷ [];
      prio_split = e;
      out_split = refl;
      order = from_left p neither;
      some_handled = omega arith;
      handles = record { counted = h.counted; wrote = h.wrote };
    }

module _ (clock : ℕ → ℕ) (s : Session) (p : RoutedPacket) (queued : List RoutedPacket) where
  -- The session when the batch is taken out of its queue.
  abbrev taken : Session
  taken = record s { out = drop 31 queued }

  bulk-Serves :
      s.out ≡ p ∷ queued
      → Batched clock taken (send_bulk clock s p queued) (p ∷ take 31 queued)
      → Serves clock s (send_bulk clock s p queued)
  bulk-Serves e b = record {
    urgent = b.urgent;
    bulk = p ∷ take 31 queued;
    all = b.all;
    prio_split = b.split;
    out_split =
        e
        ∙ ap (λ xs. p ∷ xs) (sym (take-append-drop 31 queued))
        ∙ ap (λ xs. (p ∷ take 31 queued) ++ xs) (sym b.same_out);
    order = b.order;
    some_handled = omega (arith, length-Shuffles b.order);
    handles = record { counted = b.handles.counted; wrote = b.handles.wrote };
  }

  send_bulk-Serves : s.out ≡ p ∷ queued → Serves clock s (send_bulk clock s p queued)
  unfolding send_bulk
  send_bulk-Serves e = bulk-Serves e (send_batch-Batched clock taken (p ∷ take 31 queued))

chosen-Serves :
    (clock : ℕ → ℕ) (s after : Session) (choice : Choice) (prio out : List RoutedPacket)
    → s.done ≡ false
    → s.prio ≡ prio
    → s.out ≡ out
    → chosen clock s choice prio out ≡ some after
    → Serves clock s after
unfolding chosen
chosen-Serves clock s after take_prio (p ∷ ps) out h ep eo e =
    subst (Serves clock s) (some_inj (send_prio clock s p ps) after e)
      (send_prio-Serves clock s p ps ep)
chosen-Serves clock s after take_prio [] out h ep eo e = absurd (ground arith)
chosen-Serves clock s after take_out prio (p ∷ queued) h ep eo e =
    subst (Serves clock s) (some_inj (send_bulk clock s p queued) after e)
      (send_bulk-Serves clock s p queued eo)
chosen-Serves clock s after take_out prio [] h ep eo e = absurd (ground arith)
chosen-Serves clock s after take_done prio out h ep eo e = absurd (ground arith)

bulk_turn-Serves :
    (clock : ℕ → ℕ) (s after : Session) (choice : Choice) (out : List RoutedPacket)
    → s.done ≡ false
    → s.out ≡ out
    → bulk_turn clock s choice out ≡ some after
    → Serves clock s after
unfolding bulk_turn
bulk_turn-Serves clock s after choice [] h eo e =
    chosen-Serves clock s after choice s.prio [] h refl eo e
bulk_turn-Serves clock s after choice (p ∷ queued) h eo e = elim (Bool-cases (leb 64 s.prio_run)) [
  | inl due ↦
      subst (Serves clock s) (some_inj (send_bulk clock s p queued) after (sym (rw due) ∙ e))
        (send_bulk-Serves clock s p queued eo)
  | inr early ↦
      chosen-Serves clock s after choice s.prio (p ∷ queued) h refl eo (sym (rw early) ∙ e)
]

-- While the session is open, a round of the write loop, whichever ready case it takes, handles at least
-- one packet, and of each queue a part from its front, which it takes out of the queue. The packets handled are
-- those of the two parts, each part in its order. What it writes is exactly the packets handled that
-- are at most 100 ms old at the reading of the clock for them, once each and in the order handled.
pub turn-Serves :
    (clock : ℕ → ℕ) (s after : Session) (choice : Choice)
    → s.done ≡ false
    → turn clock s choice ≡ some after
    → Serves clock s after
unfolding turn
turn-Serves clock s after choice h e = bulk_turn-Serves clock s after choice s.out h refl e

send_batch-prio_run :
    (clock : ℕ → ℕ) (s : Session) (batch : List RoutedPacket)
    → s.prio_run ≡ 0
    → (send_batch clock s batch).prio_run ≡ 0
unfolding send_batch send_prio_waiting send_one
send_batch-prio_run clock s [] h = h
send_batch-prio_run clock s (p ∷ batch) h =
    let s' = prio_waiting clock s s.prio in
    send_batch-prio_run clock (send_one clock (record s' { prio_run = 0 }) p) batch refl

send_bulk-prio_run :
    (clock : ℕ → ℕ) (s : Session) (p : RoutedPacket) (queued : List RoutedPacket)
    → (send_bulk clock s p queued).prio_run ≡ 0
unfolding send_bulk send_batch send_prio_waiting send_one
send_bulk-prio_run clock s p queued =
    let s' = prio_waiting clock (record s { out = drop 31 queued }) s.prio in
    send_batch-prio_run clock (send_one clock (record s' { prio_run = 0 }) p) (take 31 queued) refl

-- After 64 latency-sensitive packets in a row, a round of the write loop with a bulk packet waiting
-- serves bulk, whichever case the loop would take. It takes the first 32 bulk packets, or all if there are
-- fewer, out of their queue and handles them in order, the first of them before any other packet; of
-- the latency-sensitive ones it handles a part from the front between them. It writes exactly
-- those handled that are at most 100 ms old at their reading of the clock, and starts to count anew.
pub turn_serves_bulk :
    (clock : ℕ → ℕ) (s : Session) (choice : Choice) (p : RoutedPacket) (queued : List RoutedPacket)
    → 64 ≤ s.prio_run
    → s.out ≡ p ∷ queued
    → (after : Session) × (urgent : List RoutedPacket) × (more : List RoutedPacket) × (turn clock s
          choice
        ≡ some after)
      × (s.prio ≡ urgent ++ after.prio)
      × (after.out ≡ drop 31 queued)
      × Shuffles urgent (p ∷ take 31 queued) (p ∷ more)
      × Handles clock s after (p ∷ more)
      × (after.prio_run ≡ 0)
unfolding turn bulk_turn send_bulk
turn_serves_bulk clock s choice p queued h e =
    let b = send_batch_first clock (taken clock s p queued) p (take 31 queued) h in
    let after = send_bulk clock s p queued in
    (
      after,
      b.urgent,
      b.more,
      ap (bulk_turn clock s choice) e ∙ rw (le→leb 64 s.prio_run h),
      b.split,
      b.same_out,
      b.order,
      record { counted = b.handles.counted; wrote = b.handles.wrote },
      send_bulk-prio_run clock s p queued,
    )
