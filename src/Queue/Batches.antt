-- ===== src/Queue/Batches.antt =====
-- A batch of bulk packets, with the latency-sensitive ones that are handled before and between them.
use obsidian_vpn.Base.{ℕ, ◌≡◌, refl, sym, ap, subst, ◌∙◌, List, [], ◌∷◌, ◌++◌, ◌≤◌, le→ltb}
use mathlib.Core.List.{append_assoc}
use obsidian_vpn.Queue.{
  RoutedPacket, Session, routed_prio_burst, send_one, prio_waiting, send_prio_waiting, send_batch,
}
use obsidian_vpn.Queue.Service.{
  Shuffles, neither, from_right, left_first, Handles, Handles-none, Handles-more, start_again,
  Waited, send_prio_waiting-Waited,
}

module _ (clock : ℕ → ℕ) where
  -- A whole batch was handled, with packets that waited before and between.
  pub record Batched (s t : Session) (batch : List RoutedPacket) : Type 0 where
    pub urgent : List RoutedPacket
    pub all : List RoutedPacket
    pub split : s.prio ≡ urgent ++ t.prio
    pub order : Shuffles urgent batch all
    pub handles : Handles clock s t all
    pub same_out : t.out ≡ s.out

  next_Batched :
      (s a t : Session) (p : RoutedPacket) (batch : List RoutedPacket)
      → Waited clock s a s.prio
      → Batched (send_one clock (record a { prio_run = 0 }) p) t batch
      → Batched s t (p ∷ batch)
  unfolding send_one
  next_Batched s a t p batch w b = record {
    urgent = w.urgent ++ b.urgent;
    all = w.urgent ++ (p ∷ b.all);
    split = w.split ∙ ap (◌++◌ w.urgent) b.split ∙ sym (append_assoc w.urgent b.urgent t.prio);
    order = left_first w.urgent (from_right p b.order);
    handles = Handles-more clock s a t w.urgent (p ∷ b.all) w.handles (
        Handles-more clock a (send_one clock (record a { prio_run = 0 }) p) t (p ∷ []) b.all
          (start_again clock a 0 p) b.handles);
    same_out = b.same_out ∙ w.same_out;
  }

  pub send_batch-Batched :
      (s : Session) (batch : List RoutedPacket) → Batched s (send_batch clock s batch) batch
  unfolding send_batch
  send_batch-Batched s [] = record {
    urgent = [];
    all = [];
    split = refl;
    order = neither;
    handles = Handles-none clock s s refl refl;
    same_out = refl;
  }
  send_batch-Batched s (p ∷ batch) =
      let a = send_prio_waiting clock s in
      next_Batched s a (send_batch clock (send_one clock (record a { prio_run = 0 }) p) batch) p
        batch (send_prio_waiting-Waited clock s)
        (send_batch-Batched (send_one clock (record a { prio_run = 0 }) p) batch)

  prio_waiting_held :
      (s : Session) (ps : List RoutedPacket)
      → routed_prio_burst ≤ s.prio_run
      → prio_waiting clock s ps ≡ record s { prio = ps }
  unfolding prio_waiting
  prio_waiting_held s [] h = refl
  prio_waiting_held s (p ∷ ps) h = rw (le→ltb s.prio_run routed_prio_burst h)

  -- A whole batch was handled, its first packet before any that waited.
  pub record FirstBatched (s t : Session) (p : RoutedPacket) (batch : List RoutedPacket)
      : Type 0 where
    pub urgent : List RoutedPacket
    pub more : List RoutedPacket
    pub split : s.prio ≡ urgent ++ t.prio
    pub order : Shuffles urgent (p ∷ batch) (p ∷ more)
    pub handles : Handles clock s t (p ∷ more)
    pub same_out : t.out ≡ s.out

  first_Batched :
      (s a t : Session) (p : RoutedPacket) (batch : List RoutedPacket)
      → a ≡ s
      → Batched (send_one clock (record a { prio_run = 0 }) p) t batch
      → FirstBatched s t p batch
  unfolding send_one
  first_Batched s a t p batch same b = record {
    urgent = b.urgent;
    more = b.all;
    split = sym (ap (λ x. x.prio) same) ∙ b.split;
    order = from_right p b.order;
    handles =
        subst (λ x. Handles clock x t (p ∷ b.all)) same
          (Handles-more clock a (send_one clock (record a { prio_run = 0 }) p) t (p ∷ []) b.all
            (start_again clock a 0 p) b.handles);
    same_out = b.same_out ∙ ap (λ x. x.out) same;
  }

  -- After a full burst the first packet of the batch is handled before any that waits.
  pub send_batch_first :
      (s : Session) (p : RoutedPacket) (batch : List RoutedPacket)
      → routed_prio_burst ≤ s.prio_run
      → FirstBatched s (send_batch clock s (p ∷ batch)) p batch
  unfolding send_batch send_prio_waiting
  send_batch_first s p batch h =
      let a = prio_waiting clock s s.prio in
      first_Batched s a (send_batch clock (send_one clock (record a { prio_run = 0 }) p) batch) p
        batch (prio_waiting_held s s.prio h)
        (send_batch-Batched (send_one clock (record a { prio_run = 0 }) p) batch)
