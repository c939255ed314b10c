-- ===== src/Queue/Service.antt =====
-- What the write loop of a session has written after it handled packets, and in which order.
use obsidian_vpn.Base.{
  ℕ, ◌+◌, ◌-◌, ◌≡◌, refl, sym, ap, ◌∙◌, List, [], ◌∷◌, ◌++◌, Bool, true, false, ltb, if◌then◌else◌,
  length, arith, length-append,
}
use mathlib.Core.List.{append_assoc, append-nil}
use obsidian_vpn.Queue.{
  RoutedPacket, Session, routed_max_sojourn, routed_prio_burst, send_one, prio_waiting,
  send_prio_waiting,
}

-- The packets among those handled that are not too old when the clock is read for them: the number of
-- the first reading is given.
pub fresh : (ℕ → ℕ) → ℕ → List RoutedPacket → List (List ℕ)
fresh clock n [] = []
fresh clock n (p ∷ ps) =
    (if ltb routed_max_sojourn (clock n - p.queued_at) then [] else p.buf ∷ [])
    ++ fresh clock (n + 1) ps

fresh-append :
    (clock : ℕ → ℕ) (n : ℕ) (ps qs : List RoutedPacket)
    → fresh clock n (ps ++ qs) ≡ fresh clock n ps ++ fresh clock (n + length ps) qs
unfolding fresh
fresh-append clock n [] qs = ap (λ k. fresh clock k qs) (omega arith)
fresh-append clock n (p ∷ ps) qs =
    let front = if ltb routed_max_sojourn (clock n - p.queued_at) then [] else p.buf ∷ [] in
    ap (◌++◌ front) (fresh-append clock (n + 1) ps qs)
    ∙ sym (append_assoc front (fresh clock (n + 1) ps) _)
    ∙ ap (λ k. (front ++ fresh clock (n + 1) ps) ++ fresh clock k qs) (omega arith)

-- The third list holds the elements of the first two, each list's in its order.
pub data Shuffles : List RoutedPacket → List RoutedPacket → List RoutedPacket → Type 0 where
  neither : Shuffles [] [] []
  from_left :
      {xs ys zs : List RoutedPacket} (x : RoutedPacket)
      → Shuffles xs ys zs
      → Shuffles (x ∷ xs) ys (x ∷ zs)
  from_right :
      {xs ys zs : List RoutedPacket} (y : RoutedPacket)
      → Shuffles xs ys zs
      → Shuffles xs (y ∷ ys) (y ∷ zs)

pub left_first :
    (us : List RoutedPacket) {xs ys zs : List RoutedPacket}
    → Shuffles xs ys zs
    → Shuffles (us ++ xs) ys (us ++ zs)
left_first [] h = h
left_first (u ∷ us) h = from_left u (left_first us h)

-- Between two states of a session exactly these packets were handled, and those of them that were not
-- too old were written, in this order and once each.
pub record Handles (clock : ℕ → ℕ) (s t : Session) (ps : List RoutedPacket) : Type 0 where
  pub counted : t.handled ≡ s.handled + length ps
  pub wrote : t.sent ≡ s.sent ++ fresh clock s.handled ps

module _ (clock : ℕ → ℕ) where
  pub Handles-none :
      (s t : Session) → t.handled ≡ s.handled → t.sent ≡ s.sent → Handles clock s t []
  unfolding fresh
  Handles-none s t n same = record {
    counted = omega (arith, n);
    wrote = same ∙ sym (append-nil s.sent);
  }

  pub Handles-more :
      (s t v : Session) (ps qs : List RoutedPacket)
      → Handles clock s t ps
      → Handles clock t v qs
      → Handles clock s v (ps ++ qs)
  Handles-more s t v ps qs h k = record {
    counted = omega (arith, h.counted, k.counted, length-append ps qs);
    wrote =
        k.wrote
        ∙ ap (λ xs. xs ++ fresh clock t.handled qs) h.wrote
        ∙ append_assoc s.sent (fresh clock s.handled ps) (fresh clock t.handled qs)
        ∙ ap (λ n. s.sent ++ (fresh clock s.handled ps ++ fresh clock n qs)) h.counted
        ∙ ap (◌++◌ s.sent) (sym (fresh-append clock s.handled ps qs));
  }

  written_if :
      (b : Bool) (sent : List (List ℕ)) (buf : List ℕ)
      → (if b then sent else sent ++ buf ∷ []) ≡ sent ++ ((if b then [] else buf ∷ []) ++ [])
  written_if true sent buf = sym (append-nil sent)
  written_if false sent buf = refl

  pub send_one-Handles :
      (s : Session) (p : RoutedPacket) → Handles clock s (send_one clock s p) (p ∷ [])
  unfolding send_one fresh
  send_one-Handles s p = record {
    counted = omega arith;
    wrote = written_if (ltb routed_max_sojourn (clock s.handled - p.queued_at)) s.sent p.buf;
  }

  -- A part of the waiting packets was handled, from the front.
  pub record Waited (s t : Session) (waiting : List RoutedPacket) : Type 0 where
    pub urgent : List RoutedPacket
    pub split : waiting ≡ urgent ++ t.prio
    pub handles : Handles clock s t urgent
    pub same_out : t.out ≡ s.out

  either-Waited :
      (b : Bool) (s x y : Session) (ps : List RoutedPacket)
      → Waited s x ps
      → Waited s y ps
      → Waited s (if b then x else y) ps
  either-Waited true s x y ps v w = v
  either-Waited false s x y ps v w = w

  -- The count of packets in a row is not in what is handled.
  pub start_again :
      (s : Session) (n : ℕ) (p : RoutedPacket)
      → Handles clock s (send_one clock (record s { prio_run = n }) p) (p ∷ [])
  start_again s n p =
      let h = send_one-Handles (record s { prio_run = n }) p in
      record { counted = h.counted; wrote = h.wrote }

  next_Waited :
      (s : Session) (p : RoutedPacket) (ps : List RoutedPacket) (t : Session)
      → Waited (send_one clock (record s { prio_run = s.prio_run + 1 }) p) t ps
      → Waited s t (p ∷ ps)
  unfolding send_one
  next_Waited s p ps t w = record {
    urgent = p ∷ w.urgent;
    split = ap (λ xs. p ∷ xs) w.split;
    handles =
        Handles-more s (send_one clock (record s { prio_run = s.prio_run + 1 }) p) t (p ∷ [])
          w.urgent (start_again s (s.prio_run + 1) p) w.handles;
    same_out = w.same_out;
  }

  pub prio_waiting-Waited :
      (s : Session) (ps : List RoutedPacket) → Waited s (prio_waiting clock s ps) ps
  unfolding prio_waiting
  prio_waiting-Waited s [] = record {
    urgent = [];
    split = refl;
    handles = Handles-none s (record s { prio = [] }) refl refl;
    same_out = refl;
  }
  prio_waiting-Waited s (p ∷ ps) =
      let one = send_one clock (record s { prio_run = s.prio_run + 1 }) p in
      either-Waited (ltb s.prio_run routed_prio_burst) s _ _ (p ∷ ps)
        (next_Waited s p ps (prio_waiting clock one ps) (prio_waiting-Waited one ps))
        (record {
          urgent = [];
          split = refl;
          handles = Handles-none s (record s { prio = p ∷ ps }) refl refl;
          same_out = refl;
        })

  pub send_prio_waiting-Waited : (s : Session) → Waited s (send_prio_waiting clock s) s.prio
  unfolding send_prio_waiting
  send_prio_waiting-Waited s = prio_waiting-Waited s s.prio
