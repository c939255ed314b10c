-- ===== src/Routes/Manager/Applied.antt =====
-- What one application of a plan leaves in the table if every command succeeds.
use obsidian_vpn.Base.{
  ℕ, ◌≡◌, ap, ◌∙◌, List, [], ◌∷◌, Bool, true, false, ◌||◌, if◌then◌else◌, arith, Bool-cases, inl,
  inr, length,
}
use obsidian_vpn.Routes.{Prefix}
use obsidian_vpn.Routes.Manager.{
  Route, same_route, RouteManager, after_add, add_locked, add_all, apply,
}
use obsidian_vpn.Routes.Manager.Installed.{
  has_route, has_route-append, installed, same_route-eq, IsKept, IsOpen, add_locked-IsOpen,
  add_all-IsOpen,
}

pub routes_of : Bool → List Prefix → List Route
routes_of via_tun [] = []
routes_of via_tun (p ∷ ps) = record { prefix = p; via_tun = via_tun } ∷ routes_of via_tun ps

has_same_route :
    (q r : Route) (xs : List Route) → same_route q r ≡ true → has_route q xs ≡ has_route r xs
has_same_route q r xs h = ap (λ s. has_route s xs) (same_route-eq q r h)

added_one :
    (m : RouteManager) (q r : Route) (b : Bool)
    → b ≡ true
    → has_route q (after_add b m r).applied ≡ (has_route q m.applied || same_route q r)
unfolding after_add has_route
added_one m q r true e = ground (arith, has_route-append q m.applied (r ∷ []))
added_one m q r false e = absurd (ground arith)

module _ (works : ℕ → Bool) (all_work : (k : ℕ) → works k ≡ true) where
  has-add_locked :
      (m : RouteManager) (q r : Route)
      → IsKept m
      → has_route q (add_locked works m r).applied ≡ (has_route q m.applied || same_route q r)
  unfolding add_locked
  has-add_locked m q r k =
      let result = λ (b : Bool). if b then m else after_add (works (length m.commands)) m r in
      elim (Bool-cases (m.set r)) [
        | inl there ↦
            ap (λ b. has_route q (result b).applied) there
            ∙ ground (arith, k.mapped r, has_same_route q r m.applied)
        | inr missing ↦
            ap (λ b. has_route q (result b).applied) missing
            ∙ added_one m q r (works (length m.commands)) (all_work (length m.commands))
      ]

  has-add_all :
      (m : RouteManager) (q : Route) (via_tun : Bool) (ps : List Prefix)
      → IsOpen m
      → has_route q (add_all works m via_tun ps).applied
        ≡ (has_route q m.applied || has_route q (routes_of via_tun ps))
  unfolding add_all has_route routes_of
  has-add_all m q via_tun [] o = ground arith
  has-add_all m q via_tun (p ∷ ps) o =
      let r : Route = record { prefix = p; via_tun = via_tun } in
      ground (
        arith,
        has-add_all (add_locked works m r) q via_tun ps (add_locked-IsOpen works m r o),
        has-add_locked m q r o.kept,
      )

  -- If every command succeeds, an open manager whose books are right has in the table, after it has applied a plan,
  -- what was there before, every route of the plan to the gateway and every one into the tunnel, and no other.
  pub apply_installs :
      (m : RouteManager) (via_tun via_gw : List Prefix) (q : Route)
      → m.closed ≡ false
      → IsKept m
      → has_route q (installed (apply works m (via_tun, via_gw))) ≡ (
          (has_route q (installed m) || has_route q (routes_of false via_gw))
          || has_route q (routes_of true via_tun))
  unfolding apply
  apply_installs m via_tun via_gw q alive k =
      let o : IsOpen m = record { alive = alive; kept = k } in
      let gw = add_all works m false via_gw in
      let o' = add_all-IsOpen works m false via_gw o in
      let o'' = add_all-IsOpen works gw true via_tun o' in
      ap (λ b. has_route q (installed (if b then m else add_all works gw true via_tun))) alive
      ∙ o''.kept.recorded o''.alive q
      ∙ ground (
        arith,
        has-add_all gw q true via_tun o',
        has-add_all m q false via_gw o,
        k.recorded alive q,
      )
