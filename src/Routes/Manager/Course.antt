-- ===== src/Routes/Manager/Course.antt =====
-- Every course of the manager: refreshes in their two halves, in any order with the close.
use obsidian_vpn.Base.{
  ℕ, length, ◌≡◌, refl, sym, ap, ◌∙◌, List, [], ◌++◌, Bool, true, false, not, Option, ◌&&◌,
  if◌then◌else◌, arith,
}
use mathlib.Core.List.{reverse}
use obsidian_vpn.Routes.{Netip, Prefix}
use obsidian_vpn.Routes.Manager.{
  Route, RouteManager, new_route_manager, apply, resolve_hosts, apply_plan, dels, close_manager,
}
use obsidian_vpn.Routes.Manager.Installed.{
  has_route, installed, run_commands, run_commands-append, has_route-dels, undone, IsKept,
  new_route_manager-IsKept, apply-IsKept,
}

either-IsKept : (b : Bool) (x y : RouteManager) → IsKept x → IsKept y → IsKept (if b then x else y)
either-IsKept true x y k l = k
either-IsKept false x y k l = l

-- What is resolved and which addresses the server has is not in the books.
other_fields-IsKept :
    (m : RouteManager) (resolved : List ℕ → List (List ℕ)) (servers : List (List ℕ))
    → IsKept m
    → IsKept (record m { resolved = resolved; servers = servers })
other_fields-IsKept m resolved servers k = record {
  recorded = k.recorded;
  mapped = k.mapped;
  ended = k.ended;
}

resolve_hosts-IsKept :
    (n : Netip) (lookup : List ℕ → Option (List (List ℕ))) (first : List ℕ → Bool)
    (m : RouteManager)
    → IsKept m
    → IsKept (resolve_hosts n lookup first m)
unfolding resolve_hosts
resolve_hosts-IsKept n lookup first m k =
    either-IsKept m.closed m _ k (other_fields-IsKept m _ m.servers k)

-- The close of an open manager.
close_open :
    (works : ℕ → Bool) (m : RouteManager)
    → IsKept (record m {
      closed = true;
      commands = m.commands ++ dels works (length m.commands) (reverse m.applied);
      applied = [];
      set = λ r. false;
    })
unfolding has_route
close_open works m = record {
  recorded = λ alive r. absurd (ground (arith, alive));
  mapped = λ r. refl;
  ended = λ e r. refl;
}

close_manager-IsKept :
    (works : ℕ → Bool) (m : RouteManager) → IsKept m → IsKept (close_manager works m)
unfolding close_manager
close_manager-IsKept works m k = either-IsKept m.closed m _ k (close_open works m)

-- What happens to a manager: its server is resolved, a half of a refresh runs, with any answers of the
-- system and of the resolver, or it is closed.
pub data Step : RouteManager → RouteManager → Type 0 where
  serves : (m : RouteManager) (ips : List (List ℕ)) → Step m (record m { servers = ips })
  resolves :
      (n : Netip) (lookup : List ℕ → Option (List (List ℕ))) (first : List ℕ → Bool)
      (m : RouteManager)
      → Step m (resolve_hosts n lookup first m)
  applies : (n : Netip) (works : ℕ → Bool) (m : RouteManager) → Step m (apply_plan n works m)
  closes : (works : ℕ → Bool) (m : RouteManager) → Step m (close_manager works m)

pub data Reach (m : RouteManager) : RouteManager → Type 0 where
  start : Reach m m
  then_step : {a b : RouteManager} → Reach m a → Step a b → Reach m b

Step-IsKept : {a b : RouteManager} → Step a b → IsKept a → IsKept b
unfolding apply_plan
Step-IsKept (serves m ips) k = other_fields-IsKept m m.resolved ips k
Step-IsKept (resolves n lookup first m) k = resolve_hosts-IsKept n lookup first m k
Step-IsKept (applies n works m) k = apply-IsKept works m _ k
Step-IsKept (closes works m) k = close_manager-IsKept works m k

Reach-IsKept : {a b : RouteManager} → Reach a b → IsKept a → IsKept b
Reach-IsKept start k = k
Reach-IsKept (then_step r s) k = Step-IsKept s (Reach-IsKept r k)

-- A closed manager runs no command and stays closed.
record IsOver (a b : RouteManager) : Type 0 where
  shut : b.closed ≡ true
  silent : b.commands ≡ a.commands

either-IsOver :
    (b : Bool) (a x : RouteManager) → b ≡ true → a.closed ≡ true → IsOver a (if b then a else x)
either-IsOver true a x e shut = record { shut = shut; silent = refl }
either-IsOver false a x e shut = absurd (ground (arith, e))

apply-IsOver :
    (works : ℕ → Bool) (a : RouteManager) (plan : List Prefix × List Prefix)
    → a.closed ≡ true
    → IsOver a (apply works a plan)
unfolding apply
apply-IsOver works a (via_tun, via_gw) shut = either-IsOver a.closed a _ shut shut

Step-IsOver : {a b : RouteManager} → Step a b → a.closed ≡ true → IsOver a b
unfolding apply_plan resolve_hosts close_manager
Step-IsOver (serves a ips) shut = record { shut = shut; silent = refl }
Step-IsOver (resolves n lookup first a) shut = either-IsOver a.closed a _ shut shut
Step-IsOver (applies n works a) shut = apply-IsOver works a _ shut
Step-IsOver (closes works a) shut = either-IsOver a.closed a _ shut shut

Reach-IsOver : {a b : RouteManager} → Reach a b → a.closed ≡ true → IsOver a b
Reach-IsOver start shut = record { shut = shut; silent = refl }
Reach-IsOver (then_step r s) shut =
    let before = Reach-IsOver r shut in
    let last = Step-IsOver s before.shut in
    record { shut = last.shut; silent = last.silent ∙ before.silent }

-- What the close of an open manager leaves.
record Closes (works : ℕ → Bool) (m c : RouteManager) : Type 0 where
  shut : c.closed ≡ true
  ran : c.commands ≡ m.commands ++ dels works (length m.commands) (reverse m.applied)

close_manager-Closes :
    (works : ℕ → Bool) (m : RouteManager)
    → m.closed ≡ false
    → Closes works m (close_manager works m)
unfolding close_manager
close_manager-Closes works m alive = rw alive (record { shut = refl; ran = refl })

-- Whatever a new manager goes through while it is open, and whichever additions fail: a route is
-- in the system's table exactly if the manager has it in its list, exactly if it has it in its map. After
-- the close, and whatever comes then, a route is in the table exactly if it was in the list and no
-- deletion of it succeeded, and nothing is left in the list and in the map: a deletion that fails leaves
-- its route in the table for good.
pub reached_table :
    (mode dns host : List ℕ) (entries : List (List ℕ)) (ipv6 : Bool) (m later : RouteManager)
    (works : ℕ → Bool) (r : Route)
    → Reach (new_route_manager mode entries dns host ipv6) m
    → m.closed ≡ false
    → Reach (close_manager works m) later
    → (has_route r (installed m) ≡ has_route r m.applied)
      × (has_route r (installed m) ≡ m.set r)
      × (has_route r (installed later)
          ≡ (has_route r m.applied && not (undone works (length m.commands) r (reverse m.applied))))
      × (has_route r later.applied ≡ false)
      × (later.set r ≡ false)
reached_table mode dns host entries ipv6 m later works r reach alive after =
    let k = Reach-IsKept reach (new_route_manager-IsKept mode dns host entries ipv6) in
    let c = close_manager-Closes works m alive in
    let over = Reach-IsOver after c.shut in
    let k' = Reach-IsKept after (close_manager-IsKept works m k) in
    let left = k'.ended over.shut r in
    (
      k.recorded alive r,
      k.recorded alive r ∙ sym (k.mapped r),
      ap (λ cs. has_route r (run_commands [] cs)) (over.silent ∙ c.ran)
          ∙ ap (has_route r) (
              run_commands-append [] m.commands
                (dels works (length m.commands) (reverse m.applied)))
          ∙ has_route-dels works (length m.commands) r (installed m) (reverse m.applied)
          ∙ ap (λ b. b && not (undone works (length m.commands) r (reverse m.applied)))
              (k.recorded alive r),
      left,
      k'.mapped r ∙ left,
    )
