-- ===== src/Routes/Manager/Installed.antt =====
-- The routes that are in the system's table, over any course of refreshes and a close.
use obsidian_vpn.Base.{
  ℕ, ◌+◌, ◌≡◌, refl, sym, ap, subst, ◌∙◌, List, [], ◌∷◌, ◌++◌, Bool, true, false, not, ◌||◌, ◌&&◌,
  if◌then◌else◌, arith, Bool-cases, inl, inr, length,
}
use mathlib.Core.Path.{ap₂}
use mathlib.Core.List.{reverse, reverse-append}
use obsidian_vpn.Routes.{Prefix, same_prefix}
use obsidian_vpn.Routes.Planned.{and_parts, same_prefix-eq, same_prefix_self}
use obsidian_vpn.Routes.Manager.{
  Route, same_route, Command, added, deleted, RouteManager, new_route_manager, after_add,
  add_locked, add_all, apply, dels,
}

unfoldable pub has_route : Route → List Route → Bool
has_route r [] = false
has_route r (q ∷ qs) = same_route r q || has_route r qs

pub without : Route → List Route → List Route
without r [] = []
without r (q ∷ qs) = let rest = without r qs in if same_route r q then rest else q ∷ rest

-- The system's table after one more command, and after all.
pub run_command : List Route → Command → List Route
run_command table (added r true) = r ∷ table
run_command table (added r false) = table
run_command table (deleted r true) = without r table
run_command table (deleted r false) = table

pub run_commands : List Route → List Command → List Route
run_commands table [] = table
run_commands table (c ∷ cs) = run_commands (run_command table c) cs

abbrev pub installed : RouteManager → List Route
installed m = run_commands [] m.commands

both_flags : (a b : Bool) → (if a then b else not b) ≡ true → a ≡ b
both_flags true b h = ground arith
both_flags false b h = ground arith

pub same_route-eq : (r q : Route) → same_route r q ≡ true → r ≡ q
unfolding same_route
same_route-eq r q h =
    let (prefixes, flags) =
      and_parts (same_prefix r.prefix q.prefix) (if r.via_tun then q.via_tun else not q.via_tun)
        h in
    ap₂ (λ (p : Prefix) (b : Bool). let s : Route = record { prefix = p; via_tun = b } in s)
      (same_prefix-eq r.prefix q.prefix prefixes) (both_flags r.via_tun q.via_tun flags)

flag_self : (b : Bool) → (if b then b else not b) ≡ true
flag_self true = refl
flag_self false = refl

same_route_self : (r : Route) → same_route r r ≡ true
unfolding same_route
same_route_self r = rw (same_prefix_self r.prefix, flag_self r.via_tun)

same_route_comm : (r q : Route) → same_route r q ≡ same_route q r
same_route_comm r q = elim (Bool-cases (same_route r q)) [
  | inl same ↦
      ap (λ s. same_route s q) (same_route-eq r q same)
      ∙ ap (same_route q) (sym (same_route-eq r q same))
  | inr apart ↦ elim (Bool-cases (same_route q r)) [
    | inl other ↦
        ap (λ s. same_route s q) (sym (same_route-eq q r other))
        ∙ ap (same_route q) (same_route-eq q r other)
    | inr still ↦ apart ∙ sym still
  ]
]

pub has_route-append :
    (r : Route) (xs ys : List Route) → has_route r (xs ++ ys) ≡ (has_route r xs || has_route r ys)
unfolding has_route
has_route-append r [] ys = refl
has_route-append r (x ∷ xs) ys = ground (arith, has_route-append r xs ys)

pub has_route-reverse : (r : Route) (xs : List Route) → has_route r (reverse xs) ≡ has_route r xs
unfolding has_route
has_route-reverse r [] = refl
has_route-reverse r (x ∷ xs) =
    ap (has_route r) (reverse-append (x ∷ []) xs)
    ∙ has_route-append r (reverse xs) (x ∷ [])
    ∙ ground (arith, has_route-reverse r xs)

has_route-without :
    (s r : Route) (xs : List Route)
    → has_route s (without r xs) ≡ (has_route s xs && not (same_route r s))
unfolding has_route without
has_route-without s r [] = refl
has_route-without s r (x ∷ xs) = elim (Bool-cases (same_route r x)) [
  | inl same ↦ rw same (
      ground (
        arith,
        has_route-without s r xs,
        same_route_comm s x,
        ap (λ q. same_route q s) (same_route-eq r x same),
      ))
  | inr apart ↦ elim (Bool-cases (same_route s x)) [
    | inl own ↦
        rw apart
          (ground (arith, has_route-without s r xs, ap (same_route r) (same_route-eq s x own)))
    | inr other ↦ rw apart (ground (arith, has_route-without s r xs))
  ]
]

pub run_commands-append :
    (table : List Route) (cs ds : List Command)
    → run_commands table (cs ++ ds) ≡ run_commands (run_commands table cs) ds
unfolding run_commands
run_commands-append table [] ds = refl
run_commands-append table (c ∷ cs) ds = run_commands-append (run_command table c) cs ds

-- Whether a deletion of the route succeeds, when the routes are deleted in turn.
pub undone : (ℕ → Bool) → ℕ → Route → List Route → Bool
undone works k s [] = false
undone works k s (r ∷ rs) = (works k && same_route r s) || undone works (k + 1) s rs

after_deleted :
    (b : Bool) (s r : Route) (table : List Route)
    → has_route s (run_command table (deleted r b))
      ≡ (has_route s table && not (b && same_route r s))
unfolding run_command
after_deleted true s r table = has_route-without s r table ∙ ground arith
after_deleted false s r table = ground arith

pub has_route-dels :
    (works : ℕ → Bool) (k : ℕ) (s : Route) (table rs : List Route)
    → has_route s (run_commands table (dels works k rs))
      ≡ (has_route s table && not (undone works k s rs))
unfolding run_commands dels undone
has_route-dels works k s table [] = ground arith
has_route-dels works k s table (r ∷ rs) =
    has_route-dels works (k + 1) s (run_command table (deleted r (works k))) rs
    ∙ ground (arith, after_deleted (works k) s r table)

-- The books are right: what is in the table of an open manager is what is recorded, both records say the
-- same, and after the close nothing is recorded.
pub record IsKept (m : RouteManager) : Type 0 where
  pub recorded : m.closed ≡ false → (r : Route) → has_route r (installed m) ≡ has_route r m.applied
  pub mapped : (r : Route) → m.set r ≡ has_route r m.applied
  pub ended : m.closed ≡ true → (r : Route) → has_route r m.applied ≡ false

pub new_route_manager-IsKept :
    (mode dns host : List ℕ) (entries : List (List ℕ)) (ipv6 : Bool)
    → IsKept (new_route_manager mode entries dns host ipv6)
unfolding new_route_manager run_commands has_route
new_route_manager-IsKept mode dns host entries ipv6 = record {
  recorded = λ alive r. refl;
  mapped = λ r. refl;
  ended = λ e r. refl;
}

after_add-IsKept :
    (b : Bool) (m : RouteManager) (r : Route)
    → m.closed ≡ false
    → IsKept m
    → IsKept (after_add b m r)
unfolding after_add
after_add-IsKept true m r alive k = record {
  recorded = λ a q.
      ap (has_route q) (run_commands-append [] m.commands (added r true ∷ []))
      ∙ (unfold run_commands run_command has_route in
          ground (arith, k.recorded alive q, has_route-append q m.applied (r ∷ [])));
  mapped = λ q.
      unfold has_route in
      ground (arith, k.mapped q, has_route-append q m.applied (r ∷ []), same_route_comm q r);
  ended = λ e q. cc (alive, e);
}
after_add-IsKept false m r alive k = record {
  recorded = λ a q.
      ap (has_route q) (run_commands-append [] m.commands (added r false ∷ []))
      ∙ (unfold run_commands run_command in k.recorded alive q);
  mapped = k.mapped;
  ended = k.ended;
}

after_add_closed : (b : Bool) (m : RouteManager) (r : Route) → (after_add b m r).closed ≡ m.closed
unfolding after_add
after_add_closed true m r = refl
after_add_closed false m r = refl

-- An open manager whose books are right.
pub record IsOpen (m : RouteManager) : Type 0 where
  pub alive : m.closed ≡ false
  pub kept : IsKept m

pub add_locked-IsOpen :
    (works : ℕ → Bool) (m : RouteManager) (r : Route) → IsOpen m → IsOpen (add_locked works m r)
unfolding add_locked
add_locked-IsOpen works m r o = elim (Bool-cases (m.set r)) [
  | inl there ↦
      subst (λ b. IsOpen (if b then m else after_add (works (length m.commands)) m r)) (sym there) o
  | inr missing ↦
      subst (λ b. IsOpen (if b then m else after_add (works (length m.commands)) m r)) (sym missing)
        (record {
          alive = after_add_closed (works (length m.commands)) m r ∙ o.alive;
          kept = after_add-IsKept (works (length m.commands)) m r o.alive o.kept;
        })
]

pub add_all-IsOpen :
    (works : ℕ → Bool) (m : RouteManager) (via_tun : Bool) (ps : List Prefix)
    → IsOpen m
    → IsOpen (add_all works m via_tun ps)
unfolding add_all
add_all-IsOpen works m via_tun [] o = o
add_all-IsOpen works m via_tun (p ∷ ps) o =
    add_all-IsOpen works (add_locked works m (record { prefix = p; via_tun = via_tun })) via_tun ps
      (add_locked-IsOpen works m (record { prefix = p; via_tun = via_tun }) o)

pub apply-IsKept :
    (works : ℕ → Bool) (m : RouteManager) (plan : List Prefix × List Prefix)
    → IsKept m
    → IsKept (apply works m plan)
unfolding apply
apply-IsKept works m (via_tun, via_gw) k = elim (Bool-cases m.closed) [
  | inl done ↦
      subst
        (λ b. IsKept (if b then m else add_all works (add_all works m false via_gw) true via_tun))
        (sym done) k
  | inr alive ↦
      let both =
        add_all-IsOpen works (add_all works m false via_gw) true via_tun
          (add_all-IsOpen works m false via_gw (record { alive = alive; kept = k })) in
      subst
        (λ b. IsKept (if b then m else add_all works (add_all works m false via_gw) true via_tun))
        (sym alive) both.kept
]
