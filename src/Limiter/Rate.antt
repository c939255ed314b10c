-- ===== src/Limiter/Rate.antt =====
-- obsidian/ip_rate_limiter.go: how many handshakes an address is let through in a stretch of time.
use obsidian_vpn.Base.{
  ℕ, ◌+◌, ◌-◌, ◌*◌, ◌≤◌, ◌≡◌, ap, List, [], ◌∷◌, ◌==◌, ◌&&◌, if◌then◌else◌, arith,
}
use native.Mathlib.Nat.{add-mul}
use obsidian_vpn.Limiter.{Limiter, second, allow}
use obsidian_vpn.Limiter.Level.{Kept, level, level-le}
use obsidian_vpn.Limiter.Steps.{allow-Step, paid_by}

-- The calls of a stretch of time, each with the clock's reading and the address.
pub run : Limiter → List (ℕ × ℕ) → Limiter
run r [] = r
run r ((now, addr) ∷ calls) = run (allow r now addr).1 calls

-- How many of them let `a` through.
unfoldable pub granted_to : ℕ → Limiter → List (ℕ × ℕ) → ℕ
granted_to a r [] = 0
granted_to a r ((now, addr) ∷ calls) =
    (if (allow r now addr).0 && (addr == a) then 1 else 0) + granted_to a (allow r now addr).1 calls

-- Readings of the clock that do not go back, none before `clock` or after `finish`.
unfoldable pub Ordered : ℕ → ℕ → List (ℕ × ℕ) → Type 0
Ordered clock finish [] = clock ≤ finish
Ordered clock finish ((now, addr) ∷ calls) = (clock ≤ now) × Ordered now finish calls

Ordered-le : (clock finish : ℕ) (calls : List (ℕ × ℕ)) → Ordered clock finish calls → clock ≤ finish
unfolding Ordered
Ordered-le clock finish [] h = h
Ordered-le clock finish ((now, addr) ∷ calls) (h, rest) =
    omega (arith, Ordered-le now finish calls rest)

granted_to-level :
    (a : ℕ) (r : Limiter) (clock finish : ℕ) (calls : List (ℕ × ℕ))
    → Kept r clock
    → Ordered clock finish calls
    → granted_to a r calls * second ≤ level r clock a + (finish - clock) * r.rate_per_second
unfolding granted_to Ordered
granted_to-level a r clock finish [] k h = omega arith
granted_to-level a r clock finish ((now, addr) ∷ calls) k (h, rest) =
    let s = allow-Step r clock now addr h k in
    let r' = (allow r now addr).1 in
    let later = granted_to-level a r' now finish calls s.kept rest in
    let le = Ordered-le now finish calls rest in
    let split : finish - clock ≡ now - clock + (finish - now) = omega arith in
    omega (
      arith,
      later,
      s.paid a,
      paid_by (allow r now addr).0 addr a,
      ap (λ q. (finish - now) * q) s.same_rate,
      ap (λ d. d * r.rate_per_second) split,
      add-mul (now - clock) (finish - now) r.rate_per_second,
    )

-- Over any calls in the order of the clock, from any state that the limiter keeps, the calls that let
-- an address through number at most the burst and the rate times the seconds that pass, whatever
-- other addresses call and whichever entries are deleted: deleting is harmless since the burst is at
-- most ten seconds' refill, and the sums stay within an int64.
pub granted_to-le :
    (a : ℕ) (r : Limiter) (clock finish : ℕ) (calls : List (ℕ × ℕ))
    → Kept r clock
    → Ordered clock finish calls
    → granted_to a r calls * second ≤ r.burst * second + (finish - clock) * r.rate_per_second
granted_to-le a r clock finish calls k h =
    omega (arith, granted_to-level a r clock finish calls k h, level-le r clock a)

-- The state that the limiter keeps is kept by every call of `Allow` at a later reading of the clock.
pub allow-Kept :
    (r : Limiter) (clock now addr : ℕ) → clock ≤ now → Kept r clock → Kept (allow r now addr).1 now
allow-Kept r clock now addr h k = (allow-Step r clock now addr h k).kept
