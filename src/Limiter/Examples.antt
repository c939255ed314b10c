-- ===== src/Limiter/Examples.antt =====
-- The theorems of the address limiter at concrete calls.
use obsidian_vpn.Base.{ℕ, ◌+◌, ◌-◌, ◌*◌, ◌≤◌, ◌≡◌, refl, List, [], ◌∷◌, arith}
use obsidian_vpn.Limiter.{
  Limiter, second, new_limiter, store, unexpired, expire, cleanup, refilled, take_token, allow,
}
use obsidian_vpn.Limiter.Level.{Kept, new-Kept}
use obsidian_vpn.Limiter.Rate.{granted_to, Ordered, granted_to-le}

abbrev two_a_second : Limiter
two_a_second = new_limiter 1000 2 3

-- Address 7 four times at once, then another one, then 7 again after half a second.
abbrev calls : List (ℕ × ℕ)
calls = (1000, 7) ∷ (1001, 7) ∷ (1002, 7) ∷ (1003, 7) ∷ (1004, 8) ∷ (500_001_100, 7) ∷ []

two_a_second-Kept : Kept two_a_second 1000
two_a_second-Kept = new-Kept 1000 2 3 (omega arith) (omega arith) (omega arith) (omega arith)

granted_to-calls : granted_to 7 two_a_second calls ≡ 4
unfolding granted_to new_limiter store unexpired expire cleanup refilled take_token allow
granted_to-calls = refl

granted_to-le_example :
    granted_to 7 two_a_second calls * second
    ≤ two_a_second.burst * second + (500_001_100 - 1000) * two_a_second.rate_per_second
unfolding Ordered
granted_to-le_example =
    granted_to-le 7 two_a_second 1000 500_001_100 calls two_a_second-Kept (omega arith)
