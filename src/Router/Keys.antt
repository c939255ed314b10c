-- ===== src/Router/Keys.antt =====
-- cmd/server/tun_router.go: the tests on addresses and sessions, and reads of the maps after a write.
use mathlib.Core.Path.{ap₂}
use obsidian_vpn.Base.{
  ℕ, ◌≡◌, ◌≢◌, refl, List, [], ◌∷◌, Bool, true, false, ◌&&◌, ◌==◌, arith, ==→eq, eq→==,
}
use obsidian_vpn.Router.{same_bytes, is_active, remove}

pub same_bytes_self : (xs : List ℕ) → same_bytes xs xs ≡ true
unfolding same_bytes
same_bytes_self [] = refl
same_bytes_self (a ∷ xs) = rw (eq→== a a refl, same_bytes_self xs)

both_true : (p q : Bool) → (p && q) ≡ true → (p ≡ true) × (q ≡ true)
both_true p q h = ground arith

pub same_bytes-eq : (xs ys : List ℕ) → same_bytes xs ys ≡ true → xs ≡ ys
unfolding same_bytes
same_bytes-eq [] [] h = refl
same_bytes-eq [] (b ∷ ys) h = absurd (ground arith)
same_bytes-eq (a ∷ xs) [] h = absurd (ground arith)
same_bytes-eq (a ∷ xs) (b ∷ ys) h =
    let (same, rest) = both_true (a == b) (same_bytes xs ys) h in
    ap₂ ◌∷◌ (==→eq a b same) (same_bytes-eq xs ys rest)

pub is_active-remove_self : (s : ℕ) (ts : List ℕ) → is_active s (remove s ts) ≡ false
unfolding is_active remove
is_active-remove_self s [] = refl
is_active-remove_self s (t ∷ ts) = ground (arith, is_active-remove_self s ts)

pub is_active-remove_ne :
    (s t : ℕ) (ts : List ℕ) → s ≢ t → is_active t (remove s ts) ≡ is_active t ts
unfolding is_active remove
is_active-remove_ne s t [] h = refl
is_active-remove_ne s t (u ∷ ts) h = ground (arith, is_active-remove_ne s t ts h)
