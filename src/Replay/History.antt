-- ===== src/Replay/History.antt =====
-- A whole run of `Check` calls on a fresh window.
use obsidian_vpn.Base.{
  ℕ, ◌+◌, ◌^◌, ◌<◌, ◌≡◌, refl, false, Option, some, none, List, [], ◌∷◌, if◌then◌else◌, arith, All,
}
use obsidian_vpn.Replay.{ReplayWindow, empty_window, check}
use obsidian_vpn.Replay.Refinement.{
  elem, lets_through, remember, Represents, check-Refines, empty-Represents,
}

-- The calls in turn; the numbers let through are collected, the latest first.
unfoldable pub run : ReplayWindow → List ℕ → List ℕ → Option (List ℕ × ReplayWindow)
run w [] passed = some (passed, w)
run w (seq ∷ seqs) passed = elim (check w seq) [
  | none ↦ none
  | some (ok, w') ↦ run w' seqs (if ok then seq ∷ passed else passed)
]

abbrev pub IsBelowTop : ℕ → Type 0
IsBelowTop seq = seq + 1 < 2 ^ 64

abbrev pub Distinct : List ℕ → Type 0
Distinct [] = Unit {0}
Distinct (x ∷ xs) = (elem x xs ≡ false) × Distinct xs

remember-Distinct : (h : List ℕ) (seq : ℕ) → Distinct h → Distinct (remember h seq)
unfolding remember lets_through
remember-Distinct h seq d = ground arith

pub remember_all : List ℕ → List ℕ → List ℕ
remember_all h [] = h
remember_all h (seq ∷ seqs) = remember_all (remember h seq) seqs

remember_all-Distinct : (h seqs : List ℕ) → Distinct h → Distinct (remember_all h seqs)
unfolding remember_all
remember_all-Distinct h [] d = d
remember_all-Distinct h (seq ∷ seqs) d =
    remember_all-Distinct (remember h seq) seqs (remember-Distinct h seq d)

run_refines :
    (w : ReplayWindow) (h seqs : List ℕ)
    → Represents w h
    → All IsBelowTop seqs
    → (w' : ReplayWindow) × (run w seqs h ≡ some (remember_all h seqs, w'))
      × Represents w' (remember_all h seqs)
unfolding run remember_all remember
run_refines w h [] r b = (w, refl, r)
run_refines w h (seq ∷ seqs) r (b, bs) =
    let (w', e, r') = check-Refines w h seq r b in
    let (w'', e', r'') = run_refines w' (remember h seq) seqs r' bs in (w'', rw (e, run) e', r'')

-- Over any run of calls on a fresh window, none of them with the greatest uint64, every call ends,
-- the numbers let through are those that the specification lets through, and no number is let
-- through twice.
pub run_no_replay :
    (seqs : List ℕ)
    → All IsBelowTop seqs
    → (w : ReplayWindow) × (run empty_window seqs [] ≡ some (remember_all [] seqs, w))
      × Distinct (remember_all [] seqs)
run_no_replay seqs b =
    let (w, e, r) = run_refines empty_window [] seqs empty-Represents b in
    (w, e, remember_all-Distinct [] seqs tt)
