-- ===== src/Replay/Examples.antt =====
-- Runs of the window, and its theorems at concrete inputs.
use obsidian_vpn.Base.{ℕ, ◌≡◌, refl, Option, some, none, List, [], ◌∷◌, arith, replicate}
use obsidian_vpn.Base.Bits.{and_not}
use obsidian_vpn.Replay.{
  ReplayWindow, empty_window, check, check_fuel, mark, unmark, is_marked, advance, accept_newest,
  clear_loop,
}
use obsidian_vpn.Replay.Refinement.{Refines, check-Refines, empty-Represents}
use obsidian_vpn.Replay.History.{run, Distinct, remember_all, run_no_replay}
use obsidian_vpn.Replay.Overflow.{max_uint64, check_never_ends}

-- A number, a later one, the first again, one between the two, and one far ahead.
abbrev datagrams : List ℕ
datagrams = 5 ∷ 9 ∷ 5 ∷ 7 ∷ 5000 ∷ 8 ∷ []

passed : Option (List ℕ × ReplayWindow) → List ℕ
passed none = []
passed (some (xs, w)) = xs

run-datagrams : passed (run empty_window datagrams []) ≡ 5000 ∷ 7 ∷ 9 ∷ 5 ∷ []
unfolding passed run check check_fuel mark unmark is_marked advance accept_newest clear_loop and_not
run-datagrams = refl

run_no_replay_example :
    (w : ReplayWindow) × (run empty_window datagrams [] ≡ some (remember_all [] datagrams, w))
    × Distinct (remember_all [] datagrams)
run_no_replay_example = run_no_replay datagrams (omega arith)

check-Refines_example : Refines empty_window [] 7
check-Refines_example = check-Refines empty_window [] 7 empty-Represents (omega arith)

-- The last number but one of a peer that counts up to the end.
abbrev late_window : ReplayWindow
late_window = record { max_seq = 0xffff_ffff_ffff_fffe; bitmap = replicate 64 0 }

check_never_ends_example : check_fuel 4096 late_window max_uint64 ≡ none
check_never_ends_example = check_never_ends late_window (omega arith) (omega arith) 4096
