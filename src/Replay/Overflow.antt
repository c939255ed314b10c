-- ===== src/Replay/Overflow.antt =====
-- The greatest uint64: the clearing loop's counter wraps before it passes `seq`.
use obsidian_vpn.Base.{
  ℕ, zero, suc, ◌+◌, ◌-◌, ◌%◌, ◌^◌, ◌≤◌, ◌<◌, ◌≡◌, refl, ap, none, List, arith, lt→ltb, le→leb,
  lt→leb,
}
use obsidian_vpn.Replay.{ReplayWindow, clear_loop, unmark, advance, accept_newest, check_fuel}

abbrev pub max_uint64 : ℕ
max_uint64 = 0xffff_ffff_ffff_ffff

clear_loop_forever :
    (fuel i : ℕ) (bm : List ℕ) → i ≤ max_uint64 → clear_loop fuel i max_uint64 bm ≡ none
unfolding clear_loop
clear_loop_forever zero i bm h = refl
clear_loop_forever (suc fuel) i bm h =
    rw (le→leb i max_uint64 h, clear_loop)
      (clear_loop_forever fuel ((i + 1) % 2 ^ 64) (unmark bm (i % 4096)) (omega arith))

-- Whenever the greatest number seen is less than 4096 below the greatest uint64, `Check` of the
-- greatest uint64 does not end: no amount of fuel gives an answer.
pub check_never_ends :
    (w : ReplayWindow)
    → w.max_seq < max_uint64
    → max_uint64 < w.max_seq + 4096
    → (fuel : ℕ) → check_fuel fuel w max_uint64 ≡ none
unfolding check_fuel advance accept_newest
check_never_ends w lt near fuel =
    rw (lt→ltb w.max_seq max_uint64 lt, lt→leb 4096 (max_uint64 - w.max_seq) (omega arith))
      (ap (accept_newest max_uint64)
        (clear_loop_forever fuel ((w.max_seq + 1) % 2 ^ 64) w.bitmap (omega arith)))
