-- ===== src/Replay.antt =====
-- obsidian/udp.go, the anti-replay window: `replayWindow` and its `Check`.
-- The bitmap is a list of 64 words of 64 bits; the mutex makes each `Check` one step, so a history
-- is a list of calls. `for i := maxSeq + 1; i <= seq; i++` runs on fuel, with Go's wrap of `i`.
mod Slots
mod Clearing
pub mod Refinement
mod History
mod Overflow
mod Examples
use obsidian_vpn.Base.{
  ℕ, zero, suc, ◌+◌, ◌-◌, ◌/◌, ◌%◌, ◌^◌, bit_or, bit_and, Bool, true, false, Option, none, some,
  List, ltb, leb, ◌==◌, if◌then◌else◌, get_or, set, replicate,
}
use obsidian_vpn.Base.Bits.{and_not}

abbrev pub replay_window_size : ℕ
replay_window_size = 4096

pub record ReplayWindow : Type 0 where
  pub max_seq : ℕ
  pub bitmap : List ℕ

-- The zero value.
abbrev pub empty_window : ReplayWindow
empty_window = record { max_seq = 0; bitmap = replicate 64 0 }

-- `w.bitmap[idx/64] |= 1 << (idx % 64)`
unfoldable pub mark : List ℕ → ℕ → List ℕ
mark bm idx = set bm (idx / 64) (bit_or (get_or bm (idx / 64) 0) (2 ^ (idx % 64)))

-- `w.bitmap[idx/64] &^= 1 << (idx % 64)`
unfoldable pub unmark : List ℕ → ℕ → List ℕ
unmark bm idx = set bm (idx / 64) (and_not (get_or bm (idx / 64) 0) (2 ^ (idx % 64)))

-- `w.bitmap[idx/64] & bit != 0`
unfoldable pub is_marked : List ℕ → ℕ → Bool
is_marked bm idx = if bit_and (get_or bm (idx / 64) 0) (2 ^ (idx % 64)) == 0 then false else true

-- The loop that clears the slots of the skipped numbers; `none` when the fuel runs out.
unfoldable pub clear_loop : ℕ → ℕ → ℕ → List ℕ → Option (List ℕ)
clear_loop zero i seq bm = none
clear_loop (suc fuel) i seq bm = elim (leb i seq) [
  | true ↦ clear_loop fuel ((i + 1) % 2 ^ 64) seq (unmark bm (i % replay_window_size))
  | false ↦ some bm
]

-- The bitmap after the window has moved up to `seq`.
unfoldable pub advance : ℕ → ReplayWindow → ℕ → Option (List ℕ)
advance fuel w seq =
    if leb replay_window_size (seq - w.max_seq)
    then some (replicate 64 0)
    else clear_loop fuel ((w.max_seq + 1) % 2 ^ 64) seq w.bitmap

unfoldable pub accept_newest : ℕ → Option (List ℕ) → Option (Bool × ReplayWindow)
accept_newest seq none = none
accept_newest seq (some bm) =
    some (true, record { max_seq = seq; bitmap = mark bm (seq % replay_window_size) })

unfoldable pub check_fuel : ℕ → ReplayWindow → ℕ → Option (Bool × ReplayWindow)
check_fuel fuel w seq =
    if ltb w.max_seq seq
    then accept_newest seq (advance fuel w seq)
    else if leb replay_window_size (w.max_seq - seq)
    then some (false, w)
    else if is_marked w.bitmap (seq % replay_window_size)
    then some (false, w)
    else some (true, record w { bitmap = mark w.bitmap (seq % replay_window_size) })

-- At most 4095 slots are cleared, and one more test ends the loop.
unfoldable pub check : ReplayWindow → ℕ → Option (Bool × ReplayWindow)
check w seq = check_fuel replay_window_size w seq
