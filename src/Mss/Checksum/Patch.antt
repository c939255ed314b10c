-- ===== src/Mss/Checksum/Patch.antt =====
-- cmd/server/mss.go, `setMSSValue`: the update of RFC 1624 keeps a correct checksum correct.
use obsidian_vpn.Base.{
  ℕ, ◌+◌, ◌*◌, ◌-◌, ◌/◌, ◌%◌, ◌^◌, ◌≤◌, ◌<◌, ◌≡◌, refl, ap, ◌∙◌, List, Bool, length, arith, All,
  take, drop, slice, length-take, length-drop, drop-drop,
}
use obsidian_vpn.Base.Bytes.{IsByte, get_u16, put_u16}
use obsidian_vpn.Base.Bytes.Put.{
  length-put_u16, get_u16-put_u16, put_u16-IsByte, get_u16-lt, get_u16-put_u16_ne, take-IsByte,
  drop-IsByte, take-put_u16, drop-put_u16,
}
use obsidian_vpn.Mss.Checksum.{
  ones_sum, fold_sum, complement, pseudo_sum, set_mss_value, word_start, word_end,
}
use obsidian_vpn.Mss.Checksum.Words.{
  word_sum, word_sum-le, ones_sum-word_sum, fold_sum_mod, word_sum-put_u16, word_sum_split,
}
use obsidian_vpn.Mss.Checksum.Valid.{SegmentVerifies, fold_full, pseudo_sum_range}

-- The words before, in and after an even window.
word_sum_window :
    (xs : List ℕ) (s e : ℕ)
    → s % 2 ≡ 0
    → e % 2 ≡ 0
    → s ≤ e
    → e ≤ length xs
    → word_sum xs ≡ word_sum (take s xs) + word_sum (slice xs s e) + word_sum (drop e xs)
word_sum_window xs s e p q le h =
    let split : s + (e - s) ≡ e = omega arith in
    omega (
      arith,
      word_sum_split s xs p (omega arith),
      word_sum_split (e - s) (drop s xs) (omega arith) (omega (arith, length-drop s xs)),
      ap word_sum (drop-drop (e - s) s xs),
      ap (λ k. word_sum (drop k xs)) split,
    )

-- Writing the value moves the words of its window only.
word_sum-value :
    (tcp : List ℕ) (idx mss : ℕ)
    → word_end idx ≤ length tcp
    → word_sum (put_u16 tcp idx mss) + word_sum (slice tcp (word_start idx) (word_end idx))
      ≡ word_sum tcp + word_sum (slice (put_u16 tcp idx mss) (word_start idx) (word_end idx))
unfolding word_start word_end
word_sum-value tcp idx mss h =
    let tcp' = put_u16 tcp idx mss in
    omega (
      arith,
      word_sum_window tcp (idx / 2 * 2) ((idx + 3) / 2 * 2) (omega arith) (omega arith)
          (omega arith) h,
      word_sum_window tcp' (idx / 2 * 2) ((idx + 3) / 2 * 2) (omega arith) (omega arith)
          (omega arith) (omega (arith, length-put_u16 tcp idx mss)),
      ap word_sum (take-put_u16 (idx / 2 * 2) tcp idx mss (omega arith)),
      ap word_sum (drop-put_u16 ((idx + 3) / 2 * 2) tcp idx mss (omega arith)),
    )

window_few :
    (tcp : List ℕ) (idx : ℕ)
    → All IsByte tcp
    → (ones_sum (slice tcp (word_start idx) (word_end idx))
        ≡ word_sum (slice tcp (word_start idx) (word_end idx)))
      × (word_sum (slice tcp (word_start idx) (word_end idx)) ≤ 2 ^ 20)
unfolding word_start word_end
window_few tcp idx bytes =
    let s = idx / 2 * 2 in
    let e = (idx + 3) / 2 * 2 in
    let few = take-IsByte (e - s) (drop s tcp) (drop-IsByte s tcp bytes) in
    let long = length-take (e - s) (drop s tcp) in
    (
      ones_sum-word_sum (slice tcp s e) few (omega arith),
      omega (arith, word_sum-le (slice tcp s e) few),
    )

set_mss_value_mod :
    (tcp : List ℕ) (idx mss : ℕ)
    → All IsByte tcp
    → word_end idx ≤ length tcp
    → 18 ≤ length tcp
    → mss < 2 ^ 16
    → word_sum (set_mss_value tcp idx mss) % 65535 ≡ word_sum tcp % 65535
unfolding set_mss_value complement
set_mss_value_mod tcp idx mss bytes h least small =
    let tcp' = put_u16 tcp idx mss in
    let bytes' = put_u16-IsByte tcp idx mss bytes in
    let (o, ob) = window_few tcp idx bytes in
    let (n, nb) = window_few tcp' idx bytes' in
    let w = ones_sum (slice tcp (word_start idx) (word_end idx)) in
    let w' = ones_sum (slice tcp' (word_start idx) (word_end idx)) in
    let (om, ole, obelow, opos) = fold_sum_mod w (omega arith) in
    let (nm, nle, nbelow, npos) = fold_sum_mod w' (omega arith) in
    let hc = get_u16 tcp' 16 in
    let hc_lt = get_u16-lt tcp' 16 bytes' in
    let u = (65535 - hc + (65535 - fold_sum w) + fold_sum w') % 2 ^ 32 in
    let (um, ule, ubelow, upos) = fold_sum_mod u (omega arith) in
    let moved =
      word_sum-put_u16 tcp' 16 (65535 - fold_sum u) refl (omega (arith, length-put_u16 tcp idx mss))
        (omega arith) in
    let value = word_sum-value tcp idx mss h in omega arith

pub length-set_mss_value :
    (tcp : List ℕ) (idx mss : ℕ) → length (set_mss_value tcp idx mss) ≡ length tcp
unfolding set_mss_value
length-set_mss_value tcp idx mss =
    length-put_u16 (put_u16 tcp idx mss) 16 _ ∙ length-put_u16 tcp idx mss

set_mss_value-IsByte :
    (tcp : List ℕ) (idx mss : ℕ) → All IsByte tcp → All IsByte (set_mss_value tcp idx mss)
unfolding set_mss_value
set_mss_value-IsByte tcp idx mss bytes =
    put_u16-IsByte (put_u16 tcp idx mss) 16 _ (put_u16-IsByte tcp idx mss bytes)

-- Writing an MSS value behind the checksum, at an even or an odd offset, leaves a segment with a
-- correct checksum one with a correct checksum, where the words that the value touches lie in the
-- segment and it has at most 65535 bytes.
pub set_mss_value-SegmentVerifies :
    (ip : List ℕ) (v6 : Bool) (tcp : List ℕ) (idx mss : ℕ)
    → All IsByte ip
    → All IsByte tcp
    → 18 ≤ length tcp
    → length tcp ≤ 65535
    → word_end idx ≤ length tcp
    → mss < 2 ^ 16
    → SegmentVerifies ip v6 tcp
    → SegmentVerifies ip v6 (set_mss_value tcp idx mss)
unfolding SegmentVerifies
set_mss_value-SegmentVerifies ip v6 tcp idx mss bi bt least most window small ok =
    let new = set_mss_value tcp idx mss in
    let bn = set_mss_value-IsByte tcp idx mss bt in
    let same = length-set_mss_value tcp idx mss in
    let p = pseudo_sum ip v6 (length tcp) in
    let (p_ge, p_le) = pseudo_sum_range ip v6 (length tcp) bi (omega arith) in
    let e = ones_sum-word_sum tcp bt (omega arith) in
    let e' = ones_sum-word_sum new bn (omega arith) in
    let w = word_sum-le tcp bt in
    let w' = word_sum-le new bn in
    let (m, le, below, pos) = fold_sum_mod ((p + ones_sum tcp) % 2 ^ 32) (omega arith) in
    let kept = set_mss_value_mod tcp idx mss bt window least small in
    let same_p = ap (pseudo_sum ip v6) same in
    fold_full ((pseudo_sum ip v6 (length new) + ones_sum new) % 2 ^ 32) (omega arith) (omega arith)
      (omega arith)

pub get_u16-set_mss_value :
    (tcp : List ℕ) (idx mss : ℕ)
    → 18 ≤ idx
    → idx + 2 ≤ length tcp
    → mss < 2 ^ 16
    → get_u16 (set_mss_value tcp idx mss) idx ≡ mss
unfolding set_mss_value
get_u16-set_mss_value tcp idx mss p h small =
    get_u16-put_u16_ne (put_u16 tcp idx mss) 16 _ idx (λ e. omega arith) (λ e. omega arith)
      (λ e. omega arith)
    ∙ get_u16-put_u16 tcp idx mss h small
