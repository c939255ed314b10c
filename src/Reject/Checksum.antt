-- ===== src/Reject/Checksum.antt =====
-- obsidian/ipv6_reject.go, `ipv6Checksum`: the receiver's sum over a reply is all ones.
use obsidian_vpn.Base.{
  ℕ, zero, suc, ◌+◌, ◌*◌, ◌/◌, ◌%◌, ◌^◌, ◌≤◌, ◌<◌, ◌≡◌, refl, ◌∙◌, List, [], ◌∷◌, length, arith,
  All,
}
use obsidian_vpn.Base.Bytes.{IsByte}
use obsidian_vpn.Mss.Checksum.{ones_sum_from, fold_sum, fold_loop}
use obsidian_vpn.Mss.Checksum.Words.{word_sum, word_sum-le, ones_sum_from-word_sum, fold_sum_mod}
use obsidian_vpn.Mss.Checksum.Valid.{fold_full}
use obsidian_vpn.Reject.{ones_sum_with, fold_words, ipv6_sum, ipv6_checksum}

-- Both files sum and fold alike.
ones_sum_with-ones_sum_from : (xs : List ℕ) (s : ℕ) → ones_sum_with xs s ≡ ones_sum_from s xs
unfolding ones_sum_with ones_sum_from
ones_sum_with-ones_sum_from [] s = refl
ones_sum_with-ones_sum_from (a ∷ []) s = refl
ones_sum_with-ones_sum_from (a ∷ b ∷ rest) s =
    ones_sum_with-ones_sum_from rest ((s + (a * 256 + b)) % 2 ^ 32)

ones_sum_with-word_sum :
    (xs : List ℕ) (s : ℕ) → s + word_sum xs < 2 ^ 32 → ones_sum_with xs s ≡ s + word_sum xs
ones_sum_with-word_sum xs s h = ones_sum_with-ones_sum_from xs s ∙ ones_sum_from-word_sum s xs h

pub fold_words-fold_sum : (s : ℕ) → s < 2 ^ 32 → fold_words 2 s ≡ fold_sum s
unfolding fold_words fold_sum fold_loop
fold_words-fold_sum s h = ground arith

-- More rounds change nothing.
fold_words_enough : (n s : ℕ) → s < 2 ^ 32 → fold_words (suc (suc n)) s ≡ fold_words 2 s
unfolding fold_words
fold_words_enough zero s h = ground arith
fold_words_enough (suc n) s h = ground arith

-- The sum without wrap.
pub ipv6_sum-word_sum :
    (src dst : List ℕ) (next : ℕ) (seg : List ℕ)
    → All IsByte src
    → All IsByte dst
    → All IsByte seg
    → length src ≤ 16
    → length dst ≤ 16
    → length seg ≤ 65535
    → next < 256
    → (ipv6_sum src dst next seg ≡ word_sum src + word_sum dst + length seg + next + word_sum seg)
      × (ipv6_sum src dst next seg + 65535 < 2 ^ 32)
unfolding ipv6_sum
ipv6_sum-word_sum src dst next seg bs bd bg ls ld lg ln =
    let a = ones_sum_with src 0 in
    let d = ones_sum_with dst a in
    let s = (d + (length seg / 2 ^ 16 + length seg % 2 ^ 16) + next) % 2 ^ 32 in
    let ws = word_sum-le src bs in
    let wd = word_sum-le dst bd in
    let wg = word_sum-le seg bg in
    let e1 = ones_sum_with-word_sum src 0 (omega arith) in
    let e2 = ones_sum_with-word_sum dst a (omega arith) in
    let e3 = ones_sum_with-word_sum seg s (omega arith) in (omega arith, omega arith)

unfoldable pub ReplyVerifies : List ℕ → List ℕ → ℕ → List ℕ → Type 0
ReplyVerifies src dst next seg = fold_words 2 (ipv6_sum src dst next seg) ≡ 65535

-- A segment whose sum grows by what is put into its checksum field.
pub ipv6_checksum-fills :
    (src dst : List ℕ) (next : ℕ) (blank seg : List ℕ)
    → All IsByte src
    → All IsByte dst
    → All IsByte blank
    → All IsByte seg
    → length src ≤ 16
    → length dst ≤ 16
    → length blank ≤ 65535
    → length seg ≡ length blank
    → 0 < next
    → next < 256
    → word_sum seg ≡ word_sum blank + ipv6_checksum src dst next blank
    → ReplyVerifies src dst next seg
unfolding ipv6_checksum ReplyVerifies
ipv6_checksum-fills src dst next blank seg bs bd bb bg ls ld lb same pos ln filled =
    let (eb, hb) = ipv6_sum-word_sum src dst next blank bs bd bb ls ld lb ln in
    let (eg, hg) = ipv6_sum-word_sum src dst next seg bs bd bg ls ld (omega arith) ln in
    let t = ipv6_sum src dst next blank in
    let u = ipv6_sum src dst next seg in
    let (m, le, below, nonzero) = fold_sum_mod t (omega arith) in
    let e = fold_words-fold_sum t (omega arith) in
    fold_words-fold_sum u (omega arith) ∙ fold_full u (omega arith) (omega arith) (omega arith)
