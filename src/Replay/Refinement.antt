-- ===== src/Replay/Refinement.antt =====
-- The window against its specification: the list of the numbers accepted so far, newest first.
use obsidian_vpn.Base.{
  ℕ, ◌+◌, ◌-◌, ◌%◌, ◌^◌, ◌≤◌, ◌<◌, max, ◌≡◌, refl, sym, ap, ◌∙◌, ◌≢◌, Bool, true, false, not, ◌&&◌,
  some, List, [], ◌∷◌, ltb, leb, ◌==◌, if◌then◌else◌, length, arith, tests, Bool-cases, inl, inr,
  replicate, ltb→lt, ltb_false→le, leb→le, leb_false→lt, ==→eq, ==_false→ne, length-replicate,
}
use mathlib.Core.Logic.{◌⊎◌}
use obsidian_vpn.Replay.{
  ReplayWindow, empty_window, mark, advance, accept_newest, check_fuel, check, clear_loop,
}
use obsidian_vpn.Replay.Slots.{slot, slot-mark_self, slot-mark_ne, slot-replicate, is_marked-slot}
use obsidian_vpn.Replay.Clearing.{clear_loop-Cleared, length-mark}

unfoldable pub elem : ℕ → List ℕ → Bool
elem s [] = false
elem s (x ∷ xs) = if x == s then true else elem s xs

unfoldable pub newest : List ℕ → ℕ
newest [] = 0
newest (x ∷ xs) = max x (newest xs)

-- A number is let through when it is new and not 4096 or more behind the greatest one.
unfoldable pub lets_through : List ℕ → ℕ → Bool
lets_through h seq = ltb (newest h - seq) 4096 && not (elem seq h)

unfoldable pub remember : List ℕ → ℕ → List ℕ
remember h seq = if lets_through h seq then seq ∷ h else h

pub record Represents (w : ReplayWindow) (h : List ℕ) : Type 0 where
  pub words : length w.bitmap ≡ 64
  pub top : w.max_seq ≡ newest h
  pub slots :
      (s : ℕ)
      → s ≤ w.max_seq
      → w.max_seq < s + 4096
      → slot w.bitmap (s % 4096) ≡ (if elem s h then 1 else 0)

pub elem-le-newest : (s : ℕ) (h : List ℕ) → elem s h ≡ true → s ≤ newest h
unfolding elem newest
elem-le-newest s [] e = cc
elem-le-newest s (x ∷ xs) e = ground (arith, elem-le-newest s xs)

elem_above : (s : ℕ) (h : List ℕ) → newest h < s → elem s h ≡ false
elem_above s h lt = elim (Bool-cases (elem s h)) [
  | inl e ↦ absurd (omega (arith, elem-le-newest s h e))
  | inr e ↦ e
]

-- A bitmap that is right for a window up to `m`, but for the number `seq`.
record Ready (m seq : ℕ) (h : List ℕ) (bm : List ℕ) : Type 0 where
  words : length bm ≡ 64
  others :
      (s : ℕ) → s ≢ seq → s ≤ m → m < s + 4096 → slot bm (s % 4096) ≡ (if elem s h then 1 else 0)

advance-Ready :
    (w : ReplayWindow) (h : List ℕ) (seq : ℕ)
    → Represents w h
    → w.max_seq < seq
    → seq + 1 < 2 ^ 64
    → (bm : List ℕ) × (advance 4096 w seq ≡ some bm) × Ready seq seq h bm
unfolding advance
advance-Ready w h seq r lt top = elim (Bool-cases (leb 4096 (seq - w.max_seq))) [
  | inl far ↦ (
    replicate 64 0,
    rw far,
    record {
      words = length-replicate {A = ℕ} 64 0;
      others = λ s n p q.
          slot-replicate (s % 4096)
          ∙ rw (elem_above s h (omega (arith, leb→le 4096 (seq - w.max_seq) far, r.top)));
    },
  )
  | inr near ↦
      let close : seq - w.max_seq < 4096 = leb_false→lt 4096 (seq - w.max_seq) near in
      let small : (w.max_seq + 1) % 2 ^ 64 ≡ w.max_seq + 1 = omega arith in
      let (bm, e, c) =
        clear_loop-Cleared 4096 (w.max_seq + 1) seq w.bitmap top (omega arith) (omega arith)
          (omega arith) r.words in
      (
        bm,
        rw near (ap (λ i. clear_loop 4096 i seq w.bitmap) small ∙ e),
        record {
          words = c.words;
          others = λ s n p q. elim (Bool-cases (ltb w.max_seq s)) [
            | inl skipped ↦
                c.freed (s) (omega (tests, ltb→lt w.max_seq s skipped)) (omega arith) q
                ∙ rw (elem_above s h (omega (arith, ltb→lt w.max_seq s skipped, r.top)))
            | inr old ↦
                let le : s ≤ w.max_seq = ltb_false→le w.max_seq s old in
                c.kept s (omega arith) q ∙ r.slots s le (omega arith)
          ];
        },
      )
]

-- Marking `seq` in such a bitmap gives the window of the longer history.
marked-Represents :
    (m seq : ℕ) (h bm : List ℕ)
    → max seq (newest h) ≡ m
    → m < seq + 4096
    → Ready m seq h bm
    → Represents (record { max_seq = m; bitmap = mark bm (seq % 4096) }) (seq ∷ h)
unfolding newest elem
marked-Represents m seq h bm top near r = record {
  words = length-mark bm (seq % 4096) ∙ r.words;
  top = sym top;
  slots = λ s p q. elim (Bool-cases (seq == s)) [
    | inl e ↦
        ap (λ x. slot (mark bm (seq % 4096)) (x % 4096)) (sym (==→eq seq s e))
        ∙ slot-mark_self bm (seq % 4096) r.words (omega arith)
        ∙ rw e
    | inr e ↦
        let ne : seq ≢ s = ==_false→ne seq s e in
        slot-mark_ne bm (seq % 4096) (s % 4096) r.words (omega arith) (λ c. ne (omega arith))
        ∙ r.others s (λ c. ne (sym c)) p q
        ∙ rw e
  ];
}

-- A step of the code against one of the specification.
abbrev pub Refines : ReplayWindow → List ℕ → ℕ → Type 0
Refines w h seq =
    (w' : ReplayWindow) × (check w seq ≡ some (lets_through h seq, w'))
    × Represents w' (remember h seq)

let_through :
    (h : List ℕ) (seq : ℕ)
    → newest h < seq + 4096
    → elem seq h ≡ false
    → (lets_through h seq ≡ true) × (remember h seq ≡ seq ∷ h)
unfolding lets_through remember
let_through h seq near new = ground arith

held_back :
    (h : List ℕ) (seq : ℕ)
    → (seq + 4096 ≤ newest h) ⊎ (elem seq h ≡ true)
    → (lets_through h seq ≡ false) × (remember h seq ≡ h)
unfolding lets_through remember
held_back h seq (inl far) = ground arith
held_back h seq (inr old) = ground arith

check_above :
    (w : ReplayWindow) (h : List ℕ) (seq : ℕ)
    → Represents w h
    → seq + 1 < 2 ^ 64
    → ltb w.max_seq seq ≡ true
    → Refines w h seq
unfolding check check_fuel accept_newest
check_above w h seq r top e =
    let lt : w.max_seq < seq = ltb→lt w.max_seq seq e in
    let old : newest h < seq = omega (arith, r.top) in
    let (bm, a, ready) = advance-Ready w h seq r lt top in
    let (p, q) = let_through h seq (omega arith) (elem_above seq h old) in
    (
      record { max_seq = seq; bitmap = mark bm (seq % 4096) },
      rw (e, check_fuel) (rw (a, p)),
      rw q (marked-Represents seq seq h bm (omega arith) (omega arith) ready),
    )

check_within :
    (w : ReplayWindow) (h : List ℕ) (seq : ℕ)
    → Represents w h
    → ltb w.max_seq seq ≡ false
    → leb 4096 (w.max_seq - seq) ≡ false
    → Refines w h seq
unfolding check check_fuel
check_within w h seq r e near =
    let le : seq ≤ w.max_seq = ltb_false→le w.max_seq seq e in
    let close : w.max_seq < seq + 4096 = omega (arith, leb_false→lt 4096 (w.max_seq - seq) near) in
    let read = is_marked-slot w.bitmap (seq % 4096) ∙ ap (λ b. b == 1) (r.slots seq le close) in
    elim (Bool-cases (elem seq h)) [
      | inl old ↦
          let (p, q) = held_back h seq (inr old) in
          (w, rw (e, near, check_fuel) (rw (read, old, p)), rw q r)
      | inr new ↦
          let (p, q) = let_through h seq (omega (arith, r.top)) new in
          (
            record w { bitmap = mark w.bitmap (seq % 4096) },
            rw (e, near, check_fuel) (rw (read, new, p)),
            rw q (
                marked-Represents w.max_seq seq h w.bitmap (omega (arith, r.top)) close
                  (record { words = r.words; others = λ s n. r.slots s })),
          )
    ]

-- On every window that represents a history, and every number below the greatest uint64, `Check`
-- ends, answers as the specification does, and leaves a window that represents the history after it.
pub check-Refines :
    (w : ReplayWindow) (h : List ℕ) (seq : ℕ) → Represents w h → seq + 1 < 2 ^ 64 → Refines w h seq
unfolding check check_fuel
check-Refines w h seq r top = elim (Bool-cases (ltb w.max_seq seq)) [
  | inl e ↦ check_above w h seq r top e
  | inr e ↦ elim (Bool-cases (leb 4096 (w.max_seq - seq))) [
    | inl far ↦
        let (p, q) = held_back h seq (
          inl (
            omega
              (arith, r.top, leb→le 4096 (w.max_seq - seq) far, ltb_false→le w.max_seq seq e))) in
        (w, rw (e, far, check_fuel) (rw p), rw q r)
    | inr near ↦ check_within w h seq r e near
  ]
]

pub empty-Represents : Represents empty_window []
unfolding newest elem
empty-Represents = record {
  words = length-replicate {A = ℕ} 64 0;
  top = refl;
  slots = λ s p q. slot-replicate (s % 4096);
}
