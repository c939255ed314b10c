-- ===== src/Replay/Clearing.antt =====
-- The loop that clears the slots of the numbers between the old maximum and the new one.
use obsidian_vpn.Base.{
  ℕ, zero, suc, ◌+◌, ◌%◌, ◌^◌, ◌≤◌, ◌<◌, ◌≡◌, refl, ap, ◌∙◌, some, List, leb, length, arith,
  Bool-cases, inl, inr, length-set, leb→le, leb_false→lt,
}
use obsidian_vpn.Replay.{clear_loop, unmark, mark}
use obsidian_vpn.Replay.Slots.{slot, slot-unmark_self, slot-unmark_ne}

-- What the loop leaves: the slots of i … seq are free, the others of the window are kept.
pub record Cleared (i seq : ℕ) (bm bm' : List ℕ) : Type 0 where
  pub words : length bm' ≡ 64
  pub freed : (t : ℕ) → i ≤ t → t ≤ seq → seq < t + 4096 → slot bm' (t % 4096) ≡ 0
  pub kept : (s : ℕ) → s < i → seq < s + 4096 → slot bm' (s % 4096) ≡ slot bm (s % 4096)

pub length-unmark : (bm : List ℕ) (idx : ℕ) → length (unmark bm idx) ≡ length bm
unfolding unmark
length-unmark bm idx = length-set bm _ _

pub length-mark : (bm : List ℕ) (idx : ℕ) → length (mark bm idx) ≡ length bm
unfolding mark
length-mark bm idx = length-set bm _ _

Cleared-done : (i seq : ℕ) (bm : List ℕ) → seq < i → length bm ≡ 64 → Cleared i seq bm bm
Cleared-done i seq bm h l = record {
  words = l;
  freed = λ t p q r. absurd (omega arith);
  kept = λ s p q. refl;
}

Cleared-step :
    (i seq : ℕ) (bm bm' : List ℕ)
    → i ≤ seq
    → length bm ≡ 64
    → Cleared (i + 1) seq (unmark bm (i % 4096)) bm'
    → Cleared i seq bm bm'
Cleared-step i seq bm bm' h l c = record {
  words = c.words;
  freed = λ t p q r. elim (Bool-cases (leb t i)) [
    | inl e ↦
        let same : t ≡ i = omega (arith, leb→le t i e) in
        c.kept t (omega arith) r
        ∙ ap (λ x. slot (unmark bm (i % 4096)) (x % 4096)) same
        ∙ slot-unmark_self bm (i % 4096) l (omega arith)
    | inr e ↦ c.freed t (omega (arith, leb_false→lt t i e)) q r
  ];
  kept = λ s p q.
      c.kept s (omega arith) q
      ∙ slot-unmark_ne bm (i % 4096) (s % 4096) l (omega arith) (omega arith);
}

-- Enough fuel ends the loop, unless `seq` is the greatest uint64.
pub clear_loop-Cleared :
    (fuel i seq : ℕ) (bm : List ℕ)
    → seq + 1 < 2 ^ 64
    → i ≤ seq + 1
    → seq + 1 < i + fuel
    → seq < i + 4095
    → length bm ≡ 64
    → (bm' : List ℕ) × (clear_loop fuel i seq bm ≡ some bm') × Cleared i seq bm bm'
unfolding clear_loop
clear_loop-Cleared zero i seq bm top below enough near l = absurd (omega arith)
clear_loop-Cleared (suc fuel) i seq bm top below enough near l = elim (Bool-cases (leb i seq)) [
  | inl go ↦
      let (bm', e, c) =
        clear_loop-Cleared fuel (i + 1) seq (unmark bm (i % 4096)) top
          (omega (arith, leb→le i seq go)) (omega arith) (omega arith)
          (length-unmark bm (i % 4096) ∙ l) in
      let small : (i + 1) % 2 ^ 64 ≡ i + 1 = omega (arith, leb→le i seq go) in
      (bm', rw (go, clear_loop) (rw small e), Cleared-step i seq bm bm' (leb→le i seq go) l c)
  | inr stop ↦ (bm, rw (stop, clear_loop), Cleared-done i seq bm (leb_false→lt i seq stop) l)
]
