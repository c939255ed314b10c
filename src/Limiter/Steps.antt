-- ===== src/Limiter/Steps.antt =====
-- obsidian/ip_rate_limiter.go: what one call takes from the levels, and that it keeps the state.
use obsidian_vpn.Base.{
  ℕ, ◌+◌, ◌-◌, ◌*◌, ◌≤◌, ◌<◌, ◌≡◌, refl, ap, sym, subst, ◌∙◌, Bool, true, false, Option, none, some,
  ltb, ◌==◌, ◌&&◌, ◌||◌, ◌^◌, leb, if◌then◌else◌, arith, inl, inr, Bool-cases, ==→eq,
}
use native.Mathlib.Nat.{mul-le-mul_right}
use obsidian_vpn.Limiter.{Entry, Limiter, second, store, cleanup, refilled, take_token, allow}
use obsidian_vpn.Limiter.Level.{EntryKept, Kept, level_of, level, level_later, cleanup-Cleaned}

-- What one call takes from the level of `a`.
pub taken : Bool → ℕ → ℕ → ℕ
taken granted addr a = if granted && (addr == a) then second else 0

just_stored :
    (rate burst now t : ℕ)
    → t ≤ burst * second
    → level_of rate burst now (some (record { last = now; tokens = t })) ≡ t
unfolding level_of
just_stored rate burst now t h =
    let e : now - now ≡ 0 = omega arith in omega (arith, ap (λ d. d * rate) e)

-- The product of `elapsed` and the rate does not wrap.
refilled-level :
    (c : Limiter) (now : ℕ) (e : Entry)
    → Kept c now
    → now < c.last_cleanup + second
    → EntryKept c.burst now c.last_cleanup (some e)
    → refilled c now e ≡ level_of c.rate_per_second c.burst now (some e)
unfolding refilled level_of EntryKept
refilled-level c now e k recent (full, past, fresh) =
    let few =
      mul-le-mul_right {m = now - e.last} {n = 11 * second} c.rate_per_second (omega arith) in
    ground (arith, few, k.small)

taken-same :
    (granted : Bool) (addr a : ℕ)
    → (addr == a) ≡ true
    → taken granted addr a ≡ (if granted then second else 0)
unfolding taken
taken-same true addr a h = rw h
taken-same false addr a h = refl

taken-other : (granted : Bool) (addr a : ℕ) → (addr == a) ≡ false → taken granted addr a ≡ 0
unfolding taken
taken-other true addr a h = rw h
taken-other false addr a h = refl

store-same :
    (es : ℕ → Option Entry) (addr a : ℕ) (e : Entry)
    → (addr == a) ≡ true
    → store es addr e a ≡ some e
unfolding store
store-same es addr a e h = rw h

store-other :
    (es : ℕ → Option Entry) (addr a : ℕ) (e : Entry)
    → (addr == a) ≡ false
    → store es addr e a ≡ es a
unfolding store
store-other es addr a e h = rw h

record Taken (c : Limiter) (now addr : ℕ) (result : Bool × Limiter) : Type 0 where
  pub kept : Kept result.1 now
  pub paid : (a : ℕ) → level result.1 now a + taken result.0 addr a ≤ level c now a
  pub same_burst : result.1.burst ≡ c.burst
  pub same_rate : result.1.rate_per_second ≡ c.rate_per_second

-- A new bucket of `t` tokens for `addr` at `now`.
stored : Limiter → ℕ → ℕ → ℕ → Limiter
stored c now addr t = record c {
  entries = store c.entries addr (record { last = now; tokens = t });
}

stored-Taken :
    (c : Limiter) (now addr t : ℕ) (granted : Bool)
    → Kept c now
    → t ≤ c.burst * second
    → t + (if granted then second else 0) ≤ level c now addr
    → Taken c now addr (granted, stored c now addr t)
unfolding stored level EntryKept
stored-Taken c now addr t granted k h pays = record {
  kept = record {
    interval = k.interval;
    ttl = k.ttl;
    at_least_one = k.at_least_one;
    refills = k.refills;
    small = k.small;
    cleaned = k.cleaned;
    entry = λ a. elim (Bool-cases (addr == a)) [
      | inl same ↦
          subst (EntryKept c.burst now c.last_cleanup) (sym (store-same c.entries addr a _ same))
            (h, omega arith, omega (arith, k.cleaned))
      | inr other ↦
          subst (EntryKept c.burst now c.last_cleanup) (sym (store-other c.entries addr a _ other))
            (k.entry a)
    ];
  };
  paid = λ a. elim (Bool-cases (addr == a)) [
    | inl same ↦
        let e = ==→eq addr a same in
        omega (
          arith,
          taken-same granted addr a same,
          ap (level_of c.rate_per_second c.burst now) (store-same c.entries addr a _ same),
          just_stored c.rate_per_second c.burst now t h,
          pays,
          ap (λ x. level_of c.rate_per_second c.burst now (c.entries x)) e,
        )
    | inr other ↦ omega (
      arith,
      taken-other granted addr a other,
      ap (level_of c.rate_per_second c.burst now) (store-other c.entries addr a _ other),
    )
  ];
  same_burst = refl;
  same_rate = refl;
}

-- The level where the entry is known.
level-at :
    (c : Limiter) (now addr : ℕ) (o : Option Entry)
    → c.entries addr ≡ o
    → level c now addr ≡ level_of c.rate_per_second c.burst now o
unfolding level
level-at c now addr o e = ap (level_of c.rate_per_second c.burst now) e

full_less_one :
    (c : Limiter) (now addr : ℕ)
    → 1 ≤ c.burst
    → level c now addr ≡ level_of c.rate_per_second c.burst now none
    → c.burst * second - second + second ≤ level c now addr
unfolding level_of
full_less_one c now addr h e = omega arith

level_le : (rate burst now : ℕ) (e : Entry) → level_of rate burst now (some e) ≤ burst * second
unfolding level_of
level_le rate burst now e = omega arith

take_token-Taken :
    (c : Limiter) (now addr : ℕ) (o : Option Entry)
    → Kept c now
    → now < c.last_cleanup + second
    → c.entries addr ≡ o
    → Taken c now addr (take_token c now addr o)
unfolding take_token stored
take_token-Taken c now addr none k recent at_addr =
    let e = level-at c now addr none at_addr in
    stored-Taken c now addr (c.burst * second - second) true k (omega arith)
      (full_less_one c now addr (k.at_least_one) e)
take_token-Taken c now addr (some e) k recent at_addr =
    let kept = subst (EntryKept c.burst now c.last_cleanup) at_addr (k.entry addr) in
    let same = refilled-level c now e k recent kept in
    let here = level-at c now addr (some e) at_addr in
    let top : refilled c now e ≤ c.burst * second =
      omega (arith, same, level_le c.rate_per_second c.burst now e) in
    elim (Bool-cases (ltb (refilled c now e) second || leb (2 ^ 63) (refilled c now e))) [
      | inl poor ↦ rw poor (stored-Taken c now addr (refilled c now e) false k top (omega arith))
      | inr rich ↦
          let le : second ≤ refilled c now e = ground (arith, rich) in
          rw rich
            (stored-Taken c now addr (refilled c now e - second) true k (omega arith) (omega arith))
    ]

-- One call: the invariant, and what it takes from each level and time adds to it.
pub record Step (r : Limiter) (clock now addr : ℕ) (result : Bool × Limiter) : Type 0 where
  pub kept : Kept result.1 now
  pub paid :
      (a : ℕ)
      → level result.1 now a + taken result.0 addr a
        ≤ level r clock a + (now - clock) * r.rate_per_second
  pub same_rate : result.1.rate_per_second ≡ r.rate_per_second
  pub same_burst : result.1.burst ≡ r.burst

pub allow-Step :
    (r : Limiter) (clock now addr : ℕ)
    → clock ≤ now
    → Kept r clock
    → Step r clock now addr (allow r now addr)
unfolding allow
allow-Step r clock now addr h k =
    let c = cleanup r now in
    let done = cleanup-Cleaned r clock now h k in
    let t = take_token-Taken c now addr (c.entries addr) done.kept done.recent refl in
    record {
      kept = t.kept;
      paid = λ a. omega (arith, t.paid a, done.level_le a, level_later r clock now a h k);
      same_rate = t.same_rate ∙ done.same_rate;
      same_burst = t.same_burst ∙ done.same_burst;
    }

pub paid_by :
    (b : Bool) (addr a : ℕ) → (if b && (addr == a) then 1 else 0) * second ≡ taken b addr a
unfolding taken
paid_by b addr a = elim (Bool-cases (b && (addr == a))) [
  | inl both ↦ rw both
  | inr apart ↦ rw apart
]
