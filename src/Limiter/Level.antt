-- ===== src/Limiter/Level.antt =====
-- obsidian/ip_rate_limiter.go: the level of a bucket, what a cleanup and a call do to it, and what the
-- limiter keeps.
use obsidian_vpn.Base.{
  ℕ, ◌+◌, ◌-◌, ◌*◌, ◌^◌, ◌≤◌, ◌<◌, ◌≡◌, refl, ap, min, Option, none, some, ltb, leb, arith, inl,
  inr, Bool-cases, ltb→lt, ltb_false→le, leb_false→lt, ne→==,
}
use Prim.{tt}
use native.Mathlib.Nat.{add-mul, mul-le-mul_right}
use obsidian_vpn.Limiter.{Entry, Limiter, second, unexpired, expire, new_limiter, cleanup}

-- The tokens that `addr` could take at `now`: a full bucket when it has no entry.
unfoldable pub level_of : ℕ → ℕ → ℕ → Option Entry → ℕ
level_of rate burst now none = burst * second
level_of rate burst now (some e) = min (e.tokens + (now - e.last) * rate) (burst * second)

unfoldable pub level : Limiter → ℕ → ℕ → ℕ
level r now addr = level_of r.rate_per_second r.burst now (r.entries addr)

unfoldable pub EntryKept : ℕ → ℕ → ℕ → Option Entry → Type 0
EntryKept burst clock cleaned none = Unit {0}
EntryKept burst clock cleaned (some e) =
    (e.tokens ≤ burst * second) × (e.last ≤ clock) × (cleaned ≤ e.last + 10 * second)

-- What the limiter keeps between calls, the last of which was at `clock` or before. A deleted bucket
-- would have been full again, and no product overflows an int64.
pub record Kept (r : Limiter) (clock : ℕ) : Type 0 where
  pub interval : r.cleanup_interval ≡ second
  pub ttl : r.entry_ttl ≡ 10 * second
  pub at_least_one : 1 ≤ r.burst
  pub refills : r.burst ≤ 10 * r.rate_per_second
  pub small : r.burst + 11 * r.rate_per_second ≤ 2 ^ 32
  pub cleaned : r.last_cleanup ≤ clock
  pub entry : (a : ℕ) → EntryKept r.burst clock r.last_cleanup (r.entries a)

-- Time refills the bucket at the rate.
level_of_later :
    (rate burst clock now : ℕ) (o : Option Entry) (cleaned : ℕ)
    → clock ≤ now
    → EntryKept burst clock cleaned o
    → level_of rate burst now o ≤ level_of rate burst clock o + (now - clock) * rate
unfolding level_of EntryKept
level_of_later rate burst clock now none cleaned h k = omega arith
level_of_later rate burst clock now (some e) cleaned h (full, past, fresh) =
    let split : now - e.last ≡ now - clock + (clock - e.last) = omega arith in
    omega (arith, ap (λ t. t * rate) split, add-mul (now - clock) (clock - e.last) rate)

-- A deleted bucket was full.
level_of_expired :
    (rate burst now : ℕ) (o : Option Entry)
    → burst ≤ 10 * rate
    → level_of rate burst now (unexpired now (10 * second) o) ≤ level_of rate burst now o
unfolding level_of unexpired
level_of_expired rate burst now none h = omega arith
level_of_expired rate burst now (some e) h = elim (Bool-cases (ltb (10 * second) (now - e.last))) [
  | inl old ↦
      let lt = ltb→lt (10 * second) (now - e.last) old in
      rw old
        (omega (arith, mul-le-mul_right {m = 10 * second} {n = now - e.last} rate (omega arith)))
  | inr young ↦ rw young (omega arith)
]

unexpired-EntryKept :
    (burst now cleaned : ℕ) (o : Option Entry)
    → EntryKept burst now cleaned o
    → EntryKept burst now now (unexpired now (10 * second) o)
unfolding EntryKept unexpired
unexpired-EntryKept burst now cleaned none k = tt
unexpired-EntryKept burst now cleaned (some e) (full, past, fresh) =
    elim (Bool-cases (ltb (10 * second) (now - e.last))) [
      | inl old ↦ rw old tt
      | inr young ↦
          let le = ltb_false→le (10 * second) (now - e.last) young in
          rw young (full, past, omega arith)
    ]

EntryKept-later :
    (burst clock now cleaned : ℕ) (o : Option Entry)
    → clock ≤ now
    → EntryKept burst clock cleaned o
    → EntryKept burst now cleaned o
unfolding EntryKept
EntryKept-later burst clock now cleaned none h k = tt
EntryKept-later burst clock now cleaned (some e) h (full, past, fresh) = (full, omega arith, fresh)

-- After the cleanup at `now`: the invariant, a cleanup less than a second old, and no level raised.
pub record Cleaned (r c : Limiter) (now : ℕ) : Type 0 where
  pub kept : Kept c now
  pub recent : now < c.last_cleanup + second
  pub level_le : (a : ℕ) → level c now a ≤ level r now a
  pub same_burst : c.burst ≡ r.burst
  pub same_rate : c.rate_per_second ≡ r.rate_per_second

pub cleanup-Cleaned :
    (r : Limiter) (clock now : ℕ) → clock ≤ now → Kept r clock → Cleaned r (cleanup r now) now
unfolding cleanup level expire
cleanup-Cleaned r clock now h k =
    elim (Bool-cases (leb r.cleanup_interval (now - r.last_cleanup))) [
      | inl due ↦ rw due (record {
        kept = record {
          interval = k.interval;
          ttl = k.ttl;
          at_least_one = k.at_least_one;
          refills = k.refills;
          small = k.small;
          cleaned = omega arith;
          entry = λ a. rw (k.ttl) (
              unexpired-EntryKept r.burst now r.last_cleanup (r.entries a)
                (EntryKept-later r.burst clock now r.last_cleanup (r.entries a) h (k.entry a)));
        };
        recent = omega arith;
        level_le = λ a.
            rw (k.ttl) (level_of_expired r.rate_per_second r.burst now (r.entries a) k.refills);
        same_burst = refl;
        same_rate = refl;
      })
      | inr early ↦ rw early (record {
        kept = record {
          interval = k.interval;
          ttl = k.ttl;
          at_least_one = k.at_least_one;
          refills = k.refills;
          small = k.small;
          cleaned = omega (arith, k.cleaned);
          entry = λ a. EntryKept-later r.burst clock now r.last_cleanup (r.entries a) h (k.entry a);
        };
        recent = omega (
          arith,
          leb_false→lt r.cleanup_interval (now - r.last_cleanup) early,
          k.interval,
          k.cleaned,
        );
        level_le = λ a. omega arith;
        same_burst = refl;
        same_rate = refl;
      })
    ]

level_of-le : (rate burst now : ℕ) (o : Option Entry) → level_of rate burst now o ≤ burst * second
unfolding level_of
level_of-le rate burst now none = omega arith
level_of-le rate burst now (some e) = omega arith

pub level-le : (r : Limiter) (now a : ℕ) → level r now a ≤ r.burst * second
unfolding level
level-le r now a = level_of-le r.rate_per_second r.burst now (r.entries a)

pub new-Kept :
    (now rate burst : ℕ)
    → 1 ≤ rate
    → 1 ≤ burst
    → burst ≤ 10 * rate
    → burst + 11 * rate ≤ 2 ^ 32
    → Kept (new_limiter now rate burst) now
unfolding new_limiter EntryKept
new-Kept now rate burst p q refills small =
    let e1 = ne→== rate 0 (λ e. omega arith) in
    let e2 = ne→== burst 0 (λ e. omega arith) in
    rw (e1, e2)
      (record {
        interval = refl;
        ttl = refl;
        at_least_one = q;
        refills = refills;
        small = small;
        cleaned = omega arith;
        entry = λ a. tt;
      })

pub level_later :
    (r : Limiter) (clock now a : ℕ)
    → clock ≤ now
    → Kept r clock
    → level r now a ≤ level r clock a + (now - clock) * r.rate_per_second
unfolding level
level_later r clock now a h k =
    level_of_later r.rate_per_second r.burst clock now (r.entries a) r.last_cleanup h (k.entry a)
