-- ===== src/Limiter.antt =====
-- obsidian/ip_rate_limiter.go: the token bucket of each address.
pub mod Level
pub mod Steps
pub mod Rate
pub mod Examples
use obsidian_vpn.Base.{
  ℕ, zero, suc, ◌+◌, ◌-◌, ◌*◌, ◌%◌, ◌^◌, min, ◌||◌, Bool, true, false, Option, none, some, ltb, leb,
  ◌==◌, if◌then◌else◌,
}

-- Times are nanoseconds of the monotonic clock.
abbrev pub second : ℕ
second = 1_000_000_000

pub record Entry : Type 0 where
  pub last : ℕ
  pub tokens : ℕ

-- The map is a function; addresses are numbers.
pub record Limiter : Type 0 where
  pub rate_per_second : ℕ
  pub burst : ℕ
  pub cleanup_interval : ℕ
  pub entry_ttl : ℕ
  pub last_cleanup : ℕ
  pub entries : ℕ → Option Entry

-- `int` arguments; one that is not positive is 0 here.
unfoldable pub new_limiter : ℕ → ℕ → ℕ → Limiter
new_limiter now rate burst = record {
  rate_per_second = if rate == 0 then 20 else rate;
  burst = if burst == 0 then 5 else burst;
  cleanup_interval = second;
  entry_ttl = 10 * second;
  last_cleanup = now;
  entries = λ addr. none;
}

-- A write to the entry of `addr`, or a new one.
unfoldable pub store : (ℕ → Option Entry) → ℕ → Entry → ℕ → Option Entry
store es addr e a = if addr == a then some e else es a

unfoldable pub unexpired : ℕ → ℕ → Option Entry → Option Entry
unexpired now ttl none = none
unexpired now ttl (some e) = if ltb ttl (now - e.last) then none else some e

-- The loop that deletes: each entry is looked at once.
unfoldable pub expire : (ℕ → Option Entry) → ℕ → ℕ → ℕ → Option Entry
expire es now ttl a = unexpired now ttl (es a)

unfoldable pub cleanup : Limiter → ℕ → Limiter
cleanup r now =
    if leb r.cleanup_interval (now - r.last_cleanup)
    then record r { entries = expire r.entries now r.entry_ttl; last_cleanup = now }
    else r

-- The bucket at `now`, as the word of an int64: the sum wraps, and from 2 ^ 63 on it is negative.
unfoldable pub refilled : Limiter → ℕ → Entry → ℕ
refilled r now e =
    let sum = (e.tokens + (now - e.last) * r.rate_per_second) % 2 ^ 64 in
    if ltb sum (2 ^ 63) then min sum (r.burst * second) else sum

unfoldable pub take_token : Limiter → ℕ → ℕ → Option Entry → Bool × Limiter
take_token r now addr none = (
  true,
  record r {
    entries = store r.entries addr (record { last = now; tokens = r.burst * second - second });
  },
)
take_token r now addr (some e) =
    let tokens = refilled r now e in
    if ltb tokens second || leb (2 ^ 63) tokens
    then (
      false,
      record r { entries = store r.entries addr (record { last = now; tokens = tokens }) },
    )
    else (
      true,
      record r { entries = store r.entries addr (record { last = now; tokens = tokens - second }) },
    )

-- `Allow` of a limiter that is there, for a valid address, at the clock's reading.
unfoldable pub allow : Limiter → ℕ → ℕ → Bool × Limiter
allow r now addr = let c = cleanup r now in take_token c now addr (c.entries addr)

-- No limiter, or no valid address: let through.
unfoldable pub allow_any : Option Limiter → ℕ → Option ℕ → Bool × Option Limiter
allow_any none now addr = (true, none)
allow_any (some r) now none = (true, some r)
allow_any (some r) now (some addr) = let (granted, r') = allow r now addr in (granted, some r')
