-- ===== src/Header/Ranges.antt =====
-- What `Pick` and `Validate` give: an id of the range, and ranges that have no id in common.
use obsidian_vpn.Base.{
  ℕ, ◌+◌, ◌-◌, ◌^◌, ◌%◌, ◌<◌, ◌≤◌, ◌≡◌, true, false, none, some, arith, leb, Bool-cases, inl, inr,
}
use obsidian_vpn.Header.{
  HeaderRange, HeaderConfig, pick, contains, overlap, validate_inner, validate_outer, validate,
}

-- `rand.Uint32N(n)` lies in [0, n) for a positive n.
abbrev pub Draws : (ℕ → ℕ) → Type 0
Draws f = (n : ℕ) → 0 < n → f n < n

-- A range that is not inverted, is within uint32 and is not all of it.
pub record IsUsable (h : HeaderRange) : Type 0 where
  pub ordered : h.min_id ≤ h.max_id
  pub word : h.max_id < 2 ^ 32
  pub partial_range : h.max_id - h.min_id + 1 < 2 ^ 32

-- `Pick` on a usable range returns an id of it.
pub pick-contains :
    (uint32_n : ℕ → ℕ) (h : HeaderRange)
    → Draws uint32_n
    → IsUsable h
    → (id : ℕ) × (pick uint32_n h ≡ some id) × (contains h id ≡ true) × (id < 2 ^ 32)
unfolding pick contains
pick-contains f h d u =
    let span = (h.max_id - h.min_id + 1) % 2 ^ 32 in
    elim (Bool-cases (leb h.max_id h.min_id)) [
      | inl single ↦ (h.min_id, rw single, ground arith, omega (arith, u.ordered, u.word))
      | inr wide ↦ (
        (h.min_id + f span) % 2 ^ 32,
        ground (arith, u.partial_range, u.word),
        ground (arith, d span, u.partial_range, u.word, u.ordered),
        omega arith,
      )
    ]

pub overlap_of_common :
    (a b : HeaderRange) (id : ℕ) → contains a id ≡ true → contains b id ≡ true → overlap a b ≡ true
unfolding contains overlap
overlap_of_common a b id p q = ground arith

-- Validated configurations have no two overlapping ranges, whichever two are taken.
pub record IsSeparate (hc : HeaderConfig) : Type 0 where
  pub data_keepalive : overlap hc.data_range hc.keepalive_range ≡ false
  pub data_noise : overlap hc.data_range hc.noise_range ≡ false
  pub data_handshake : overlap hc.data_range hc.handshake_range ≡ false
  pub data_close : overlap hc.data_range hc.close_range ≡ false
  pub keepalive_noise : overlap hc.keepalive_range hc.noise_range ≡ false
  pub keepalive_handshake : overlap hc.keepalive_range hc.handshake_range ≡ false
  pub keepalive_close : overlap hc.keepalive_range hc.close_range ≡ false
  pub noise_handshake : overlap hc.noise_range hc.handshake_range ≡ false
  pub noise_close : overlap hc.noise_range hc.close_range ≡ false
  pub handshake_close : overlap hc.handshake_range hc.close_range ≡ false

pub validate-IsSeparate : (hc : HeaderConfig) → validate hc ≡ none → IsSeparate hc
unfolding validate validate_outer validate_inner
validate-IsSeparate hc e = ground arith

-- `Validate` rejects no configuration with separate ranges.
pub IsSeparate-validate : (hc : HeaderConfig) → IsSeparate hc → validate hc ≡ none
unfolding validate validate_outer validate_inner
IsSeparate-validate hc s = ground arith
