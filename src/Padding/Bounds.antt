-- ===== src/Padding/Bounds.antt =====
-- How far the padding reaches.
use obsidian_vpn.Base.{
  ℕ, ◌+◌, ◌-◌, ◌%◌, ◌≤◌, ◌<◌, ◌≡◌, inl, inr, leb, arith, Bool-cases, min, if◌then◌else◌, ◌||◌,
}
use obsidian_vpn.Padding.{base_pad, trailer_for, fit, padded, calculate_bucket_padding_with_trailer}

-- The size that a payload is padded to: its bucket, or the MTU past the last one.
unfoldable pub bucket_for : ℕ → ℕ → ℕ
bucket_for payload_len max_mtu =
    if leb payload_len 64
    then 64
    else if leb payload_len 256
    then 256
    else if leb payload_len 512
    then 512
    else if leb payload_len 1024
    then 1024
    else max_mtu

fit_within :
    (payload_len max_mtu wanted : ℕ)
    → payload_len < max_mtu
    → 4 ≤ max_mtu
    → payload_len + fit payload_len max_mtu wanted ≤ max_mtu
unfolding fit
fit_within p m w h k = ground arith

fit_exact :
    (payload_len max_mtu wanted : ℕ)
    → payload_len < max_mtu
    → max_mtu % 4 ≡ 0
    → (payload_len + wanted) % 4 ≡ 0
    → payload_len + fit payload_len max_mtu wanted ≡ min max_mtu (payload_len + wanted)
unfolding fit
fit_exact p m w h k l = ground arith

fit_above :
    (payload_len max_mtu wanted : ℕ)
    → max_mtu - max_mtu % 4 < payload_len
    → payload_len < max_mtu
    → 4 ≤ max_mtu
    → max_mtu ≤ payload_len + wanted
    → fit payload_len max_mtu wanted ≡ 0
unfolding fit
fit_above p m w h k l n = ground arith

fit_small :
    (payload_len max_mtu wanted : ℕ)
    → 0 < payload_len
    → payload_len < max_mtu
    → max_mtu < 4
    → max_mtu ≤ payload_len + wanted
    → payload_len + fit payload_len max_mtu wanted ≡ 4
unfolding fit
fit_small p m w h k l n = ground arith

trailer_steps : (max_trailer step : ℕ) → trailer_for max_trailer step % 4 ≡ 0
unfolding trailer_for
trailer_steps m s = ground arith

-- Past the early returns the padding is `fit` to the bucket and the trailer.
padding-fit :
    (payload_len max_mtu max_trailer step : ℕ)
    → 0 < payload_len
    → payload_len < max_mtu
    → calculate_bucket_padding_with_trailer payload_len max_mtu max_trailer step
      ≡ fit payload_len max_mtu
          (bucket_for payload_len max_mtu - payload_len + trailer_for max_trailer step)
unfolding calculate_bucket_padding_with_trailer padded base_pad bucket_for
padding-fit p m t s h k = ground arith

bucket_for_le :
    (payload_len max_mtu : ℕ) → payload_len < max_mtu → payload_len ≤ bucket_for payload_len max_mtu
unfolding bucket_for
bucket_for_le p m h = ground arith

bucket_for_aligned :
    (payload_len max_mtu : ℕ) → max_mtu % 4 ≡ 0 → bucket_for payload_len max_mtu % 4 ≡ 0
unfolding bucket_for
bucket_for_aligned p m h = ground arith

-- Where the multiple of 4 below the MTU lies under the payload, no bucket lies between.
bucket_for_above :
    (payload_len max_mtu : ℕ)
    → max_mtu - max_mtu % 4 < payload_len
    → payload_len < max_mtu
    → max_mtu ≤ bucket_for payload_len max_mtu
unfolding bucket_for
bucket_for_above p m h k = ground arith

bucket_for_big :
    (payload_len max_mtu : ℕ)
    → max_mtu < 4
    → payload_len < max_mtu
    → max_mtu ≤ bucket_for payload_len max_mtu
unfolding bucket_for
bucket_for_big p m h k = ground arith

-- Under an MTU that is a multiple of 4, a payload that is not empty and shorter than the MTU is
-- padded to exactly its bucket and the trailer, or to the MTU where these go past it.
pub padding_exact :
    (payload_len max_mtu max_trailer step : ℕ)
    → 0 < payload_len
    → payload_len < max_mtu
    → max_mtu % 4 ≡ 0
    → payload_len + calculate_bucket_padding_with_trailer payload_len max_mtu max_trailer step
      ≡ min max_mtu (bucket_for payload_len max_mtu + trailer_for max_trailer step)
padding_exact p m t s h k l =
    let wanted = bucket_for p m - p + trailer_for t s in
    let sum : p + wanted ≡ bucket_for p m + trailer_for t s = omega (arith, bucket_for_le p m k) in
    omega (
      arith,
      padding-fit p m t s h k,
      fit_exact p m wanted k l (omega (arith, sum, bucket_for_aligned p m l, trailer_steps t s)),
      sum,
    )

-- Under an MTU of at least 4, a payload that fits it still fits it with its padding.
pub padding_within :
    (payload_len max_mtu max_trailer step : ℕ)
    → 4 ≤ max_mtu
    → payload_len ≤ max_mtu
    → payload_len + calculate_bucket_padding_with_trailer payload_len max_mtu max_trailer step
      ≤ max_mtu
padding_within p m t s h k = elim (Bool-cases (leb p 0 || leb m p)) [
  | inl early ↦ unfold calculate_bucket_padding_with_trailer in rw early (omega arith)
  | inr late ↦
      let q : (0 < p) × (p < m) = ground arith in
      omega (
        arith,
        padding-fit p m t s q.0 q.1,
        fit_within p m (bucket_for p m - p + trailer_for t s) q.1 h,
      )
]

-- Under an MTU below 4, every payload shorter than it is padded past it, to 4 bytes.
pub padding_past_small_mtu :
    (payload_len max_mtu max_trailer step : ℕ)
    → 0 < payload_len
    → payload_len < max_mtu
    → max_mtu < 4
    → payload_len + calculate_bucket_padding_with_trailer payload_len max_mtu max_trailer step ≡ 4
padding_past_small_mtu p m t s h k l = omega (
  arith,
  padding-fit p m t s h k,
  fit_small p m (bucket_for p m - p + trailer_for t s) h k l
      (omega (arith, bucket_for_big p m l k)),
)

-- Between the greatest multiple of 4 in the MTU and the MTU, a payload is sent with no padding.
pub padding_none_above :
    (payload_len max_mtu max_trailer step : ℕ)
    → 4 ≤ max_mtu
    → max_mtu - max_mtu % 4 < payload_len
    → payload_len < max_mtu
    → calculate_bucket_padding_with_trailer payload_len max_mtu max_trailer step ≡ 0
padding_none_above p m t s h k l = omega (
  arith,
  padding-fit p m t s (omega arith) l,
  fit_above p m (bucket_for p m - p + trailer_for t s) k l h
      (omega (arith, bucket_for_above p m k l)),
)
