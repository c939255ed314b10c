-- ===== src/Padding.antt =====
-- obsidian/obfuscation.go, bucket padding: `CalculateBucketPaddingWithTrailer`.
-- Go's ints are numbers here: a length is never negative, and a negative `maxMTU` or `maxTrailer`
-- takes the branches that 0 takes. `rand.IntN(n)` is an argument, the step that it returned.
pub mod Bounds
mod Examples
use obsidian_vpn.Base.{
  ℕ, ◌+◌, ◌-◌, ◌*◌, ◌/◌, ◌%◌, Option, some, none, Bool, true, false, List, [], ◌∷◌, ltb, leb, ◌==◌,
  if◌then◌else◌, ◌&&◌, ◌||◌,
}

abbrev pub buckets : List ℕ
buckets = 64 ∷ 256 ∷ 512 ∷ 1024 ∷ []

-- The loop over the buckets: the distance to the first that is large enough.
unfoldable pub base_pad : List ℕ → ℕ → Option ℕ
base_pad [] payload_len = none
base_pad (b ∷ bs) payload_len =
    if leb payload_len b then some (b - payload_len) else base_pad bs payload_len

-- `trailer`, from the step that `rand.IntN(maxTrailer/4 + 1)` returned.
unfoldable pub trailer_for : ℕ → ℕ → ℕ
trailer_for max_trailer step = if leb 4 max_trailer then step * 4 else 0

-- From `pad := basePad + trailer` on. Subtraction that stops at 0 is the last `if pad < 0`.
unfoldable pub fit : ℕ → ℕ → ℕ → ℕ
fit payload_len max_mtu wanted =
    let pad = if ltb max_mtu (payload_len + wanted) then max_mtu - payload_len else wanted in
    let rem = (payload_len + pad) % 4 in
    let up = pad + (4 - rem) in
    if rem == 0 then pad else if ltb max_mtu (payload_len + up) && leb 4 max_mtu then up - 4 else up

-- The padding once the early returns are past.
unfoldable pub padded : Option ℕ → ℕ → ℕ → ℕ → ℕ
padded (some base) payload_len max_mtu trailer = fit payload_len max_mtu (base + trailer)
padded none payload_len max_mtu trailer =
    if ltb 1024 max_mtu && ltb payload_len max_mtu
    then fit payload_len max_mtu (max_mtu - payload_len + trailer)
    else 0

unfoldable pub calculate_bucket_padding_with_trailer : ℕ → ℕ → ℕ → ℕ → ℕ
calculate_bucket_padding_with_trailer payload_len max_mtu max_trailer step =
    if leb payload_len 0 || leb max_mtu payload_len
    then 0
    else padded (base_pad buckets payload_len) payload_len max_mtu (trailer_for max_trailer step)

unfoldable pub calculate_bucket_padding : ℕ → ℕ → ℕ
calculate_bucket_padding payload_len max_mtu =
    calculate_bucket_padding_with_trailer payload_len max_mtu 0 0
