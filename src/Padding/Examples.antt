-- ===== src/Padding/Examples.antt =====
-- The padding theorems at concrete sizes.
use obsidian_vpn.Base.{◌+◌, ◌≡◌, refl, arith, min}
use obsidian_vpn.Padding.{
  calculate_bucket_padding_with_trailer, calculate_bucket_padding, padded, base_pad, fit,
  trailer_for,
}
use obsidian_vpn.Padding.Bounds.{bucket_for, padding_exact}

padding_100 : calculate_bucket_padding 100 1360 ≡ 156
unfolding calculate_bucket_padding calculate_bucket_padding_with_trailer padded base_pad fit
    trailer_for
padding_100 = refl

padding_exact_example :
    100 + calculate_bucket_padding_with_trailer 100 1360 32 3
    ≡ min 1360 (bucket_for 100 1360 + trailer_for 32 3)
padding_exact_example = padding_exact 100 1360 32 3 (omega arith) (omega arith) refl
