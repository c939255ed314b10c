-- ===== src/Header/Examples.antt =====
-- The default ranges, and the theorems at concrete inputs.
use obsidian_vpn.Base.{ℕ, ◌≡◌, refl, ◌↔◌, true, none, some, arith}
use obsidian_vpn.Header.{
  noise, HeaderConfig, pick, contains, overlap, validate, type_id_to_packet_type, range_for,
  default_header_config, validate_outer, validate_inner,
}
use obsidian_vpn.Header.Ranges.{IsUsable}
use obsidian_vpn.Header.Classify.{classify_iff}

default_is_valid : validate default_header_config ≡ none
unfolding validate validate_outer validate_inner overlap default_header_config
default_is_valid = refl

abbrev zero_draw : ℕ → ℕ
zero_draw n = 0

classify_iff_example :
    (type_id_to_packet_type default_header_config 0x3abcdef0 ≡ some noise)
    ↔ (contains (range_for default_header_config noise) 0x3abcdef0 ≡ true)
classify_iff_example = classify_iff default_header_config noise 0x3abcdef0 default_is_valid tt

noise-IsUsable : IsUsable (range_for default_header_config noise)
unfolding range_for default_header_config
noise-IsUsable = record { ordered = omega arith; word = omega arith; partial_range = omega arith }

-- An inverted range passes `Validate`, and the id picked from it is not recognised.
abbrev inverted : HeaderConfig
inverted = record default_header_config { data_range = record { min_id = 9; max_id = 7 } }

inverted_is_valid : validate inverted ≡ none
unfolding validate validate_outer validate_inner overlap default_header_config
inverted_is_valid = refl

inverted_pick : pick zero_draw inverted.data_range ≡ some 9
unfolding pick
inverted_pick = refl

inverted_unread : type_id_to_packet_type inverted 9 ≡ none
unfolding type_id_to_packet_type contains default_header_config
inverted_unread = refl
