-- ===== src/Profiles.antt =====
-- obsidian/profiles.go: the presets for tunnel and obfuscation settings.
pub mod Ranges
pub mod Examples
use obsidian_vpn.Base.{ℕ, max, List, [], ◌∷◌, Bool, true, false, ◌||◌, ltb, if◌then◌else◌}
use obsidian_vpn.Router.{same_bytes}

-- The names, as their bytes.
abbrev pub profile_fast_secure : List ℕ
profile_fast_secure = 102 ∷ 97 ∷ 115 ∷ 116 ∷ 45 ∷ 115 ∷ 101 ∷ 99 ∷ 117 ∷ 114 ∷ 101 ∷ []

abbrev pub profile_balanced : List ℕ
profile_balanced = 98 ∷ 97 ∷ 108 ∷ 97 ∷ 110 ∷ 99 ∷ 101 ∷ 100 ∷ []

abbrev pub profile_stealth : List ℕ
profile_stealth = 115 ∷ 116 ∷ 101 ∷ 97 ∷ 108 ∷ 116 ∷ 104 ∷ []

unfoldable pub normalize_profile : List ℕ → List ℕ
normalize_profile profile =
    if same_bytes profile profile_balanced || same_bytes profile profile_stealth
    then profile
    else profile_fast_secure

pub data JitterProfile : Type 0 where
  jitter_off : JitterProfile
  jitter_light : JitterProfile
  jitter_medium : JitterProfile
  jitter_heavy : JitterProfile

-- The settings that profiles change; intervals are seconds.
pub record TunnelSettings : Type 0 where
  pub noise_min_interval : ℕ
  pub noise_max_interval : ℕ
  pub jitter : JitterProfile
  pub data_pad_min : ℕ
  pub data_pad_max : ℕ
  pub use_bucket_padding : Bool
  pub bucket_mtu : ℕ
  pub max_trailer : ℕ

pub record ObfuscationSettings : Type 0 where
  pub junk_count : ℕ
  pub junk_min : ℕ
  pub junk_max : ℕ
  pub s1_min : ℕ
  pub s1_max : ℕ
  pub s2_min : ℕ
  pub s2_max : ℕ
  pub pre_pad_max : ℕ
  pub max_trailer : ℕ

unfoldable pub max_int : ℕ → ℕ → ℕ
max_int a b = if ltb b a then a else b

unfoldable pub plain_tunnel : TunnelSettings → TunnelSettings
plain_tunnel tc = record tc {
  jitter = jitter_off;
  data_pad_min = 0;
  data_pad_max = 0;
  use_bucket_padding = false;
  bucket_mtu = 1360;
  max_trailer = 0;
}

unfoldable pub stealth_tunnel : TunnelSettings → TunnelSettings
stealth_tunnel tc = record tc {
  jitter = jitter_light;
  noise_min_interval = 10;
  noise_max_interval = 40;
  use_bucket_padding = true;
  bucket_mtu = 1360;
  max_trailer = 64;
}

unfoldable pub stealth_obfuscation : ObfuscationSettings → ObfuscationSettings
stealth_obfuscation oc = record oc {
  max_trailer = 64;
  junk_count = max_int oc.junk_count 4;
  junk_min = max_int oc.junk_min 96;
  junk_max = max_int oc.junk_max 768;
  s1_min = max_int oc.s1_min 96;
  s1_max = max_int oc.s1_max 384;
  s2_min = max_int oc.s2_min 96;
  s2_max = max_int oc.s2_max 384;
}

unfoldable pub fast_obfuscation : ObfuscationSettings → ObfuscationSettings
fast_obfuscation oc = record oc {
  max_trailer = 0;
  junk_count = max_int oc.junk_count 3;
  junk_min = max_int oc.junk_min 64;
  junk_max = max_int oc.junk_max 512;
  s1_min = max_int oc.s1_min 64;
  s1_max = max_int oc.s1_max 256;
  s2_min = max_int oc.s2_min 64;
  s2_max = max_int oc.s2_max 256;
  pre_pad_max = max_int oc.pre_pad_max 64;
}

-- For settings that are there: with a nil pointer the code returns.
unfoldable pub apply_profile :
    List ℕ → TunnelSettings → ObfuscationSettings → TunnelSettings × ObfuscationSettings
apply_profile profile tc oc =
    if same_bytes (normalize_profile profile) profile_stealth
    then (stealth_tunnel tc, stealth_obfuscation oc)
    else if same_bytes (normalize_profile profile) profile_balanced
    then (plain_tunnel tc, record oc { max_trailer = 0 })
    else (plain_tunnel tc, fast_obfuscation oc)
