-- ===== src/Profiles/Examples.antt =====
-- The theorems of the profiles at concrete settings.
use obsidian_vpn.Base.{true}
use obsidian_vpn.Profiles.{jitter_heavy, TunnelSettings, ObfuscationSettings}

abbrev tunnel_settings : TunnelSettings
tunnel_settings = record {
  noise_min_interval = 5;
  noise_max_interval = 50;
  jitter = jitter_heavy;
  data_pad_min = 1;
  data_pad_max = 9;
  use_bucket_padding = true;
  bucket_mtu = 1300;
  max_trailer = 3;
}

abbrev obfuscation_settings : ObfuscationSettings
obfuscation_settings = record {
  junk_count = 9;
  junk_min = 10;
  junk_max = 20;
  s1_min = 0;
  s1_max = 500;
  s2_min = 7;
  s2_max = 7;
  pre_pad_max = 0;
  max_trailer = 3;
}
