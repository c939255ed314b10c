-- ===== src/Profiles/Ranges.antt =====
-- obsidian/profiles.go: a profile keeps the ranges proper and settles at once.
use obsidian_vpn.Base.{ℕ, ◌≤◌, ◌≡◌, refl, ap, max, List, arith, Bool-cases, inl, inr}
use obsidian_vpn.Router.{same_bytes}
use obsidian_vpn.Profiles.{
  profile_balanced, profile_stealth, normalize_profile, TunnelSettings, ObfuscationSettings,
  max_int, plain_tunnel, stealth_tunnel, stealth_obfuscation, fast_obfuscation, apply_profile,
}

max_int-max : (a b : ℕ) → max_int a b ≡ max a b
unfolding max_int
max_int-max a b = ground arith

max_int_again : (a b : ℕ) → max_int (max_int a b) b ≡ max_int a b
max_int_again a b = omega (arith, max_int-max (max_int a b) b, max_int-max a b)

-- Ranges from which a number can be drawn.
pub record Proper (oc : ObfuscationSettings) : Type 0 where
  pub junk : oc.junk_min ≤ oc.junk_max
  pub s1 : oc.s1_min ≤ oc.s1_max
  pub s2 : oc.s2_min ≤ oc.s2_max

range_kept : (lo hi a b : ℕ) → lo ≤ hi → a ≤ b → max_int lo a ≤ max_int hi b
range_kept lo hi a b h k = omega (arith, max_int-max lo a, max_int-max hi b)

-- Whatever the profile, the ranges for junk and padding sizes that were proper stay proper.
pub apply_profile-Proper :
    (profile : List ℕ) (tc : TunnelSettings) (oc : ObfuscationSettings)
    → Proper oc
    → Proper (apply_profile profile tc oc).1
unfolding apply_profile stealth_obfuscation fast_obfuscation
apply_profile-Proper profile tc oc p =
    let name = normalize_profile profile in
    elim (Bool-cases (same_bytes name profile_stealth)) [
      | inl stealth ↦ rw stealth (record {
        junk = range_kept oc.junk_min oc.junk_max 96 768 p.junk (omega arith);
        s1 = range_kept oc.s1_min oc.s1_max 96 384 p.s1 (omega arith);
        s2 = range_kept oc.s2_min oc.s2_max 96 384 p.s2 (omega arith);
      })
      | inr other ↦ elim (Bool-cases (same_bytes name profile_balanced)) [
        | inl balanced ↦ rw (other, balanced) (record { junk = p.junk; s1 = p.s1; s2 = p.s2 })
        | inr fast ↦
            rw (other, fast)
              (record {
                junk = range_kept oc.junk_min oc.junk_max 64 512 p.junk (omega arith);
                s1 = range_kept oc.s1_min oc.s1_max 64 256 p.s1 (omega arith);
                s2 = range_kept oc.s2_min oc.s2_max 64 256 p.s2 (omega arith);
              })
      ]
    ]

stealth_again :
    (oc : ObfuscationSettings)
    → stealth_obfuscation (stealth_obfuscation oc) ≡ stealth_obfuscation oc
unfolding stealth_obfuscation
stealth_again oc = simp max_int_again

fast_again :
    (oc : ObfuscationSettings) → fast_obfuscation (fast_obfuscation oc) ≡ fast_obfuscation oc
unfolding fast_obfuscation
fast_again oc = simp max_int_again

-- Applying a profile to settings that it has been applied to changes nothing.
pub apply_profile_again :
    (profile : List ℕ) (tc : TunnelSettings) (oc : ObfuscationSettings)
    → apply_profile profile (apply_profile profile tc oc).0 (apply_profile profile tc oc).1
      ≡ apply_profile profile tc oc
unfolding apply_profile stealth_tunnel plain_tunnel
apply_profile_again profile tc oc =
    let name = normalize_profile profile in
    elim (Bool-cases (same_bytes name profile_stealth)) [
      | inl stealth ↦ rw stealth (ap (λ o. (stealth_tunnel tc, o)) (stealth_again oc))
      | inr other ↦ elim (Bool-cases (same_bytes name profile_balanced)) [
        | inl balanced ↦ rw (other, balanced) refl
        | inr fast ↦ rw (other, fast) (ap (λ o. (plain_tunnel tc, o)) (fast_again oc))
      ]
    ]
