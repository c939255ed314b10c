-- ===== src/Reality/Examples.antt =====
-- Session ids at concrete inputs, with a stand-in for the keyed hash.
use obsidian_vpn.Base.{
  ℕ, ◌+◌, ◌≡◌, refl, List, [], ◌∷◌, ◌++◌, true, some, arith, replicate, length, leb, ◌&&◌,
  length-replicate, take,
}
use obsidian_vpn.Base.Bytes.{u64_bytes}
use obsidian_vpn.Routes.{trim_space, to_lower, trim_left, trim_right, keep_text, is_space}
use obsidian_vpn.Router.{same_bytes}
use obsidian_vpn.Keys.{Primitives}
use obsidian_vpn.Reality.{
  RealityReplayCache, seen_or_add, expiry, is_before, generate_session_id, compute_auth_tag,
  verify_session_id,
}
use obsidian_vpn.Reality.SessionId.{verify-generate}
use obsidian_vpn.Reality.Once.{after_calls, passes_once}

abbrev primitives : Primitives
primitives = record {
  x25519 = λ scalar point. some point;
  hmac = λ key text. replicate 32 (length text);
  hkdf = λ secret salt info i. i;
  extract = λ secret salt. replicate 32 0;
  length-hmac = λ key text. length-replicate 32 (length text);
}

-- "a.B" and " A.b"
abbrev sni : List ℕ
sni = b'a' ∷ b'.' ∷ b'B' ∷ []

abbrev asked : List ℕ
asked = b' ' ∷ b'A' ∷ b'.' ∷ b'b' ∷ []

abbrev made_id : List ℕ
made_id =
    (replicate 16 5 ++ u64_bytes 1000)
    ++ take 8 (compute_auth_tag primitives (1 ∷ []) (replicate 16 5 ++ u64_bytes 1000) sni)

verify-generate_example :
    verify_session_id primitives made_id asked (1 ∷ []) 0 1030
    ≡ (leb 1030 (1000 + 30) && leb 1000 (1030 + 30))
unfolding generate_session_id trim_space to_lower trim_left trim_right keep_text is_space
verify-generate_example =
    verify-generate primitives (1 ∷ []) (replicate 16 5) sni 1000 asked made_id 0 1030 refl refl
      (omega arith) (omega arith) (omega arith) refl refl

abbrev cache : RealityReplayCache
cache = record { ttl = 100; entries = (replicate 32 3, 90) ∷ [] }

passes_once_example :
    (seen_or_add
      (after_calls (seen_or_add cache 50 (replicate 32 1)).1 ((60, replicate 32 2) ∷ []))
      149
      (replicate 32 1)).0
    ≡ true
unfolding seen_or_add expiry is_before same_bytes
passes_once_example =
    passes_once cache 50 149 (replicate 32 1) ((60, replicate 32 2) ∷ []) refl refl
      (omega arith, tt) (omega arith)
