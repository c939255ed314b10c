-- ===== src/Keys/Material.antt =====
-- Key material: how the derived bytes are shared out, and which shared secrets are let through.
use obsidian_vpn.Base.{
  ℕ, zero, suc, ◌+◌, ◌-◌, ◌%◌, ◌^◌, ◌≤◌, ◌<◌, ◌≡◌, ◌≢◌, refl, sym, ap, ◌∙◌, List, [], ◌∷◌, ◌++◌,
  Option, none, some, length, drop, slice, replicate, get_or, arith, length-slice, take-append-drop,
  drop-drop_to, take_all, length-drop, Bool-cases, inl, inr,
}
use obsidian_vpn.Base.Bytes.{get_u32, u64_bytes}
use obsidian_vpn.Router.{same_bytes}
use obsidian_vpn.Router.Keys.{same_bytes_self}
use obsidian_vpn.Keys.{
  Primitives, read_full, dh, secret, safe_shared, dh_safe, SessionKeys, cut_keys, derive_keys,
  derive_next_epoch_keys,
}
use obsidian_vpn.Keys.Cookies.{hop_label, derive_hopping_port}

pub length-read_full : (stream : ℕ → ℕ) (off n : ℕ) → length (read_full stream off n) ≡ n
unfolding read_full
length-read_full stream off zero = refl
length-read_full stream off (suc n) = ap suc (length-read_full stream (off + 1) n)

drop-slice : (xs : List ℕ) (a b : ℕ) → a ≤ b → drop a xs ≡ slice xs a b ++ drop b xs
drop-slice xs a b h =
    sym (take-append-drop (b - a) (drop a xs))
    ∙ ap (λ ys. slice xs a b ++ ys) (drop-drop_to a b xs h)

-- The six parts in turn.
abbrev pub joined : SessionKeys → List ℕ
joined sk =
    sk.client_key
    ++ (sk.server_key ++ (sk.client_iv ++ (sk.server_iv ++ (sk.session_id ++ sk.dynamic_magic))))

joined-cut_keys : (buf : List ℕ) → length buf ≡ 120 → joined (cut_keys buf) ≡ buf
unfolding cut_keys
joined-cut_keys buf len =
    let rest = drop-slice buf in
    sym (
      rest 0 32 (omega arith)
      ∙ ap (λ ys. slice buf 0 32 ++ ys)
          (rest 32 64 (omega arith)
            ∙ ap (λ ys. slice buf 32 64 ++ ys)
                (rest 64 76 (omega arith)
                  ∙ ap (λ ys. slice buf 64 76 ++ ys)
                      (rest 76 88 (omega arith)
                        ∙ ap (λ ys. slice buf 76 88 ++ ys)
                            (rest 88 104 (omega arith)
                              ∙ ap (λ ys. slice buf 88 104 ++ ys)
                                  (sym (
                                    take_all 16 (drop 104 buf)
                                      (omega (arith, length-drop 104 buf)))))))))

-- Keys of the sizes that the ciphers want, which together are the first 120 bytes of a stream.
pub record AreCut (stream : ℕ → ℕ) (sk : SessionKeys) : Type 0 where
  pub whole : joined sk ≡ read_full stream 0 120
  pub client_key_size : length sk.client_key ≡ 32
  pub server_key_size : length sk.server_key ≡ 32
  pub client_iv_size : length sk.client_iv ≡ 12
  pub server_iv_size : length sk.server_iv ≡ 12
  pub session_id_size : length sk.session_id ≡ 16
  pub dynamic_magic_size : length sk.dynamic_magic ≡ 16

cut_keys-AreCut : (stream : ℕ → ℕ) → AreCut stream (cut_keys (read_full stream 0 120))
unfolding cut_keys
cut_keys-AreCut stream =
    let buf = read_full stream 0 120 in
    let len = length-read_full stream 0 120 in
    record {
      whole = joined-cut_keys buf len;
      client_key_size = length-slice buf 0 32 (omega arith) (omega (arith, len));
      server_key_size = length-slice buf 32 64 (omega arith) (omega (arith, len));
      client_iv_size = length-slice buf 64 76 (omega arith) (omega (arith, len));
      server_iv_size = length-slice buf 76 88 (omega arith) (omega (arith, len));
      session_id_size = length-slice buf 88 104 (omega arith) (omega (arith, len));
      dynamic_magic_size = length-slice buf 104 120 (omega arith) (omega (arith, len));
    }

-- The keys of a handshake and those of every next epoch are the first 120 bytes of an HKDF
-- stream shared out in turn, no byte left out or used twice, in keys of 32 bytes, nonces of 12 and
-- identifiers of 16.
pub derived-AreCut :
    (p : Primitives) (shared_secret salt client_pub server_pub : List ℕ) (epoch : ℕ)
    → let sk = derive_keys p shared_secret salt client_pub server_pub in
      (stream : ℕ → ℕ) × (next : ℕ → ℕ) × (sk' : SessionKeys) × AreCut stream sk
      × (derive_next_epoch_keys p (some sk) epoch ≡ some sk')
      × AreCut next sk'
unfolding derive_keys derive_next_epoch_keys
derived-AreCut p shared_secret salt client_pub server_pub epoch =
    (_, _, _, cut_keys-AreCut _, refl, cut_keys-AreCut _)

shared_sound :
    (o : Option (List ℕ)) (s : List ℕ)
    → safe_shared o ≡ secret s
    → (o ≡ some s) × (s ≢ replicate 32 0)
unfolding safe_shared
shared_sound none s h = absurd (ground arith)
shared_sound (some shared) s h = elim (Bool-cases (same_bytes shared (replicate 32 0))) [
  | inl nil ↦ cc (rw nil at h)
  | inr fine ↦
      let same : secret shared ≡ secret s = rw fine at h in
      let e : shared ≡ s = cc same in
      (
        ap some e,
        λ z. cc (
          fine,
          ap (λ t. same_bytes t (replicate 32 0)) (e ∙ z),
          same_bytes_self (replicate 32 0),
        ),
      )
]

-- `DHSafe` gives a secret only if X25519 gave it and it is not all zeros.
pub dh_safe_sound :
    (p : Primitives) (private peer_public s : List ℕ)
    → dh_safe p private peer_public ≡ secret s
    → (p.x25519 private peer_public ≡ some s) × (s ≢ replicate 32 0)
unfolding dh_safe dh
dh_safe_sound p private peer_public s h = shared_sound (p.x25519 private peer_public) s h

mod_within : (v n : ℕ) → 0 < n → n < 2 ^ 32 → v % (n % 2 ^ 32) < n
mod_within v n h k = let whole : n % 2 ^ 32 ≡ n = omega arith in rw whole (grind arith)

-- With a pool that is not empty, the hopping port is one of its ports.
pub hopping_port_of_pool :
    (p : Primitives) (session_id : List ℕ) (epoch : ℕ) (pool : List ℕ)
    → 0 < length pool
    → length pool < 2 ^ 32
    → (i : ℕ) × (i < length pool)
      × (derive_hopping_port p session_id epoch pool ≡ some (get_or pool i 0))
unfolding derive_hopping_port
hopping_port_of_pool p session_id epoch [] some_port small = absurd (omega arith)
hopping_port_of_pool p session_id epoch (port ∷ []) some_port small = (0, omega arith, refl)
hopping_port_of_pool p session_id epoch (port ∷ next ∷ ports) some_port small =
    let pool = port ∷ next ∷ ports in
    let val = get_u32 (p.hmac session_id (hop_label ++ u64_bytes epoch)) 0 in
    (val % (length pool % 2 ^ 32), mod_within val (length pool) (omega arith) small, refl)
