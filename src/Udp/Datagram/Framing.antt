-- ===== src/Udp/Datagram/Framing.antt =====
-- The frame inside a padded datagram: `unframe` takes the payload out again.
use obsidian_vpn.Base.{
  ℕ, ◌+◌, ◌-◌, ◌%◌, ◌^◌, ◌≤◌, ◌<◌, ◌≡◌, ap, ◌∙◌, ◌⊎◌, inl, inr, List, [], ◌∷◌, ◌++◌, Bool, true,
  false, ◌&&◌, ltb, leb, if◌then◌else◌, length, take, slice, arith, lt→ltb, le→leb, take-append,
  length-append, Bool-cases,
}
use obsidian_vpn.Base.Bytes.{get_u16, u16_bytes}
use obsidian_vpn.Cipher.{Rand, fast_random_bytes, length-fast_random_bytes}
use obsidian_vpn.Udp.Datagram.{Endpoint, pad_len, plain_payload, unframe}

-- A payload is framed where the padded packet fits the pooled buffer, or not at all.
abbrev pub IsFramed : Rand → Endpoint → List ℕ → Type 0
IsFramed r ep payload =
    (ep.use_bucket_padding ≡ false) ⊎ (2 + length payload + pad_len r ep payload ≤ 2048)

unframe_off : (b : Endpoint) (xs : List ℕ) → b.use_bucket_padding ≡ false → unframe b xs ≡ xs
unfolding unframe
unframe_off b xs off = ground arith

unframe_nil : (b : Endpoint) → unframe b [] ≡ []
unfolding unframe
unframe_nil b = ground arith

get_u16-framed : (n : ℕ) (xs : List ℕ) → n < 2 ^ 16 → get_u16 (u16_bytes n ++ xs) 0 ≡ n
unfolding get_u16 u16_bytes
get_u16-framed n xs h = omega arith

length-framed : (n : ℕ) (xs : List ℕ) → length (u16_bytes n ++ xs) ≡ 2 + length xs
unfolding u16_bytes
length-framed n xs = omega arith

framed_part :
    (n : ℕ) (pay pad : List ℕ) → slice (u16_bytes n ++ (pay ++ pad)) 2 (2 + length pay) ≡ pay
unfolding u16_bytes
framed_part n pay pad =
    let e : 2 + length pay - 2 ≡ length pay = omega arith in
    ap (λ k. take k (pay ++ pad)) e ∙ take-append pay pad

unframe_on :
    (b : Endpoint) (pay pad : List ℕ)
    → b.use_bucket_padding ≡ true
    → 0 < length pay
    → length pay < 2 ^ 16
    → unframe b (u16_bytes (length pay) ++ (pay ++ pad)) ≡ pay
unfolding unframe
unframe_on b pay pad on some_bytes short = ground (
  arith,
  get_u16-framed (length pay) (pay ++ pad),
  length-framed (length pay) (pay ++ pad),
  framed_part (length pay) pay pad,
  length-append pay pad,
)

plain_payload_framed :
    (r : Rand) (ep : Endpoint) (payload : List ℕ)
    → ep.use_bucket_padding ≡ true
    → 0 < length payload
    → 2 + length payload + pad_len r ep payload ≤ 2048
    → plain_payload r ep payload
      ≡ u16_bytes (length payload) ++ (payload ++ fast_random_bytes r (pad_len r ep payload))
unfolding plain_payload
plain_payload_framed r ep payload on some_bytes fits =
    let word : length payload % 2 ^ 16 ≡ length payload = omega arith in
    let framed =
      λ (n : ℕ). u16_bytes n ++ (payload ++ fast_random_bytes r (pad_len r ep payload)) in
    ap
      (λ b.
        if (b && ltb 0 (length payload)) && leb (2 + length payload + pad_len r ep payload) 2048
        then framed (length payload % 2 ^ 16)
        else payload)
      on
    ∙ (rw (lt→ltb 0 (length payload) some_bytes, le→leb _ 2048 fits) (ap framed word))

pub plain_payload_off :
    (r : Rand) (ep : Endpoint) (payload : List ℕ)
    → ep.use_bucket_padding ≡ false
    → plain_payload r ep payload ≡ payload
unfolding plain_payload
plain_payload_off r ep payload off = ground arith

plain_payload_nil : (r : Rand) (ep : Endpoint) → plain_payload r ep [] ≡ []
unfolding plain_payload
plain_payload_nil r ep = ground arith

-- `unframe` of what `plain_payload` made, the receiver being set as the sender.
pub unframe-plain_payload :
    (r : Rand) (a b : Endpoint) (payload : List ℕ)
    → b.use_bucket_padding ≡ a.use_bucket_padding
    → IsFramed r a payload
    → unframe b (plain_payload r a payload) ≡ payload
unframe-plain_payload r a b payload same (inl off) =
    ap (unframe b) (plain_payload_off r a payload off) ∙ unframe_off b payload (same ∙ off)
unframe-plain_payload r a b [] same (inr fits) =
    ap (unframe b) (plain_payload_nil r a) ∙ unframe_nil b
unframe-plain_payload r a b (x ∷ xs) same (inr fits) = elim (Bool-cases a.use_bucket_padding) [
  | inl on ↦
      ap (unframe b) (plain_payload_framed r a (x ∷ xs) on (omega arith) fits)
      ∙ unframe_on b (x ∷ xs) (fast_random_bytes r (pad_len r a (x ∷ xs))) (same ∙ on) (omega arith)
          (omega arith)
  | inr off ↦
      ap (unframe b) (plain_payload_off r a (x ∷ xs) off) ∙ unframe_off b (x ∷ xs) (same ∙ off)
]

-- Whether a payload is framed and padded: bucket padding is on, and the pooled buffer of 2048 bytes holds
-- the frame of a payload that is not empty.
pub is_framed : Rand → Endpoint → List ℕ → Bool
is_framed r ep payload =
    (ep.use_bucket_padding && ltb 0 (length payload))
    && leb (2 + length payload + pad_len r ep payload) 2048

pub length-plain_if :
    (r : Rand) (ep : Endpoint) (payload : List ℕ)
    → length (plain_payload r ep payload) ≡ (
        if is_framed r ep payload
        then 2 + length payload + pad_len r ep payload
        else length payload)
unfolding plain_payload is_framed
length-plain_if r ep payload = ground (
  arith,
  length-framed (length payload % 2 ^ 16) (payload ++ fast_random_bytes r (pad_len r ep payload)),
  length-append payload (fast_random_bytes r (pad_len r ep payload)),
  length-fast_random_bytes r (pad_len r ep payload),
)

pub framed_parts :
    (r : Rand) (ep : Endpoint) (payload : List ℕ)
    → is_framed r ep payload ≡ true
    → (ep.use_bucket_padding ≡ true)
      × (0 < length payload)
      × (2 + length payload + pad_len r ep payload ≤ 2048)
unfolding is_framed
framed_parts r ep payload h = ground arith

pub framed_back :
    (r : Rand) (ep : Endpoint) (payload : List ℕ)
    → ep.use_bucket_padding ≡ true
    → 0 < length payload
    → 2 + length payload + pad_len r ep payload ≤ 2048
    → is_framed r ep payload ≡ true
unfolding is_framed
framed_back r ep payload on some_bytes small = ground arith

-- The plaintext has what the frame takes, or is the payload.
pub length-plain_payload :
    (r : Rand) (ep : Endpoint) (payload : List ℕ)
    → length (plain_payload r ep payload) ≤ 2 + length payload + pad_len r ep payload
unfolding plain_payload
length-plain_payload r ep payload = ground (
  arith,
  length-framed (length payload % 2 ^ 16) (payload ++ fast_random_bytes r (pad_len r ep payload)),
  length-append payload (fast_random_bytes r (pad_len r ep payload)),
  length-fast_random_bytes r (pad_len r ep payload),
)
