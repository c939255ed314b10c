-- ===== src/Udp/Datagram/Opening.antt =====
-- What an endpoint seals into a datagram is found and opened with the keys of its epoch.
use obsidian_vpn.Base.{
  ℕ, ◌+◌, ◌/◌, ◌%◌, ◌^◌, ◌<◌, ◌≡◌, refl, sym, ap, subst, ◌∙◌, ◌⊎◌, inl, inr, List, ◌++◌, true,
  false, some, if◌then◌else◌, length, take, drop, slice, arith, length-append, take-joined,
  drop-joined, take_all, le→ltb, get_or-append,
}
use obsidian_vpn.Base.Bytes.{
  at, get_u32, u16_bytes, u32_bytes, u64_bytes, xor_bytes_twice, length-xor_bytes, get_u64-bytes,
  length-u64_bytes,
}
use obsidian_vpn.Udp.{
  Block, is_stun_header, is_srtp_header, write_stun_header, udp_nonce, protect_counter,
}
use obsidian_vpn.Udp.Datagram.{
  Endpoint, SendDraws, udp_header, seal_body, with_stun, datagram, header_offset, opened, open_body,
}

length-protect_counter :
    (hp : Block) (n : ℕ) (sample : List ℕ) → length (protect_counter hp (u64_bytes n) sample) ≡ 8
unfolding protect_counter
length-protect_counter hp n sample = length-xor_bytes (u64_bytes n) (hp sample) ∙ length-u64_bytes n

module _ (ep : Endpoint) (plain : List ℕ) (four : length ep.tag ≡ 4) where
  abbrev sealed_part : List ℕ
  sealed_part = ep.enc.seal (udp_nonce ep.send_ctr) plain (udp_header ep)

  abbrev masked : List ℕ
  masked = protect_counter ep.hp (u64_bytes ep.send_ctr) (take 16 sealed_part)

  length-masked : length masked ≡ 8
  length-masked = length-protect_counter ep.hp ep.send_ctr (take 16 sealed_part)

  pub length-seal_body : length (seal_body ep plain) ≡ length plain + 28
  unfolding seal_body
  length-seal_body = omega (
    arith,
    four,
    length-masked,
    length-append ep.tag (masked ++ sealed_part),
    length-append masked sealed_part,
    ep.enc.length-seal (udp_nonce ep.send_ctr) plain (udp_header ep),
  )

  pub seal_body_tag : take 4 (seal_body ep plain) ≡ ep.tag
  unfolding seal_body
  seal_body_tag = take-joined ep.tag 4 (masked ++ sealed_part) four

  behind_tag : drop 4 (seal_body ep plain) ≡ masked ++ sealed_part
  unfolding seal_body
  behind_tag = drop-joined ep.tag 4 4 (masked ++ sealed_part) (omega arith) four

  behind_header : drop 12 (seal_body ep plain) ≡ sealed_part
  unfolding seal_body
  behind_header =
      drop-joined ep.tag 4 12 (masked ++ sealed_part) (omega arith) four
      ∙ drop-joined masked 8 8 sealed_part (omega arith) length-masked

  sealed_counter : slice (seal_body ep plain) 4 12 ≡ masked
  sealed_counter = ap (take 8) behind_tag ∙ take-joined masked 8 sealed_part length-masked

  -- The keys that sealed it open it.
  pub open_body-seal_body :
      ep.send_ctr < 2 ^ 64
      → open_body (ep.enc, ep.hp) (seal_body ep plain) ≡ some (ep.send_ctr, plain)
  unfolding open_body opened udp_header
  open_body-seal_body h =
      let bare : protect_counter ep.hp masked (take 16 sealed_part) ≡ u64_bytes ep.send_ctr =
        unfold protect_counter in
        xor_bytes_twice (u64_bytes ep.send_ctr) (ep.hp (take 16 sealed_part)) in
      rw (
        sealed_counter,
        behind_header,
        seal_body_tag,
        bare,
        get_u64-bytes ep.send_ctr h,
        ep.enc.unseal-seal (udp_nonce ep.send_ctr) plain (ep.tag ++ u64_bytes ep.send_ctr),
      )

-- A datagram starts with a STUN header, or with a tag whose first byte is no STUN or SRTP byte.
abbrev pub IsPlain : Endpoint → Type 0
IsPlain ep = (ep.enable_stun ≡ true) ⊎ ((ep.enable_stun ≡ false) × (at ep.tag 0 / 64 % 2 ≡ 1))

length-write_stun_header : (n t a b : ℕ) → length (write_stun_header n t a b) ≡ 20
unfolding write_stun_header u16_bytes u32_bytes u64_bytes
length-write_stun_header n t a b = refl

stun_is_stun :
    (n t a b : ℕ) (body : List ℕ)
    → t < 2 ^ 14
    → is_stun_header (write_stun_header n t a b ++ body) ≡ true
unfolding is_stun_header get_u32 write_stun_header u16_bytes u32_bytes u64_bytes
stun_is_stun n t a b body h =
    let high : t / 256 % 256 / 64 % 4 ≡ 0 = omega arith in
    rw (high, le→ltb (length (write_stun_header n t a b ++ body)) 20 (omega arith))

tag_is_plain :
    (xs : List ℕ) → at xs 0 / 64 % 2 ≡ 1 → (is_stun_header xs ≡ false) × (is_srtp_header xs ≡ false)
unfolding is_stun_header is_srtp_header
tag_is_plain xs h = (ground arith, ground arith)

-- The datagram holds the body behind what `header_offset` finds.
abbrev pub Locates : List ℕ → List ℕ → Type 0
Locates body d = (length d ≡ header_offset d + length body) × (drop (header_offset d) d ≡ body)

module _ (d : SendDraws) (msg_type : ℕ) (body : List ℕ) (short : length body < 2 ^ 16) where
  abbrev stun_part : List ℕ
  stun_part = write_stun_header (length body) msg_type d.draw64 d.draw32

  whole_size : length (stun_part ++ body) ≡ 20 + length body
  whole_size = omega (
    arith,
    length-append stun_part body,
    length-write_stun_header (length body) msg_type d.draw64 d.draw32,
  )

  with_stun_whole : with_stun d msg_type body ≡ stun_part ++ body
  unfolding with_stun
  with_stun_whole =
      let word : length body % 2 ^ 16 ≡ length body = omega arith in
      rw word (take_all (20 + length body) (stun_part ++ body) (omega (arith, whole_size)))

  with_stun-Locates : msg_type < 2 ^ 14 → Locates body (stun_part ++ body)
  unfolding header_offset
  with_stun-Locates small = rw (stun_is_stun (length body) msg_type d.draw64 d.draw32 body small) (
    whole_size,
    drop-joined stun_part 20 20 body (omega arith)
        (length-write_stun_header (length body) msg_type d.draw64 d.draw32),
  )

bare-Locates : (body : List ℕ) → at body 0 / 64 % 2 ≡ 1 → Locates body body
unfolding header_offset
bare-Locates body h =
    let (no_stun, no_srtp) = tag_is_plain body h in rw (no_stun, no_srtp) (omega arith, refl)

at-seal_body :
    (ep : Endpoint) (plain : List ℕ) → length ep.tag ≡ 4 → at (seal_body ep plain) 0 ≡ at ep.tag 0
unfolding seal_body
at-seal_body ep plain four = get_or-append ep.tag _ 0 0 (omega arith)

pub datagram-Locates :
    (d : SendDraws) (msg_type : ℕ) (ep : Endpoint) (plain : List ℕ)
    → length ep.tag ≡ 4
    → msg_type < 2 ^ 14
    → length plain + 28 < 2 ^ 16
    → IsPlain ep
    → Locates (seal_body ep plain) (datagram d msg_type ep plain)
unfolding datagram
datagram-Locates d msg_type ep plain four small short (inl stun) =
    let body = seal_body ep plain in
    let fits : length body < 2 ^ 16 = omega (arith, length-seal_body ep plain four) in
    subst (Locates body)
      (sym (
        ap (λ b. if b then with_stun d msg_type body else body) stun
        ∙ with_stun_whole d msg_type body fits))
      (with_stun-Locates d msg_type body fits small)
datagram-Locates d msg_type ep plain four small short (inr (bare, odd)) =
    let body = seal_body ep plain in
    subst (Locates body) (sym (ap (λ b. if b then with_stun d msg_type body else body) bare))
      (bare-Locates body (omega (arith, at-seal_body ep plain four)))
