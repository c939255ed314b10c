-- ===== src/Reality/SessionId.antt =====
-- Which session ids pass: a generated one, for as long as the window says.
use obsidian_vpn.Base.{
  ℕ, ◌+◌, ◌-◌, ◌%◌, ◌^◌, ◌<◌, ◌≡◌, ap, subst, ◌∙◌, List, ◌++◌, false, some, ◌&&◌, leb, ◌==◌,
  if◌then◌else◌, length, take, drop, arith, take-joined, drop-joined, length-append, length-take,
  eq→==,
}
use mathlib.Core.List.{append_assoc}
use obsidian_vpn.Base.Bytes.{get_u64, u64_bytes, length-u64_bytes}
use obsidian_vpn.Router.Keys.{same_bytes_self}
use obsidian_vpn.Routes.{trim_space, to_lower}
use obsidian_vpn.Keys.{Primitives}
use obsidian_vpn.Keys.Cookies.Validation.{get_u64_front}
use obsidian_vpn.Reality.{
  reality_auth_label, auth_tag_size, default_auth_window, compute_auth_tag, generate_session_id,
  in_window, verify_session_id,
}

abbrev window_of : ℕ → ℕ
window_of w = if w == 0 then default_auth_window else w

window_of-lt : (w : ℕ) → w < 2 ^ 63 → window_of w < 2 ^ 63
window_of-lt w h = ground arith

in_window_lem :
    (made now w : ℕ)
    → made < 2 ^ 63
    → now < 2 ^ 63
    → w < 2 ^ 63
    → in_window ((now + 2 ^ 64 - made) % 2 ^ 64) w ≡ (leb now (made + w) && leb made (now + w))
unfolding in_window
in_window_lem made now w p q r = ground arith

some_list : (xs ys : List ℕ) → some xs ≡ some ys → xs ≡ ys
some_list xs ys e = cc

-- The parts of an id that is a front of 24 bytes and a tag.
module _ (front tag : List ℕ) (sized : length front ≡ 24) where
  id_front : take 24 (front ++ tag) ≡ front
  id_front = take-joined front 24 tag sized

  id_tag : drop 24 (front ++ tag) ≡ tag
  id_tag = drop-joined front 24 24 tag (omega arith) sized

module _ (p : Primitives) (auth_key nonce sni : List ℕ) (made : ℕ) where
  abbrev front : List ℕ
  front = nonce ++ u64_bytes made

  abbrev tag : List ℕ
  tag = take auth_tag_size (compute_auth_tag p auth_key front sni)

  length-tag : length tag ≡ 8
  unfolding compute_auth_tag
  length-tag = ground (
    arith,
    length-take 8 (compute_auth_tag p auth_key front sni),
    p.length-hmac auth_key (reality_auth_label ++ (front ++ to_lower (trim_space sni))),
  )

  length-front : length nonce ≡ 16 → length front ≡ 24
  length-front sized = ground (arith, length-append nonce (u64_bytes made), length-u64_bytes made)

  made_back : length nonce ≡ 16 → made < 2 ^ 64 → get_u64 (drop 16 (front ++ tag)) 0 ≡ made
  made_back sized fits =
      ap (λ xs. get_u64 (drop 16 xs) 0) (append_assoc nonce (u64_bytes made) tag)
      ∙ ap (λ xs. get_u64 xs 0)
          (drop-joined nonce 16 16 (u64_bytes made ++ tag) (omega arith) sized)
      ∙ get_u64_front made tag fits

  in_time :
      (now w : ℕ)
      → length nonce ≡ 16
      → made < 2 ^ 63
      → now < 2 ^ 63
      → w < 2 ^ 63
      → in_window ((now + 2 ^ 64 - get_u64 (drop 16 (front ++ tag)) 0) % 2 ^ 64) w
        ≡ (leb now (made + w) && leb made (now + w))
  in_time now w sized q r v =
      ap (λ t. in_window ((now + 2 ^ 64 - t) % 2 ^ 64) w) (made_back sized (omega arith))
      ∙ in_window_lem made now w q r v

  same_tag :
      (name : List ℕ)
      → to_lower (trim_space name) ≡ to_lower (trim_space sni)
      → compute_auth_tag p auth_key front name ≡ compute_auth_tag p auth_key front sni
  unfolding compute_auth_tag
  same_tag name same = ap (λ t. p.hmac auth_key (reality_auth_label ++ (front ++ t))) same

  verify_made :
      (name : List ℕ) (window_sec now : ℕ)
      → length nonce ≡ 16
      → (length auth_key == 0) ≡ false
      → made < 2 ^ 63
      → now < 2 ^ 63
      → window_sec < 2 ^ 63
      → to_lower (trim_space name) ≡ to_lower (trim_space sni)
      → verify_session_id p (front ++ tag) name auth_key window_sec now
        ≡ (leb now (made + window_of window_sec) && leb made (now + window_of window_sec))
  unfolding verify_session_id
  verify_made name window_sec now sized keyed q r w same =
      let whole : length (front ++ tag) ≡ 32 =
        omega (arith, length-append front tag, length-front sized, length-tag) in
      rw
        (
          eq→== (length (front ++ tag)) 32 whole,
          keyed,
          in_time now (window_of window_sec) sized q r (window_of-lt window_sec w),
          id_front front tag (length-front sized),
          id_tag front tag (length-front sized),
          same_tag name same,
          same_bytes_self tag,
        )
        (ground arith)

  -- A session id that the client makes with a key that is not empty, at one time and with a name,
  -- passes with the same key at another time exactly if the two times are no further apart than the
  -- window (30 seconds if none is given), for a name that is the same apart from spaces around it
  -- and capitals. The nonce has 16 bytes, and the times and the window are below 2^63.
  pub verify-generate :
      (name id : List ℕ) (window_sec now : ℕ)
      → length nonce ≡ 16
      → (length auth_key == 0) ≡ false
      → made < 2 ^ 63
      → now < 2 ^ 63
      → window_sec < 2 ^ 63
      → to_lower (trim_space name) ≡ to_lower (trim_space sni)
      → generate_session_id p auth_key sni (some nonce) made ≡ some id
      → verify_session_id p id name auth_key window_sec now
        ≡ (leb now (made + window_of window_sec) && leb made (now + window_of window_sec))
  unfolding generate_session_id
  verify-generate name id window_sec now sized keyed q r w same generated =
      subst
        (λ x.
          verify_session_id p x name auth_key window_sec now
          ≡ (leb now (made + window_of window_sec) && leb made (now + window_of window_sec)))
        (some_list (front ++ tag) id generated)
        (verify_made name window_sec now sized keyed q r w same)
