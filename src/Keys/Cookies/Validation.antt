-- ===== src/Keys/Cookies/Validation.antt =====
-- Which cookies are accepted: those that the server makes itself, while they are fresh.
use obsidian_vpn.Base.{
  ℕ, ◌+◌, ◌*◌, ◌/◌, ◌%◌, ◌^◌, ◌<◌, ◌≡◌, ◌↔◌, ◌≢◌, refl, sym, ap, ◌∙◌, List, [], ◌∷◌, ◌++◌, Bool,
  true, false, not, ◌||◌, ◌&&◌, leb, ◌==◌, if◌then◌else◌, length, take, drop, arith, All,
  take-append-drop, take-joined, drop-joined, length-append, length-take, ne→==, get_or-take,
}
use obsidian_vpn.Base.Bytes.{IsByte, get_u32, get_u64, u32_bytes, u64_bytes, length-u64_bytes}
use obsidian_vpn.Base.Bytes.Put.{take-IsByte, get_u32-lt}
use obsidian_vpn.Router.{same_bytes}
use obsidian_vpn.Router.Keys.{same_bytes-eq, same_bytes_self}
use obsidian_vpn.Keys.{Primitives}
use obsidian_vpn.Keys.Cookies.{
  cookie_input, generate_handshake_cookie, age_limit, is_fresh, validate_handshake_cookie,
}

cons_eq : (a b : ℕ) (xs ys : List ℕ) → a ≡ b → xs ≡ ys → (a ∷ xs) ≡ (b ∷ ys)
cons_eq a b xs ys p q = cc

word_bytes :
    (a b c d : ℕ)
    → a < 256
    → b < 256
    → c < 256
    → d < 256
    → u32_bytes (((a * 256 + b) * 256 + c) * 256 + d) ≡ a ∷ b ∷ c ∷ d ∷ []
unfolding u32_bytes
word_bytes a b c d p q r t = cons_eq _ a _ _ (omega arith) (
    cons_eq _ b _ _ (omega arith)
      (cons_eq _ c _ _ (omega arith) (cons_eq _ d _ _ (omega arith) refl)))

-- The eight bytes of the number that eight bytes spell.
u64_bytes-get : (xs : List ℕ) → All IsByte xs → length xs ≡ 8 → u64_bytes (get_u64 xs 0) ≡ xs
unfolding u64_bytes get_u64 get_u32
u64_bytes-get [] bytes len = absurd (omega arith)
u64_bytes-get (a ∷ []) bytes len = absurd (omega arith)
u64_bytes-get (a ∷ b ∷ []) bytes len = absurd (omega arith)
u64_bytes-get (a ∷ b ∷ c ∷ []) bytes len = absurd (omega arith)
u64_bytes-get (a ∷ b ∷ c ∷ d ∷ []) bytes len = absurd (omega arith)
u64_bytes-get (a ∷ b ∷ c ∷ d ∷ e ∷ []) bytes len = absurd (omega arith)
u64_bytes-get (a ∷ b ∷ c ∷ d ∷ e ∷ f ∷ []) bytes len = absurd (omega arith)
u64_bytes-get (a ∷ b ∷ c ∷ d ∷ e ∷ f ∷ g ∷ []) bytes len = absurd (omega arith)
u64_bytes-get (a ∷ b ∷ c ∷ d ∷ e ∷ f ∷ g ∷ h ∷ i ∷ xs) bytes len = absurd (omega arith)
u64_bytes-get (a ∷ b ∷ c ∷ d ∷ e ∷ f ∷ g ∷ h ∷ []) (pa, (pb, (pc, (pd, (pe, (pf, (pg, (ph, _))))))))
      len =
    let hi = ((a * 256 + b) * 256 + c) * 256 + d in
    let lo = ((e * 256 + f) * 256 + g) * 256 + h in
    let top : (hi * 2 ^ 32 + lo) / 2 ^ 32 % 2 ^ 32 ≡ hi = omega arith in
    let bottom : (hi * 2 ^ 32 + lo) % 2 ^ 32 ≡ lo = omega arith in
    rw (top, bottom, word_bytes a b c d pa pb pc pd, word_bytes e f g h pe pf pg ph)

pub get_u64_front : (v : ℕ) (rest : List ℕ) → v < 2 ^ 64 → get_u64 (u64_bytes v ++ rest) 0 ≡ v
unfolding get_u64 get_u32 u64_bytes u32_bytes
get_u64_front v rest h = omega arith

get_u64-take : (xs : List ℕ) → get_u64 (take 8 xs) 0 ≡ get_u64 xs 0
unfolding get_u64 get_u32
get_u64-take xs = omega (
  arith,
  get_or-take 8 xs 0 0 (omega arith),
  get_or-take 8 xs 1 0 (omega arith),
  get_or-take 8 xs 2 0 (omega arith),
  get_or-take 8 xs 3 0 (omega arith),
  get_or-take 8 xs 4 0 (omega arith),
  get_or-take 8 xs 5 0 (omega arith),
  get_or-take 8 xs 6 0 (omega arith),
  get_or-take 8 xs 7 0 (omega arith),
)

get_u64-lt : (xs : List ℕ) → All IsByte xs → get_u64 xs 0 < 2 ^ 64
unfolding get_u64
get_u64-lt xs h = omega (arith, get_u32-lt xs 0 h, get_u32-lt xs 4 h)

-- The test as one conjunction.
accepts :
    (n m : Bool) (b : Bool)
    → (if n then false else if m then false else b) ≡ true
    → (n ≡ false) × (m ≡ false) × (b ≡ true)
accepts n m b h = ground arith

window :
    (now ts limit : ℕ)
    → ts < 2 ^ 63
    → is_fresh ts now limit ≡ (leb ts (now + 15) && leb now (ts + limit))
unfolding is_fresh
window now ts limit h = ground arith

module _ (p : Primitives) (key ip eph_pub salt : List ℕ) (max_age now : ℕ)
    (keyed : length key ≢ 0) where
  -- A cookie that the server makes has 32 bytes, and its time is read back.
  made_parts :
      (ts : ℕ)
      → ts < 2 ^ 64
      → let c = generate_handshake_cookie p key ip eph_pub salt ts in
        (length c ≡ 32)
        × (take 8 c ≡ u64_bytes ts)
        × (get_u64 c 0 ≡ ts)
        × (drop 8 c ≡ take 24 (p.hmac key (cookie_input ip eph_pub salt (u64_bytes ts))))
  unfolding generate_handshake_cookie
  made_parts ts h =
      let mac = take 24 (p.hmac key (cookie_input ip eph_pub salt (u64_bytes ts))) in
      let size : length mac ≡ 24 = omega (
        arith,
        length-take 24 (p.hmac key (cookie_input ip eph_pub salt (u64_bytes ts))),
        p.length-hmac key (cookie_input ip eph_pub salt (u64_bytes ts)),
      ) in
      (
        omega (arith, length-append (u64_bytes ts) mac, length-u64_bytes ts, size),
        take-joined (u64_bytes ts) 8 mac (length-u64_bytes ts),
        get_u64_front ts mac h,
        drop-joined (u64_bytes ts) 8 8 mac (omega arith) (length-u64_bytes ts),
      )

  -- Of its own cookies the server accepts those that are fresh.
  own_accepted :
      (ts : ℕ)
      → ts < 2 ^ 64
      → validate_handshake_cookie p
          (generate_handshake_cookie p key ip eph_pub salt ts)
          key
          ip
          eph_pub
          salt
          max_age
          now
        ≡ is_fresh ts now (age_limit max_age)
  unfolding validate_handshake_cookie
  own_accepted ts h =
      let (size, front, time, mac) = made_parts ts h in
      simp (size, front, time, mac, ne→== (length key) 0 keyed, same_bytes_self) (ground arith)

  -- What is accepted is what the server would have made at the time that it carries.
  only_own :
      (cookie : List ℕ)
      → All IsByte cookie
      → validate_handshake_cookie p cookie key ip eph_pub salt max_age now ≡ true
      → (cookie ≡ generate_handshake_cookie p key ip eph_pub salt (get_u64 cookie 0))
        × (is_fresh (get_u64 cookie 0) now (age_limit max_age) ≡ true)
  unfolding validate_handshake_cookie generate_handshake_cookie
  only_own cookie bytes h =
      let mac = take 24 (p.hmac key (cookie_input ip eph_pub salt (take 8 cookie))) in
      let (sized, timely, same) =
        accepts (not (length cookie == 32) || (length key == 0))
          (not (is_fresh (get_u64 cookie 0) now (age_limit max_age)))
          (same_bytes (drop 8 cookie) mac) h in
      let len : length cookie ≡ 32 = ground arith in
      let front : u64_bytes (get_u64 cookie 0) ≡ take 8 cookie =
        ap u64_bytes (sym (get_u64-take cookie))
        ∙ u64_bytes-get (take 8 cookie) (take-IsByte 8 cookie bytes)
            (omega (arith, length-take 8 cookie)) in
      (
        sym (take-append-drop 8 cookie)
            ∙ ap (λ xs. take 8 cookie ++ xs) (same_bytes-eq (drop 8 cookie) mac same)
            ∙ ap (λ xs. xs ++ take 24 (p.hmac key (cookie_input ip eph_pub salt xs))) (sym front),
        ground arith,
      )

  -- A server with a secret accepts a cookie of bytes exactly if it is the one that it makes itself for
  -- the address, the key and the salt at the time that the cookie carries, and that time is fresh.
  pub validate_iff :
      (cookie : List ℕ)
      → All IsByte cookie
      → (validate_handshake_cookie p cookie key ip eph_pub salt max_age now ≡ true) ↔ (
          (cookie ≡ generate_handshake_cookie p key ip eph_pub salt (get_u64 cookie 0))
          × (is_fresh (get_u64 cookie 0) now (age_limit max_age) ≡ true))
  validate_iff cookie bytes = (
    only_own cookie bytes,
    λ h.
        ap (λ c. validate_handshake_cookie p c key ip eph_pub salt max_age now) h.0
        ∙ own_accepted (get_u64 cookie 0) (get_u64-lt cookie bytes)
        ∙ h.1,
  )

  -- A cookie that a server made at a time from 1970 on is accepted by a server with the same secret, for
  -- the same address, key and salt, exactly while its time is at most 15 seconds ahead and at most
  -- the age limit behind, in whole seconds.
  pub validate-generate :
      (ts : ℕ)
      → ts < 2 ^ 63
      → validate_handshake_cookie p
          (generate_handshake_cookie p key ip eph_pub salt ts)
          key
          ip
          eph_pub
          salt
          max_age
          now
        ≡ (leb ts (now + 15) && leb now (ts + age_limit max_age))
  validate-generate ts h = own_accepted ts (omega arith) ∙ window now ts (age_limit max_age) h
