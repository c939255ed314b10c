-- ===== src/Reality/Once.antt =====
-- A session id that the cache has taken in is refused until its time has passed.
use obsidian_vpn.Base.{
  ℕ, ◌+◌, ◌<◌, ◌≡◌, refl, sym, ap, ◌∙◌, List, [], ◌∷◌, Bool, true, false, some, ltb, ◌==◌,
  if◌then◌else◌, arith, Bool-cases, inl, inr, length, All, eq→==,
}
use obsidian_vpn.Router.{same_bytes}
use obsidian_vpn.Router.Keys.{same_bytes-eq, same_bytes_self}
use obsidian_vpn.Reality.{
  RealityReplayCache, expiry, is_before, purge, put_expiry, seen_or_add, tls_session_id_size,
}

some_number : (a b : ℕ) → some a ≡ some b → a ≡ b
some_number a b e = cc

module _ (id : List ℕ) where
  -- What is before an end, if the first entry is taken by a test.
  expiry_either :
      (b : Bool) (k : List ℕ) (exp : ℕ) (rest : List (List ℕ × ℕ))
      → expiry id (if b then (k, exp) ∷ rest else rest)
        ≡ (if b then if same_bytes k id then some exp else expiry id rest else expiry id rest)
  unfolding expiry
  expiry_either true k exp rest = refl
  expiry_either false k exp rest = refl

  expiry-purge :
      (now end : ℕ) (entries : List (List ℕ × ℕ))
      → ltb now end ≡ true
      → expiry id entries ≡ some end
      → expiry id (purge now entries) ≡ some end
  unfolding expiry purge
  expiry-purge now end [] early h = h
  expiry-purge now end ((k, exp) ∷ entries) early h =
      expiry_either (ltb now exp) k exp (purge now entries) ∙ (elim (Bool-cases (same_bytes k id)) [
        | inl own ↦
            let same = some_number exp end (sym (rw own) ∙ h) in
            rw (own, ap (ltb now) same ∙ early, same)
        | inr other ↦
            let later = expiry-purge now end entries early (sym (rw other) ∙ h) in
            elim (Bool-cases (ltb now exp)) [
              | inl kept ↦ rw (kept, other) later
              | inr gone ↦ rw gone later
            ]
      ])

  expiry-put_other :
      (key : List ℕ) (time : ℕ) (entries : List (List ℕ × ℕ))
      → same_bytes key id ≡ false
      → expiry id (put_expiry key time entries) ≡ expiry id entries
  unfolding expiry put_expiry
  expiry-put_other key time [] apart = rw apart
  expiry-put_other key time ((k, exp) ∷ entries) apart = elim (Bool-cases (same_bytes k key)) [
    | inl own ↦
        let away = ap (λ x. same_bytes x id) (same_bytes-eq k key own) ∙ apart in rw (own, away)
    | inr other ↦ rw (other, expiry-put_other key time entries apart)
  ]

  expiry-put_own :
      (end : ℕ) (entries : List (List ℕ × ℕ)) → expiry id (put_expiry id end entries) ≡ some end
  unfolding expiry put_expiry
  expiry-put_own end [] = rw (same_bytes_self id)
  expiry-put_own end ((k, exp) ∷ entries) = elim (Bool-cases (same_bytes k id)) [
    | inl own ↦ rw (own, own)
    | inr other ↦ rw (other, other, expiry-put_own end entries)
  ]

-- The cache after calls, each with its time.
unfoldable pub after_calls : RealityReplayCache → List (ℕ × List ℕ) → RealityReplayCache
after_calls c [] = c
after_calls c ((now, key) ∷ calls) = after_calls (seen_or_add c now key).1 calls

seen_or_add-true :
    (c : RealityReplayCache) (now : ℕ) (id : List ℕ)
    → length id ≡ tls_session_id_size
    → is_before now (expiry id c.entries) ≡ true
    → (seen_or_add c now id).0 ≡ true
unfolding seen_or_add
seen_or_add-true c now id sized seen = rw (eq→== (length id) tls_session_id_size sized, seen) refl

module _ (id : List ℕ) (end : ℕ) where
  -- What the cache keeps for the id.
  abbrev Held : RealityReplayCache → Type 0
  Held c = expiry id c.entries ≡ some end

  purged-Held :
      (b : Bool) (now : ℕ) (entries : List (List ℕ × ℕ))
      → ltb now end ≡ true
      → expiry id entries ≡ some end
      → expiry id (if b then purge now entries else entries) ≡ some end
  purged-Held true now entries early h = expiry-purge id now end entries early h
  purged-Held false now entries early h = h

  before_Held :
      (c : RealityReplayCache) (now : ℕ)
      → now < end
      → Held c
      → is_before now (expiry id c.entries) ≡ true
  unfolding is_before
  before_Held c now early h = rw h (ground arith)

  seen_or_add-Held :
      (c : RealityReplayCache) (now : ℕ) (key : List ℕ)
      → now < end
      → Held c
      → Held (seen_or_add c now key).1
  unfolding seen_or_add
  seen_or_add-Held c now key early h = elim (Bool-cases (length key == tls_session_id_size)) [
    | inr short ↦ rw short h
    | inl sized ↦ elim (Bool-cases (is_before now (expiry key c.entries))) [
      | inl seen ↦ rw (sized, seen) h
      | inr new ↦ elim (Bool-cases (same_bytes key id)) [
        | inl own ↦ absurd (
            let same = ap (λ k. is_before now (expiry k c.entries)) (same_bytes-eq key id own) in
            ground (arith, same, new, before_Held c now early h))
        | inr other ↦
            rw (sized, new)
              (expiry-put_other id key (now + c.ttl) _ other
                ∙ purged-Held (ltb 8192 (length c.entries)) now c.entries (ground arith) h)
      ]
    ]
  ]

  after_calls-Held :
      (c : RealityReplayCache) (calls : List (ℕ × List ℕ))
      → All (λ call. call.0 < end) calls
      → Held c
      → Held (after_calls c calls)
  unfolding after_calls
  after_calls-Held c [] early h = h
  after_calls-Held c ((now, key) ∷ calls) (first, early) h =
      after_calls-Held (seen_or_add c now key).1 calls early (seen_or_add-Held c now key first h)

  seen_again :
      (c : RealityReplayCache) (now : ℕ)
      → length id ≡ tls_session_id_size
      → now < end
      → Held c
      → (seen_or_add c now id).0 ≡ true
  seen_again c now sized early h = seen_or_add-true c now id sized (before_Held c now early h)

added-Held :
    (c : RealityReplayCache) (now : ℕ) (id : List ℕ)
    → length id ≡ tls_session_id_size
    → (seen_or_add c now id).0 ≡ false
    → Held id (now + c.ttl) (seen_or_add c now id).1
unfolding seen_or_add
added-Held c now id sized new = elim (Bool-cases (is_before now (expiry id c.entries))) [
  | inl seen ↦ absurd (ground (arith, seen_or_add-true c now id sized seen, new))
  | inr fresh ↦
      rw (eq→== (length id) tls_session_id_size sized, fresh) (expiry-put_own id (now + c.ttl) _)
]

-- A session id of 32 bytes that the cache let pass at one time is refused at every later call before that
-- time plus the cache's lifetime, whichever ids came in between, and also if entries were purged then.
pub passes_once :
    (c : RealityReplayCache) (now later : ℕ) (id : List ℕ) (calls : List (ℕ × List ℕ))
    → length id ≡ tls_session_id_size
    → (seen_or_add c now id).0 ≡ false
    → All (λ call. call.0 < now + c.ttl) calls
    → later < now + c.ttl
    → (seen_or_add (after_calls (seen_or_add c now id).1 calls) later id).0 ≡ true
passes_once c now later id calls sized new between early =
    let after = after_calls (seen_or_add c now id).1 calls in
    seen_again id (now + c.ttl) after later sized early (
      after_calls-Held id (now + c.ttl) (seen_or_add c now id).1 calls between
        (added-Held c now id sized new))
