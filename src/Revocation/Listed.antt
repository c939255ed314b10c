-- ===== src/Revocation/Listed.antt =====
-- What a check answers that finds a newer file, and one that finds none.
use obsidian_vpn.Base.{
  ℕ, ◌≡◌, refl, sym, ap, ◌∙◌, List, [], ◌∷◌, Bool, true, false, Option, none, some, ◌||◌, ◌&&◌, ltb,
  ◌==◌, if◌then◌else◌, arith, Bool-cases, inl, inr, length,
}
use obsidian_vpn.Router.{same_bytes, put_at}
use obsidian_vpn.Revocation.{
  not_exist, info, DenyFile, Unmarshal, RevocationStore, hex_decode, sized_key, put_key, add_from,
  add_revoked_keys, keep_keys, load_values, load, reload_at, reload, first_load,
  new_revocation_store, answer, is_revoked,
}

-- What the values of a file list, and whether all of them are keys.
spells : List ℕ → Option (List ℕ) → Bool
spells key none = false
spells key (some k) = same_bytes k key

pub is_listed : List ℕ → List (List ℕ) → Bool
is_listed key [] = false
is_listed key (value ∷ values) = spells key (sized_key (hex_decode value)) || is_listed key values

is_key : Option (List ℕ) → Bool
is_key none = false
is_key (some k) = true

pub are_keys : List (List ℕ) → Bool
are_keys [] = true
are_keys (value ∷ values) = is_key (sized_key (hex_decode value)) && are_keys values

holds : List ℕ → Option (List ℕ → Bool) → Option Bool
holds key none = none
holds key (some keys) = some (keys key)

put_at-true :
    (dst : List ℕ → Bool) (k key : List ℕ) → put_at dst k true key ≡ (same_bytes k key || dst key)
unfolding put_at
put_at-true dst k key = ground arith

add_from-none : (values : List (List ℕ)) → add_from none values ≡ none
unfolding add_from put_key
add_from-none [] = refl
add_from-none (value ∷ values) = add_from-none values

module _ (key : List ℕ) where
  -- A set after values are added, asked for the key; an error if one value is no key.
  abbrev Adds : List (List ℕ) → Type 0
  Adds values =
      (dst : List ℕ → Bool)
      → holds key (add_from (some dst) values)
        ≡ (if are_keys values then some (is_listed key values || dst key) else none)

  add_one-Adds :
      (values : List (List ℕ)) (decoded : Option (List ℕ)) (dst : List ℕ → Bool)
      → Adds values
      → holds key (add_from (put_key (some dst) decoded) values) ≡ (
          if is_key decoded && are_keys values
          then some ((spells key decoded || is_listed key values) || dst key)
          else none)
  unfolding put_key holds spells is_key
  add_one-Adds values none dst rest = ap (holds key) (add_from-none values)
  add_one-Adds values (some k) dst rest =
      rest (put_at dst k true)
      ∙ ap (λ b. if are_keys values then some b else none) (ground (arith, put_at-true dst k key))

  add_from-Adds : (values : List (List ℕ)) → Adds values
  unfolding add_from holds is_listed are_keys
  add_from-Adds [] dst = refl
  add_from-Adds (value ∷ values) dst =
      add_one-Adds values (sized_key (hex_decode value)) dst (add_from-Adds values)

  -- The answer that a load of values gives for the key.
  keep_keys-answer :
      (r : RevocationStore) (time : ℕ) (keys : Option (List ℕ → Bool)) (b : Bool)
      → holds key keys ≡ some b
      → (answer r key (keep_keys r time keys)).0 ≡ (b || r.keys key)
  unfolding keep_keys answer holds
  keep_keys-answer r time none b e = absurd (ground arith)
  keep_keys-answer r time (some keys) b e = ground (arith, e)

  keep_keys_error :
      (r : RevocationStore) (time : ℕ) (keys : Option (List ℕ → Bool))
      → holds key keys ≡ none
      → (answer r key (keep_keys r time keys)).0 ≡ r.initialized
  unfolding keep_keys answer holds
  keep_keys_error r time none e = refl
  keep_keys_error r time (some keys) e = absurd (ground arith)

  load_values-answer :
      (r : RevocationStore) (time : ℕ) (values : List (List ℕ))
      → (answer r key (load_values r time (some values))).0
        ≡ (if are_keys values then is_listed key values || r.keys key else r.initialized)
  unfolding load_values add_revoked_keys
  load_values-answer r time values =
      let adds = add_from-Adds values (λ k. false) in
      elim (Bool-cases (are_keys values)) [
        | inl good ↦ rw good (
            keep_keys-answer r time (add_from (some (λ k. false)) values) (is_listed key values)
              (ground (arith, adds)))
        | inr bad ↦
            rw bad
              (keep_keys_error r time (add_from (some (λ k. false)) values) (ground (arith, adds)))
      ]

-- A check that finds a newer file, with the values that it lists, answers as they and the store say: the
-- key is revoked exactly if one value spells it or the store had it, where all values are keys; where one
-- is none, every key is revoked if a file was ever loaded, and none otherwise.
pub is_revoked-load :
    (unmarshal : Unmarshal) (file : DenyFile) (r : RevocationStore) (key : List ℕ) (time : ℕ)
    (bytes : List ℕ) (values : List (List ℕ))
    → (length r.path == 0) ≡ false
    → file.stat ≡ info time
    → ltb r.mod_time time ≡ true
    → file.contents ≡ some bytes
    → unmarshal bytes ≡ some values
    → (is_revoked unmarshal file r key).0
      ≡ (if are_keys values then is_listed key values || r.keys key else r.initialized)
unfolding is_revoked reload reload_at load
is_revoked-load unmarshal file r key time bytes values named found newer read parsed =
    rw (named, found, newer, read, parsed) (load_values-answer key r time values)

same_store : (r s : RevocationStore) → some r ≡ some s → r ≡ s
same_store r s e = cc

kept_static :
    (unmarshal : Unmarshal) (file : DenyFile) (path : List ℕ) (keys : Option (List ℕ → Bool))
    (r : RevocationStore)
    → file.stat ≡ not_exist
    → (length path == 0) ≡ false
    → first_load unmarshal file path keys ≡ some r
    → (r.path ≡ path) × (r.initialized ≡ false)
unfolding first_load reload reload_at
kept_static unmarshal file path none r missing named made = absurd (ground arith)
kept_static unmarshal file path (some keys) r missing named made =
    let start : RevocationStore = record {
      path = path;
      keys = keys;
      mod_time = 0;
      initialized = false;
    } in
    let e = same_store start r (cc (rw (named, missing) at made)) in
    (ap (λ s. s.path) (sym e), ap (λ s. s.initialized) (sym e))

-- While the file that a store was made with does not exist, every key is let in, also one that the
-- configuration lists, and the store stays as it was.
pub missing_file_admits :
    (unmarshal : Unmarshal) (first file : DenyFile) (static : List (List ℕ)) (path : List ℕ)
    (r : RevocationStore) (key : List ℕ)
    → first.stat ≡ not_exist
    → file.stat ≡ not_exist
    → (length path == 0) ≡ false
    → new_revocation_store unmarshal first static path ≡ some r
    → is_revoked unmarshal file r key ≡ (false, r)
unfolding new_revocation_store is_revoked reload reload_at answer
missing_file_admits unmarshal first file static path r key missing still named made =
    let (same_path, unloaded) =
      kept_static unmarshal first path (add_revoked_keys (λ k. false) static) r missing named
        made in
    rw (ap (λ p. length p == 0) same_path ∙ named, still, unloaded)
