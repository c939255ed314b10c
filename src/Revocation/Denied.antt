-- ===== src/Revocation/Denied.antt =====
-- A key that was once loaded is refused, whatever becomes of the file.
use obsidian_vpn.Base.{
  ℕ, ◌≡◌, refl, List, [], ◌∷◌, Bool, true, false, not, Option, none, some, ◌&&◌, ltb, ◌==◌,
  if◌then◌else◌, arith, length,
}
use obsidian_vpn.Revocation.{
  FileInfo, not_exist, stat_error, info, DenyFile, Unmarshal, RevocationStore, add_revoked_keys,
  keep_keys, load_values, load, reload_at, reload, answer, is_revoked, after_checks,
}

-- The store was loaded from a file, and the key is in it.
pub record Denies (key : List ℕ) (r : RevocationStore) : Type 0 where
  pub loaded : r.initialized ≡ true
  pub member : r.keys key ≡ true

-- A result of a reload, unless it is an error.
OrError : (RevocationStore → Type 0) → Option RevocationStore → Type 0
OrError P none = Unit {0}
OrError P (some r) = P r

module _ (unmarshal : Unmarshal) (key : List ℕ) where
  keep_keys-Denies :
      (r : RevocationStore) (time : ℕ) (keys : Option (List ℕ → Bool))
      → Denies key r
      → OrError (Denies key) (keep_keys r time keys)
  unfolding keep_keys OrError
  keep_keys-Denies r time none d = tt
  keep_keys-Denies r time (some keys) d = record {
    loaded = refl;
    member = ground (arith, d.member);
  }

  load_values-Denies :
      (r : RevocationStore) (time : ℕ) (values : Option (List (List ℕ)))
      → Denies key r
      → OrError (Denies key) (load_values r time values)
  unfolding load_values OrError
  load_values-Denies r time none d = tt
  load_values-Denies r time (some values) d =
      keep_keys-Denies r time (add_revoked_keys (λ k. false) values) d

  load-Denies :
      (r : RevocationStore) (time : ℕ) (contents : Option (List ℕ))
      → Denies key r
      → OrError (Denies key) (load unmarshal r time contents)
  unfolding load OrError
  load-Denies r time none d = tt
  load-Denies r time (some bytes) d = load_values-Denies r time (unmarshal bytes) d

  either-Denies :
      (b : Bool) (x y : Option RevocationStore)
      → OrError (Denies key) x
      → OrError (Denies key) y
      → OrError (Denies key) (if b then x else y)
  either-Denies true x y d e = d
  either-Denies false x y d e = e

  reload_at-Denies :
      (force : Bool) (r : RevocationStore) (contents : Option (List ℕ)) (stat : FileInfo)
      → Denies key r
      → OrError (Denies key) (reload_at unmarshal force r contents stat)
  unfolding reload_at OrError
  reload_at-Denies force r contents not_exist d = either-Denies force (some r) none d tt
  reload_at-Denies force r contents stat_error d = tt
  reload_at-Denies force r contents (info time) d =
      either-Denies (not force && not (ltb r.mod_time time)) (some r)
        (load unmarshal r time contents) d (load-Denies r time contents d)

  reload-Denies :
      (file : DenyFile) (force : Bool) (r : RevocationStore)
      → Denies key r
      → OrError (Denies key) (reload unmarshal file force r)
  unfolding reload OrError
  reload-Denies file force r d =
      either-Denies (length r.path == 0) (some r)
        (reload_at unmarshal force r file.contents file.stat) d
        (reload_at-Denies force r file.contents file.stat d)

  answer-Denies :
      (r : RevocationStore) (k : List ℕ) (result : Option RevocationStore)
      → Denies key r
      → OrError (Denies key) result
      → Denies key (answer r k result).1
  unfolding answer OrError
  answer-Denies r k none d e = d
  answer-Denies r k (some r') d e = e

  answer-true :
      (r : RevocationStore) (result : Option RevocationStore)
      → Denies key r
      → OrError (Denies key) result
      → (answer r key result).0 ≡ true
  unfolding answer OrError
  answer-true r none d e = d.loaded
  answer-true r (some r') d e = e.member

  after_checks-Denies :
      (r : RevocationStore) (checks : List (DenyFile × List ℕ))
      → Denies key r
      → Denies key (after_checks unmarshal r checks)
  unfolding after_checks is_revoked
  after_checks-Denies r [] d = d
  after_checks-Denies r ((file, k) ∷ checks) d =
      after_checks-Denies (answer r k (reload unmarshal file false r)).1 checks
        (answer-Denies r k (reload unmarshal file false r) d (reload-Denies file false r d))

  -- Once a store has been loaded from its file, a key in it is revoked at every later check, whatever
  -- the file is at the checks in between and at this one: missing, unreadable, broken or without the key.
  pub stays_revoked :
      (r : RevocationStore) (checks : List (DenyFile × List ℕ)) (file : DenyFile)
      → Denies key r
      → (is_revoked unmarshal file (after_checks unmarshal r checks) key).0 ≡ true
  unfolding is_revoked
  stays_revoked r checks file d =
      let later = after_checks unmarshal r checks in
      let d' = after_checks-Denies r checks d in
      answer-true later (reload unmarshal file false later) d' (reload-Denies file false later d')
