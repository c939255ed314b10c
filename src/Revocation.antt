-- ===== src/Revocation.antt =====
-- cmd/server/revocation.go: the keys of revoked clients, from the configuration and from a file. What the
-- system says of the file is an argument; `json.Unmarshal` is a function. A set of keys is a function.
pub mod Denied
pub mod Listed
mod Examples
use obsidian_vpn.Base.{
  ℕ, ◌+◌, ◌-◌, ◌*◌, ◌/◌, List, [], ◌∷◌, Bool, true, false, not, Option, none, some, ◌||◌, ◌&&◌, ltb,
  leb, ◌==◌, if◌then◌else◌, length,
}
use obsidian_vpn.Keys.{key_size}
use obsidian_vpn.Router.{same_bytes, put_at}

-- `os.Stat`: the file does not exist, another error, or its modification time, in nanoseconds since the
-- zero time.
pub data FileInfo : Type 0 where
  not_exist : FileInfo
  stat_error : FileInfo
  info : ℕ → FileInfo

-- What a call finds: the answer of `os.Stat` and of `os.ReadFile`, `none` for its error.
pub record DenyFile : Type 0 where
  pub stat : FileInfo
  pub contents : Option (List ℕ)

-- The strings of `revoked_clients`, `none` for an error of `json.Unmarshal`.
abbrev pub Unmarshal : Type 0
Unmarshal = List ℕ → Option (List (List ℕ))

pub record RevocationStore : Type 0 where
  pub path : List ℕ
  pub keys : List ℕ → Bool
  pub mod_time : ℕ
  pub initialized : Bool

unfoldable pub hex_digit : ℕ → Option ℕ
hex_digit c =
    if leb b'0' c && leb c b'9'
    then some (c - b'0')
    else if leb b'a' c && leb c b'f'
    then some (c - b'a' + 10)
    else if leb b'A' c && leb c b'F'
    then some (c - b'A' + 10)
    else none

unfoldable pub hex_pair : Option ℕ → Option ℕ → Option (List ℕ) → Option (List ℕ)
hex_pair (some a) (some b) (some bytes) = some ((a * 16 + b) ∷ bytes)
hex_pair (some a) (some b) none = none
hex_pair (some a) none bytes = none
hex_pair none b bytes = none

-- `hex.DecodeString`
unfoldable pub hex_decode : List ℕ → Option (List ℕ)
hex_decode [] = some []
hex_decode (a ∷ []) = none
hex_decode (a ∷ b ∷ cs) = hex_pair (hex_digit a) (hex_digit b) (hex_decode cs)

unfoldable pub sized_key : Option (List ℕ) → Option (List ℕ)
sized_key none = none
sized_key (some decoded) = if length decoded == key_size then some decoded else none

unfoldable pub put_key : Option (List ℕ → Bool) → Option (List ℕ) → Option (List ℕ → Bool)
put_key none key = none
put_key (some dst) none = none
put_key (some dst) (some key) = some (put_at dst key true)

-- Nothing is added after an error.
unfoldable pub add_from : Option (List ℕ → Bool) → List (List ℕ) → Option (List ℕ → Bool)
add_from dst [] = dst
add_from dst (value ∷ values) = add_from (put_key dst (sized_key (hex_decode value))) values

-- The set with the values added, `none` if one is no key. After that error no caller uses the set.
unfoldable pub add_revoked_keys : (List ℕ → Bool) → List (List ℕ) → Option (List ℕ → Bool)
add_revoked_keys dst values = add_from (some dst) values

-- What was in the store before stays.
unfoldable pub keep_keys : RevocationStore → ℕ → Option (List ℕ → Bool) → Option RevocationStore
keep_keys r time none = none
keep_keys r time (some keys) = some (record r {
  keys = λ k. keys k || r.keys k;
  mod_time = time / 1000000000 * 1000000000;
  initialized = true;
})

unfoldable pub load_values : RevocationStore → ℕ → Option (List (List ℕ)) → Option RevocationStore
load_values r time none = none
load_values r time (some values) = keep_keys r time (add_revoked_keys (λ k. false) values)

unfoldable pub load : Unmarshal → RevocationStore → ℕ → Option (List ℕ) → Option RevocationStore
load unmarshal r time none = none
load unmarshal r time (some bytes) = load_values r time (unmarshal bytes)

unfoldable pub reload_at :
    Unmarshal → Bool → RevocationStore → Option (List ℕ) → FileInfo → Option RevocationStore
reload_at unmarshal force r contents not_exist = if force then some r else none
reload_at unmarshal force r contents stat_error = none
reload_at unmarshal force r contents (info time) =
    if not force && not (ltb r.mod_time time) then some r else load unmarshal r time contents

-- `none` is an error, which leaves the store as it was.
unfoldable pub reload : Unmarshal → DenyFile → Bool → RevocationStore → Option RevocationStore
reload unmarshal file force r =
    if length r.path == 0 then some r else reload_at unmarshal force r file.contents file.stat

unfoldable pub first_load :
    Unmarshal → DenyFile → List ℕ → Option (List ℕ → Bool) → Option RevocationStore
first_load unmarshal file path none = none
first_load unmarshal file path (some keys) =
    let r : RevocationStore = record {
      path = path;
      keys = keys;
      mod_time = 0;
      initialized = false;
    } in
    if length path == 0 then some r else reload unmarshal file true r

unfoldable pub new_revocation_store :
    Unmarshal → DenyFile → List (List ℕ) → List ℕ → Option RevocationStore
new_revocation_store unmarshal file static path =
    first_load unmarshal file path (add_revoked_keys (λ k. false) static)

unfoldable pub answer : RevocationStore → List ℕ → Option RevocationStore → Bool × RevocationStore
answer r key none = (r.initialized, r)
answer r key (some loaded) = (loaded.keys key, loaded)

unfoldable pub is_revoked : Unmarshal → DenyFile → RevocationStore → List ℕ → Bool × RevocationStore
is_revoked unmarshal file r key = answer r key (reload unmarshal file false r)

-- The store after checks of keys, each with what it finds of the file.
unfoldable pub after_checks :
    Unmarshal → RevocationStore → List (DenyFile × List ℕ) → RevocationStore
after_checks unmarshal r [] = r
after_checks unmarshal r ((file, key) ∷ checks) =
    after_checks unmarshal (is_revoked unmarshal file r key).1 checks
