-- ===== src/Udp/Sessions.antt =====
-- obsidian/udp.go, SessionTable: sessions by their tags, in 32 shards. Sessions are pointers, here
-- numbers; each operation holds its shard's lock and is one step.
pub mod Map
use obsidian_vpn.Base.{
  ℕ, ◌+◌, ◌*◌, ◌%◌, ◌<◌, ◌≡◌, refl, ap, List, Option, none, some, if◌then◌else◌, bit_xor, arith,
  ◌==◌, Bool-cases, inl, inr, Bool, true, false, ==→eq, [], ◌∷◌, eq→==,
}
use obsidian_vpn.Base.Bytes.{at}
use obsidian_vpn.Router.{same_bytes, put_at, put_of}
use obsidian_vpn.Router.Keys.{same_bytes-eq}

abbrev pub num_session_shards : ℕ
num_session_shards = 32

-- The map of each shard.
abbrev pub SessionTable : Type 0
SessionTable = ℕ → List ℕ → Option ℕ

unfoldable pub new_session_table : SessionTable
new_session_table i tag = none

unfoldable pub shard_for : List ℕ → ℕ
shard_for tag =
    bit_xor (bit_xor (bit_xor (at tag 0) (at tag 1 * 4)) (at tag 2 * 16)) (at tag 3 * 64)
    % num_session_shards

unfoldable pub table_get : SessionTable → List ℕ → Option ℕ
table_get st tag = st (shard_for tag) tag

unfoldable pub table_set : SessionTable → List ℕ → ℕ → SessionTable
table_set st tag s = put_of st (shard_for tag) (put_at (st (shard_for tag)) tag (some s))

unfoldable pub table_delete : SessionTable → List ℕ → SessionTable
table_delete st tag = put_of st (shard_for tag) (put_at (st (shard_for tag)) tag none)

-- The shards are of no consequence: what is read is what a single map would hold.
write_read :
    (st : SessionTable) (tag other : List ℕ) (v : Option ℕ)
    → table_get (put_of st (shard_for tag) (put_at (st (shard_for tag)) tag v)) other
      ≡ (if same_bytes tag other then v else table_get st other)
unfolding table_get put_of put_at
write_read st tag other v = elim (Bool-cases (same_bytes tag other)) [
  | inl same ↦ rw (eq→== _ _ (ap shard_for (same_bytes-eq tag other same)), same)
  | inr apart ↦ elim (Bool-cases (shard_for tag == shard_for other)) [
    | inl shard ↦ rw (shard, apart) (ap (λ i. st i other) (==→eq _ _ shard))
    | inr shards ↦ rw (shards, apart)
  ]
]

pub get-set :
    (st : SessionTable) (tag other : List ℕ) (s : ℕ)
    → table_get (table_set st tag s) other
      ≡ (if same_bytes tag other then some s else table_get st other)
unfolding table_set
get-set st tag other s = write_read st tag other (some s)

pub get-delete :
    (st : SessionTable) (tag other : List ℕ)
    → table_get (table_delete st tag) other
      ≡ (if same_bytes tag other then none else table_get st other)
unfolding table_delete
get-delete st tag other = write_read st tag other none
