-- ===== src/Udp/Sessions/Map.antt =====
-- The sharded table against a single map.
use obsidian_vpn.Base.{ℕ, ◌≡◌, refl, ap, ◌∙◌, List, [], ◌∷◌, Option, none, some, if◌then◌else◌}
use obsidian_vpn.Router.{same_bytes, put_at}
use obsidian_vpn.Udp.Sessions.{
  SessionTable, new_session_table, table_get, table_set, table_delete, get-set, get-delete,
}

pub data TableOp : Type 0 where
  set_op : List ℕ → ℕ → TableOp
  delete_op : List ℕ → TableOp

-- The operations in turn, on the table and on the map.
pub run_table : SessionTable → List TableOp → SessionTable
run_table st [] = st
run_table st (set_op tag s ∷ ops) = run_table (table_set st tag s) ops
run_table st (delete_op tag ∷ ops) = run_table (table_delete st tag) ops

pub run_map : (List ℕ → Option ℕ) → List TableOp → List ℕ → Option ℕ
run_map m [] = m
run_map m (set_op tag s ∷ ops) = run_map (put_at m tag (some s)) ops
run_map m (delete_op tag ∷ ops) = run_map (put_at m tag none) ops

run_from :
    (st : SessionTable) (m : List ℕ → Option ℕ) (ops : List TableOp)
    → ((t : List ℕ) → table_get st t ≡ m t)
    → (t : List ℕ) → table_get (run_table st ops) t ≡ run_map m ops t
unfolding run_table run_map put_at
run_from st m [] h t = h t
run_from st m (set_op tag s ∷ ops) h t =
    run_from (table_set st tag s) (put_at m tag (some s)) ops
      (λ o. get-set st tag o s ∙ ap (λ v. if same_bytes tag o then some s else v) (h o)) t
run_from st m (delete_op tag ∷ ops) h t =
    run_from (table_delete st tag) (put_at m tag none) ops
      (λ o. get-delete st tag o ∙ ap (λ v. if same_bytes tag o then none else v) (h o)) t

-- After any run of Set and Delete on a new table, Get of every tag is what a single map gives that
-- the same run was made on: the shards are of no consequence.
pub run_table-run_map :
    (ops : List TableOp) (tag : List ℕ)
    → table_get (run_table new_session_table ops) tag ≡ run_map (λ t. none) ops tag
unfolding new_session_table table_get
run_table-run_map ops tag = run_from new_session_table (λ t. none) ops (λ t. refl) tag
