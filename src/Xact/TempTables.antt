-- ===== src/Xact/TempTables.antt =====
-- The set of temporary tables through a transaction.
use pg_duckdb.Common.{
  ℕ, ◌≡◌, refl, ◌∙◌, true, false, none, List, [], ◌∷◌, ◌==◌, if◌then◌else◌, arith,
}
use pg_duckdb.Xact.{
  Xact, Env, abort, pre_commit, contains, erase, register_temp_table, unregister_temp_table,
  is_duckdb_temp_table, xact_callback, did_disallowed_mixed_writes,
}

pub data Change : Type 0 where
  registers unregisters : ℕ → Change

unfoldable pub apply : Change → Xact → Xact
unfolding register_temp_table unregister_temp_table
apply (registers o) x = register_temp_table o x
apply (unregisters o) x = unregister_temp_table o x

unfoldable pub apply_all : List Change → Xact → Xact
apply_all [] x = x
apply_all (c ∷ cs) x = apply_all cs (apply c x)

-- The set that a rollback goes back to.
abbrev pub at_start : Xact → List ℕ
at_start x = if x.modified_temporary then x.temporary_old else x.temporary

apply-at_start : (c : Change) (x : Xact) → at_start (apply c x) ≡ at_start x
unfolding apply
apply-at_start (registers o) x = ground arith
apply-at_start (unregisters o) x = ground arith

apply_all-at_start : (cs : List Change) (x : Xact) → at_start (apply_all cs x) ≡ at_start x
unfolding apply_all
apply_all-at_start [] x = refl
apply_all-at_start (c ∷ cs) x = apply_all-at_start cs (apply c x) ∙ apply-at_start c x

abort-at_start :
    (e : Env) (x : Xact) → e.initialized ≡ true → (xact_callback e abort x).0.temporary ≡ at_start x
unfolding xact_callback
abort-at_start e x h = ground arith

-- Whatever tables a transaction registers and unregisters, its abort brings the set back that it
-- began with, if DuckDB runs.
pub abort-apply_all :
    (e : Env) (cs : List Change) (x : Xact)
    → e.initialized ≡ true
    → x.modified_temporary ≡ false
    → ((xact_callback e abort (apply_all cs x)).0.temporary ≡ x.temporary)
      × ((xact_callback e abort (apply_all cs x)).0.modified_temporary ≡ false)
unfolding xact_callback
abort-apply_all e cs x h m =
    (abort-at_start e (apply_all cs x) h ∙ apply_all-at_start cs x ∙ ground arith, ground arith)

-- A commit that throws nothing keeps the set that the changes have made, if DuckDB runs.
pub pre_commit-apply_all :
    (e : Env) (cs : List Change) (x : Xact)
    → e.initialized ≡ true
    → (xact_callback e pre_commit (apply_all cs x)).1 ≡ none
    → ((xact_callback e pre_commit (apply_all cs x)).0.temporary ≡ (apply_all cs x).temporary)
      × ((xact_callback e pre_commit (apply_all cs x)).0.modified_temporary ≡ false)
unfolding xact_callback did_disallowed_mixed_writes
pre_commit-apply_all e cs x h ok = ground arith

contains-erase :
    (o p : ℕ) (ps : List ℕ) → contains p (erase o ps) ≡ (if o == p then false else contains p ps)
contains-erase o p [] = ground arith
contains-erase o p (q ∷ ps) = ground (arith, contains-erase o p ps)

-- Registering and unregistering a table decide of that table alone.
pub is_duckdb_temp_table_lem :
    (o p : ℕ) (x : Xact)
    → (is_duckdb_temp_table p (register_temp_table o x)
        ≡ (if o == p then true else is_duckdb_temp_table p x))
      × (is_duckdb_temp_table p (unregister_temp_table o x)
          ≡ (if o == p then false else is_duckdb_temp_table p x))
unfolding is_duckdb_temp_table register_temp_table unregister_temp_table
is_duckdb_temp_table_lem o p x = (ground arith, ground (arith, contains-erase o p x.temporary))
