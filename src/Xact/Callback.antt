-- ===== src/Xact/Callback.antt =====
-- The end of a transaction: what the callback leaves behind.
use pg_duckdb.Common.{◌≡◌, ◌≢◌, ◌↔◌, ◌⊎◌, true, false, none, some, arith}
use pg_duckdb.Xact.{
  Xact, Env, XactEvent, pre_commit, abort, parallel_abort, prepare, no_ddl, first_command_id,
  mixed_writes, xact_callback, did_disallowed_mixed_writes, prepared_transaction,
}

-- The fields that belong to one transaction, as they are when the next one begins.
pub record IsReset (x : Xact) : Type 0 where
  pub expects_first : x.next_expected_command_id ≡ first_command_id
  pub unforced : x.force_allow_writes ≡ false
  pub unmodified : x.modified_temporary ≡ false
  pub at_top : x.top_level_statement ≡ true
  pub outside_executor : x.executor_nest_level ≡ 0
  pub no_ddl_type : x.top_level_ddl_type ≡ no_ddl
  pub inactive : x.active_transaction ≡ false

-- An abort, parallel or not, always succeeds and leaves nothing of the transaction behind, if DuckDB
-- runs.
pub abort-IsReset :
    (e : Env) (event : XactEvent) (x : Xact)
    → e.initialized ≡ true
    → (event ≡ abort) ⊎ (event ≡ parallel_abort)
    → ((xact_callback e event x).1 ≡ none) × IsReset (xact_callback e event x).0
unfolding xact_callback
abort-IsReset e event x h k = ground arith

-- A commit that is not refused for mixed writes leaves nothing of the transaction behind either, even
-- where the commit of DuckDB fails, if DuckDB runs.
pub pre_commit-IsReset :
    (e : Env) (x : Xact)
    → e.initialized ≡ true
    → (xact_callback e pre_commit x).1 ≢ some mixed_writes
    → IsReset (xact_callback e pre_commit x).0
unfolding xact_callback did_disallowed_mixed_writes
pre_commit-IsReset e x h k = ground arith

-- A PREPARE throws for its transaction exactly when a DuckDB transaction is open.
pub prepare_lem :
    (e : Env) (x : Xact)
    → e.initialized ≡ true
    → ((xact_callback e prepare x).1 ≡ some prepared_transaction) ↔ (x.active_transaction ≡ true)
unfolding xact_callback
prepare_lem e x h = (λ p. ground arith, λ p. ground arith)
