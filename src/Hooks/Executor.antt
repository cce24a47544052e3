-- ===== src/Hooks/Executor.antt =====
-- The executor hooks of src/pgduckdb_hooks.cpp, with AutocommitSingleStatementQueries of
-- src/pgduckdb_xact.cpp. The hooks that Postgres had before are functions on the state.
use pg_duckdb.Common.{
  ℕ, ◌+◌, ◌-◌, ◌≡◌, ◌≢◌, refl, ap, sym, ◌∙◌, Bool, true, false, not, Option, none, some,
  if◌then◌else◌, arith,
}
use pg_duckdb.Metadata
use pg_duckdb.Xact
use pg_duckdb.Xact.{Xact, claim_current_command_id}
use pg_duckdb.Query.{Query, CommandType}
use pg_duckdb.Hooks.{
  Env, State, Error, metadata_lookup, refused, Plan, custom_scan, material, other_plan, is_select,
  mark_statement_not_top_level, is_allowed_statement,
}

abbrev is_custom_scan : Plan → Bool
is_custom_scan (custom_scan ts q) = true
is_custom_scan _ = false

-- IsDuckdbPlan; `none` is a statement without a plan tree.
unfoldable pub is_duckdb_plan : Option Plan → Bool
is_duckdb_plan none = false
is_duckdb_plan (some (custom_scan ts q)) = true
is_duckdb_plan (some (material p)) = is_custom_scan p
is_duckdb_plan (some other_plan) = false

-- A query that is being executed. `immediate` is the flag that PreventInTransactionBlock sets outside
-- of a transaction block.
pub record Execution : Type 0 where
  pub state : State
  pub immediate : Bool

pub record QueryDesc : Type 0 where
  pub plan_tree : Option Plan
  pub operation : CommandType

unfoldable pub autocommit_single_statement_queries : Env → Execution → Execution
autocommit_single_statement_queries e s =
    if e.xact.in_transaction_block s.state.xact.top_level_statement
    then s
    else record s { immediate = true }

abbrev pub set_xact : Execution → Xact → Execution
set_xact s x = record s { state = record s.state { xact = x } }

-- The state, and the error if one is raised.
abbrev pub claimed : Execution → Xact × Option Xact.Error → Execution × Option Error
claimed s (x, none) = (set_xact s x, none)
claimed s (x, some err) = (set_xact s x, some (refused err))

-- DuckdbExecutorStartHook_Cpp
unfoldable pub started : Env → QueryDesc → Execution → Execution × Option Error
started e d s =
    let t = autocommit_single_statement_queries e s in
    if not (is_duckdb_plan d.plan_tree)
    then (set_xact s (mark_statement_not_top_level s.state.xact), none)
    else if is_select d.operation
    then (t, none)
    else claimed t (claim_current_command_id e.xact false t.state.xact)

abbrev pub with_metadata : Execution → Metadata.Cache → Execution
with_metadata s m = record s { state = record s.state { metadata = m } }

abbrev pub deeper : Execution → Execution
deeper s =
    set_xact s (record s.state.xact { executor_nest_level = s.state.xact.executor_nest_level + 1 })

abbrev pub shallower : Execution → Execution
shallower s =
    set_xact s (record s.state.xact { executor_nest_level = s.state.xact.executor_nest_level - 1 })

abbrev pub start_answered :
    Env → (Execution → Execution) → QueryDesc → Execution → Option Bool → Execution × Option Error
start_answered e prev d s none = (s, some metadata_lookup)
start_answered e prev d s (some true) = started e d (prev s)
start_answered e prev d s (some false) =
    (prev (set_xact s (mark_statement_not_top_level s.state.xact)), none)

-- DuckdbExecutorStartHook
unfoldable pub executor_start :
    Env → (Execution → Execution) → QueryDesc → Execution → Execution × Option Error
executor_start e prev d s =
    let t = deeper s in
    let (m, answer) = Metadata.is_extension_registered e.catalog e.session t.state.metadata in
    start_answered e prev d (with_metadata t m) answer

-- DuckdbExecutorFinishHook_Cpp
unfoldable pub finished : Env → QueryDesc → Execution → Execution × Option Error
finished e d s =
    if not (is_duckdb_plan d.plan_tree)
    then (s, none)
    else if not s.state.xact.duckdb_did_writes
    then (s, none)
    else claimed s (claim_current_command_id e.xact false s.state.xact)

abbrev pub finish_answered :
    Env → (Execution → Execution) → QueryDesc → Execution → Option Bool → Execution × Option Error
finish_answered e prev d s none = (s, some metadata_lookup)
finish_answered e prev d s (some true) = finished e d (prev s)
finish_answered e prev d s (some false) = (prev s, none)

-- DuckdbExecutorFinishHook; the nest level is not 0.
unfoldable pub executor_finish :
    Env → (Execution → Execution) → QueryDesc → Execution → Execution × Option Error
executor_finish e prev d s =
    let t = shallower s in
    let (m, answer) = Metadata.is_extension_registered e.catalog e.session t.state.metadata in
    finish_answered e prev d (with_metadata t m) answer

-- The hooks before ours leave the nest level as it is.
pub record KeepsLevel (prev : Execution → Execution) : Type 0 where
  pub keeps :
      (s : Execution) → (prev s).state.xact.executor_nest_level ≡ s.state.xact.executor_nest_level

-- An execution from its start to its finish, with the executions that it nests, none of which raises
-- an error.
pub data Runs (e : Env) (prev : Execution → Execution) : Execution → Execution → Type 0 where
  idle : {s : Execution} → Runs e prev s s
  execute :
      {s t u v w : Execution} (d : QueryDesc)
      → executor_start e prev d s ≡ (t, none)
      → Runs e prev t u
      → executor_finish e prev d u ≡ (v, none)
      → Runs e prev v w
      → Runs e prev s w

claim-level :
    (e : Xact.Env) (x : Xact)
    → (claim_current_command_id e false x).0.executor_nest_level ≡ x.executor_nest_level
unfolding claim_current_command_id
claim-level e x = ground arith

claimed-level :
    (s : Execution) (r : Xact × Option Xact.Error)
    → (claimed s r).0.state.xact.executor_nest_level ≡ r.0.executor_nest_level
claimed-level s (x, none) = refl
claimed-level s (x, some err) = refl

abbrev level : Execution → ℕ
level s = s.state.xact.executor_nest_level

claim_current-level :
    (e : Env) (s : Execution)
    → level (claimed s (claim_current_command_id e.xact false s.state.xact)).0 ≡ level s
claim_current-level e s = claimed-level s _ ∙ claim-level e.xact s.state.xact

autocommit-level :
    (e : Env) (s : Execution) → level (autocommit_single_statement_queries e s) ≡ level s
unfolding autocommit_single_statement_queries
autocommit-level e s = ground arith

started-level : (e : Env) (d : QueryDesc) (s : Execution) → level (started e d s).0 ≡ level s
unfolding started mark_statement_not_top_level
started-level e d s =
    let t = autocommit_single_statement_queries e s in
    grind (arith, claim_current-level e t, autocommit-level e s)

finished-level : (e : Env) (d : QueryDesc) (s : Execution) → level (finished e d s).0 ≡ level s
unfolding finished
finished-level e d s = grind (arith, claim_current-level e s)

start_answered-level :
    (e : Env) (prev : Execution → Execution) (d : QueryDesc) (s : Execution) (a : Option Bool)
    → KeepsLevel prev
    → level (start_answered e prev d s a).0 ≡ level s
unfolding mark_statement_not_top_level
start_answered-level e prev d s none k = refl
start_answered-level e prev d s (some true) k = started-level e d (prev s) ∙ k.keeps s
start_answered-level e prev d s (some false) k = k.keeps _

finish_answered-level :
    (e : Env) (prev : Execution → Execution) (d : QueryDesc) (s : Execution) (a : Option Bool)
    → KeepsLevel prev
    → level (finish_answered e prev d s a).0 ≡ level s
finish_answered-level e prev d s none k = refl
finish_answered-level e prev d s (some true) k = finished-level e d (prev s) ∙ k.keeps s
finish_answered-level e prev d s (some false) k = k.keeps _

executor_start-level :
    (e : Env) (prev : Execution → Execution) (d : QueryDesc) (s : Execution)
    → KeepsLevel prev
    → level (executor_start e prev d s).0 ≡ level s + 1
unfolding executor_start
executor_start-level e prev d s k = start_answered-level e prev d _ _ k

executor_finish-level :
    (e : Env) (prev : Execution → Execution) (d : QueryDesc) (s : Execution)
    → KeepsLevel prev
    → level (executor_finish e prev d s).0 ≡ level s - 1
unfolding executor_finish
executor_finish-level e prev d s k = finish_answered-level e prev d _ _ k

started_at :
    (e : Env) (prev : Execution → Execution) (d : QueryDesc) (s t : Execution)
    → KeepsLevel prev
    → executor_start e prev d s ≡ (t, none)
    → level t ≡ level s + 1
started_at e prev d s t k starts =
    ap (λ r. level r.0) (sym starts) ∙ executor_start-level e prev d s k

finished_at :
    (e : Env) (prev : Execution → Execution) (d : QueryDesc) (s t : Execution)
    → KeepsLevel prev
    → executor_finish e prev d s ≡ (t, none)
    → level t ≡ level s - 1
finished_at e prev d s t k finishes =
    ap (λ r. level r.0) (sym finishes) ∙ executor_finish-level e prev d s k

-- Executions that raise no error, however they nest, leave the nest level where it was, as long as the
-- hooks that were there before do.
pub Runs-level :
    (e : Env) (prev : Execution → Execution) (s t : Execution)
    → KeepsLevel prev
    → Runs e prev s t
    → t.state.xact.executor_nest_level ≡ s.state.xact.executor_nest_level
Runs-level e prev s w k idle = refl
Runs-level e prev s w k (execute {t = t} {u = u} {v = v} d starts inner finishes rest) =
    let up = started_at e prev d s t k starts in
    let within = Runs-level e prev t u k inner in
    let down = finished_at e prev d u v k finishes in
    let after = Runs-level e prev v w k rest in omega arith

allowed-level :
    (e : Env) (s : State) (q : Query)
    → e.allow_execution_inside_functions ≡ false
    → is_allowed_statement e s q ≡ none
    → s.xact.executor_nest_level ≡ 0
unfolding is_allowed_statement
allowed-level e s q h k = ground arith

-- From the end of the start hook of a query to its finish hook, which lowers the nest level before
-- anything else, and after any executions that it nests and that raise no error, no statement is allowed
-- for DuckDB, unless execution inside functions has been allowed and as long as the hooks that were
-- there before leave the nest level as it is. What the finish hook runs, such as AFTER triggers, is not
-- included.
pub started-not_allowed :
    (e : Env) (prev : Execution → Execution) (d : QueryDesc) (s t u : Execution) (q : Query)
    → KeepsLevel prev
    → e.allow_execution_inside_functions ≡ false
    → executor_start e prev d s ≡ (t, none)
    → Runs e prev t u
    → is_allowed_statement e u.state q ≢ none
started-not_allowed e prev d s t u q k h starts inner a =
    let up = started_at e prev d s t k starts in
    let within = Runs-level e prev t u k inner in
    let bottom = allowed-level e u.state q h a in absurd (omega arith)
