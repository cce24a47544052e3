-- ===== src/Hooks.antt =====
-- The planner hook of src/pgduckdb_hooks.cpp with the planning of src/pgduckdb_planner.cpp, from the
-- metadata cache to the plan. Postgres, its catalog, the settings and DuckDB's answer to a prepared
-- query are the fields of one record.
use Prim.Native.String.{String}
use pg_duckdb.Common.{
  ℕ, zero, suc, ◌-◌, Bool, true, false, not, ◌&&◌, ◌||◌, Option, none, some, List, [], ◌∷◌, ltb,
  if◌then◌else◌,
}
use pg_duckdb.Common.Int.{ℤ}
use pg_duckdb.Metadata
use pg_duckdb.Xact
use pg_duckdb.Xact.{
  Xact, DdlType, no_ddl, create_table, alter_table, refresh_materialized_view, rename_view,
}
use pg_duckdb.Types.{Oid, LogicalType, invalid}
use pg_duckdb.Types.Oids.{get_postgres_type, get_postgres_typemod}
use pg_duckdb.Worker.Hints.{Shared, trigger_activity}
use pg_duckdb.Query.{
  Query, Rtes, CommandType, select, insert, update, delete, other_command, Relations, info, rtable,
  no_rtes, subquery, entry, invalid_oid, is_duckdb_table, contains_catalog_table,
  contains_duckdb_items, views_refused,
}
pub mod Planned
pub mod Executor

pub data Error : Type 0 where
  modifying_cte postgres_modification mixed_writes inside_function catalog_tables : Error
  metadata_lookup view_not_permitted prepare_failed unsupported_type unknown_type : Error
  refused : Xact.Error → Error

-- A prepared query's result columns: DuckDB's names and types.
abbrev pub Columns : Type 0
Columns = List (String × LogicalType)

pub record Env : Type 0 where
  pub catalog : Metadata.Catalog
  pub session : Metadata.Session
  pub xact : Xact.Env
  pub has_duckdb_am : ℕ → Bool
  pub relkind_of : ℕ → ℕ
  pub namespace_of : ℕ → ℕ
  pub force_execution : Bool
  pub allow_execution_inside_functions : Bool
  pub is_background_worker : Bool
  pub motherduck_enabled : Bool
  -- what DuckDB prepares of the query's text; `none` where it has an error
  pub prepare : Query → Option Columns
  -- whether the syscache has the type; `none` where the OID is invalid, as the cached one of a struct, a
  -- union or a map is where the installed version of the extension has no such type
  pub type_known : Oid → Option Bool

-- What the hook changes.
pub record State : Type 0 where
  pub metadata : Metadata.Cache
  pub xact : Xact
  pub shared : Shared

abbrev pub relations_in : Env → State → Relations
relations_in e s = record {
  has_duckdb_am = e.has_duckdb_am;
  relkind_of = e.relkind_of;
  namespace_of = e.namespace_of;
  is_duckdb_only_function = λ o. Metadata.is_duckdb_only_function o s.metadata;
}

abbrev pub is_select : CommandType → Bool
is_select select = true
is_select _ = false

abbrev pub is_empty : Rtes → Bool
is_empty no_rtes = true
is_empty _ = false

-- The relid of the entry at a place in the range table; the rewriter gives no place past its end.
unfoldable pub nth_relid : ℕ → Rtes → ℕ
nth_relid n no_rtes = invalid_oid
nth_relid zero (subquery r q rs) = r.relid
nth_relid zero (entry r ns rs) = r.relid
nth_relid (suc n) (subquery r q rs) = nth_relid n rs
nth_relid (suc n) (entry r ns rs) = nth_relid n rs

-- IsAllowedStatement: the first error, which is thrown if throw_error is set.
unfoldable pub is_allowed_statement : Env → State → Query → Option Error
is_allowed_statement e s q =
    let result_relid = nth_relid ((info q).result_relation - 1) (rtable q) in
    if (info q).has_modifying_cte
    then some modifying_cte
    else if not (is_select (info q).command_type)
        && not (is_empty (rtable q))
        && not (is_duckdb_table (relations_in e s) result_relid)
    then some postgres_modification
    else if not (is_select (info q).command_type) && Xact.did_disallowed_mixed_writes e.xact s.xact
    then some mixed_writes
    else if ltb 0 s.xact.executor_nest_level && not e.allow_execution_inside_functions
    then some inside_function
    else if contains_catalog_table (relations_in e s) (rtable q)
    then some catalog_tables
    else none

abbrev pub is_refresh : DdlType → Bool
is_refresh refresh_materialized_view = true
is_refresh _ = false

abbrev pub is_allowed : Option Error → Bool
is_allowed none = true
is_allowed (some error) = false

unfoldable pub should_try_to_use_duckdb_execution : Env → State → Query → Bool
should_try_to_use_duckdb_execution e s q =
    if is_refresh s.xact.top_level_ddl_type
    then false
    else if e.is_background_worker
    then false
    else e.force_execution && is_allowed (is_allowed_statement e s q) && not (is_empty (rtable q))

-- An entry of the target list: the Var's type and typmod, and the column's name.
pub record TargetEntry : Type 0 where
  pub resname : String
  pub vartype : Oid
  pub vartypmod : ℤ

-- A plan of ours, one under a Material node, and any other.
pub data Plan : Type 0 where
  custom_scan : List TargetEntry → Query → Plan
  material : Plan → Plan
  other_plan : Plan

-- What one step of planning gives: `declined` is a null pointer.
pub data Attempt {ℓ} (A : Type ℓ) : Type ℓ where
  planned : A → Attempt A
  declined : Attempt A
  raised : Error → Attempt A

-- elog at the level that `throw_error` sets, and a null pointer below ERROR
abbrev pub fail {ℓ} : {A : Type ℓ} → Bool → Error → Attempt A
fail throw_error error = if throw_error then raised error else declined

abbrev pub then_column : TargetEntry → Attempt (List TargetEntry) → Attempt (List TargetEntry)
then_column t (planned ts) = planned (t ∷ ts)
then_column t declined = declined
then_column t (raised error) = raised error

-- GetPostgresDuckDBType without a result: a type that stands for an unsupported one of Postgres
-- throws at any level.
abbrev pub stands_for_unsupported : LogicalType → Bool
stands_for_unsupported (invalid text) = true
stands_for_unsupported _ = false

abbrev pub no_type {ℓ} : {A : Type ℓ} → Bool → LogicalType → Attempt A
no_type throw_error type =
    if stands_for_unsupported type
    then raised unsupported_type
    else fail throw_error unsupported_type

-- One column, with the Postgres type that it maps to, in front of the later ones. An invalid OID gives
-- a null pointer, whether errors are thrown or not.
unfoldable pub add_column :
    (Oid → Option Bool)
    → Bool
    → String × LogicalType
    → Option Oid
    → Attempt (List TargetEntry)
    → Attempt (List TargetEntry)
add_column type_known throw_error (name, type) none rest = no_type throw_error type
add_column type_known throw_error (name, type) (some oid) rest = elim (type_known oid) [
  | none ↦ declined
  | some known ↦
      if not known
      then fail throw_error unknown_type
      else then_column
          (record { resname = name; vartype = oid; vartypmod = get_postgres_typemod type }) rest
]

-- The loop over the result types, from its first type on.
unfoldable pub target_list : (Oid → Option Bool) → Bool → Columns → Attempt (List TargetEntry)
unfolding add_column
target_list type_known throw_error [] = planned []
target_list type_known throw_error (column ∷ columns) =
    add_column type_known throw_error column (get_postgres_type column.1)
      (target_list type_known throw_error columns)

abbrev pub as_scan : Query → Attempt (List TargetEntry) → Attempt Plan
as_scan q (planned ts) = planned (custom_scan ts q)
as_scan q declined = declined
as_scan q (raised error) = raised error

abbrev pub plan_columns : Env → Query → Bool → Option Columns → Attempt Plan
plan_columns e q throw_error none = fail throw_error prepare_failed
plan_columns e q throw_error (some columns) =
    as_scan q (target_list e.type_known throw_error columns)

abbrev pub plan_connected : Env → Query → Bool → Xact × Option Xact.Error → Xact × Attempt Plan
plan_connected e q throw_error (x, some error) = (x, raised (refused error))
plan_connected e q throw_error (x, none) = (x, plan_columns e q throw_error (e.prepare q))

-- CreatePlan, with the connection that DuckdbPrepare gets
unfoldable pub create_plan : Env → Xact → Query → Bool → Xact × Attempt Plan
create_plan e x q throw_error = plan_connected e q throw_error (Xact.get_connection e.xact false x)

-- A PlannedStmt, as far as the hooks read it.
pub record PlannedStmt : Type 0 where
  pub command_type : CommandType
  pub has_returning : Bool
  pub has_modifying_cte : Bool
  pub plan_tree : Plan

abbrev pub finish_plan : Query → Bool → Attempt Plan → Attempt PlannedStmt
finish_plan q scroll (planned p) = planned (record {
  command_type = (info q).command_type;
  has_returning = (info q).has_returning;
  has_modifying_cte = (info q).has_modifying_cte;
  plan_tree = if scroll then material p else p;
})
finish_plan q scroll declined = declined
finish_plan q scroll (raised error) = raised error

-- DuckdbPlanNode; `scroll` is CURSOR_OPT_SCROLL of the cursor options.
unfoldable pub duckdb_plan_node : Env → Xact → Query → Bool → Bool → Xact × Attempt PlannedStmt
unfolding create_plan
duckdb_plan_node e x q scroll throw_error =
    let (y, plan) = create_plan e x q throw_error in
    if views_refused q then (x, raised view_not_permitted) else (y, finish_plan q scroll plan)

unfoldable pub mark_statement_not_top_level : Xact → Xact
mark_statement_not_top_level x = record x { top_level_statement = false }

-- What the hook returns: a plan, a null pointer, or what the planner hook before it does.
pub data Outcome : Type 0 where
  by_duckdb : PlannedStmt → Outcome
  no_plan by_postgres : Outcome
  error : Error → Outcome

abbrev pub to_postgres : State → State × Outcome
to_postgres s = (record s { xact = mark_statement_not_top_level s.xact }, by_postgres)

-- The test on the writes before a query is left to Postgres.
unfoldable pub check_writes : Env → Query → State → State × Outcome
check_writes e q s =
    if not (is_select (info q).command_type) && not (Xact.allow_writes e.xact s.xact)
    then (s, error mixed_writes)
    else to_postgres s

abbrev pub activity : Env → State → State
activity e s = record s { shared = trigger_activity e.motherduck_enabled s.shared }

abbrev pub after_needed : State → Xact × Attempt PlannedStmt → State × Outcome
after_needed s (x, planned p) = (record s { xact = x }, by_duckdb p)
after_needed s (x, declined) = (record s { xact = x }, no_plan)
after_needed s (x, raised err) = (record s { xact = x }, error err)

abbrev pub after_tried : Env → Query → State → Xact × Attempt PlannedStmt → State × Outcome
after_tried e q s (x, planned p) = (record s { xact = x }, by_duckdb p)
after_tried e q s (x, declined) = check_writes e q (record s { xact = x })
after_tried e q s (x, raised err) = (record s { xact = x }, error err)

abbrev pub plan_needed : Env → Query → Bool → State → Option Error → State × Outcome
plan_needed e q scroll s (some err) = (s, error err)
plan_needed e q scroll s none = after_needed s (duckdb_plan_node e s.xact q scroll true)

unfoldable pub plan_registered : Env → Query → Bool → State → State × Outcome
plan_registered e q scroll s =
    if contains_duckdb_items (relations_in e s) q
    then plan_needed e q scroll (activity e s) (is_allowed_statement e s q)
    else if should_try_to_use_duckdb_execution e s q
    then after_tried e q (activity e s) (duckdb_plan_node e s.xact q scroll false)
    else check_writes e q s

abbrev pub plan_answered : Env → Query → Bool → State → Option Bool → State × Outcome
plan_answered e q scroll s none = (s, error metadata_lookup)
plan_answered e q scroll s (some true) = plan_registered e q scroll s
plan_answered e q scroll s (some false) = to_postgres s

-- DuckdbPlannerHook_Cpp
unfoldable pub planner_hook : Env → Query → Bool → State → State × Outcome
planner_hook e q scroll s =
    let (metadata, answer) = Metadata.is_extension_registered e.catalog e.session s.metadata in
    plan_answered e q scroll (record s { metadata = metadata }) answer
