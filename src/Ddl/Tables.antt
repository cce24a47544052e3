-- ===== src/Ddl/Tables.antt =====
-- What the utility hook does before CREATE TABLE and CREATE TABLE AS: the first two cases of
-- `DuckdbHandleDDLPre`, with `WrapQueryInDuckdbQueryCall` and `EntrenchColumnsFromCall`.
use pg_duckdb.Common.{
  Bool, true, false, not, ◌||◌, Option, none, some, List, [], ◌∷◌, ◌++◌, map, if◌then◌else◌,
}
use pg_duckdb.Xact.{Xact, create_table}
use pg_duckdb.Query.{Query, contains_duckdb_items}
use pg_duckdb.Hooks
use pg_duckdb.Hooks.{
  TargetEntry, PlannedStmt, Plan, custom_scan, material, other_plan, Attempt, planned, declined,
  raised, relations_in, is_allowed_statement, should_try_to_use_duckdb_execution, duckdb_plan_node,
}
use pg_duckdb.Worker.Sync.{Text}
use pg_duckdb.Worker.Sync.Loop.{eq_text}
use pg_duckdb.Ruleutils.{is_duckdb_schema_name, duckdb_am}
use pg_duckdb.Ruleutils.Definitions.{RangeVar}
use pg_duckdb.Sql.{
  lit, separate, Result, ok, err, other_access_method, one_at_a_time, not_one_query, not_planned,
  not_planned_by_duckdb,
}
use pg_duckdb.Ddl.{
  Env, State, M, CreateStmt, CreateTableAsStmt, Statement, create_stmt, create_table_as_stmt, ◌>>=◌,
  ◌>>◌, pure, lift, modify, gets, refuse_if, when, set_ddl_type, with_xact, is_no_ddl, claim,
}

-- The access method that a table gets in its schema.
unfoldable pub schema_access_method : Env → RangeVar → Option Text → Result (Option Text)
schema_access_method e rv am =
    if not (is_duckdb_schema_name (e.creation_schema rv)) then ok am else elim am [
      | none ↦ ok (some duckdb_am)
      | some name ↦ if eq_text name duckdb_am then ok (some name) else err other_access_method
    ]

unfoldable pub is_duckdb_access_method : Env → Option Text → Bool
is_duckdb_access_method e none = eq_text e.default_table_access_method duckdb_am
is_duckdb_access_method e (some name) = eq_text name duckdb_am

-- The start of a DuckDB table, of which a statement has at most one.
unfoldable pub start_table : Env → M (Unit {0})
start_table e = do
  idle ← gets (λ s. is_no_ddl s.hooks.xact.top_level_ddl_type)
  refuse_if (not idle) one_at_a_time
  modify (set_ddl_type create_table)
  claim e false

-- IsA(parsetree, CreateStmt)
unfoldable pub handle_create : Env → CreateStmt → M (Statement × Bool)
unfolding schema_access_method is_duckdb_access_method start_table
handle_create e stmt = do
  am ← lift (schema_access_method e stmt.relation stmt.access_method)
  when (is_duckdb_access_method e am) (start_table e)
  pure (create_stmt (record stmt { access_method = am }), false)

abbrev plan_targets : Plan → List TargetEntry
plan_targets (custom_scan targets q) = targets
plan_targets (material p) = plan_targets p
plan_targets other_plan = []

abbrev entrenched_column : Env → TargetEntry → Text
entrenched_column e t =
    lit "r["
    ++ e.copy.quote_literal (lit t.resname)
    ++ lit "]::"
    ++ e.format_type e.types t
    ++ lit " AS "
    ++ e.copy.names.quote_identifier (lit t.resname)

abbrev entrenched_text : Env → List TargetEntry → Text → Text
entrenched_text e targets function_call =
    lit "SELECT "
    ++ separate (lit ", ") (map (entrenched_column e) targets)
    ++ lit " FROM "
    ++ function_call
    ++ lit " r"

abbrev entrenched : Env → Text → State → Xact × Attempt PlannedStmt → State × Result Text
entrenched e call s (x, planned p) =
    (with_xact x s, ok (entrenched_text e (plan_targets p.plan_tree) call))
entrenched e call s (x, declined) = (with_xact x s, err not_planned)
entrenched e call s (x, raised error) = (with_xact x s, err (not_planned_by_duckdb error))

abbrev allowed_to_entrench : Env → Query → Text → State → Option Hooks.Error → State × Result Text
allowed_to_entrench e q call s (some error) = (s, err (not_planned_by_duckdb error))
allowed_to_entrench e q call s none =
    entrenched e call s (duckdb_plan_node e.copy.hooks s.hooks.xact q false true)

-- EntrenchColumnsFromCall, which gives the text of the new query
unfoldable pub entrench_columns_from_call : Env → Query → Text → M Text
entrench_columns_from_call e q call s =
    allowed_to_entrench e q call s (is_allowed_statement e.copy.hooks s.hooks q)

-- WrapQueryInDuckdbQueryCall
unfoldable pub wrap_query_in_duckdb_query_call : Env → Query → M Query
wrap_query_in_duckdb_query_call e q = do
  let call = lit "duckdb.query(" ++ e.copy.quote_literal (e.copy.get_querydef q) ++ lit ")"
  text ← entrench_columns_from_call e q call
  pure (e.parse_analyze text)

unfoldable pub needs_planning : Env → Bool → Query → State → Bool
needs_planning e is_duckdb q s =
    is_duckdb
    || contains_duckdb_items (relations_in e.copy.hooks s.hooks) q
    || should_try_to_use_duckdb_execution e.copy.hooks s.hooks q

abbrev single : List Query → Result Query
single [] = err not_one_query
single (q ∷ []) = ok q
single (q ∷ r ∷ qs) = err not_one_query

-- A materialized view keeps the wrapped query too.
abbrev view_query_of : Option Query → Query → Option Query
view_query_of none q = none
view_query_of (some old) q = some q

unfoldable pub wrap_statement : Env → CreateTableAsStmt → M (Statement × Bool)
unfolding wrap_query_in_duckdb_query_call
wrap_statement e stmt = do
  q ← lift (single (e.query_rewrite stmt.query))
  wrapped ← wrap_query_in_duckdb_query_call e q
  pure (
    create_table_as_stmt
        (record stmt { query = wrapped; view_query = view_query_of stmt.view_query wrapped }),
    false,
  )

-- The query is planned here where Postgres does not plan it.
unfoldable pub plan_statement : Env → Bool → CreateTableAsStmt → M (Statement × Bool)
plan_statement e is_duckdb stmt s =
    let wrapped = wrap_statement e stmt s in
    let as_it_is : Statement × Bool = (create_table_as_stmt stmt, false) in
    if not (stmt.skip_data || (elim stmt.view_query [ none ↦ false | some q ↦ true ]))
    then (s, ok as_it_is)
    else if not (needs_planning e is_duckdb stmt.query s)
    then (s, ok as_it_is)
    else wrapped

abbrev skip_data_of : Bool → CreateTableAsStmt → CreateTableAsStmt
skip_data_of is_duckdb stmt = if is_duckdb then record stmt { skip_data = true } else stmt

-- IsA(parsetree, CreateTableAsStmt)
unfoldable pub handle_create_as : Env → CreateTableAsStmt → M (Statement × Bool)
unfolding schema_access_method is_duckdb_access_method start_table
handle_create_as e stmt = do
  am ← lift (schema_access_method e stmt.relation stmt.access_method)
  let is_duckdb = is_duckdb_access_method e am
  when is_duckdb (start_table e)
  when is_duckdb (modify (λ s. record s { skip_data = stmt.skip_data }))
  plan_statement e is_duckdb (skip_data_of is_duckdb (record stmt { access_method = am }))
