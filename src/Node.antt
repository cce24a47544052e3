-- ===== src/Node.antt =====
-- The custom scan node, src/pgduckdb_node.cpp. A DuckDB result is the list of chunks that its Fetch
-- has yet to return, a chunk is a list of rows, and a value that is NULL is `none`. What DuckDB does
-- with a prepared query is a parameter.
use Prim.Native.String.{String}
use mathlib.Core.Logic.{ite}
use pg_duckdb.Common.{
  ℕ, zero, suc, ◌+◌, ◌-◌, ◌*◌, Bool, true, false, not, ◌&&◌, Option, none, some, List, [], ◌∷◌,
  ◌++◌, ◌==◌, leb, if◌then◌else◌, replicate, length, get_elem?, ◌>>=◌, ℕ_discrete,
}
use pg_duckdb.Types.{Oid, LogicalType}
use pg_duckdb.Types.Oids.{get_postgres_type}
use pg_duckdb.Hooks.{Columns, TargetEntry}
pub mod Rows
pub mod Begin

-- The static variables that DuckdbExplainOneQueryHook sets; `json` is NEED_JSON_PLAN of the format.
pub record Explain : Type 0 where
  pub analyze : Bool
  pub ctas : Bool
  pub json : Bool

-- The prefix of the query's text, in the pieces that are appended to it; `none` where EXPLAIN ANALYZE
-- of CREATE TABLE ... AS throws.
unfoldable pub explain_prefix : Bool → Explain → Option (List String)
explain_prefix is_explain_query e =
    let json_end : List String = if e.json then "FORMAT JSON )" ∷ [] else [] in
    let analyze : List String =
      if e.analyze then (if e.json then "ANALYZE, " else "ANALYZE ") ∷ json_end else json_end in
    if not is_explain_query
    then some []
    else if e.analyze && e.ctas
    then none
    else some ("EXPLAIN " ∷ (if e.json then "(" ∷ analyze else analyze))

pub data BeginError : Type 0 where
  replanning_failed column_count_changed type_changed unconvertible_type : BeginError

pub Oid-discrete : Discrete Oid
Oid-discrete = hlevel (ℕ_discrete)

abbrev pub check_type : TargetEntry → Option Oid → Option BeginError → Option BeginError
check_type t none rest = some unconvertible_type
check_type t (some oid) rest = ite (Oid-discrete t.vartype oid) rest (some type_changed)

-- The loop over the result types beside the target list of the plan.
unfoldable pub check_types : Columns → List TargetEntry → Option BeginError
check_types [] ts = none
check_types (c ∷ cs) [] = some column_count_changed
check_types (c ∷ cs) (t ∷ ts) = check_type t (get_postgres_type c.1) (check_types cs ts)

-- The checks of Duckdb_BeginCustomScan_Cpp on what the query prepares to now; `none` is an error of
-- DuckDB.
unfoldable pub check_replanned : Bool → Option Columns → List TargetEntry → Option BeginError
unfolding check_types
check_replanned is_explain_query none ts = some replanning_failed
check_replanned is_explain_query (some cs) ts =
    if is_explain_query
    then none
    else if not (length cs == length ts)
    then some column_count_changed
    else check_types cs ts

-- A parameter of Postgres: its NULL flag, its type and its value.
pub record ParamExternData : Type 0 where
  pub isnull : Bool
  pub ptype : ℕ
  pub value : ℕ

-- What a parameter is bound to, by its number.
pub data Bound (V : Type 0) : Type 0 where
  null_value : ℕ → Bound V
  bound_value : ℕ → V → Bound V

-- The loop over the parameters from the one with index `i` on. `is_named` is named_param_map, and
-- `convert` is ConvertPostgresParameterToDuckValue; `none` where one of them throws.
unfoldable pub bind_parameters :
    {V : Type 0}
    → (ℕ → Bool)
    → (ℕ → ℕ → Option V)
    → ℕ
    → List ParamExternData
    → Option (List (Bound V))
bind_parameters is_named convert i [] = some []
bind_parameters is_named convert i (p ∷ ps) =
    let rest = bind_parameters is_named convert (i + 1) ps in
    if not (is_named (i + 1))
    then rest
    else if p.isnull
    then (do bs ← rest; some (null_value (i + 1) ∷ bs))
    else if p.ptype == 0
    then none
    else (do v ← convert p.value p.ptype; bs ← rest; some (bound_value (i + 1) v ∷ bs))

-- PendingExecutionResult
pub data TaskResult : Type 0 where
  ready finished not_ready no_tasks execution_error : TaskResult

pub data Ended : Type 0 where
  with_result with_error cancelled unfinished : Ended

abbrev pub ended_by : TaskResult → Ended
ended_by execution_error = with_error
ended_by _ = with_result

-- The loop over the tasks: each result comes with QueryCancelPending at that moment. `is_ready` is
-- IsResultReady of DuckDB.
unfoldable pub run_tasks : (TaskResult → Bool) → List (TaskResult × Bool) → Ended
run_tasks is_ready [] = unfinished
run_tasks is_ready ((result, cancel_pending) ∷ tasks) =
    let rest = run_tasks is_ready tasks in
    if is_ready result then ended_by result else if cancel_pending then cancelled else rest

-- DuckdbScanState: the result, and the chunk that is being read. `prepared` says whether the prepared
-- statement is there.
pub record ScanState (V : Type 0) : Type 0 where
  pub prepared : Bool
  pub is_executed : Bool
  pub fetch_next : Bool
  pub query_results : Option (List (List (List (Option V))))
  pub current_data_chunk : Option (List (List (Option V)))
  pub current_row : ℕ

-- What one call of Duckdb_ExecCustomScan returns. `past_end` is a read of a result or a chunk
-- that is not there, or of a row that the chunk does not have.
pub data Fetched (D : Type 0) : Type 0 where
  tuple : List (Option D) → Fetched D
  empty_slot thrown past_end : Fetched D

-- The end of Duckdb_BeginCustomScan_Cpp
abbrev pub begun : (V : Type 0) → ScanState V
begun V = record {
  prepared = true;
  is_executed = false;
  fetch_next = true;
  query_results = none;
  current_data_chunk = none;
  current_row = 0;
}

-- CleanupDuckdbScanState
unfoldable pub cleanup : {V : Type 0} → ScanState V → ScanState V
cleanup s = record s { query_results = none; current_data_chunk = none; prepared = false }

-- `convert` is ConvertDuckToPostgresValue for a column's index; `none` is a conversion that fails.
module _ {V D : Type 0} (convert : ℕ → V → Option D) where
  -- The loop over the columns of a row, from the column `col` on.
  unfoldable pub convert_row : ℕ → List (Option V) → Option (List (Option D))
  convert_row col [] = some []
  convert_row col (none ∷ vs) = do ds ← convert_row (col + 1) vs; some (none ∷ ds)
  convert_row col (some v ∷ vs) = do
    d ← convert col v
    ds ← convert_row (col + 1) vs
    some (some d ∷ ds)

  abbrev pub advance : ScanState V → List (List (Option V)) → ScanState V
  advance s chunk =
      let t : ScanState V = record s { current_row = s.current_row + 1 } in
      if leb (length chunk) (s.current_row + 1)
      then record t { current_data_chunk = none; fetch_next = true }
      else t

  abbrev pub store : ScanState V → ScanState V → Option (List (Option D)) → ScanState V × Fetched D
  store s t none = (cleanup s, thrown)
  store s t (some ds) = (t, tuple ds)

  abbrev pub read_row :
      ScanState V → List (List (Option V)) → Option (List (Option V)) → ScanState V × Fetched D
  read_row s chunk none = (s, past_end)
  read_row s chunk (some vs) = store s (advance s chunk) (convert_row 0 vs)

  -- The row of the chunk that is being read.
  unfoldable pub read_chunk :
      ScanState V → Option (List (List (Option V))) → ScanState V × Fetched D
  unfolding convert_row cleanup
  read_chunk s none = (s, past_end)
  read_chunk s (some chunk) = read_row s chunk (get_elem? chunk s.current_row)

  -- Fetch: the next chunk, or a null pointer.
  abbrev pub fetch : ScanState V → List (List (List (Option V))) → ScanState V
  fetch s [] = record s { current_data_chunk = none; current_row = 0; fetch_next = false }
  fetch s (chunk ∷ chunks) = record s {
    query_results = some chunks;
    current_data_chunk = some chunk;
    current_row = 0;
    fetch_next = false;
  }

  abbrev pub is_empty : Option (List (List (Option V))) → Bool
  is_empty none = true
  is_empty (some []) = true
  is_empty (some (row ∷ rows)) = false

  -- The call that fetches; a result that the cleanup has dropped cannot be fetched from.
  abbrev pub exec_fetch :
      ScanState V → Option (List (List (List (Option V)))) → ScanState V × Fetched D
  exec_fetch s none = (s, past_end)
  exec_fetch s (some chunks) =
      let t = fetch s chunks in
      if is_empty t.current_data_chunk then (t, empty_slot) else read_chunk t t.current_data_chunk

  -- Duckdb_ExecCustomScan_Cpp once the query is executed.
  unfoldable pub exec_executed : ScanState V → ScanState V × Fetched D
  exec_executed s =
      if s.fetch_next then exec_fetch s s.query_results else read_chunk s s.current_data_chunk

  abbrev pub exec_query :
      ScanState V → Option (List (List (List (Option V)))) → ScanState V × Fetched D
  exec_query s none = (cleanup s, thrown)
  exec_query s (some chunks) =
      exec_executed (record s { query_results = some chunks; is_executed = true })

  -- Duckdb_ExecCustomScan_Cpp. `result` is what ExecuteQuery leaves, or `none` if it throws.
  unfoldable pub exec_custom_scan :
      Bool → Option (List (List (List (Option V)))) → ScanState V → ScanState V × Fetched D
  exec_custom_scan is_explain_query result s =
      if is_explain_query
      then (s, empty_slot)
      else if s.is_executed
      then exec_executed s
      else exec_query s result

-- Duckdb_EndCustomScan_Cpp without assertions: the cleanup, and QueryCancelHoldoffCount.
unfoldable pub end_custom_scan : {V : Type 0} → ScanState V → ℕ → ScanState V × ℕ
unfolding cleanup
end_custom_scan s holdoff = (cleanup s, holdoff - 1)

-- formatDuckDbPlanForPG: each line break is followed by the indentation.
abbrev pub newline : ℕ
newline = 10

abbrev pub space : ℕ
space = 32

unfoldable pub format_plan : ℕ → List ℕ → List ℕ
format_plan indent [] = []
format_plan indent (c ∷ cs) =
    let rest = format_plan indent cs in
    if c == newline then c ∷ (replicate (indent * 2) space ++ rest) else c ∷ rest
