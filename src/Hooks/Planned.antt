-- ===== src/Hooks/Planned.antt =====
-- Which queries the planner hook gives to DuckDB, and which to Postgres.
use Prim.Native.String.{String}
use pg_duckdb.Common.{
  ◌≡◌, ◌≢◌, refl, ◌⊎◌, inl, inr, Bool, true, Option, none, some, List, [], ◌∷◌, arith,
}
use pg_duckdb.Metadata
use pg_duckdb.Xact.{Xact}
use pg_duckdb.Types.{LogicalType, Oid}
use pg_duckdb.Types.Oids.{get_postgres_type}
use pg_duckdb.Query.{Query, contains_duckdb_items}
use pg_duckdb.Hooks.{
  Env, State, Error, Columns, Attempt, planned, declined, raised, PlannedStmt, Outcome, by_duckdb,
  error, relations_in, target_list, create_plan, plan_columns, duckdb_plan_node, planner_hook,
  plan_registered, plan_needed, after_needed, no_type, TargetEntry, add_column,
}

-- The state once the metadata cache has been asked.
abbrev pub asked : Env → State → State
asked e s = record s {
  metadata = (Metadata.is_extension_registered e.catalog e.session s.metadata).0;
}

-- Is the extension registered?
abbrev pub answer : Env → State → Option Bool
answer e s = (Metadata.is_extension_registered e.catalog e.session s.metadata).1

no_type-throws : (type : LogicalType) → no_type {A = List TargetEntry} true type ≢ declined
no_type-throws type = ground arith

add_column-throws :
    (known : Oid → Option Bool) (c : String × LogicalType) (o : Option Oid)
    (rest : Attempt (List TargetEntry))
    → ((oid : Oid) → known oid ≢ none)
    → rest ≢ declined
    → add_column known true c o rest ≢ declined
unfolding add_column
add_column-throws known (name, type) none rest valid h = no_type-throws type
add_column-throws known (name, type) (some oid) rest valid h = ground (arith, valid oid)

target_list-throws :
    (known : Oid → Option Bool) (cs : Columns)
    → ((oid : Oid) → known oid ≢ none)
    → target_list known true cs ≢ declined
unfolding target_list
target_list-throws known [] valid = ground arith
target_list-throws known (c ∷ cs) valid =
    add_column-throws known c (get_postgres_type c.1) _ valid (target_list-throws known cs valid)

-- The OIDs that the result types map to are valid ones.
abbrev pub HasOids : Env → Type 0
HasOids e = (oid : Oid) → e.type_known oid ≢ none

prepared-throws :
    (e : Env) (q : Query) (columns : Option Columns)
    → HasOids e
    → plan_columns e q true columns ≢ declined
prepared-throws e q none valid = ground arith
prepared-throws e q (some cs) valid = ground (arith, target_list-throws e.type_known cs valid)

create_plan-throws :
    (e : Env) (x : Xact) (q : Query) → HasOids e → (create_plan e x q true).1 ≢ declined
unfolding create_plan
create_plan-throws e x q valid = ground (arith, prepared-throws e q (e.prepare q) valid)

node-throws :
    (e : Env) (x : Xact) (q : Query) (scroll : Bool)
    → HasOids e
    → (duckdb_plan_node e x q scroll true).1 ≢ declined
unfolding duckdb_plan_node
node-throws e x q scroll valid = ground (arith, create_plan-throws e x q valid)

-- Did the hook keep the query from Postgres?
abbrev pub IsHandled : Outcome → Type 0
IsHandled o = ((p : PlannedStmt) × (o ≡ by_duckdb p)) ⊎ ((err : Error) × (o ≡ error err))

after_needed-IsHandled :
    (s : State) (r : Xact × Attempt PlannedStmt) → r.1 ≢ declined → IsHandled (after_needed s r).1
after_needed-IsHandled s (x, planned p) h = inl (p, refl)
after_needed-IsHandled s (x, declined) h = ground arith
after_needed-IsHandled s (x, raised err) h = inr (err, refl)

plan_needed-IsHandled :
    (e : Env) (q : Query) (scroll : Bool) (s : State) (o : Option Error)
    → HasOids e
    → IsHandled (plan_needed e q scroll s o).1
plan_needed-IsHandled e q scroll s (some err) valid = inr (err, refl)
plan_needed-IsHandled e q scroll s none valid =
    after_needed-IsHandled s _ (node-throws e s.xact q scroll valid)

plan_registered-IsHandled :
    (e : Env) (q : Query) (scroll : Bool) (s : State)
    → HasOids e
    → contains_duckdb_items (relations_in e s) q ≡ true
    → IsHandled (plan_registered e q scroll s).1
unfolding plan_registered
plan_registered-IsHandled e q scroll s valid h = rw h (plan_needed-IsHandled e q scroll _ _ valid)

-- A query with DuckDB items is never left to Postgres once the extension is registered: the planner
-- hook returns a DuckDB plan or raises an error, and never a null pointer, if the OIDs of the types that
-- pg_duckdb caches are valid.
pub planner_hook-needed :
    (e : Env) (q : Query) (scroll : Bool) (s : State)
    → HasOids e
    → answer e s ≡ some true
    → contains_duckdb_items (relations_in e (asked e s)) q ≡ true
    → IsHandled (planner_hook e q scroll s).1
unfolding planner_hook
planner_hook-needed e q scroll s valid a h =
    rw a (plan_registered-IsHandled e q scroll (asked e s) valid h)
