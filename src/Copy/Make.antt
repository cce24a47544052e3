-- ===== src/Copy/Make.antt =====
-- The text of a COPY for DuckDB: `MakeDuckdbCopyQuery` with the checks on its query and its relation.
use pg_duckdb.Common.{
  ℕ, Bool, true, false, not, ◌||◌, Option, none, some, List, [], ◌∷◌, ◌++◌, map, if◌then◌else◌,
}
use pg_duckdb.Query.{Query, info, is_duckdb_table}
use pg_duckdb.Hooks
use pg_duckdb.Hooks.{
  State, Outcome, by_duckdb, no_plan, by_postgres, relations_in, is_select, is_allowed_statement,
  planner_hook,
}
use pg_duckdb.Worker.Sync.{Text}
use pg_duckdb.Ruleutils
use pg_duckdb.Ruleutils.{relation_name, relation_of}
use pg_duckdb.Ruleutils.Definitions.{RangeVar}
use pg_duckdb.Sql.{
  Error, lit, separate, Result, ok, err, ◌>>=◌, fail_if, unexpected_option, analysis_failed,
  no_query, conditional_rule, also_rule, many_queries, not_a_select, not_planned, permission_denied,
  row_security, no_such_relation, not_planned_by_duckdb,
}
use pg_duckdb.Copy.{
  Env, CopyStmt, DefElem, Arg, integer, float, boolean, string, type_name, list, star, other_node,
  original, qual_instead_rule, non_instead_rule, other_rule, Rewrite, acl_select, open_rv,
  copy_refused, needs_duckdb_execution,
}

-- Which error CheckRewritten raises for several queries.
unfoldable pub first_rule : Rewrite → Error
first_rule [] = many_queries
first_rule ((qual_instead_rule, q) ∷ rest) = conditional_rule
first_rule ((non_instead_rule, q) ∷ rest) = also_rule
first_rule ((original, q) ∷ rest) = first_rule rest
first_rule ((other_rule, q) ∷ rest) = first_rule rest

-- CheckRewritten, with the query that is taken from the list
unfoldable pub check_rewritten : Rewrite → Result Query
unfolding first_rule
check_rewritten [] = err no_query
check_rewritten ((source, q) ∷ []) = ok q
check_rewritten (r ∷ s ∷ rest) = err (first_rule (r ∷ s ∷ rest))

unfoldable pub any_row_security : Env → List ℕ → Bool
any_row_security e [] = false
any_row_security e (o ∷ os) = e.rls_enabled o || any_row_security e os

-- The checks on the plan. A plan of DuckDB has one entry in its range table, a NAMEDTUPLESTORE without
-- a relation, and no permInfos, so that there is nothing to check in it.
unfoldable pub plan_refused : Env → Query → Outcome → Option Error
unfolding any_row_security
plan_refused e q (Outcome.error error) = some (not_planned_by_duckdb error)
plan_refused e q no_plan = some not_planned
plan_refused e q (by_duckdb p) = none
plan_refused e q by_postgres =
    if not (e.plan_permitted q)
    then some permission_denied
    else if any_row_security e (e.plan_relids q)
    then some row_security
    else none

-- CheckQueryPermissions: pg_plan_query runs the planner hook.
unfoldable pub check_query_permissions : Env → Query → State → State × Option Error
check_query_permissions e q s =
    let (t, outcome) = planner_hook e.hooks q false s in (t, plan_refused e q outcome)

abbrev column_list : Env → List Text → Text
column_list e [] = []
column_list e (a ∷ rest) =
    lit "(" ++ separate (lit ", ") (map e.names.quote_identifier (a ∷ rest)) ++ lit ") "

-- AppendCreateRelationCopyString
unfoldable pub relation_copy_string : Env → RangeVar → List Text → Result Text
relation_copy_string e rv attlist = do
  o ← open_rv e rv
  fail_if (not (e.permitted o acl_select)) permission_denied
      (do name ← relation_name e.names o; ok (name ++ column_list e attlist))

-- CommaSeparatedQuotedList
abbrev quoted_list : Env → List Text → Text
quoted_list e names = separate (lit ",") (map e.names.quote_identifier names)

abbrev arg_copy_text : Env → Arg → Result Text
arg_copy_text e (integer t) = ok t
arg_copy_text e (float t) = ok t
arg_copy_text e (boolean t) = ok t
arg_copy_text e (string t) = ok (e.quote_literal t)
arg_copy_text e (type_name t) = ok (e.quote_literal t)
arg_copy_text e (list names t) = ok (lit "(" ++ quoted_list e names ++ lit ")")
arg_copy_text e star = ok (lit "*")
arg_copy_text e other_node = err unexpected_option

abbrev option_value : Env → Option Arg → Result Text
option_value e none = ok []
option_value e (some a) = arg_copy_text e a >>= λ t. ok (lit " " ++ t)

unfoldable pub option_texts : Env → List DefElem → Result (List Text)
option_texts e [] = ok []
option_texts e (d ∷ ds) =
    let rest = option_texts e ds in
    do value ← option_value e d.arg; texts ← rest; ok ((d.defname ++ value) ∷ texts)

-- AppendCreateCopyOptions
unfoldable pub copy_options : Env → List DefElem → Result Text
unfolding option_texts
copy_options e [] = ok (lit ";")
copy_options e (d ∷ ds) = do
  texts ← option_texts e (d ∷ ds)
  ok (lit "(" ++ separate (lit ", ") texts ++ lit ");")

-- A null pointer with the statement that is left to Postgres, the text for DuckDB, or an error.
pub data Made : Type 0 where
  left : CopyStmt → Made
  rewritten : Text → Made
  failed : Error → Made

abbrev pub file_name : Option Text → Text
file_name none = []
file_name (some f) = f

-- The text from the source or target of the data on.
abbrev pub whole_text : Env → CopyStmt → Result Text → Made
whole_text e stmt (err error) = failed error
whole_text e stmt (ok what) = elim (copy_options e stmt.options) [
  | err error ↦ failed error
  | ok options ↦ rewritten (
      lit "COPY "
      ++ what
      ++ (if stmt.is_from then lit " FROM " else lit " TO ")
      ++ e.quote_literal (file_name stmt.filename)
      ++ lit " "
      ++ options)
]

abbrev pub query_checked : Env → CopyStmt → Query → State × Option Error → State × Made
query_checked e stmt q (t, some error) = (t, failed error)
query_checked e stmt q (t, none) =
    (t, whole_text e stmt (ok (lit "(" ++ e.get_querydef q ++ lit ")")))

abbrev pub checked_query : Env → CopyStmt → Query → State → State × Made
checked_query e stmt q s = query_checked e stmt q (check_query_permissions e q s)

-- With `needs` the statement's error is raised, and without it the COPY is left to Postgres.
abbrev pub allowed_query : Env → CopyStmt → Bool → Query → State → Option Hooks.Error → State × Made
allowed_query e stmt true q s (some error) = (s, failed (not_planned_by_duckdb error))
allowed_query e stmt true q s none =
    if not (is_select (info q).command_type)
    then (s, failed not_a_select)
    else checked_query e stmt q s
allowed_query e stmt false q s (some error) = (s, left stmt)
allowed_query e stmt false q s none =
    if not (is_select (info q).command_type) then (s, left stmt) else checked_query e stmt q s

abbrev pub one_query : Env → CopyStmt → Bool → State → Result Query → State × Made
one_query e stmt needs s (err error) = (s, failed error)
one_query e stmt needs s (ok q) = allowed_query e stmt needs q s (is_allowed_statement e.hooks s q)

abbrev pub rewritten_query : Env → CopyStmt → Bool → State → Option Rewrite → State × Made
rewritten_query e stmt needs s none = (s, failed analysis_failed)
rewritten_query e stmt needs s (some queries) = one_query e stmt needs s (check_rewritten queries)

abbrev pub relation_text : Env → CopyStmt → Option RangeVar → Result Text
relation_text e stmt none = err no_such_relation
relation_text e stmt (some rv) = relation_copy_string e rv stmt.attlist

abbrev pub made_from : Env → CopyStmt → Bool → State → Option Text → State × Made
made_from e stmt needs s (some text) = rewritten_query e stmt needs s (e.rewrite text)
made_from e stmt needs s none = (s, whole_text e stmt (relation_text e stmt stmt.relation))

-- A COPY of a DuckDB table that is left to Postgres becomes one of a query on the table.
abbrev star_query : Env → CopyStmt → Ruleutils.Relation → CopyStmt
star_query e stmt r = record stmt {
  query = some (lit "SELECT * FROM " ++ e.names.quote_identifier r.relname);
  relation = none;
}

abbrev pub as_made : Result CopyStmt → Made
as_made (err error) = failed error
as_made (ok stmt) = left stmt

abbrev read_relation : Env → State → CopyStmt → Option RangeVar → Result CopyStmt
read_relation e s stmt none = ok stmt
read_relation e s stmt (some rv) =
    if stmt.is_from
    then ok stmt
    else open_rv e rv >>= λ o.
        if is_duckdb_table (relations_in e.hooks s) o
        then (relation_of (e.names.relation o) >>= λ r. ok (star_query e stmt r))
        else ok stmt

unfoldable pub leave_to_postgres : Env → State → CopyStmt → Made
leave_to_postgres e s stmt = as_made (read_relation e s stmt stmt.relation)

abbrev pub tried : Env → CopyStmt → Bool → State → Result (Option Error) → State × Made
tried e stmt needs s (err error) = (s, failed error)
tried e stmt true s (ok (some error)) = (s, failed error)
tried e stmt false s (ok (some error)) = (s, leave_to_postgres e s stmt)
tried e stmt needs s (ok none) = made_from e stmt needs s stmt.query

-- Where DuckDB is not needed; the flag is duckdb.force_execution.
abbrev pub not_needed : Env → CopyStmt → State → Bool → State × Made
not_needed e stmt s false = (s, leave_to_postgres e s stmt)
not_needed e stmt s true = tried e stmt false s (copy_refused e s stmt)

abbrev pub decided : Env → CopyStmt → State → Result Bool → State × Made
decided e stmt s (err error) = (s, failed error)
decided e stmt s (ok true) = tried e stmt true s (copy_refused e s stmt)
decided e stmt s (ok false) = not_needed e stmt s e.force_execution

-- MakeDuckdbCopyQuery
unfoldable pub make_duckdb_copy_query : Env → CopyStmt → State → State × Made
make_duckdb_copy_query e stmt s = decided e stmt s (needs_duckdb_execution e s stmt)
