-- ===== src/Copy/Rewritten.antt =====
-- What a COPY that DuckDB runs has passed, in `MakeDuckdbCopyQuery`.
use pg_duckdb.Common.{
  ℕ, Bool, true, false, not, ◌||◌, ◌==◌, Option, none, some, List, [], ◌∷◌, ◌≡◌, refl, sym, inl,
  inr, Option-cases, Bool-cases, arith,
}
use pg_duckdb.Query.{Query, info, is_duckdb_table, is_catalog_table}
use pg_duckdb.Hooks
use pg_duckdb.Hooks.{
  State, Outcome, no_plan, by_postgres, by_duckdb, planner_hook, relations_in, is_select,
  is_allowed_statement,
}
use pg_duckdb.Xact.{contains}
use pg_duckdb.Worker.Sync.{Text}
use pg_duckdb.Ruleutils.Definitions.{RangeVar}
use pg_duckdb.Sql.{Error, Result, ok, err}
use pg_duckdb.Copy.{
  Env, CopyStmt, Rewrite, QuerySource, acl_select, copy_refused, target_refused, path_refused,
  matches_uri_scheme, needs_duckdb_execution,
}
use pg_duckdb.Copy.Make.{
  Made, left, rewritten, check_query_permissions, make_duckdb_copy_query, decided, not_needed,
  tried, leave_to_postgres, as_made, made_from, whole_text, rewritten_query, allowed_query,
  checked_query, plan_refused, any_row_security, check_rewritten, relation_text,
  relation_copy_string,
}

-- The relation of the statement, where it has one, is no catalog table, and a table of DuckDB if
-- the COPY writes to it.
pub data Target (e : Env) (s : State) (is_from : Bool) : Option RangeVar → Type 0 where
  no_relation : Target e s is_from none
  relation :
      {rv : RangeVar} (o : ℕ)
      → e.open_relation rv ≡ some o
      → is_catalog_table (relations_in e.hooks s) o ≡ false
      → (not is_from || is_duckdb_table (relations_in e.hooks s) o) ≡ true
      → Target e s is_from (some rv)

-- The file is named, and a file to write by an absolute path or a URI.
pub data File (e : Env) (is_from : Bool) : Option Text → Type 0 where
  file :
      (f : Text)
      → (is_from || (e.is_absolute_path f || matches_uri_scheme e (some f))) ≡ true
      → File e is_from (some f)

-- Postgres or DuckDB has planned the query.
abbrev pub is_planned : Outcome → Bool
is_planned (by_duckdb p) = true
is_planned by_postgres = true
is_planned _ = false

-- A query that is planned, and if Postgres has planned it, the user has the permissions on the tables
-- of the plan, and none of them has row security.
pub record Permitted (e : Env) (q : Query) (plan : Outcome) : Type 0 where
  pub planned : is_planned plan ≡ true
  pub permissions : plan ≡ by_postgres → e.plan_permitted q ≡ true
  pub no_row_security :
      plan ≡ by_postgres → (o : ℕ) → contains o (e.plan_relids q) ≡ true → e.rls_enabled o ≡ false

-- The data come from the only query of the statement, a SELECT that the hooks allow and that is planned,
-- or belong to a relation that the user may read.
pub data Source (e : Env) (s : State) (stmt : CopyStmt) : Type 0 where
  by_query :
      (text : Text) (from : QuerySource) (q : Query)
      → stmt.query ≡ some text
      → e.rewrite text ≡ some ((from, q) ∷ [])
      → is_select (info q).command_type ≡ true
      → is_allowed_statement e.hooks s q ≡ none
      → Permitted e q (planner_hook e.hooks q false s).1
      → Source e s stmt
  by_relation :
      (rv : RangeVar) (o : ℕ)
      → stmt.query ≡ none
      → stmt.relation ≡ some rv
      → e.open_relation rv ≡ some o
      → e.permitted o acl_select ≡ true
      → Source e s stmt

pub record Passed (e : Env) (s : State) (stmt : CopyStmt) : Type 0 where
  pub target : Target e s stmt.is_from stmt.relation
  pub named : File e stmt.is_from stmt.filename
  pub source : Source e s stmt

abbrev is_left : Made → Bool
is_left (left stmt) = true
is_left _ = false

module _ (e : Env) (s : State) (stmt : CopyStmt) where
  File-passed : (f : Option Text) → path_refused e stmt.is_from f ≡ none → File e stmt.is_from f
  File-passed none h = cc
  File-passed (some f) h = file f (ground arith)

  target_passed :
      (r : Option RangeVar)
      → target_refused e s stmt r ≡ ok none
      → Target e s stmt.is_from r × File e stmt.is_from stmt.filename
  target_passed none h = (no_relation, File-passed stmt.filename (ground arith))
  target_passed (some rv) h = elim (Option-cases (e.open_relation rv)) [
    | inl q ↦ ground arith
    | inr (o, q) ↦
        (relation o q (ground arith) (ground arith), File-passed stmt.filename (ground arith))
  ]

  as_made_left : (r : Result CopyStmt) {text : Text} → as_made r ≡ rewritten text → ⊥
  as_made_left (ok c) h = cc
  as_made_left (err error) h = cc

  any_row_security-contains :
      (os : List ℕ)
      → any_row_security e os ≡ false
      → (o : ℕ) → contains o os ≡ true
      → e.rls_enabled o ≡ false
  unfolding any_row_security
  any_row_security-contains [] h o k = cc
  any_row_security-contains (p ∷ os) h o k = elim (Bool-cases (p == o)) [
    | inl same ↦
        let at_p : e.rls_enabled p ≡ false = ground arith in
        let eq : p ≡ o = ground arith in rw (sym eq) at_p
    | inr other ↦ any_row_security-contains os (ground arith) o (ground arith)
  ]

  plan_refused-Permitted :
      (q : Query) (plan : Outcome) → plan_refused e q plan ≡ none → Permitted e q plan
  unfolding plan_refused
  plan_refused-Permitted q (Hooks.error error) h = cc
  plan_refused-Permitted q no_plan h = cc
  plan_refused-Permitted q by_postgres h = record {
    planned = refl;
    permissions = λ is. ground arith;
    no_row_security = λ is. any_row_security-contains (e.plan_relids q) (ground arith);
  }
  plan_refused-Permitted q (by_duckdb p) h = record {
    planned = refl;
    permissions = λ is. cc;
    no_row_security = λ is. cc;
  }

  checked-Permitted :
      (q : Query) (text : Text)
      → (checked_query e stmt q s).1 ≡ rewritten text
      → Permitted e q (planner_hook e.hooks q false s).1
  unfolding check_query_permissions
  checked-Permitted q text h =
      plan_refused-Permitted q (planner_hook e.hooks q false s).1 (ground arith)

  query-Source :
      (t : Text) (from : QuerySource) (q : Query) (needs : Bool) {text : Text}
      → stmt.query ≡ some t
      → e.rewrite t ≡ some ((from, q) ∷ [])
      → (allowed_query e stmt needs q s (is_allowed_statement e.hooks s q)).1 ≡ rewritten text
      → Source e s stmt
  query-Source t from q true {text} is_query is_one h =
      by_query t from q is_query is_one (ground arith) (ground arith)
        (checked-Permitted q text (ground arith))
  query-Source t from q false {text} is_query is_one h =
      by_query t from q is_query is_one (ground arith) (ground arith)
        (checked-Permitted q text (ground arith))

  rewritten-Source :
      (t : Text) (needs : Bool) (r : Option Rewrite) {text : Text}
      → stmt.query ≡ some t
      → e.rewrite t ≡ r
      → (rewritten_query e stmt needs s r).1 ≡ rewritten text
      → Source e s stmt
  unfolding check_rewritten
  rewritten-Source t needs none is_query is_r h = cc
  rewritten-Source t needs (some []) is_query is_r h = cc
  rewritten-Source t needs (some ((from, q) ∷ [])) is_query is_r h =
      query-Source t from q needs is_query is_r h
  rewritten-Source t needs (some (x ∷ y ∷ rest)) is_query is_r h = cc

  relation-Source :
      (r : Option RangeVar) {text : Text}
      → stmt.query ≡ none
      → stmt.relation ≡ r
      → whole_text e stmt (relation_text e stmt r) ≡ rewritten text
      → Source e s stmt
  unfolding relation_copy_string
  relation-Source none no_query eq h = cc
  relation-Source (some rv) no_query eq h = elim (Option-cases (e.open_relation rv)) [
    | inl q ↦ ground arith
    | inr (o, q) ↦ by_relation rv o no_query eq q (ground arith)
  ]

  made-Source :
      (needs : Bool) (q : Option Text) {text : Text}
      → stmt.query ≡ q
      → (made_from e stmt needs s q).1 ≡ rewritten text
      → Source e s stmt
  made-Source needs none eq h = relation-Source stmt.relation eq refl h
  made-Source needs (some t) eq h = rewritten-Source t needs (e.rewrite t) eq refl h

  tried-Passed :
      (needs : Bool) (r : Result (Option Error)) {text : Text}
      → copy_refused e s stmt ≡ r
      → (tried e stmt needs s r).1 ≡ rewritten text
      → Passed e s stmt
  unfolding copy_refused leave_to_postgres
  tried-Passed needs (err error) eq h = cc
  tried-Passed true (ok (some error)) eq h = cc
  tried-Passed false (ok (some error)) eq h = absurd (as_made_left _ h)
  tried-Passed needs (ok none) eq h =
      let (target, named) = target_passed stmt.relation eq in
      record { target = target; named = named; source = made-Source needs stmt.query refl h }

  not_needed-Passed :
      (force : Bool) {text : Text}
      → (not_needed e stmt s force).1 ≡ rewritten text
      → Passed e s stmt
  unfolding leave_to_postgres
  not_needed-Passed true h = tried-Passed false (copy_refused e s stmt) refl h
  not_needed-Passed false h = absurd (as_made_left _ h)

  decided-Passed :
      (r : Result Bool) {text : Text} → (decided e stmt s r).1 ≡ rewritten text → Passed e s stmt
  decided-Passed (err error) h = cc
  decided-Passed (ok true) h = tried-Passed true (copy_refused e s stmt) refl h
  decided-Passed (ok false) h = not_needed-Passed e.force_execution h

  -- A COPY that is rewritten for DuckDB names its file, by an absolute path or a URI where it writes the
  -- file; its relation is no catalog table, and a DuckDB table where it reads the file; and its data
  -- come from the statement's only query, a SELECT that the hooks allow and that has a plan, or from a
  -- relation that the user may select from. If the plan is that of Postgres, the user has the permissions
  -- on its tables and none of them has row security; of a plan of DuckDB nothing of the kind is said.
  pub make_duckdb_copy_query-Passed :
      {text : Text} → (make_duckdb_copy_query e stmt s).1 ≡ rewritten text → Passed e s stmt
  unfolding make_duckdb_copy_query
  make_duckdb_copy_query-Passed h = decided-Passed (needs_duckdb_execution e s stmt) h

  -- A COPY that needs DuckDB is never left to Postgres: it is rewritten or refused.
  pub make_duckdb_copy_query-needed :
      needs_duckdb_execution e s stmt ≡ ok true
      → is_left (make_duckdb_copy_query e stmt s).1 ≡ false
  unfolding make_duckdb_copy_query
  make_duckdb_copy_query-needed h = rw h (ground (arith))
