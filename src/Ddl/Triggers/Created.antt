-- ===== src/Ddl/Triggers/Created.antt =====
-- What `duckdb_create_table_trigger` remembers of a table.
use pg_duckdb.Common.{
  ℕ, Bool, true, false, not, Option, none, some, List, [], ◌∷◌, if◌then◌else◌, ◌≡◌, refl, sym, ◌∙◌,
  ap, subst, inl, inr, Bool-cases, arith,
}
use pg_duckdb.Xact
use pg_duckdb.Xact.{DdlType, no_ddl, create_table, contains, insert, register_temp_table}
use pg_duckdb.Hooks.{mark_statement_not_top_level}
use pg_duckdb.Query.{Query}
use pg_duckdb.Worker.Sync.{Text}
use pg_duckdb.Sql.{Error, Result, ok, err, not_create_table}
use pg_duckdb.Ddl.{
  Env, State, M, Statement, ◌>>=◌, ◌>>◌, lift, refuse_if, when, set_ddl_type, with_xact, claim,
  connect, duckdb_query, registered, spi_select, spi_write,
}
use pg_duckdb.Ddl.Views.{track_relation, change_owner}
use pg_duckdb.Ddl.Keeps.{Keeps, bind-Keeps, lift-Keeps, when-Keeps}
use pg_duckdb.Ddl.Triggers.{
  is_create_table, check_tree, check_on_commit_support, permanent_schema, remember_table,
  insert_data, insert_query, load_table, define_table, create_in_duckdb, created_rows,
  handle_created, create_table_trigger,
}
use pg_duckdb.Ddl.Triggers.Forwarded.{
  Post, continue-Post, Post-weaken, Keeps-Post, Asked, registered-Asked,
}

-- What is remembered of tables, and the type of the DDL.
abbrev remembered : State → List ℕ × List ℕ × DdlType
remembered s = (s.hooks.xact.temporary, s.tables, s.hooks.xact.top_level_ddl_type)

module _ (e : Env) where
  claim-Keeps : Keeps remembered (claim e true)
  unfolding claim Xact.claim_current_command_id
  claim-Keeps = record { keeps = λ s. ground arith }

  connect-Keeps : Keeps remembered (connect e)
  unfolding connect Xact.get_connection
  connect-Keeps = record { keeps = λ s. ground arith }

  duckdb_query-Keeps : (text : Text) → Keeps remembered (duckdb_query e text)
  unfolding duckdb_query
  duckdb_query-Keeps text = record { keeps = λ s. ground arith }

  insert_data-Keeps : (o : ℕ) (q : Option Query) → Keeps remembered (insert_data e o q)
  unfolding insert_data
  insert_data-Keeps o none = record { keeps = λ s. refl }
  insert_data-Keeps o (some q) = bind-Keeps (lift-Keeps _) (λ name. duckdb_query-Keeps _)

  load_table-Keeps :
      (tree : Statement) (o : ℕ) (text : Text) → Keeps remembered (load_table e tree o text)
  unfolding load_table
  load_table-Keeps tree o text = record {
    keeps = λ s.
        (bind-Keeps (duckdb_query-Keeps text)
            (λ u. insert_data-Keeps o (insert_query tree s.skip_data))).keeps
          s;
  }

  define_table-Keeps :
      (tree : Statement) (o : ℕ) (text : Text) → Keeps remembered (define_table e tree o text)
  unfolding define_table
  define_table-Keeps tree o text = bind-Keeps connect-Keeps (λ u. load_table-Keeps tree o text)

  check_tree-Keeps : (tree : Statement) → Keeps remembered (check_tree tree)
  unfolding check_on_commit_support
  check_tree-Keeps tree = record { keeps = λ s. ground arith }

  create_in_duckdb-Keeps : (tree : Statement) (o : ℕ) → Keeps remembered (create_in_duckdb e tree o)
  unfolding create_in_duckdb
  create_in_duckdb-Keeps tree o =
      bind-Keeps (bind-Keeps claim-Keeps (λ u. check_tree-Keeps tree))
        (λ u. bind-Keeps (lift-Keeps _) (λ text. define_table-Keeps tree o text))

-- The table is remembered, and the type of the DDL is reset.
pub record Remembered (o : ℕ) (is_temporary : Bool) (t : State) : Type 0 where
  pub kept :
      (if is_temporary then contains o t.hooks.xact.temporary else contains o t.tables) ≡ true
  pub reset : t.hooks.xact.top_level_ddl_type ≡ no_ddl

contains-insert : (o : ℕ) (os : List ℕ) → contains o (insert o os) ≡ true
contains-insert o os = elim (Bool-cases (contains o os)) [
  | inl h ↦ rw h h
  | inr h ↦ rw h (ground arith)
]

lift-Post :
    {A B : Type 0} (Q : State → B → Type 0) (r : Result A) (g : A → M B) (s : State)
    → ((a : A) → Post Q (g a s))
    → Post Q ((lift r >>= g) s)
lift-Post Q (ok a) g s h = h a
lift-Post Q (err error) g s h = tt

refuse_if-Post :
    {B : Type 0} (Q : State → B → Type 0) (b : Bool) (error : Error) (m : M B) (s : State)
    → (b ≡ false → Post Q (m s))
    → Post Q ((refuse_if b error >> m) s)
refuse_if-Post Q true error m s h = tt
refuse_if-Post Q false error m s h = h refl

Asked-true :
    (s : State) (r : State × Result Bool)
    → Post (λ u b. Asked s u) r
    → r.1 ≡ ok true
    → Post (λ u x. (u.hooks.xact ≡ s.hooks.xact) × (x ≡ true)) r
Asked-true s (u, ok x) h k = (h.as_xact, ground arith)
Asked-true s (u, err error) h k = tt

eq_of_is_create_table : (d : DdlType) → is_create_table d ≡ true → d ≡ create_table
eq_of_is_create_table d h = ground arith

module _ (e : Env) (o : ℕ) where
  track_relation-Remembered :
      (s : State)
      → s.hooks.xact.top_level_ddl_type ≡ no_ddl
      → Post (λ t u. Remembered o false t) (track_relation e o s)
  unfolding track_relation spi_write spi_select change_owner mark_statement_not_top_level
  track_relation-Remembered s h = record { kept = contains-insert o s.tables; reset = h }

  register-Remembered :
      (s : State)
      → s.hooks.xact.top_level_ddl_type ≡ no_ddl
      → Remembered o true (with_xact (register_temp_table o s.hooks.xact) s)
  unfolding register_temp_table
  register-Remembered s h = record { kept = contains-insert o _; reset = ground arith }

  remember_table-Remembered :
      (b : Bool) (s : State)
      → s.hooks.xact.top_level_ddl_type ≡ no_ddl
      → Post (λ t u. Remembered o b t) (remember_table e o b s)
  unfolding remember_table
  remember_table-Remembered true s h = register-Remembered s h
  remember_table-Remembered false s h =
      lift-Post (λ t u. Remembered o false t) (permanent_schema e o) (λ parts. track_relation e o) s
        (λ parts. track_relation-Remembered s h)

  -- What is remembered stays so while DuckDB creates the table.
  when_created-Remembered :
      (b : Bool) (run : Bool) (tree : Statement) (s : State)
      → Remembered o b s
      → Post (λ t u. Remembered o b t) (when run (create_in_duckdb e tree o) s)
  when_created-Remembered b run tree s h =
      Post-weaken (λ t u. remembered t ≡ remembered s) (λ t u. Remembered o b t)
        (when run (create_in_duckdb e tree o) s)
        (λ t u k. record {
          kept =
              ap (λ (r : List ℕ × List ℕ × DdlType). if b then contains o r.0 else contains o r.1) k
              ∙ h.kept;
          reset = ap (λ (r : List ℕ × List ℕ × DdlType). r.2) k ∙ h.reset;
        })
        (Keeps-Post remembered (remembered s) (when run (create_in_duckdb e tree o) s)
          ((when-Keeps run (create_in_duckdb-Keeps e tree o)).keeps s))

  -- The trigger, from the type of the DDL that it has read.
  created_rows-Remembered :
      (b : Bool) (tree : Statement) (original : DdlType) (s : State)
      → s.hooks.xact.top_level_ddl_type ≡ no_ddl
      → Post
          (λ t u. Remembered o b t × (is_create_table original ≡ true))
          (created_rows e tree original ((o, b) ∷ []) s)
  unfolding created_rows
  created_rows-Remembered b tree original s h =
      continue-Post (λ t u. Remembered o b t × (is_create_table original ≡ true))
        (λ t u. Remembered o b t × (is_create_table original ≡ true))
        (λ u. when (not e.copy.hooks.xact.motherduck_sync) (create_in_duckdb e tree o))
        ((refuse_if (not (is_create_table original)) not_create_table >> remember_table e o b) s)
        (refuse_if-Post (λ t u. Remembered o b t × (is_create_table original ≡ true))
          (not (is_create_table original)) not_create_table (remember_table e o b) s
          (λ k.
            Post-weaken (λ t u. Remembered o b t)
              (λ t u. Remembered o b t × (is_create_table original ≡ true)) (remember_table e o b s)
              (λ t u r. (r, ground arith)) (remember_table-Remembered b s h)))
        (λ u v r.
          Post-weaken (λ t w. Remembered o b t)
            (λ t w. Remembered o b t × (is_create_table original ≡ true))
            (when (not e.copy.hooks.xact.motherduck_sync) (create_in_duckdb e tree o) u)
            (λ t w k. (k, r.1))
            (when_created-Remembered b (not e.copy.hooks.xact.motherduck_sync) tree u r.0))

  handled-Remembered :
      (b x : Bool) (tree : Statement) (u : State)
      → x ≡ true
      → Post
          (λ t v. Remembered o b t × (u.hooks.xact.top_level_ddl_type ≡ create_table))
          (when x (handle_created e tree ((o, b) ∷ [])) u)
  unfolding handle_created spi_select mark_statement_not_top_level
  handled-Remembered b false tree u h = cc
  handled-Remembered b true tree u h =
      Post-weaken
        (λ t v. Remembered o b t × (is_create_table u.hooks.xact.top_level_ddl_type ≡ true))
        (λ t v. Remembered o b t × (u.hooks.xact.top_level_ddl_type ≡ create_table))
        (handle_created e tree ((o, b) ∷ []) u) (λ t v r. (r.0, eq_of_is_create_table _ r.1))
        (created_rows-Remembered b tree u.hooks.xact.top_level_ddl_type
          (spi_select (set_ddl_type no_ddl u)) refl)

  -- After a trigger that went through on one new DuckDB table, where the extension is installed, the
  -- table is remembered, in the set of temporary tables or in duckdb.tables; the type of the DDL was that
  -- of CREATE TABLE when the trigger was fired, whichever statement had set it; and it is reset.
  pub create_table_trigger-Remembered :
      (b : Bool) (tree : Statement) (s : State) {t : State}
      → (registered e s).1 ≡ ok true
      → create_table_trigger e tree ((o, b) ∷ []) s ≡ (t, ok tt)
      → Remembered o b t × (s.hooks.xact.top_level_ddl_type ≡ create_table)
  unfolding create_table_trigger
  create_table_trigger-Remembered b tree s {t} ours h =
      subst (Post (λ v u. Remembered o b v × (s.hooks.xact.top_level_ddl_type ≡ create_table))) h (
        continue-Post (λ u x. (u.hooks.xact ≡ s.hooks.xact) × (x ≡ true))
          (λ v u. Remembered o b v × (s.hooks.xact.top_level_ddl_type ≡ create_table))
          (λ x. when x (handle_created e tree ((o, b) ∷ []))) (registered e s)
          (Asked-true s (registered e s) (registered-Asked e s) ours)
          (λ u x k.
            Post-weaken (λ v w. Remembered o b v × (u.hooks.xact.top_level_ddl_type ≡ create_table))
              (λ v w. Remembered o b v × (s.hooks.xact.top_level_ddl_type ≡ create_table))
              (when x (handle_created e tree ((o, b) ∷ [])) u)
              (λ v w r. (r.0, sym (ap (λ (y : Xact.Xact). y.top_level_ddl_type) k.0) ∙ r.1))
              (handled-Remembered b x tree u k.1)))
