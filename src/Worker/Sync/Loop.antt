-- ===== src/Worker/Sync/Loop.antt =====
-- The loop over MotherDuck's databases: `SyncMotherDuckCatalogsWithPg_Cpp` and `PgSchemaName`. The
-- query texts that CreatePgTableString and CreatePgViewString print come with the entries, and are
-- empty where those functions give up.
use pg_duckdb.Common.{
  ℕ, zero, suc, ◌+◌, Bool, true, false, not, ◌&&◌, ◌||◌, Option, none, some, List, [], ◌∷◌, ◌++◌,
  ◌==◌, length, take, drop, if◌then◌else◌, ◌>>=◌,
}
use pg_duckdb.Worker.Sync.{
  Text, RelKind, Postgres, Session, Outcome, done, raised, create_table, create_view,
  drop_qualified_relation, create_schema_if_not_exists, commit_session,
}
pub mod Batches
pub mod Keeping
pub mod Databases

abbrev pub eq_text : Text → Text → Bool
eq_text [] [] = true
eq_text [] (d ∷ ds) = false
eq_text (c ∷ cs) [] = false
eq_text (c ∷ cs) (d ∷ ds) = (c == d) && eq_text cs ds

abbrev pub main_name : Text
main_name = 109 ∷ 97 ∷ 105 ∷ 110 ∷ []

abbrev pub public_name : Text
public_name = 112 ∷ 117 ∷ 98 ∷ 108 ∷ 105 ∷ 99 ∷ []

-- "information_schema"
abbrev pub information_schema : Text
information_schema =
    105 ∷ 110 ∷ 102 ∷ 111 ∷ 114 ∷ 109 ∷ 97 ∷ 116 ∷ 105 ∷ 111 ∷ 110 ∷ 95 ∷ 115 ∷ 99 ∷ 104 ∷ 101 ∷ 109
    ∷ 97 ∷ []

-- "pg_catalog"
abbrev pub pg_catalog : Text
pg_catalog = 112 ∷ 103 ∷ 95 ∷ 99 ∷ 97 ∷ 116 ∷ 97 ∷ 108 ∷ 111 ∷ 103 ∷ []

-- "ddb$"
abbrev pub ddb_prefix : Text
ddb_prefix = 100 ∷ 100 ∷ 98 ∷ 36 ∷ []

pub record Entry : Type 0 where
  pub name : Text
  pub create_query : Text

pub record Schema : Type 0 where
  pub name : Text
  pub tables : List Entry
  pub views : List Entry

-- A row of __md_local_databases_metadata(), with the schemas of the database.
pub record Database : Type 0 where
  pub alias : Text
  pub version : Text
  pub schemas : List Schema

-- last_known_motherduck_catalog_versions and current_motherduck_catalog_version. A missing key of
-- the map reads as the empty text.
pub record Memory : Type 0 where
  pub known : List (Text × Text)
  pub current_version : Option Text

abbrev pub lookup : Text → List (Text × Text) → Text
lookup k [] = []
lookup k ((a, v) ∷ rest) = if eq_text a k then v else lookup k rest

abbrev is_empty : Text → Bool
is_empty [] = true
is_empty (c ∷ cs) = false

-- Schemas of Postgres' own are passed over, and so is `public` beside the `main` that takes its name.
abbrev pub is_skipped : Bool → Schema → Bool
is_skipped is_default_db schema =
    eq_text schema.name information_schema
    || eq_text schema.name pg_catalog
    || (eq_text schema.name public_name && is_default_db)

infixl 5 ◌then_do◌
abbrev pub ◌then_do◌ : {C : Type 0} → Outcome C → (Bool → Session C → Outcome C) → Outcome C
done b t then_do f = f b t
raised t then_do f = raised t

module _ {C : Type 0} (pg : Postgres C) where
  open pg use {stale_relations, escape_quotes}

  -- PgSchemaName
  unfoldable pub pg_schema_name : Text → Text → Bool → Text
  pg_schema_name db_name schema_name is_default_db =
      if is_default_db
      then (if eq_text schema_name main_name then public_name else schema_name)
      else ddb_prefix
        ++ escape_quotes db_name
        ++ (if eq_text schema_name main_name then [] else (36 ∷ escape_quotes schema_name))

  -- The callback of schema.Scan; `synced` is all_tables_synced_successfully.
  unfoldable pub sync_entry : Text → Bool → Entry → Bool → Session C → Outcome C
  unfolding create_table
  sync_entry schema cascade entry synced s =
      if is_empty entry.create_query
      then done synced s
      else (create_table pg schema entry.name entry.create_query cascade s then_do λ created t.
          done (synced && created) t)

  unfoldable pub sync_entries : Text → Bool → List Entry → Bool → Session C → Outcome C
  unfolding sync_entry
  sync_entries schema cascade [] synced s = done synced s
  sync_entries schema cascade (e ∷ es) synced s =
      sync_entry schema cascade e synced s then_do λ b t. sync_entries schema cascade es b t

  -- The two scans of a schema.
  unfoldable pub sync_relations : Text → Bool → Schema → Bool → Session C → Outcome C
  unfolding sync_entries
  sync_relations target cascade schema synced s =
      sync_entries target cascade schema.tables synced s then_do λ b u.
      sync_entries target cascade schema.views b u

  unfoldable pub open_schema : Text → Bool → Bool → Schema → Bool → Session C → Outcome C
  unfolding create_schema_if_not_exists sync_relations
  open_schema target is_default_db cascade schema synced s =
      create_schema_if_not_exists pg target is_default_db s then_do λ created t.
      if not created then done synced t else sync_relations target cascade schema synced t

  unfoldable pub sync_schema : Text → Bool → Bool → Schema → Bool → Session C → Outcome C
  unfolding pg_schema_name open_schema
  sync_schema db is_default_db cascade schema synced s =
      if is_skipped is_default_db schema
      then done synced s
      else open_schema (pg_schema_name db schema.name is_default_db) is_default_db cascade schema
          synced s

  unfoldable pub sync_schemas : Text → Bool → Bool → List Schema → Bool → Session C → Outcome C
  unfolding sync_schema
  sync_schemas db is_default_db cascade [] synced s = done synced s
  sync_schemas db is_default_db cascade (c ∷ cs) synced s =
      sync_schema db is_default_db cascade c synced s then_do λ b t.
      sync_schemas db is_default_db cascade cs b t

  -- for (i = 0; i < current_batch_size; i++): the result of DropRelation is not looked at.
  unfoldable pub drop_each : Bool → List (Text × RelKind) → Session C → Session C
  unfolding drop_qualified_relation
  drop_each cascade [] s = s
  drop_each cascade ((name, kind) ∷ rows) s =
      drop_each cascade rows (drop_qualified_relation pg name kind cascade s).0

  -- do { fetch 100 rows … } while (current_batch_size == 100); `none` when the fuel is out.
  unfoldable pub drop_batches : ℕ → Bool → List (Text × RelKind) → Session C → Option (Session C)
  unfolding drop_each
  drop_batches zero cascade rows s = none
  drop_batches (suc fuel) cascade rows s =
      let t = drop_each cascade (take 100 rows) s in
      let rest = drop_batches fuel cascade (drop 100 rows) t in
      if length (take 100 rows) == 100 then rest else some t

  -- The cleanup, on fuel that is enough for the rows; then the commit.
  unfoldable pub drop_stale : Bool → List (Text × RelKind) → Session C → Outcome C
  unfolding drop_batches commit_session
  drop_stale cascade rows s = elim (drop_batches (suc (length rows)) cascade rows s) [
    | none ↦ raised s
    | some t ↦ commit_session pg t
  ]

  abbrev pub close_database : Memory → Outcome C → Outcome C × Memory
  close_database n (raised u) = (raised u, n)
  close_database n (done b u) = (done true u, record n { current_version = none })

  abbrev pub finish_database : Text → Bool → Database → Memory → Outcome C → Outcome C × Memory
  finish_database default_db cascade db n (raised t) = (raised t, n)
  finish_database default_db cascade db n (done false t) = (done true t, n)
  finish_database default_db cascade db n (done true t) =
      close_database n
        (drop_stale cascade (stale_relations t.catalog db.alias db.version default_db) t)

  abbrev pub remember : Database → Memory → Memory
  remember db m = record {
    known = (db.alias, db.version) ∷ m.known;
    current_version = some db.version;
  }

  -- The body of the loop, for a database whose version has changed. A commit that raises leaves
  -- current_version set, and so does a database whose tables were not all synced.
  unfoldable pub sync_database : Text → Bool → Database → Memory → Session C → Outcome C × Memory
  unfolding sync_schemas drop_stale
  sync_database default_db cascade db m s =
      finish_database default_db cascade db (remember db m)
        (sync_schemas db.alias (eq_text db.alias default_db) cascade db.schemas true s)

  abbrev pub then_next :
      Outcome C × Memory → (Memory → Session C → Outcome C × Memory) → Outcome C × Memory
  then_next (raised t, n) f = (raised t, n)
  then_next (done b t, n) f = f n t

  -- One row: a database whose version is the last known one is passed over.
  unfoldable pub visit_database : Text → Bool → Database → Memory → Session C → Outcome C × Memory
  unfolding sync_database
  visit_database default_db cascade db m s =
      if eq_text (lookup db.alias m.known) db.version
      then (done true s, m)
      else sync_database default_db cascade db m s

  -- for (auto &row : *result)
  unfoldable pub sync_databases :
      Text → Bool → List Database → Memory → Session C → Outcome C × Memory
  unfolding visit_database
  sync_databases default_db cascade [] m s = (done true s, m)
  sync_databases default_db cascade (db ∷ dbs) m s =
      then_next (visit_database default_db cascade db m s)
        (λ n t. sync_databases default_db cascade dbs n t)
