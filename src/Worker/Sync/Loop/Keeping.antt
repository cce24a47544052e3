-- ===== src/Worker/Sync/Loop/Keeping.antt =====
-- The stack of subtransactions and the user through the steps of the sync.
use pg_duckdb.Common.{
  suc, refl, ap, ◌∙◌, Bool, true, false, not, List, [], ◌∷◌, length, arith, if◌then◌else◌,
}
use pg_duckdb.Worker.Sync.{
  Text, RelKind, Postgres, Session, Outcome, done, raised, create_table,
  create_schema_if_not_exists, commit_session, drop_qualified_relation,
}
use pg_duckdb.Worker.Sync.Atomic.{Keeps, AllOrNothing, create_table-AllOrNothing}
use pg_duckdb.Worker.Sync.Loop.Batches.{drop_batches-drop_each}
use pg_duckdb.Worker.Sync.Loop.{
  Entry, Schema, ◌then_do◌, sync_entry, sync_entries, sync_schema, sync_schemas, sync_relations,
  open_schema, pg_schema_name, is_skipped, drop_each, drop_stale,
}

-- Every way out keeps the stack of subtransactions and the user.
abbrev pub KeepsAll : {C : Type 0} → Session C → Outcome C → Type 0
KeepsAll s (done b t) = Keeps s t
KeepsAll s (raised t) = Keeps s t

pub Keeps-refl : {C : Type 0} (s : Session C) → Keeps s s
Keeps-refl s = record { same_saved = refl; same_user = refl }

Keeps-trans : {C : Type 0} {s t u : Session C} → Keeps s t → Keeps t u → Keeps s u
Keeps-trans k l = record {
  same_saved = l.same_saved ∙ k.same_saved;
  same_user = l.same_user ∙ k.same_user;
}

pub KeepsAll-trans :
    {C : Type 0} {s t : Session C} (o : Outcome C) → Keeps s t → KeepsAll t o → KeepsAll s o
KeepsAll-trans (done b u) k l = Keeps-trans k l
KeepsAll-trans (raised u) k l = Keeps-trans k l

KeepsAll-then_do :
    {C : Type 0} (s : Session C) (o : Outcome C) (f : Bool → Session C → Outcome C)
    → KeepsAll s o
    → ((b : Bool) (t : Session C) → KeepsAll t (f b t))
    → KeepsAll s (o then_do f)
KeepsAll-then_do s (done b t) f k l = KeepsAll-trans (f b t) k (l b t)
KeepsAll-then_do s (raised t) f k l = k

AllOrNothing-KeepsAll :
    {C : Type 0} (s : Session C) (o : Outcome C) → AllOrNothing s o → KeepsAll s o
AllOrNothing-KeepsAll s (done true t) a = a.0
AllOrNothing-KeepsAll s (done false t) a = record {
  same_saved = ap (λ x. x.saved) a;
  same_user = ap (λ x. x.user) a;
}
AllOrNothing-KeepsAll s (raised t) a = a

KeepsAll-if :
    {C : Type 0} (b : Bool) (s : Session C) (o p : Outcome C)
    → KeepsAll s o
    → KeepsAll s p
    → KeepsAll s (if b then o else p)
KeepsAll-if true s o p k l = k
KeepsAll-if false s o p k l = l

module _ {C : Type 0} (pg : Postgres C) where
  commit_keeps : (s : Session C) → KeepsAll s (commit_session pg s)
  unfolding commit_session
  commit_keeps s = ground arith

  schema_keeps :
      (schema : Text) (is_default_db : Bool) (s : Session C)
      → KeepsAll s (create_schema_if_not_exists pg schema is_default_db s)
  unfolding create_schema_if_not_exists
  schema_keeps schema is_default_db s = ground arith

  entry_keeps :
      (schema : Text) (cascade : Bool) (e : Entry) (synced : Bool) (s : Session C)
      → KeepsAll s (sync_entry pg schema cascade e synced s)
  unfolding sync_entry
  entry_keeps schema cascade e synced s = KeepsAll-if _ s (done synced s) _ (Keeps-refl s) (
      KeepsAll-then_do s (create_table pg schema e.name e.create_query cascade s) _
        (AllOrNothing-KeepsAll s _
          (create_table-AllOrNothing pg schema e.name e.create_query cascade s))
        (λ b t. Keeps-refl t))

  entries_keep :
      (schema : Text) (cascade : Bool) (es : List Entry) (synced : Bool) (s : Session C)
      → KeepsAll s (sync_entries pg schema cascade es synced s)
  unfolding sync_entries
  entries_keep schema cascade [] synced s = Keeps-refl s
  entries_keep schema cascade (e ∷ es) synced s =
      KeepsAll-then_do s (sync_entry pg schema cascade e synced s) _
        (entry_keeps schema cascade e synced s) (λ b t. entries_keep schema cascade es b t)

  relations_keep :
      (target : Text) (cascade : Bool) (c : Schema) (synced : Bool) (s : Session C)
      → KeepsAll s (sync_relations pg target cascade c synced s)
  unfolding sync_relations
  relations_keep target cascade c synced s =
      KeepsAll-then_do s (sync_entries pg target cascade c.tables synced s) _
        (entries_keep target cascade c.tables synced s)
        (λ b u. entries_keep target cascade c.views b u)

  open_schema_keeps :
      (target : Text) (is_default_db cascade : Bool) (c : Schema) (synced : Bool) (s : Session C)
      → KeepsAll s (open_schema pg target is_default_db cascade c synced s)
  unfolding open_schema
  open_schema_keeps target is_default_db cascade c synced s =
      KeepsAll-then_do s (create_schema_if_not_exists pg target is_default_db s) _
        (schema_keeps target is_default_db s)
        (λ b t.
          KeepsAll-if (not b) t (done synced t) (sync_relations pg target cascade c synced t)
            (Keeps-refl t) (relations_keep target cascade c synced t))

  sync_schema_keeps :
      (db : Text) (is_default_db cascade : Bool) (c : Schema) (synced : Bool) (s : Session C)
      → KeepsAll s (sync_schema pg db is_default_db cascade c synced s)
  unfolding sync_schema
  sync_schema_keeps db is_default_db cascade c synced s =
      let target = pg_schema_name pg db c.name is_default_db in
      KeepsAll-if (is_skipped is_default_db c) s (done synced s)
        (open_schema pg target is_default_db cascade c synced s) (Keeps-refl s)
        (open_schema_keeps target is_default_db cascade c synced s)

  pub sync_schemas_keep :
      (db : Text) (is_default_db cascade : Bool) (cs : List Schema) (synced : Bool) (s : Session C)
      → KeepsAll s (sync_schemas pg db is_default_db cascade cs synced s)
  unfolding sync_schemas
  sync_schemas_keep db is_default_db cascade [] synced s = Keeps-refl s
  sync_schemas_keep db is_default_db cascade (c ∷ cs) synced s =
      KeepsAll-then_do s (sync_schema pg db is_default_db cascade c synced s) _
        (sync_schema_keeps db is_default_db cascade c synced s)
        (λ b t. sync_schemas_keep db is_default_db cascade cs b t)

  drop-Keeps :
      (name : Text) (kind : RelKind) (cascade : Bool) (s : Session C)
      → Keeps s (drop_qualified_relation pg name kind cascade s).0
  unfolding drop_qualified_relation
  drop-Keeps name kind cascade s = ground arith

  drop_each-Keeps :
      (cascade : Bool) (rows : List (Text × RelKind)) (s : Session C)
      → Keeps s (drop_each pg cascade rows s)
  unfolding drop_each
  drop_each-Keeps cascade [] s = Keeps-refl s
  drop_each-Keeps cascade ((name, kind) ∷ rows) s =
      Keeps-trans (drop-Keeps name kind cascade s) (drop_each-Keeps cascade rows _)

  pub drop_stale_keeps :
      (cascade : Bool) (rows : List (Text × RelKind)) (s : Session C)
      → KeepsAll s (drop_stale pg cascade rows s)
  unfolding drop_stale
  drop_stale_keeps cascade rows s =
      rw (KeepsAll, drop_batches-drop_each pg cascade (suc (length rows)) rows s (omega arith))
        (KeepsAll-trans (commit_session pg (drop_each pg cascade rows s))
          (drop_each-Keeps cascade rows s) (commit_keeps (drop_each pg cascade rows s)))
