-- ===== src/Worker/Sync/Atomic.antt =====
-- What `CreateTable` leaves behind, on every way out.
use pg_duckdb.Common.{◌+◌, ◌≡◌, ◌≢◌, Bool, true, false, not, Option, none, some, ◌>>=◌, arith}
use pg_duckdb.Worker.Sync.{
  Text, Relation, create_relation, drop_relation, Postgres, Session, Outcome, done, raised,
  create_table,
}

-- What every command keeps: the open subtransactions and the user.
pub record Keeps {C : Type 0} (s t : Session C) : Type 0 where
  pub same_saved : t.saved ≡ s.saved
  pub same_user : t.user ≡ s.user

-- The result of a command that was begun in `s`: a failure has changed nothing, and a success has
-- committed once; each leaves the stack of subtransactions and the user as they were.
abbrev pub AllOrNothing : {C : Type 0} → Session C → Outcome C → Type 0
AllOrNothing s (done false t) = t ≡ s
AllOrNothing s (done true t) = Keeps s t × (t.commits ≡ s.commits + 1)
AllOrNothing s (raised t) = Keeps s t

-- A relation that is there and not MotherDuck's.
abbrev pub is_foreign : Option Relation → Bool
is_foreign none = false
is_foreign (some r) = not r.motherduck

module _ {C : Type 0} (pg : Postgres C) where
  -- A CreateTable that fails has changed nothing, its drop of the old relation included; one that
  -- succeeds has committed once. Both, and an error, leave the open subtransactions and the user as
  -- they were.
  pub create_table-AllOrNothing :
      (schema name create_query : Text) (cascade : Bool) (s : Session C)
      → AllOrNothing s (create_table pg schema name create_query cascade s)
  unfolding create_table
  create_table-AllOrNothing schema name create_query cascade s = ground arith

  -- The new catalog, in terms of the commands alone: the old relation is dropped, if there is one, by the
  -- current user, and the new one created by MotherDuck's.
  pub replaced : Text → Text → Text → Bool → Session C → Option C
  replaced schema name create_query cascade s = elim (pg.relation s.catalog schema name) [
    | none ↦ pg.exec pg.motherduck_user (create_relation create_query) s.catalog
    | some r ↦
        (pg.exec s.user (drop_relation schema name r.kind cascade) s.catalog
          >>= pg.exec pg.motherduck_user (create_relation create_query))
  ]

  -- A CreateTable that succeeds has made exactly that catalog, in a namespace that is there, and the
  -- relation that it replaced was MotherDuck's.
  pub create_table-replaced :
      (schema name create_query : Text) (cascade : Bool) (s t : Session C)
      → create_table pg schema name create_query cascade s ≡ done true t
      → (replaced schema name create_query cascade s ≡ some t.catalog)
        × (pg.namespace_oid s.catalog schema ≢ none)
        × (is_foreign (pg.relation s.catalog schema name) ≡ false)
  unfolding create_table replaced
  create_table-replaced schema name create_query cascade s t h = ground arith
