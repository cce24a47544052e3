-- ===== src/Worker/Sync/Schemas.antt =====
-- What `CreateSchemaIfNotExists` leaves behind.
use pg_duckdb.Common.{◌≡◌, Bool, none, arith}
use pg_duckdb.Worker.Sync.{Text, Postgres, Session, create_schema_if_not_exists}
use pg_duckdb.Worker.Sync.Atomic.{AllOrNothing}

module _ {C : Type 0} (pg : Postgres C) where
  -- Where a schema is not there, a CreateSchemaIfNotExists that fails has changed nothing, and one that
  -- succeeds has committed once. Both, and an error, leave the open subtransactions and the user as
  -- they were.
  pub create_schema_if_not_exists-AllOrNothing :
      (schema : Text) (is_default_db : Bool) (s : Session C)
      → pg.namespace_oid s.catalog schema ≡ none
      → AllOrNothing s (create_schema_if_not_exists pg schema is_default_db s)
  unfolding create_schema_if_not_exists
  create_schema_if_not_exists-AllOrNothing schema is_default_db s h = ground arith
