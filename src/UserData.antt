-- ===== src/UserData.antt =====
-- The cache of MotherDuck's server, role and user mapping, src/pgduckdb_userdata_cache.cpp. What the
-- Postgres catalog says is a record of answers; starting the background worker is left out, and
-- assertions are too.
use pg_duckdb.Common.{
  ℕ, zero, suc, ◌+◌, ◌≡◌, refl, ap, ◌∙◌, Bool, true, false, not, ◌&&◌, ◌||◌, Option, none, some,
  ◌==◌, if◌then◌else◌, arith,
}
pub mod Coherence

abbrev pub invalid_oid : ℕ
invalid_oid = 0

-- FindMotherDuckForeignServerOid, the server's owner, GetMotherDuckPostgresRoleOid, and
-- FindUserMappingOid for a user and a server.
pub record Catalog : Type 0 where
  pub server_oid : ℕ
  pub owner : ℕ
  pub postgres_role_oid : ℕ
  pub user_mapping_oid : ℕ → ℕ

-- is_background_worker and GetUserId()
pub record Who : Type 0 where
  pub is_background_worker : Bool
  pub user_id : ℕ

pub record Cache : Type 0 where
  pub valid : Bool
  pub version : ℕ
  pub motherduck_foreign_server_oid : ℕ
  pub motherduck_postgres_role_oid : ℕ
  pub motherduck_user_mapping_oid : ℕ
  pub callback_is_configured : Bool

unfoldable pub invalidate_user_data_cache : Cache → Cache
invalidate_user_data_cache c = if not c.valid then c else record c {
  valid = false;
  motherduck_foreign_server_oid = invalid_oid;
  motherduck_postgres_role_oid = invalid_oid;
  motherduck_user_mapping_oid = invalid_oid;
}

unfoldable pub load_motherduck_cache : Catalog → Who → Cache → Cache
load_motherduck_cache pg w c =
    let d : Cache = record c { motherduck_foreign_server_oid = pg.server_oid } in
    let user_mapping_user_oid = if w.is_background_worker then pg.owner else w.user_id in
    if pg.server_oid == invalid_oid then d else record d {
      motherduck_postgres_role_oid = pg.postgres_role_oid;
      motherduck_user_mapping_oid = pg.user_mapping_oid user_mapping_user_oid;
    }

unfoldable pub init_user_data_cache : Catalog → Who → Cache → Cache
unfolding load_motherduck_cache
init_user_data_cache pg w c =
    let d : Cache = load_motherduck_cache pg w (record c { callback_is_configured = true }) in
    if c.valid then c else record d { valid = true }

unfoldable pub is_motherduck_enabled : Catalog → Who → Cache → Cache × Bool
unfolding init_user_data_cache
is_motherduck_enabled pg w c =
    let d = init_user_data_cache pg w c in
    (
      d,
      not (d.motherduck_foreign_server_oid == invalid_oid)
          && not (d.motherduck_user_mapping_oid == invalid_oid),
    )

-- InvalidateCache, which Postgres calls once it has been registered.
unfoldable pub invalidate_cache : Cache → Cache
unfolding invalidate_user_data_cache
invalidate_cache c = if c.callback_is_configured then invalidate_user_data_cache c else c
