-- ===== src/Metadata/Versions.antt =====
-- The cache as a session goes on: the steps that it sees, and its version.
use pg_duckdb.Common.{ℕ, ◌+◌, ◌^◌, ◌≤◌, ◌<◌, ◌≡◌, Bool, true, Option, if◌then◌else◌, arith}
use pg_duckdb.UserData
use pg_duckdb.Metadata.{
  Catalog, Session, Cache, invalidate_caches, is_extension_registered, initialize,
}

pub record World : Type 0 where
  pub catalog : Catalog
  pub cache : Cache

-- Postgres calls InvalidateCaches once it is registered.
unfoldable pub notified : ℕ → Cache → Cache
unfolding invalidate_caches
notified hash_value c = if c.callback_is_configured then invalidate_caches hash_value c else c

-- What the cache of the user's data and the DuckDB instance go through meanwhile.
abbrev pub elsewhere : UserData.Cache → Bool → Cache → Cache
elsewhere user_data runs c = record c { user_data = user_data; duckdb_runs = runs }

-- A change of the extension touches the schema, and so brings its callback; the callback may also come
-- for nothing, and for other schemas. The version does not wrap around.
pub data Step : World → World → Type 0 where
  changes :
      (s : World) (pg : Catalog)
      → pg.schema_hash ≡ s.catalog.schema_hash
      → Step s (record { catalog = pg; cache = notified pg.schema_hash s.cache })
  -- CREATE ROLE and DROP ROLE do not touch the schema.
  role_changes :
      (s : World) (role : Option ℕ)
      → Step s (record s { catalog = record s.catalog { configured_role = role } })
  notifies :
      (s : World) (hash_value : ℕ) → Step s (record s { cache = notified hash_value s.cache })
  goes_on :
      (s : World) (user_data : UserData.Cache) (runs : Bool)
      → Step s (record s { cache = elsewhere user_data runs s.cache })
  asks :
      (s : World) (session : Session)
      → s.cache.version + 1 < 2 ^ 64
      → Step s (record s { cache = (is_extension_registered s.catalog session s.cache).0 })

pub data Reach (s : World) : World → Type 0 where
  here : Reach s s
  next : {t u : World} → Reach s t → Step t u → Reach s u

-- Since `s`, the version has not gone down; a cache that is valid and of the same version is what it
-- was, in what is not the user's data.
pub record IsLater (s t : Cache) : Type 0 where
  pub not_down : s.version ≤ t.version
  pub same : s.version ≡ t.version → t.valid ≡ true → elsewhere t.user_data t.duckdb_runs s ≡ t

notified-IsLater : (s t : Cache) (hash_value : ℕ) → IsLater s t → IsLater s (notified hash_value t)
unfolding notified
notified-IsLater s t hash_value l = ground arith

initialize-IsLater :
    (pg : Catalog) (s t : Cache)
    → t.version + 1 < 2 ^ 64
    → IsLater s t
    → IsLater s (initialize pg t).0
unfolding initialize
initialize-IsLater pg s t h l = ground arith

asked-IsLater :
    (pg : Catalog) (session : Session) (s t : Cache)
    → t.version + 1 < 2 ^ 64
    → IsLater s t
    → IsLater s (is_extension_registered pg session t).0
unfolding is_extension_registered
asked-IsLater pg session s t h l = ground (arith, initialize-IsLater pg s t h l)

Step-IsLater : (s : Cache) (t u : World) → Step t u → IsLater s t.cache → IsLater s u.cache
Step-IsLater s t u (changes _ pg e) l = notified-IsLater s t.cache pg.schema_hash l
Step-IsLater s t u (role_changes _ role) l = l
Step-IsLater s t u (notifies _ hash_value) l = notified-IsLater s t.cache hash_value l
Step-IsLater s t u (goes_on _ user_data runs) l = ground arith
Step-IsLater s t u (asks _ session h) l = asked-IsLater t.catalog session s t.cache h l

-- As a session goes on, the version of the metadata cache never goes down, and wherever the cache is
-- valid under the version that it had before, it is the same cache as it was then, the user's data and
-- the DuckDB instance aside; the version stays below 2 ^ 64.
pub Reach-IsLater : (s t : World) → Reach s t → IsLater s.cache t.cache
Reach-IsLater s t here = ground arith
Reach-IsLater s t (next r st) = Step-IsLater s.cache _ t st (Reach-IsLater s _ r)
