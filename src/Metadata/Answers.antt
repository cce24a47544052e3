-- ===== src/Metadata/Answers.antt =====
-- The cached answers beside the catalog's.
use pg_duckdb.Common.{
  ℕ, ◌≡◌, refl, ap, ◌≢◌, ◌⊎◌, inl, inr, ◌∙◌, ℕ_discrete, true, not, Option, none, some, ◌==◌, arith,
}
use pg_duckdb.Metadata.{
  Catalog, Session, Cache, is_extension_registered, initialize, invalid_oid,
  build_duckdb_only_functions, function_names, is_duckdb_only_function, Relation, is_duckdb_table,
  postgres_role,
}
use pg_duckdb.Metadata.Functions.{is_ours, contains-build}
use pg_duckdb.Metadata.Versions.{
  World, Step, changes, role_changes, notifies, goes_on, asks, Reach, here, next, notified,
}

-- What a valid cache knows is what the catalog says, and its callback is registered under the hash of
-- the schema's name.
pub record IsCoherent (pg : Catalog) (c : Cache) : Type 0 where
  pub hooked : c.valid ≡ true → c.callback_is_configured ≡ true
  pub hash_is : c.callback_is_configured ≡ true → c.schema_hash_value ≡ pg.schema_hash
  pub installed_is : c.valid ≡ true → c.installed ≡ not (pg.extension_oid == invalid_oid)
  pub functions_are :
      c.valid ≡ true
      → c.installed ≡ true
      → c.duckdb_only_functions ≡ build_duckdb_only_functions pg pg.extension_oid function_names
  pub table_am_is : c.valid ≡ true → c.installed ≡ true → c.table_am_oid ≡ pg.table_am_oid
  pub role_is : c.valid ≡ true → c.installed ≡ true → c.postgres_role_oid ≢ invalid_oid

changes-IsCoherent :
    (pg qg : Catalog) (c : Cache)
    → qg.schema_hash ≡ pg.schema_hash
    → IsCoherent pg c
    → IsCoherent qg (notified qg.schema_hash c)
unfolding notified
changes-IsCoherent pg qg c e i = ground arith

notified-IsCoherent :
    (pg : Catalog) (c : Cache) (hash_value : ℕ)
    → IsCoherent pg c
    → IsCoherent pg (notified hash_value c)
unfolding notified
notified-IsCoherent pg c hash_value i = ground arith

role_changes-IsCoherent :
    (pg : Catalog) (role : Option ℕ) (c : Cache)
    → IsCoherent pg c
    → IsCoherent (record pg { configured_role = role }) c
unfolding build_duckdb_only_functions
role_changes-IsCoherent pg role c i = record {
  hooked = i.hooked;
  hash_is = i.hash_is;
  installed_is = i.installed_is;
  functions_are = i.functions_are;
  table_am_is = i.table_am_is;
  role_is = i.role_is;
}

postgres_role-valid : (role : Option ℕ) → postgres_role role ≢ invalid_oid
unfolding postgres_role
postgres_role-valid none = ground arith
postgres_role-valid (some role) = ground arith

initialize-IsCoherent :
    (pg : Catalog) (c : Cache) → IsCoherent pg c → IsCoherent pg (initialize pg c).0
unfolding initialize
initialize-IsCoherent pg c i = ground (arith, postgres_role-valid pg.configured_role)

asked-IsCoherent :
    (pg : Catalog) (session : Session) (c : Cache)
    → IsCoherent pg c
    → IsCoherent pg (is_extension_registered pg session c).0
unfolding is_extension_registered
asked-IsCoherent pg session c i = ground (arith, initialize-IsCoherent pg c i)

Step-IsCoherent :
    (s t : World) → Step s t → IsCoherent s.catalog s.cache → IsCoherent t.catalog t.cache
Step-IsCoherent s t (changes _ pg e) i = changes-IsCoherent s.catalog pg s.cache e i
Step-IsCoherent s t (role_changes _ role) i = role_changes-IsCoherent s.catalog role s.cache i
Step-IsCoherent s t (notifies _ hash_value) i = notified-IsCoherent s.catalog s.cache hash_value i
Step-IsCoherent s t (goes_on _ user_data runs) i = ground arith
Step-IsCoherent s t (asks _ session h) i = asked-IsCoherent s.catalog session s.cache i

Reach-IsCoherent :
    (s t : World) → Reach s t → IsCoherent s.catalog s.cache → IsCoherent t.catalog t.cache
Reach-IsCoherent s t here i = i
Reach-IsCoherent s t (next r st) i = Step-IsCoherent _ t st (Reach-IsCoherent s _ r i)

asked-installed :
    (pg : Catalog) (session : Session) (c : Cache)
    → (is_extension_registered pg session c).0.valid ≡ true
    → (is_extension_registered pg session c).1
      ≡ some (is_extension_registered pg session c).0.installed
unfolding is_extension_registered initialize
asked-installed pg session c h = ground arith

-- What the other modules are told of the functions and tables of an installed extension.
pub record Tells (pg : Catalog) (c : Cache) : Type 0 where
  pub functions : (o : ℕ) → is_duckdb_only_function o c ≡ is_ours pg o
  pub tables : (r : Relation) → is_duckdb_table r c ≡ (r.relam == pg.table_am_oid)
  pub role_is_valid : c.postgres_role_oid ≢ invalid_oid

coherent-Tells :
    (pg : Catalog) (c : Cache) → IsCoherent pg c → c.valid ≡ true → c.installed ≡ true → Tells pg c
unfolding is_duckdb_only_function is_duckdb_table
coherent-Tells pg c i v h = record {
  functions = λ o. rw (i.functions_are v h) (contains-build pg pg.extension_oid o function_names);
  tables = λ r. rw (i.table_am_is v h) refl;
  role_is_valid = i.role_is v h;
}

-- However the extension has come and gone, if each change of it brought the invalidation of its schema,
-- and however the roles have changed, which brings none: where IsExtensionRegistered leaves a valid
-- cache, it answers whether the extension is installed now, and of an installed one the cache tells
-- which functions are its own and which tables are of its access method, and holds a role that is not
-- the invalid one.
pub is_extension_registered-Tells :
    (s t : World) (session : Session)
    → IsCoherent s.catalog s.cache
    → Reach s t
    → (is_extension_registered t.catalog session t.cache).0.valid ≡ true
    → ((is_extension_registered t.catalog session t.cache).1
        ≡ some (not (t.catalog.extension_oid == invalid_oid)))
      × ((t.catalog.extension_oid ≡ invalid_oid)
          ⊎ Tells t.catalog (is_extension_registered t.catalog session t.cache).0)
is_extension_registered-Tells s t session i r v =
    let j = asked-IsCoherent t.catalog session t.cache (Reach-IsCoherent s t r i) in
    let answer = asked-installed t.catalog session t.cache v in
    (
      answer ∙ ap some (j.installed_is v),
      elim (ℕ_discrete t.catalog.extension_oid invalid_oid) [
        | yes e ↦ inl e
        | no n ↦ inr (coherent-Tells t.catalog _ j v (j.installed_is v ∙ ground arith))
      ],
    )
