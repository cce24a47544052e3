-- ===== src/Metadata/Stuck.antt =====
-- After an error in the initialization.
use pg_duckdb.Common.{◌≡◌, true, false, none, some, arith}
use pg_duckdb.Metadata.{Catalog, Session, ready, Cache, is_extension_registered, initialize}
use pg_duckdb.Metadata.Versions.{
  World, Step, changes, role_changes, notifies, goes_on, asks, Reach, here, next, notified,
}

-- Initializing, for good.
record IsStuck (c : Cache) : Type 0 where
  invalid : c.valid ≡ false
  busy : c.initializing ≡ true

stuck-answers :
    (pg : Catalog) (c : Cache) → IsStuck c → is_extension_registered pg ready c ≡ (c, some false)
unfolding is_extension_registered
stuck-answers pg c i = ground arith

asked-IsStuck :
    (pg : Catalog) (session : Session) (c : Cache)
    → IsStuck c
    → IsStuck (is_extension_registered pg session c).0
unfolding is_extension_registered
asked-IsStuck pg session c i = ground arith

Step-IsStuck : (s t : World) → Step s t → IsStuck s.cache → IsStuck t.cache
unfolding notified
Step-IsStuck s t (changes _ pg e) i = ground arith
Step-IsStuck s t (role_changes _ role) i = i
Step-IsStuck s t (notifies _ hash_value) i = ground arith
Step-IsStuck s t (goes_on _ user_data runs) i = ground arith
Step-IsStuck s t (asks _ session h) i = asked-IsStuck s.catalog session s.cache i

Reach-IsStuck : (s t : World) → Reach s t → IsStuck s.cache → IsStuck t.cache
Reach-IsStuck s t here i = i
Reach-IsStuck s t (next r st) i = Step-IsStuck _ t st (Reach-IsStuck s _ r i)

failed-IsStuck :
    (pg : Catalog) (c : Cache)
    → (is_extension_registered pg ready c).1 ≡ none
    → IsStuck (is_extension_registered pg ready c).0
unfolding is_extension_registered initialize
failed-IsStuck pg c h = ground arith

-- Once an error has ended an initialization, the extension counts as not registered for the rest of
-- the session, whatever becomes of the catalog and however often the cache is invalidated.
pub failed-never_registered :
    (pg : Catalog) (c : Cache) (t : World)
    → (is_extension_registered pg ready c).1 ≡ none
    → Reach (record { catalog = pg; cache = (is_extension_registered pg ready c).0 }) t
    → is_extension_registered t.catalog ready t.cache ≡ (t.cache, some false)
failed-never_registered pg c t h r =
    stuck-answers t.catalog t.cache (Reach-IsStuck _ t r (failed-IsStuck pg c h))
