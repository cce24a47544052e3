-- ===== src/Examples/Memories.antt =====
-- Detoasting, the cache of MotherDuck's server, and the shared session hint in concrete states.
use pg_duckdb.Common.{
  ◌≡◌, refl, Bool, true, false, none, some, [], ◌∷◌, ◌==◌, if◌then◌else◌, inl, inr,
}
use pg_duckdb.Detoast.{Toast, pglz, ondisk, detoast_postgres_datum}
use pg_duckdb.Detoast.Buffers.{content, Returns, detoast_postgres_datum-content}
use pg_duckdb.UserData.{Catalog, Who, Cache, is_motherduck_enabled}
use pg_duckdb.UserData.Coherence.{
  World, here, next, asks, IsCoherent, enabled_for, is_motherduck_enabled-enabled_for,
}
use pg_duckdb.Worker.Hints.{Backend, set_background_worker_state, possibly_reuse_bgw_session_hint}
use pg_duckdb.Worker.Hints.Exclusive as Hint

-- A toast table of one value, compressed by dropping its first byte.
abbrev toast : Toast
toast = record {
  fetch = λ toastrelid valueid attrsize. some (9 ∷ 8 ∷ []);
  method_of = λ value. pglz;
  pglz_decompress = λ value. some (8 ∷ 8 ∷ 8 ∷ []);
  lz4_decompress = λ value. none;
  use_lz4 = false;
}

detoast_postgres_datum-content_example :
    Returns
      (content toast (ondisk 1 2 2 true))
      0
      (detoast_postgres_datum toast 1 (ondisk 1 2 2 true) 0)
detoast_postgres_datum-content_example =
    detoast_postgres_datum-content toast 0 0 (ondisk 1 2 2 true) refl

-- A server for which user 10 has a mapping and user 11 has none.
abbrev catalog : Catalog
catalog = record {
  server_oid = 500;
  owner = 10;
  postgres_role_oid = 20;
  user_mapping_oid = λ user. if user == 10 then 600 else 0;
}

abbrev user_10 : Who
user_10 = record { is_background_worker = false; user_id = 10 }

abbrev empty_cache : Cache
empty_cache = record {
  valid = false;
  version = 0;
  motherduck_foreign_server_oid = 0;
  motherduck_postgres_role_oid = 0;
  motherduck_user_mapping_oid = 0;
  callback_is_configured = false;
}

abbrev at_start : World
at_start = record { catalog = catalog; cache = empty_cache }

abbrev asked : World
asked = record at_start { cache = (is_motherduck_enabled catalog user_10 empty_cache).0 }

at_start-IsCoherent : IsCoherent user_10 at_start
at_start-IsCoherent = record {
  blank = λ h. refl;
  hooked = λ h. cc;
  server_is = λ h. cc;
  mapping_is = λ h. cc;
}

is_motherduck_enabled-enabled_for_example :
    (is_motherduck_enabled catalog user_10 asked.cache).1 ≡ enabled_for catalog user_10
is_motherduck_enabled-enabled_for_example =
    is_motherduck_enabled-enabled_for user_10 at_start asked at_start-IsCoherent
      (next here (asks at_start))

abbrev backend : Bool → Backend
backend reused = record {
  is_background_worker = false;
  reused_bgw_session_hint = reused;
  set_up_unclaim_session_hint_hook = false;
  hooks = 0;
}

abbrev idle : Hint.Cluster
idle = record { shared = set_background_worker_state none; backends = λ i. backend false }

abbrev one_claims : Hint.Cluster
one_claims = record {
  shared = (possibly_reuse_bgw_session_hint idle.shared (idle.backends 3)).0;
  backends =
      Hint.update 3 (possibly_reuse_bgw_session_hint idle.shared (idle.backends 3)).1 idle.backends;
}

idle-IsExclusive : Hint.IsExclusive idle
idle-IsExclusive = record { at_most_one = λ i j. inr (inl refl); shows = λ i. inl refl }

Reach-IsExclusive_example : Hint.IsExclusive one_claims
Reach-IsExclusive_example =
    Hint.Reach-IsExclusive {s = idle} {t = one_claims} (Hint.next Hint.here (Hint.reuses idle 3))
      idle-IsExclusive
