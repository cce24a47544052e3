-- ===== src/UserData/Coherence.antt =====
-- The cached answer beside the catalog's.
use pg_duckdb.Common.{◌≡◌, Bool, true, false, not, ◌&&◌, ◌==◌, if◌then◌else◌, arith}
use pg_duckdb.UserData.{Catalog, Who, Cache, invalid_oid, is_motherduck_enabled, invalidate_cache}

-- What the answer should be.
abbrev pub enabled_for : Catalog → Who → Bool
enabled_for pg w =
    not (pg.server_oid == invalid_oid)
    && not (
        pg.user_mapping_oid (if w.is_background_worker then pg.owner else w.user_id) == invalid_oid)

pub record World : Type 0 where
  pub catalog : Catalog
  pub cache : Cache

-- A change of the foreign servers or user mappings brings the callback; `who` is the same throughout.
pub data Step (w : Who) : World → World → Type 0 where
  changes :
      (s : World) (pg : Catalog)
      → Step w s (record { catalog = pg; cache = invalidate_cache s.cache })
  asks : (s : World) → Step w s (record s { cache = (is_motherduck_enabled s.catalog w s.cache).0 })

pub data Reach (w : Who) (s : World) : World → Type 0 where
  here : Reach w s s
  next : {t u : World} → Reach w s t → Step w t u → Reach w s u

-- A cache that is not valid is blank; one that is valid has its callback and the catalog's answers.
pub record IsCoherent (w : Who) (s : World) : Type 0 where
  pub blank : s.cache.valid ≡ false → s.cache.motherduck_user_mapping_oid ≡ invalid_oid
  pub hooked : s.cache.valid ≡ true → s.cache.callback_is_configured ≡ true
  pub server_is :
      s.cache.valid ≡ true → s.cache.motherduck_foreign_server_oid ≡ s.catalog.server_oid
  pub mapping_is :
      s.cache.valid ≡ true
      → (not (s.cache.motherduck_foreign_server_oid == invalid_oid)
          && not (s.cache.motherduck_user_mapping_oid == invalid_oid))
        ≡ enabled_for s.catalog w

Step-IsCoherent : {w : Who} {s t : World} → Step w s t → IsCoherent w s → IsCoherent w t
unfolding is_motherduck_enabled invalidate_cache
Step-IsCoherent {w = w} (changes s pg) i = ground arith
Step-IsCoherent {w = w} (asks s) i = ground arith

pub Reach-IsCoherent : {w : Who} {s t : World} → Reach w s t → IsCoherent w s → IsCoherent w t
Reach-IsCoherent here i = i
Reach-IsCoherent (next r st) i = Step-IsCoherent st (Reach-IsCoherent r i)

-- However the servers and mappings have changed, and whenever the cache was filled: as long as the
-- user has stayed the same, `IsMotherDuckEnabled` answers as the catalog does at that moment.
pub is_motherduck_enabled-enabled_for :
    (w : Who) (s t : World)
    → IsCoherent w s
    → Reach w s t
    → (is_motherduck_enabled t.catalog w t.cache).1 ≡ enabled_for t.catalog w
unfolding is_motherduck_enabled
is_motherduck_enabled-enabled_for w s t i r = let c = Reach-IsCoherent r i in ground arith

-- A cache that is valid answers every user of the backend alike, whoever it was filled for.
pub is_motherduck_enabled-any_user :
    (pg : Catalog) (w v : Who) (c : Cache)
    → c.valid ≡ true
    → is_motherduck_enabled pg w c ≡ is_motherduck_enabled pg v c
unfolding is_motherduck_enabled
is_motherduck_enabled-any_user pg w v c h = ground arith
