-- ===== src/Ddl/Triggers/Syncing.antt =====
-- `duckdb_drop_trigger` while the background worker syncs the catalog of MotherDuck.
use pg_duckdb.Common.{Bool, true, List, [], ◌∷◌, ltb, ◌≡◌, refl, arith}
use pg_duckdb.Ddl.{Env, State, modify, registered, spi_select, spi_write}
use pg_duckdb.Ddl.Keeps.{Keeps, bind-Keeps, when-Keeps, sent_of, sent_of-OffXact, claim-Keeps}
use pg_duckdb.Ddl.Triggers.Drop.{
  Dropped, Progress, drops_relation, drops_object, drops_tracked, drops_temporary, count, select,
  untrack, nothing_dropped, drop_tracked, drop_temporaries, check_counts, restore_top_level,
  finish_drops, drop_in_pg_temp, forwarded, forward_drops, drop_relations, drop_counted,
  handle_dropped, drop_trigger,
}
use pg_duckdb.Ddl.Triggers.Mixed.{check_schemas-Keeps_sent}

module _ (e : Env) where
  drop_none : (p : Progress) (ds : List Dropped) → ds ≡ [] → Keeps sent_of (drop_tracked e p ds)
  unfolding drop_tracked
  drop_none p [] h = record { keeps = λ s. refl }
  drop_none p (d ∷ ds) h = cc

  drop_no_temporaries :
      (p : Progress) (ds : List Dropped) → ds ≡ [] → Keeps sent_of (drop_temporaries e p ds)
  unfolding drop_temporaries
  drop_no_temporaries p [] h = record { keeps = λ s. refl }
  drop_no_temporaries p (d ∷ ds) h = cc

  spi_select-Keeps : Keeps sent_of (modify spi_select)
  unfolding spi_select
  spi_select-Keeps = record { keeps = λ s. refl }

  restore-Keeps : (b : Bool) → Keeps sent_of (modify (restore_top_level b))
  unfolding restore_top_level
  restore-Keeps b = record { keeps = λ s. refl }

  check_counts-Keeps :
      (objects : List Dropped) (q : Progress)
      → Keeps sent_of
          (check_counts e q.deleted (count drops_relation objects) (count drops_object objects))
  unfolding check_counts
  check_counts-Keeps objects q = record { keeps = λ s. ground arith }

  finish_drops-Keeps :
      (top : Bool) (objects : List Dropped) (q : Progress)
      → Keeps sent_of (finish_drops e top objects q)
  unfolding finish_drops
  finish_drops-Keeps top objects q =
      bind-Keeps (bind-Keeps (restore-Keeps top) (λ u. check_counts-Keeps objects q))
        (λ v. when-Keeps (ltb 0 q.deleted) (claim-Keeps sent_of-OffXact e true))

  registered-Keeps : Keeps sent_of (registered e)
  unfolding registered
  registered-Keeps = record { keeps = λ s. ground arith }

  module _ (sync : e.copy.hooks.xact.motherduck_sync ≡ true) (objects : List Dropped)
      (no_temporaries : select drops_temporary objects ≡ []) where
    forwarded-nil : (rows : List Dropped) → forwarded e rows ≡ []
    forwarded-nil rows = ground arith

    drop_in_pg_temp-Keeps : (p : Progress) → Keeps sent_of (drop_in_pg_temp e objects p)
    unfolding drop_in_pg_temp
    drop_in_pg_temp-Keeps p =
        bind-Keeps spi_select-Keeps
          (λ u. drop_no_temporaries p (select drops_temporary objects) no_temporaries)

    forward_drops-Keeps :
        (top : Bool) (rows : List Dropped) → Keeps sent_of (forward_drops e top objects rows)
    unfolding forward_drops
    forward_drops-Keeps top rows =
        bind-Keeps (drop_none nothing_dropped (forwarded e rows) (forwarded-nil rows))
          (λ p. bind-Keeps (drop_in_pg_temp-Keeps p) (λ q. finish_drops-Keeps top objects q))

    drop_relations-Keeps : (top : Bool) → Keeps sent_of (drop_relations e top objects)
    unfolding drop_relations spi_write spi_select
    drop_relations-Keeps top = record {
      keeps = λ s.
          (forward_drops-Keeps top (select (drops_tracked s.tables) objects)).keeps
            (spi_write (untrack objects s.tables) s);
    }

    drop_counted-Keeps : (top : Bool) → Keeps sent_of (drop_counted e top objects)
    unfolding drop_counted
    drop_counted-Keeps top =
        bind-Keeps spi_select-Keeps
          (λ u. when-Keeps (ltb 0 (count drops_relation objects)) (drop_relations-Keeps top))

    handle_dropped-Keeps : Keeps sent_of (handle_dropped e objects)
    unfolding handle_dropped
    handle_dropped-Keeps = record {
      keeps = λ s.
          (bind-Keeps (check_schemas-Keeps_sent e objects)
              (λ u. drop_counted-Keeps s.hooks.xact.top_level_statement)).keeps
            s;
    }

    -- In a sync a drop trigger sends nothing to DuckDB, whatever tables and views of MotherDuck were
    -- dropped, if no temporary table at all was dropped, of DuckDB or of Postgres.
    pub drop_trigger-syncing : (s : State) → (drop_trigger e objects s).0.sent ≡ s.sent
    unfolding drop_trigger
    drop_trigger-syncing s =
        (bind-Keeps registered-Keeps (λ b. when-Keeps b handle_dropped-Keeps)).keeps s
