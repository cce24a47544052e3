-- ===== src/Examples/Transactions.antt =====
-- Transactions at concrete states and settings.
use pg_duckdb.Common.{◌≡◌, inl, refl, true, false, not, ◌&&◌, List, [], ◌∷◌}
use pg_duckdb.Xact.{Xact, Env, no_ddl, abort, xact_callback, get_connection}
use pg_duckdb.Xact.MixedWrites.{
  Write, IsStrict, commits, commits_lem, has_duckdb, has_postgres, postgres, duckdb,
}
use pg_duckdb.Xact.TempTables.{apply_all, registers, unregisters, abort-apply_all}
use pg_duckdb.Xact.Savepoints.{Nested, Reach, here, next, connect, IsFlat, Reach-IsFlat}

abbrev in_block : Env
in_block = record {
  in_transaction_block = λ top. true;
  unsafe_allow_mixed = false;
  motherduck_sync = false;
  initialized = true;
  in_subtransaction = false;
  execution_allowed = true;
  commit_succeeds = true;
}

abbrev fresh : Xact
fresh = record {
  next_expected_command_id = 0;
  top_level_statement = true;
  force_allow_writes = false;
  modified_temporary = false;
  temporary = 7 ∷ [];
  temporary_old = [];
  executor_nest_level = 1;
  top_level_ddl_type = no_ddl;
  command_id = 0;
  duckdb_did_writes = false;
  active_transaction = false;
}

in_block-IsStrict : IsStrict in_block
in_block-IsStrict = record {
  in_block = λ top. refl;
  not_unsafe = refl;
  not_sync = refl;
  duckdb_runs = refl;
}

abbrev some_writes : List Write
some_writes = duckdb ∷ duckdb ∷ postgres ∷ []

commits_lem_example :
    commits in_block some_writes fresh ≡ not (has_postgres some_writes && has_duckdb some_writes)
commits_lem_example = commits_lem in_block some_writes fresh in_block-IsStrict refl refl refl refl

abort-apply_all_example :
    ((xact_callback in_block abort (apply_all (unregisters 7 ∷ registers 9 ∷ []) fresh)).0.temporary
      ≡ 7 ∷ [])
    × ((xact_callback in_block abort
          (apply_all (unregisters 7 ∷ registers 9 ∷ []) fresh)).0.modified_temporary
        ≡ false)
abort-apply_all_example =
    abort-apply_all in_block (unregisters 7 ∷ registers 9 ∷ []) fresh refl refl

abbrev at_top : Nested
at_top = record { xact = fresh; depth = 0 }

abbrev connected : Nested
connected = record at_top { xact = (get_connection in_block true fresh).0 }

connected-Reach : Reach at_top connected
connected-Reach =
    next here (connect at_top in_block true (record { runs = λ a. refl; sub_is = refl }))

Reach-IsFlat_example : IsFlat connected
Reach-IsFlat_example = Reach-IsFlat {s = at_top} {t = connected} connected-Reach (inl refl)
