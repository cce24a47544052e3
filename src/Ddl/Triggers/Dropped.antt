-- ===== src/Ddl/Triggers/Dropped.antt =====
-- What `duckdb_drop_trigger` leaves behind, and when it lets a DROP pass.
use pg_duckdb.Common.{
  ℕ, Bool, true, false, not, ◌&&◌, List, [], ◌∷◌, ltb, if◌then◌else◌, ◌≡◌, refl, sym, subst, inl,
  inr, Bool-cases, arith,
}
use pg_duckdb.Xact.{contains, erase, is_duckdb_temp_table}
use pg_duckdb.Worker.Sync.{Text}
use pg_duckdb.Sql.{Result, ok}
use pg_duckdb.Ddl.{
  Env, State, M, ◌>>◌, pure, modify, when, registered, spi_select, spi_write, duckdb_query,
}
use pg_duckdb.Ddl.Keeps.{
  Keeps, bind-Keeps, lift-Keeps, when-Keeps, tables_of, tables_of-OffXact, claim-Keeps,
  connect-Keeps, duckdb_query-Keeps_tables, continue-holds,
}
use pg_duckdb.Ddl.Triggers.Drop.{
  Dropped, Progress, is_relation, drops_relation, drops_object, drops_tracked, drops_temporary,
  count, select, untrack, nothing_dropped, one_more, send_drop, drop_text, temporary_text,
  drop_tracked, drop_temporary, drop_temporaries, drop_if_duckdb, forget_table, restore_top_level,
  finish_drops, drop_in_pg_temp, forwarded, check_counts, forward_drops, drop_relations,
  check_schemas, drop_counted, handle_dropped, drop_trigger,
}

-- No relation among the dropped objects is in duckdb.tables.
abbrev pub Untracked : List Dropped → List ℕ → Type 0
Untracked [] tables = Unit {0}
Untracked (d ∷ ds) tables =
    ((is_relation d.kind && contains d.objid tables) ≡ false) × Untracked ds tables

contains-erase : (o p : ℕ) (os : List ℕ) → contains o os ≡ false → contains o (erase p os) ≡ false
contains-erase o p [] h = refl
contains-erase o p (q ∷ os) h = ground (arith, contains-erase o p os)

contains-erase_self : (o : ℕ) (os : List ℕ) → contains o (erase o os) ≡ false
contains-erase_self o [] = refl
contains-erase_self o (q ∷ os) = ground (arith, contains-erase_self o os)

contains-untrack :
    (o : ℕ) (ds : List Dropped) (tables : List ℕ)
    → contains o tables ≡ false
    → contains o (untrack ds tables) ≡ false
unfolding untrack
contains-untrack o [] tables h = h
contains-untrack o (d ∷ ds) tables h = elim (Bool-cases (is_relation d.kind)) [
  | inl r ↦ rw r (contains-untrack o ds (erase d.objid tables) (contains-erase o d.objid tables h))
  | inr r ↦ rw r (contains-untrack o ds tables h)
]

untrack-Untracked : (ds : List Dropped) (tables : List ℕ) → Untracked ds (untrack ds tables)
unfolding untrack
untrack-Untracked [] tables = tt
untrack-Untracked (d ∷ ds) tables = elim (Bool-cases (is_relation d.kind)) [
  | inl r ↦ rw r (
    contains-untrack d.objid ds (erase d.objid tables) (contains-erase_self d.objid tables),
    untrack-Untracked ds (erase d.objid tables),
  )
  | inr r ↦ rw r (refl, untrack-Untracked ds tables)
]

none-Untracked :
    (ds : List Dropped) (tables : List ℕ)
    → ltb 0 (count drops_relation ds) ≡ false
    → Untracked ds tables
unfolding count
none-Untracked [] tables h = tt
none-Untracked (d ∷ ds) tables h = elim (Bool-cases (is_relation d.kind)) [
  | inl r ↦ absurd (ground arith)
  | inr r ↦ rw r (refl, none-Untracked ds tables (ground arith))
]

pure-Keeps : {A X : Type 0} {f : State → X} (a : A) → Keeps f (pure a)
pure-Keeps a = record { keeps = λ s. refl }

module _ (e : Env) where
  send_drop-Keeps_tables : (p : Progress) (r : Result Text) → Keeps tables_of (send_drop e p r)
  unfolding send_drop
  send_drop-Keeps_tables p r =
      bind-Keeps (when-Keeps (not p.connected) (connect-Keeps tables_of-OffXact e)) (λ u.
        bind-Keeps {g = λ t. duckdb_query e t >> pure (one_more p)} (lift-Keeps r) (λ t.
          bind-Keeps {g = λ v. pure (one_more p)} (duckdb_query-Keeps_tables e t)
            (λ v. pure-Keeps (one_more p))))

  drop_tracked-Keeps_tables :
      (p : Progress) (ds : List Dropped) → Keeps tables_of (drop_tracked e p ds)
  unfolding drop_tracked
  drop_tracked-Keeps_tables p [] = pure-Keeps p
  drop_tracked-Keeps_tables p (d ∷ ds) =
      bind-Keeps (send_drop-Keeps_tables p (drop_text e d)) (λ q. drop_tracked-Keeps_tables q ds)

  branch-Keeps :
      {A X : Type 0} (f : State → X) (b : Bool) (m n : M A)
      → Keeps f m
      → Keeps f n
      → (s : State) → f ((if b then m else n) s).0 ≡ f s
  branch-Keeps f true m n hm hn s = hm.keeps s
  branch-Keeps f false m n hm hn s = hn.keeps s

  forget_table-Keeps_tables : (o : ℕ) (q : Progress) → Keeps tables_of (forget_table o q)
  unfolding forget_table
  forget_table-Keeps_tables o q = record { keeps = λ s. refl }

  drop_temporary-Keeps_tables :
      (p : Progress) (d : Dropped) → Keeps tables_of (drop_temporary e p d)
  unfolding drop_temporary
  drop_temporary-Keeps_tables p d =
      bind-Keeps (send_drop-Keeps_tables p (temporary_text e d))
        (λ q. forget_table-Keeps_tables d.objid q)

  drop_if_duckdb-Keeps_tables :
      (p : Progress) (d : Dropped) → Keeps tables_of (drop_if_duckdb e p d)
  unfolding drop_if_duckdb
  drop_if_duckdb-Keeps_tables p d = record {
    keeps = λ s.
        branch-Keeps tables_of (is_duckdb_temp_table d.objid s.hooks.xact) (drop_temporary e p d)
          (pure p) (drop_temporary-Keeps_tables p d) (pure-Keeps p) s;
  }

  drop_temporaries-Keeps_tables :
      (p : Progress) (ds : List Dropped) → Keeps tables_of (drop_temporaries e p ds)
  unfolding drop_temporaries
  drop_temporaries-Keeps_tables p [] = pure-Keeps p
  drop_temporaries-Keeps_tables p (d ∷ ds) =
      bind-Keeps (drop_if_duckdb-Keeps_tables p d) (λ q. drop_temporaries-Keeps_tables q ds)

  check_counts-Keeps :
      {X : Type 0} (f : State → X) (deleted relations total : ℕ)
      → Keeps f (check_counts e deleted relations total)
  unfolding check_counts
  check_counts-Keeps f deleted relations total = record { keeps = λ s. ground arith }

  spi_select-Keeps_tables : Keeps tables_of (modify spi_select)
  unfolding spi_select
  spi_select-Keeps_tables = record { keeps = λ s. refl }

  restore-Keeps_tables : (b : Bool) → Keeps tables_of (modify (restore_top_level b))
  unfolding restore_top_level
  restore-Keeps_tables b = record { keeps = λ s. refl }

  finish_drops-Keeps_tables :
      (top : Bool) (objects : List Dropped) (q : Progress)
      → Keeps tables_of (finish_drops e top objects q)
  unfolding finish_drops
  finish_drops-Keeps_tables top objects q =
      bind-Keeps
        (bind-Keeps (restore-Keeps_tables top) (λ u.
          check_counts-Keeps tables_of q.deleted (count drops_relation objects)
            (count drops_object objects)))
        (λ v. when-Keeps (ltb 0 q.deleted) (claim-Keeps tables_of-OffXact e true))

  drop_in_pg_temp-Keeps_tables :
      (objects : List Dropped) (p : Progress) → Keeps tables_of (drop_in_pg_temp e objects p)
  unfolding drop_in_pg_temp
  drop_in_pg_temp-Keeps_tables objects p =
      bind-Keeps spi_select-Keeps_tables
        (λ u. drop_temporaries-Keeps_tables p (select drops_temporary objects))

  forward_drops-Keeps_tables :
      (top : Bool) (objects rows : List Dropped)
      → Keeps tables_of (forward_drops e top objects rows)
  unfolding forward_drops
  forward_drops-Keeps_tables top objects rows =
      bind-Keeps (drop_tracked-Keeps_tables nothing_dropped (forwarded e rows)) (λ p.
        bind-Keeps (drop_in_pg_temp-Keeps_tables objects p)
          (λ q. finish_drops-Keeps_tables top objects q))

  drop_relations-Untracked :
      (top : Bool) (objects : List Dropped) (s : State)
      → Untracked objects (drop_relations e top objects s).0.tables
  unfolding drop_relations spi_write
  drop_relations-Untracked top objects s =
      subst (Untracked objects)
        (sym (
          (forward_drops-Keeps_tables top objects (select (drops_tracked s.tables) objects)).keeps
            (spi_write (untrack objects s.tables) s)))
        (untrack-Untracked objects s.tables)

  when_relations-Untracked :
      (b top : Bool) (objects : List Dropped) (s : State)
      → ltb 0 (count drops_relation objects) ≡ b
      → Untracked objects (when b (drop_relations e top objects) s).0.tables
  when_relations-Untracked true top objects s h = drop_relations-Untracked top objects s
  when_relations-Untracked false top objects s h = none-Untracked objects s.tables h

  handle_dropped-Untracked :
      (objects : List Dropped) (s : State)
      → (handle_dropped e objects s).1 ≡ ok tt
      → Untracked objects (handle_dropped e objects s).0.tables
  unfolding handle_dropped drop_counted spi_select
  handle_dropped-Untracked objects s h =
      continue-holds (λ t. Untracked objects t.tables)
        (λ u. drop_counted e s.hooks.xact.top_level_statement objects) (check_schemas e objects s) h
        (λ u a eq k.
          when_relations-Untracked (ltb 0 (count drops_relation objects))
            s.hooks.xact.top_level_statement objects (spi_select u) refl)

  when_handled :
      (b : Bool) (objects : List Dropped) (u : State)
      → b ≡ true
      → (when b (handle_dropped e objects) u).1 ≡ ok tt
      → Untracked objects (when b (handle_dropped e objects) u).0.tables
  when_handled true objects u h k = handle_dropped-Untracked objects u k
  when_handled false objects u h k = cc

  -- After a drop trigger that went through, where the extension is installed, none of the dropped tables
  -- and views is in duckdb.tables any more.
  pub drop_trigger-Untracked :
      (objects : List Dropped) (s : State)
      → (registered e s).1 ≡ ok true
      → (drop_trigger e objects s).1 ≡ ok tt
      → Untracked objects (drop_trigger e objects s).0.tables
  unfolding drop_trigger
  drop_trigger-Untracked objects s ours h =
      continue-holds (λ t. Untracked objects t.tables) (λ b. when b (handle_dropped e objects))
        (registered e s) h (λ u b eq k. when_handled b objects u (ground arith) k)
