-- ===== src/Worker/Sync/Loop/Databases.antt =====
-- The loop over the databases.
use pg_duckdb.Common.{
  ◌≡◌, refl, ap, ◌∙◌, sym, Bool, true, false, List, [], ◌∷◌, arith, Bool-cases, inl, inr,
}
use pg_duckdb.Worker.Sync.{Text, Postgres, Session, Outcome, done, raised}
use pg_duckdb.Worker.Sync.Loop.{
  Database, Memory, eq_text, lookup, drop_stale, sync_database, sync_databases, visit_database,
  close_database, finish_database, remember, then_next,
}
use pg_duckdb.Worker.Sync.Loop.Keeping.{
  Keeps-refl, KeepsAll, KeepsAll-trans, drop_stale_keeps, sync_schemas_keep,
}

module _ {C : Type 0} (pg : Postgres C) where
  close_keeps :
      (n : Memory) (s : Session C) (o : Outcome C)
      → KeepsAll s o
      → KeepsAll s (close_database pg n o).0
  close_keeps n s (raised u) k = k
  close_keeps n s (done b u) k = k

  finish_keeps :
      (default_db : Text) (cascade : Bool) (db : Database) (n : Memory) (s : Session C)
      (o : Outcome C)
      → KeepsAll s o
      → KeepsAll s (finish_database pg default_db cascade db n o).0
  finish_keeps default_db cascade db n s (raised t) k = k
  finish_keeps default_db cascade db n s (done false t) k = k
  finish_keeps default_db cascade db n s (done true t) k =
      let rows = pg.stale_relations t.catalog db.alias db.version default_db in
      close_keeps n s (drop_stale pg cascade rows t)
        (KeepsAll-trans (drop_stale pg cascade rows t) k (drop_stale_keeps pg cascade rows t))

  sync_database_keeps :
      (default_db : Text) (cascade : Bool) (db : Database) (m : Memory) (s : Session C)
      → KeepsAll s (sync_database pg default_db cascade db m s).0
  unfolding sync_database
  sync_database_keeps default_db cascade db m s =
      finish_keeps default_db cascade db (remember pg db m) s _
        (sync_schemas_keep pg db.alias (eq_text db.alias default_db) cascade db.schemas true s)

  visit_keeps :
      (default_db : Text) (cascade : Bool) (db : Database) (m : Memory) (s : Session C)
      → KeepsAll s (visit_database pg default_db cascade db m s).0
  unfolding visit_database
  visit_keeps default_db cascade db m s =
      elim (Bool-cases (eq_text (lookup db.alias m.known) db.version)) [
        | inl same ↦ rw (KeepsAll, same) (Keeps-refl s)
        | inr differs ↦ rw (KeepsAll, differs) (sync_database_keeps default_db cascade db m s)
      ]

  next_keeps :
      (s : Session C) (r : Outcome C × Memory) (f : Memory → Session C → Outcome C × Memory)
      → KeepsAll s r.0
      → ((n : Memory) (t : Session C) → KeepsAll t (f n t).0)
      → KeepsAll s (then_next pg r f).0
  next_keeps s (raised t, n) f k l = k
  next_keeps s (done b t, n) f k l = KeepsAll-trans (f n t).0 k (l n t)

  -- Whatever happens, an error on the way out included, the whole sync leaves the open
  -- subtransactions and the current user as they were.
  pub sync_databases_keep :
      (default_db : Text) (cascade : Bool) (dbs : List Database) (m : Memory) (s : Session C)
      → KeepsAll s (sync_databases pg default_db cascade dbs m s).0
  unfolding sync_databases
  sync_databases_keep default_db cascade [] m s = Keeps-refl s
  sync_databases_keep default_db cascade (db ∷ dbs) m s =
      next_keeps s (visit_database pg default_db cascade db m s) _
        (visit_keeps default_db cascade db m s)
        (λ n t. sync_databases_keep default_db cascade dbs n t)

-- No database comes up twice.
abbrev pub IsFresh : Text → List Database → Type 0
IsFresh alias [] = Unit {0}
IsFresh alias (db ∷ dbs) = (eq_text db.alias alias ≡ false) × IsFresh alias dbs

abbrev pub AreDistinct : List Database → Type 0
AreDistinct [] = Unit {0}
AreDistinct (db ∷ dbs) = IsFresh db.alias dbs × AreDistinct dbs

abbrev IsKnown : Memory → Database → Type 0
IsKnown m db = eq_text (lookup db.alias m.known) db.version ≡ true

abbrev AreKnown : Memory → List Database → Type 0
AreKnown m [] = Unit {0}
AreKnown m (db ∷ dbs) = IsKnown m db × AreKnown m dbs

eq_text_refl : (a : Text) → eq_text a a ≡ true
eq_text_refl [] = refl
eq_text_refl (c ∷ cs) = ground (arith, eq_text_refl cs)

module _ {C : Type 0} (pg : Postgres C) (default_db : Text) (cascade : Bool) where
  all_known :
      (dbs : List Database) (m : Memory) (s : Session C)
      → AreKnown m dbs
      → sync_databases pg default_db cascade dbs m s ≡ (done true s, m)
  unfolding sync_databases visit_database
  all_known [] m s k = refl
  all_known (db ∷ dbs) m s k = rw (k.0, then_next) (all_known dbs m s k.1)

  close_known : (n : Memory) (o : Outcome C) → (close_database pg n o).1.known ≡ n.known
  close_known n (raised u) = refl
  close_known n (done b u) = refl

  finish_known :
      (db : Database) (n : Memory) (o : Outcome C)
      → (finish_database pg default_db cascade db n o).1.known ≡ n.known
  finish_known db n (raised t) = refl
  finish_known db n (done false t) = refl
  finish_known db n (done true t) = close_known n _

  sync_database_known :
      (db : Database) (m : Memory) (s : Session C)
      → (sync_database pg default_db cascade db m s).1.known ≡ (db.alias, db.version) ∷ m.known
  unfolding sync_database
  sync_database_known db m s = finish_known db (remember pg db m) _

  visit-IsKnown :
      (db : Database) (m : Memory) (s : Session C)
      → IsKnown (visit_database pg default_db cascade db m s).1 db
  unfolding visit_database
  visit-IsKnown db m s = elim (Bool-cases (eq_text (lookup db.alias m.known) db.version)) [
    | inl same ↦ rw same same
    | inr differs ↦
        rw (differs, sync_database_known db m s, eq_text_refl db.alias) (eq_text_refl db.version)
  ]

  visit_other :
      (db : Database) (alias : Text) (m : Memory) (s : Session C)
      → eq_text db.alias alias ≡ false
      → lookup alias (visit_database pg default_db cascade db m s).1.known ≡ lookup alias m.known
  unfolding visit_database
  visit_other db alias m s other =
      elim (Bool-cases (eq_text (lookup db.alias m.known) db.version)) [
        | inl same ↦ rw same
        | inr differs ↦ rw (differs, sync_database_known db m s, other)
      ]

  next_done :
      (r : Outcome C × Memory) (f : Memory → Session C → Outcome C × Memory) (b : Bool)
      (t : Session C) (n : Memory)
      → then_next pg r f ≡ (done b t, n)
      → (u : Session C) × (f r.1 u ≡ (done b t, n))
  next_done (raised u, k) f b t n h = absurd (cc)
  next_done (done c u, k) f b t n h = (u, h)

  sync_other :
      (dbs : List Database) (alias : Text) (m n : Memory) (s t : Session C) (b : Bool)
      → IsFresh alias dbs
      → sync_databases pg default_db cascade dbs m s ≡ (done b t, n)
      → lookup alias n.known ≡ lookup alias m.known
  unfolding sync_databases
  sync_other [] alias m n s t b fresh h = ap (λ r. lookup alias r.1.known) (sym h)
  sync_other (db ∷ dbs) alias m n s t b fresh h =
      let (u, rest) = next_done (visit_database pg default_db cascade db m s) _ b t n h in
      sync_other dbs alias _ n u t b fresh.1 rest ∙ visit_other db alias m s fresh.0

  sync-AreKnown :
      (dbs : List Database) (m n : Memory) (s t : Session C) (b : Bool)
      → AreDistinct dbs
      → sync_databases pg default_db cascade dbs m s ≡ (done b t, n)
      → AreKnown n dbs
  unfolding sync_databases
  sync-AreKnown [] m n s t b distinct h = tt
  sync-AreKnown (db ∷ dbs) m n s t b distinct h =
      let (u, rest) = next_done (visit_database pg default_db cascade db m s) _ b t n h in
      (
        rw (sync_other dbs db.alias _ n u t b distinct.0 rest) (visit-IsKnown db m s),
        sync-AreKnown dbs _ n u t b distinct.1 rest,
      )

  -- A sync that no error has stopped is complete: run again on the same databases and versions, it
  -- changes neither the session nor what it remembers.
  pub sync_databases_twice :
      (dbs : List Database) (m n : Memory) (s t : Session C) (b : Bool)
      → AreDistinct dbs
      → sync_databases pg default_db cascade dbs m s ≡ (done b t, n)
      → sync_databases pg default_db cascade dbs n t ≡ (done true t, n)
  sync_databases_twice dbs m n s t b distinct h =
      all_known dbs n t (sync-AreKnown dbs m n s t b distinct h)
