-- ===== src/Ddl/Triggers/Mixed.antt =====
-- The rule against mixed writes in `duckdb_drop_trigger`.
use pg_duckdb.Common.{
  ℕ, ◌+◌, ◌≤◌, Bool, true, false, not, ◌&&◌, ◌||◌, List, ltb, length, ◌≡◌, ◌⊎◌, refl, ◌∙◌, subst,
  inl, arith,
}
use pg_duckdb.Xact.{mixed_writes_allowed}
use pg_duckdb.Sql.{ok, mixed_drop, ddb_schema}
use pg_duckdb.Ddl.{
  Env, State, ◌>>=◌, modify, refuse_if, when, claim, registered, spi_select, spi_write,
}
use pg_duckdb.Ddl.Keeps.{
  Keeps, bind-Keeps, sent_of, sent_of-OffXact, when-Keeps, refuse_if-Keeps, claim-Keeps,
}
use pg_duckdb.Ddl.Triggers.Drop.{
  Dropped, Progress, drops_relation, drops_object, drops_tracked, drops_ddb_schema, count, select,
  untrack, nothing_dropped, drop_tracked, check_counts, restore_top_level, finish_drops,
  drop_in_pg_temp, forwarded, forward_drops, drop_relations, check_schemas, drop_counted,
  handle_dropped, drop_trigger,
}
use pg_duckdb.Ddl.Triggers.Forwarded.{
  Post, continue-Post, Post-weaken, Counted, Counted-then, Keeps-Post, drop_tracked-Counted,
  drop_in_pg_temp-Counted, registered-Asked, Asked,
}

-- As many queries as dropped objects, or none.
abbrev Whole : List Dropped → ℕ → Type 0
Whole objects n = (n ≡ 0) ⊎ (count drops_object objects ≤ n)

-- Mixed writes are not allowed at this level, if the flag on writes is not set.
abbrev Strict : Env → Bool → Type 0
Strict e top =
    (not (e.copy.hooks.xact.in_transaction_block top)
      || e.copy.hooks.xact.unsafe_allow_mixed
      || e.copy.hooks.xact.motherduck_sync)
    ≡ false

module _ (e : Env) (objects : List Dropped) where
  refused_if :
      (b : Bool) (s : State) (q : Progress)
      → (b ≡ false → Whole objects q.deleted)
      → Post (λ t u. (t.sent ≡ s.sent) × Whole objects q.deleted) (refuse_if b mixed_drop s)
  refused_if true s q h = tt
  refused_if false s q h = (refl, h refl)

  check_counts-Whole :
      (s : State) (q : Progress)
      → mixed_writes_allowed e.copy.hooks.xact s.hooks.xact ≡ false
      → Post
          (λ t u. (t.sent ≡ s.sent) × Whole objects q.deleted)
          (check_counts e q.deleted (count drops_relation objects) (count drops_object objects) s)
  unfolding check_counts
  check_counts-Whole s q h = rw h (
      refused_if
        (ltb 0 q.deleted
          && (ltb q.deleted (count drops_relation objects)
              || ltb q.deleted (count drops_object objects)))
        s q (λ k. ground arith))

  finish_drops-Whole :
      (top : Bool) (s : State) (q : Progress)
      → Strict e top
      → s.hooks.xact.force_allow_writes ≡ false
      → Post (λ t u. (t.sent ≡ s.sent) × Whole objects q.deleted) (finish_drops e top objects q s)
  unfolding finish_drops restore_top_level mixed_writes_allowed
  finish_drops-Whole top s q strict force =
      continue-Post (λ t u. (t.sent ≡ s.sent) × Whole objects q.deleted)
        (λ t u. (t.sent ≡ s.sent) × Whole objects q.deleted)
        (λ u. when (ltb 0 q.deleted) (claim e true))
        (check_counts e q.deleted (count drops_relation objects) (count drops_object objects)
          (restore_top_level top s))
        (check_counts-Whole (restore_top_level top s) q (ground arith))
        (λ u v h.
          Post-weaken (λ t w. t.sent ≡ u.sent) (λ t w. (t.sent ≡ s.sent) × Whole objects q.deleted)
            (when (ltb 0 q.deleted) (claim e true) u) (λ t w k. (k ∙ h.0, h.1))
            (Keeps-Post sent_of u.sent (when (ltb 0 q.deleted) (claim e true) u)
              ((when-Keeps (ltb 0 q.deleted) (claim-Keeps sent_of-OffXact e true)).keeps u)))

  -- Whether the DROP was sent for all objects or for none.
  abbrev SentWhole : State → State → Type 0
  SentWhole s t =
      (length t.sent ≡ length s.sent) ⊎ (length s.sent + count drops_object objects ≤ length t.sent)

  forward_drops-SentWhole :
      (top : Bool) (rows : List Dropped) (s : State)
      → Strict e top
      → s.hooks.xact.force_allow_writes ≡ false
      → Post (λ t u. SentWhole s t) (forward_drops e top objects rows s)
  unfolding forward_drops
  forward_drops-SentWhole top rows s strict force =
      continue-Post (Counted s nothing_dropped) (λ t u. SentWhole s t)
        (λ p. drop_in_pg_temp e objects p >>= λ q. finish_drops e top objects q)
        (drop_tracked e nothing_dropped (forwarded e rows) s)
        (drop_tracked-Counted e (forwarded e rows) s nothing_dropped)
        (λ u p h.
          continue-Post (Counted s nothing_dropped) (λ t v. SentWhole s t)
            (λ q. finish_drops e top objects q) (drop_in_pg_temp e objects p u)
            (Counted-then e {s = s} {u = u} {p = nothing_dropped} {q = p}
              (drop_in_pg_temp e objects p u) h (drop_in_pg_temp-Counted e objects u p))
            (λ v q k.
              Post-weaken (λ t w. (t.sent ≡ v.sent) × Whole objects q.deleted)
                (λ t w. SentWhole s t) (finish_drops e top objects q v) (λ t w r. ground (arith))
                (finish_drops-Whole top v q strict (k.same_force ∙ force))))

  drop_relations-SentWhole :
      (top : Bool) (s : State)
      → Strict e top
      → Post (λ t u. SentWhole s t) (drop_relations e top objects s)
  unfolding drop_relations spi_write spi_select
  drop_relations-SentWhole top s strict =
      forward_drops-SentWhole top (select (drops_tracked s.tables) objects)
        (spi_write (untrack objects s.tables) s) strict refl

  when_relations-SentWhole :
      (b top : Bool) (s : State)
      → Strict e top
      → Post (λ t u. SentWhole s t) (when b (drop_relations e top objects) s)
  when_relations-SentWhole true top s strict = drop_relations-SentWhole top s strict
  when_relations-SentWhole false top s strict = inl refl

  pub check_schemas-Keeps_sent : Keeps sent_of (check_schemas e objects)
  unfolding check_schemas spi_select
  check_schemas-Keeps_sent = when-Keeps (not e.copy.hooks.xact.motherduck_sync) (
      bind-Keeps {m = modify spi_select} (record { keeps = λ s. refl })
        (λ u. refuse_if-Keeps (ltb 0 (count drops_ddb_schema objects)) ddb_schema))

  handle_dropped-SentWhole :
      (s : State)
      → Strict e s.hooks.xact.top_level_statement
      → Post (λ t u. SentWhole s t) (handle_dropped e objects s)
  unfolding handle_dropped drop_counted spi_select
  handle_dropped-SentWhole s strict =
      continue-Post (λ u v. u.sent ≡ s.sent) (λ t u. SentWhole s t)
        (λ u. drop_counted e s.hooks.xact.top_level_statement objects) (check_schemas e objects s)
        (Keeps-Post sent_of s.sent (check_schemas e objects s) (check_schemas-Keeps_sent.keeps s))
        (λ u v h.
          Post-weaken (λ t w. SentWhole u t) (λ t w. SentWhole s t)
            (drop_counted e s.hooks.xact.top_level_statement objects u) (λ t w k. ground arith)
            (when_relations-SentWhole (ltb 0 (count drops_relation objects))
              s.hooks.xact.top_level_statement (spi_select u) strict))

  when_handled :
      (b : Bool) (s : State)
      → Strict e s.hooks.xact.top_level_statement
      → Post (λ t u. SentWhole s t) (when b (handle_dropped e objects) s)
  when_handled true s strict = handle_dropped-SentWhole s strict
  when_handled false s strict = inl refl

  drop_trigger-Post :
      (s : State)
      → Strict e s.hooks.xact.top_level_statement
      → Post (λ t u. SentWhole s t) (drop_trigger e objects s)
  unfolding drop_trigger
  drop_trigger-Post s strict =
      continue-Post (λ u b. Asked s u) (λ t u. SentWhole s t)
        (λ b. when b (handle_dropped e objects)) (registered e s) (registered-Asked e s)
        (λ u b h.
          Post-weaken (λ t w. SentWhole u t) (λ t w. SentWhole s t)
            (when b (handle_dropped e objects) u) (λ t w k. ground (arith, h.as_sent))
            (when_handled b u (rw h.as_xact strict)))

  -- Where mixed writes are not allowed, a drop trigger that goes through has sent nothing to DuckDB, or
  -- at least as many statements as objects were dropped, those of the types that the trigger leaves out
  -- of its count not counted: a DROP that mixes the two is not half forwarded.
  pub drop_trigger-SentWhole :
      (s : State) {t : State}
      → mixed_writes_allowed e.copy.hooks.xact s.hooks.xact ≡ false
      → drop_trigger e objects s ≡ (t, ok tt)
      → SentWhole s t
  unfolding mixed_writes_allowed
  drop_trigger-SentWhole s {t} refused h =
      subst (Post (λ v u. SentWhole s v)) h (drop_trigger-Post s (ground arith))
