-- ===== src/Ddl/Triggers/Forwarded.antt =====
-- The DROPs that `duckdb_drop_trigger` sends to DuckDB.
use pg_duckdb.Common.{
  suc, ◌+◌, Bool, true, false, not, List, [], ◌∷◌, length, if◌then◌else◌, Option, none, some, ◌≡◌,
  refl, ◌∙◌, arith,
}
use pg_duckdb.Metadata
use pg_duckdb.Xact
use pg_duckdb.Xact.{mixed_writes_allowed, unregister_temp_table, is_duckdb_temp_table}
use pg_duckdb.Worker.Sync.{Text}
use pg_duckdb.Sql.{Result, ok, err, query_failed}
use pg_duckdb.Hooks.{mark_statement_not_top_level}
use pg_duckdb.Ddl.{
  Env, State, M, continue, ◌>>=◌, ◌>>◌, pure, lift, when, registered, registered_result, spi_select,
  duckdb_query, connect,
}
use pg_duckdb.Ddl.Keeps.{Keeps, when-Keeps}
use pg_duckdb.Ddl.Triggers.Drop.{
  Dropped, Progress, drops_temporary, select, one_more, send_drop, drop_text, temporary_text,
  forget_table, drop_tracked, drop_temporary, drop_if_duckdb, drop_temporaries, drop_in_pg_temp,
}

-- `P` holds of the state and the value of a step that succeeds.
abbrev pub Post : {A : Type 0} → (State → A → Type 0) → State × Result A → Type 0
Post P (t, ok a) = P t a
Post P (t, err error) = Unit {0}

pub continue-Post :
    {A B : Type 0} (P : State → A → Type 0) (Q : State → B → Type 0) (g : A → M B)
    (r : State × Result A)
    → Post P r
    → ((u : State) (a : A) → P u a → Post Q (g a u))
    → Post Q (continue g r)
continue-Post P Q g (s, ok a) h k = k s a h
continue-Post P Q g (s, err error) h k = tt

-- IsExtensionRegistered changes neither the queries nor the transaction.
pub record Asked (s u : State) : Type 0 where
  pub as_sent : u.sent ≡ s.sent
  pub as_xact : u.hooks.xact ≡ s.hooks.xact

registered_result-Asked :
    (s : State) (r : Metadata.Cache × Option Bool) → Post (λ u b. Asked s u) (registered_result s r)
registered_result-Asked s (c, none) = tt
registered_result-Asked s (c, some b) = record { as_sent = refl; as_xact = refl }

pub registered-Asked : (e : Env) (s : State) → Post (λ u b. Asked s u) (registered e s)
unfolding registered
registered-Asked e s = registered_result-Asked s _

-- As many queries were sent as the count has grown by, and the flag on writes is as it was.
pub record Counted (s : State) (p : Progress) (t : State) (q : Progress) : Type 0 where
  pub sent_all : length t.sent + p.deleted ≡ length s.sent + q.deleted
  pub same_force : t.hooks.xact.force_allow_writes ≡ s.hooks.xact.force_allow_writes

pub Post-weaken :
    {A : Type 0} (P Q : State → A → Type 0) (r : State × Result A)
    → ((t : State) (a : A) → P t a → Q t a)
    → Post P r
    → Post Q r
Post-weaken P Q (t, ok a) k h = k t a h
Post-weaken P Q (t, err error) k h = tt

Counted-refl : (s : State) (p : Progress) → Counted s p s p
Counted-refl s p = record { sent_all = refl; same_force = refl }

Counted-trans :
    {s t u : State} {p q r : Progress} → Counted s p t q → Counted t q u r → Counted s p u r
Counted-trans h k = record {
  sent_all = omega (arith, h.sent_all, k.sent_all);
  same_force = k.same_force ∙ h.same_force;
}

-- What the steps around the queries leave alone.
abbrev pub sent_and_force : State → List Text × Bool
sent_and_force s = (s.sent, s.hooks.xact.force_allow_writes)

pub Keeps-Post :
    {A X : Type 0} (f : State → X) (x : X) (r : State × Result A)
    → f r.0 ≡ x
    → Post (λ t a. f t ≡ x) r
Keeps-Post f x (t, ok a) h = h
Keeps-Post f x (t, err error) h = tt

connect-Keeps_both : (e : Env) → Keeps sent_and_force (connect e)
unfolding connect Xact.get_connection
connect-Keeps_both e = record { keeps = λ s. ground arith }

-- One query more.
record SentOne (s t : State) : Type 0 where
  one : length t.sent ≡ suc (length s.sent)
  kept : t.hooks.xact.force_allow_writes ≡ s.hooks.xact.force_allow_writes

abbrev after_query : State → Text → Bool → State × Result (Unit {0})
after_query s text b =
    if b then (record s { sent = text ∷ s.sent }, ok tt) else (s, err query_failed)

after_query-Post :
    (s : State) (text : Text) (b : Bool) → Post (λ t u. SentOne s t) (after_query s text b)
after_query-Post s text true = record { one = refl; kept = refl }
after_query-Post s text false = tt

duckdb_query-Post :
    (e : Env) (text : Text) (s : State) → Post (λ t u. SentOne s t) (duckdb_query e text s)
unfolding duckdb_query
duckdb_query-Post e text s = after_query-Post s text (e.query_succeeds s.sent text)

module _ (e : Env) where
  -- The query and the count, in a state that the connection has left.
  send-Counted :
      (s u : State) (p : Progress) (r : Result Text)
      → sent_and_force u ≡ sent_and_force s
      → Post (Counted s p) ((lift r >>= λ t. duckdb_query e t >> pure (one_more p)) u)
  send-Counted s u p (err error) h = tt
  send-Counted s u p (ok text) h =
      continue-Post (λ t v. SentOne u t) (Counted s p) (λ v. pure (one_more p))
        (duckdb_query e text u) (duckdb_query-Post e text u)
        (λ t v q. record { sent_all = ground arith; same_force = ground arith })

  send_drop-Counted :
      (s : State) (p : Progress) (r : Result Text) → Post (Counted s p) (send_drop e p r s)
  unfolding send_drop
  send_drop-Counted s p r =
      continue-Post (λ u v. sent_and_force u ≡ sent_and_force s) (Counted s p)
        (λ v. lift r >>= λ t. duckdb_query e t >> pure (one_more p))
        (when (not p.connected) (connect e) s)
        (Keeps-Post sent_and_force (sent_and_force s) (when (not p.connected) (connect e) s)
          ((when-Keeps {f = sent_and_force} (not p.connected) (connect-Keeps_both e)).keeps s))
        (λ u v h. send-Counted s u p r h)

  pub Counted-then :
      {s u : State} {p q : Progress} (r : State × Result Progress)
      → Counted s p u q
      → Post (Counted u q) r
      → Post (Counted s p) r
  Counted-then {s} {u} {p} {q} r h k =
      Post-weaken (Counted u q) (Counted s p) r (λ t a c. Counted-trans h c) k

  pub drop_tracked-Counted :
      (ds : List Dropped) (s : State) (p : Progress) → Post (Counted s p) (drop_tracked e p ds s)
  unfolding drop_tracked
  drop_tracked-Counted [] s p = Counted-refl s p
  drop_tracked-Counted (d ∷ ds) s p =
      continue-Post (Counted s p) (Counted s p) (λ q. drop_tracked e q ds)
        (send_drop e p (drop_text e d) s) (send_drop-Counted s p (drop_text e d))
        (λ u q h. Counted-then (drop_tracked e q ds u) h (drop_tracked-Counted ds u q))

  drop_temporary-Counted :
      (s : State) (p : Progress) (d : Dropped) → Post (Counted s p) (drop_temporary e p d s)
  unfolding drop_temporary forget_table unregister_temp_table
  drop_temporary-Counted s p d =
      continue-Post (Counted s p) (Counted s p) (λ q. forget_table d.objid q)
        (send_drop e p (temporary_text e d) s) (send_drop-Counted s p (temporary_text e d))
        (λ u q h. Counted-trans h (record { sent_all = refl; same_force = ground arith }))

  one_of_both :
      (s : State) (p : Progress) (d : Dropped) (b : Bool)
      → Post (Counted s p) ((if b then drop_temporary e p d else pure p) s)
  one_of_both s p d true = drop_temporary-Counted s p d
  one_of_both s p d false = Counted-refl s p

  drop_if_duckdb-Counted :
      (s : State) (p : Progress) (d : Dropped) → Post (Counted s p) (drop_if_duckdb e p d s)
  unfolding drop_if_duckdb
  drop_if_duckdb-Counted s p d = one_of_both s p d (is_duckdb_temp_table d.objid s.hooks.xact)

  drop_temporaries-Counted :
      (ds : List Dropped) (s : State) (p : Progress)
      → Post (Counted s p) (drop_temporaries e p ds s)
  unfolding drop_temporaries
  drop_temporaries-Counted [] s p = Counted-refl s p
  drop_temporaries-Counted (d ∷ ds) s p =
      continue-Post (Counted s p) (Counted s p) (λ q. drop_temporaries e q ds)
        (drop_if_duckdb e p d s) (drop_if_duckdb-Counted s p d)
        (λ u q h. Counted-then (drop_temporaries e q ds u) h (drop_temporaries-Counted ds u q))

  pub drop_in_pg_temp-Counted :
      (objects : List Dropped) (s : State) (p : Progress)
      → Post (Counted s p) (drop_in_pg_temp e objects p s)
  unfolding drop_in_pg_temp spi_select mark_statement_not_top_level
  drop_in_pg_temp-Counted objects s p =
      Counted-then {s = s} {u = spi_select s} {p = p} {q = p} (drop_in_pg_temp e objects p s)
        (record { sent_all = refl; same_force = refl })
        (drop_temporaries-Counted (select drops_temporary objects) (spi_select s) p)
