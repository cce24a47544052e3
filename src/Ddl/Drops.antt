-- ===== src/Ddl/Drops.antt =====
-- The checks before DROP TABLE and DROP VIEW.
use pg_duckdb.Common.{
  ℕ, ◌+◌, Bool, true, false, not, ◌&&◌, ◌||◌, Option, none, some, List, [], ◌∷◌, ◌==◌,
  if◌then◌else◌, ◌≡◌, refl, ◌∙◌,
}
use pg_duckdb.Xact
use pg_duckdb.Xact.{Xact, mixed_writes_allowed, contains}
use pg_duckdb.Query.{view_kind}
use pg_duckdb.Hooks.{mark_statement_not_top_level}
use pg_duckdb.Ruleutils.Definitions.{RangeVar}
use pg_duckdb.Sql.{Result, ok, err, mixed_drop}
use pg_duckdb.Ddl.{
  Env, State, M, ◌>>=◌, with_xact, claim, missing_ok_relid, is_table_of_duckdb, is_motherduck_view,
}
use pg_duckdb.Ddl.Changes.{
  Dropping, test_table, found_relation, check_found, check_dropped, check_mixed_drop,
  drop_table_pre_check, drop_view_pre_check,
}

-- The current command id is claimed, and the next one is current.
abbrev claimed : State → State
claimed s =
    let n = s.hooks.xact.command_id + 1 in
    with_xact (record s.hooks.xact { command_id = n; next_expected_command_id = n }) s

abbrev on_relation : (ℕ → Bool) → Option ℕ → Bool
on_relation test none = false
on_relation test (some o) = test o

-- Whether the test holds on one of the relations that are there.
abbrev pub any_relation : Env → (ℕ → Bool) → List RangeVar → Bool
any_relation e test [] = false
any_relation e test (rv ∷ rvs) = on_relation test (missing_ok_relid e rv) || any_relation e test rvs

abbrev is_duckdb : Env → ℕ → Bool
is_duckdb e o = is_table_of_duckdb e o

abbrev is_postgres : Env → ℕ → Bool
is_postgres e o = not (is_table_of_duckdb e o)

or_assoc : (a b c : Bool) → ((a || b) || c) ≡ (a || (b || c))
or_assoc true b c = refl
or_assoc false b c = refl

or-true : (a : Bool) → (a || true) ≡ true
or-true true = refl
or-true false = refl

or-false : (a : Bool) → (a || false) ≡ a
or-false true = refl
or-false false = refl

claim_current :
    (e : Env) (s : State)
    → (s.hooks.xact.command_id == s.hooks.xact.next_expected_command_id) ≡ true
    → claim e false s ≡ (claimed s, ok tt)
unfolding claim Xact.claim_current_command_id
claim_current e s h = rw h

module _ (e : Env) where
  found_claimed :
      (p b : Bool) (s : State)
      → found_relation e (record { duckdb = true; postgres = p }) b s
        ≡ (s, ok (record { duckdb = true; postgres = p || not b }))
  unfolding found_relation
  found_claimed p true s = rw (or-false p)
  found_claimed p false s = rw (or-true p)

  check_found_claimed :
      (p : Bool) (next : Dropping → M Dropping) (o : Option ℕ) (s : State)
      → check_found e (test_table e) (record { duckdb = true; postgres = p }) next o s
        ≡ next (record { duckdb = true; postgres = p || on_relation (is_postgres e) o }) s
  check_found_claimed p next none s = rw (or-false p)
  check_found_claimed p next (some o) s = rw (found_claimed p (is_table_of_duckdb e o) s)

  check_dropped_claimed :
      (p : Bool) (rvs : List RangeVar) (s : State)
      → check_dropped e (test_table e) (record { duckdb = true; postgres = p }) rvs s
        ≡ (s, ok (record { duckdb = true; postgres = p || any_relation e (is_postgres e) rvs }))
  unfolding check_dropped
  check_dropped_claimed p [] s = rw (or-false p)
  check_dropped_claimed p (rv ∷ rvs) s =
      check_found_claimed p (λ next. check_dropped e (test_table e) next rvs)
        (missing_ok_relid e rv) s
      ∙ check_dropped_claimed (p || on_relation (is_postgres e) (missing_ok_relid e rv)) rvs s
      ∙ rw (
          or_assoc p (on_relation (is_postgres e) (missing_ok_relid e rv))
            (any_relation e (is_postgres e) rvs))

  -- What the loop gives from a state where nothing of DuckDB was found.
  abbrev outcome : Bool → Bool → State → State × Result Dropping
  outcome d p s = ((if d then claimed s else s), ok (record { duckdb = d; postgres = p }))

  abbrev rest_of : List RangeVar → Dropping → M Dropping
  rest_of rvs d = check_dropped e (test_table e) d rvs

  module _ (s : State)
      (h : (s.hooks.xact.command_id == s.hooks.xact.next_expected_command_id) ≡ true) where
    found_first :
        (p b : Bool) (rvs : List RangeVar)
        → ((q : Bool)
            → rest_of rvs (record { duckdb = false; postgres = q }) s
              ≡ outcome
                  (any_relation e (is_duckdb e) rvs)
                  (q || any_relation e (is_postgres e) rvs)
                  s)
        → (found_relation e (record { duckdb = false; postgres = p }) b >>= rest_of rvs) s
          ≡ outcome
              (b || any_relation e (is_duckdb e) rvs)
              (p || (not b || any_relation e (is_postgres e) rvs))
              s
    unfolding found_relation
    found_first p true rvs ih = rw (claim_current e s h) (check_dropped_claimed p rvs (claimed s))
    found_first p false rvs ih = rw (or-true p) (ih true)

    check_found_lem :
        (p : Bool) (o : Option ℕ) (rvs : List RangeVar)
        → ((q : Bool)
            → rest_of rvs (record { duckdb = false; postgres = q }) s
              ≡ outcome
                  (any_relation e (is_duckdb e) rvs)
                  (q || any_relation e (is_postgres e) rvs)
                  s)
        → check_found e (test_table e) (record { duckdb = false; postgres = p }) (rest_of rvs) o s
          ≡ outcome
              (on_relation (is_duckdb e) o || any_relation e (is_duckdb e) rvs)
              (p || (on_relation (is_postgres e) o || any_relation e (is_postgres e) rvs))
              s
    check_found_lem p none rvs ih = ih p
    check_found_lem p (some o) rvs ih = found_first p (is_table_of_duckdb e o) rvs ih

    check_dropped_lem :
        (p : Bool) (rvs : List RangeVar)
        → check_dropped e (test_table e) (record { duckdb = false; postgres = p }) rvs s
          ≡ outcome (any_relation e (is_duckdb e) rvs) (p || any_relation e (is_postgres e) rvs) s
    unfolding check_dropped
    check_dropped_lem p [] = rw (or-false p)
    check_dropped_lem p (rv ∷ rvs) =
        check_found_lem p (missing_ok_relid e rv) rvs (λ q. check_dropped_lem q rvs)

    check_outcome :
        (d p : Bool)
        → mixed_writes_allowed e.copy.hooks.xact s.hooks.xact ≡ false
        → check_mixed_drop e (record { duckdb = d; postgres = p }) (if d then claimed s else s)
          ≡ ((if d then claimed s else s), (if d && p then err mixed_drop else ok tt))
    unfolding check_mixed_drop mixed_writes_allowed
    check_outcome true true refused = rw refused
    check_outcome true false refused = rw refused
    check_outcome false p refused = rw refused

    -- Where mixed writes are not allowed and Postgres has written nothing since the last claim, DROP
    -- TABLE is refused before it starts exactly when it names both a table of DuckDB and a relation that
    -- is none; relations that are not there do not count. The command id is claimed exactly when it names
    -- a table of DuckDB, and nothing else changes.
    pub drop_table_pre_check_lem :
        (objects : List RangeVar)
        → mixed_writes_allowed e.copy.hooks.xact s.hooks.xact ≡ false
        → drop_table_pre_check e objects s ≡ (
          (if any_relation e (is_duckdb e) objects then claimed s else s),
          (if any_relation e (is_duckdb e) objects && any_relation e (is_postgres e) objects
              then err mixed_drop
              else ok tt),
        )
    unfolding drop_table_pre_check
    drop_table_pre_check_lem objects refused = rw (check_dropped_lem false objects) (
        check_outcome (any_relation e (is_duckdb e) objects)
          (any_relation e (is_postgres e) objects) refused)

-- DROP VIEW of a view of Postgres and then one of MotherDuck is refused for mixing them, also outside of
-- a transaction block, where mixed writes are allowed: the query behind the test on a view takes the
-- statement from the top level. IsInTransactionBlock says of a statement that is not there that it is
-- in a block; there is no sync and no setting that allows the mix.
pub drop_view_pre_check_mixed :
    (e : Env) (ours theirs : RangeVar) {o p : ℕ} (s : State)
    → e.copy.hooks.xact.in_transaction_block false ≡ true
    → e.copy.hooks.xact.unsafe_allow_mixed ≡ false
    → e.copy.hooks.xact.motherduck_sync ≡ false
    → s.hooks.xact.force_allow_writes ≡ false
    → (s.hooks.xact.command_id == s.hooks.xact.next_expected_command_id) ≡ true
    → missing_ok_relid e theirs ≡ some p
    → missing_ok_relid e ours ≡ some o
    → (e.copy.hooks.relkind_of p == view_kind) ≡ true
    → (e.copy.hooks.relkind_of o == view_kind) ≡ true
    → contains p s.tables ≡ false
    → contains o s.tables ≡ true
    → (drop_view_pre_check e (theirs ∷ ours ∷ []) s).1 ≡ err mixed_drop
unfolding drop_view_pre_check is_motherduck_view mark_statement_not_top_level claim
    Xact.claim_current_command_id mixed_writes_allowed
drop_view_pre_check_mixed e ours theirs s block unsafe sync force idle ht ho vt vo nt no_ =
    simp (ht, ho, vt, vo, nt, no_, idle, block, unsafe, sync, force)
