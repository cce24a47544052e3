-- ===== src/Xact/MixedWrites.antt =====
-- Writes to Postgres and to DuckDB in one transaction block.
use pg_duckdb.Common.{
  ◌+◌, ◌<◌, ◌≡◌, ◌∙◌, Bool, true, false, not, ◌||◌, ◌&&◌, Option, none, some, List, [], ◌∷◌, ◌>>=◌,
  arith,
}
use pg_duckdb.Xact.{
  Xact, Env, Error, pre_commit, claim_current_command_id, xact_callback, mixed_writes_allowed,
  did_disallowed_mixed_writes,
}

-- A write of either system inside the transaction. A Postgres write advances the command counter
-- (GetCurrentCommandId(true) and CommandCounterIncrement); a DuckDB write is claimed first.
pub data Write : Type 0 where
  postgres duckdb : Write

pub pg_write : Xact → Xact
pg_write x = record x { command_id = x.command_id + 1 }

abbrev claimed : Xact × Option Error → Option Xact
claimed (x, none) = some (record x { duckdb_did_writes = true })
claimed (x, some error) = none

pub duckdb_write : Env → Xact → Option Xact
unfolding claim_current_command_id
duckdb_write e x = claimed (claim_current_command_id e false x)

-- `none` once a write has thrown.
pub run_writes : Env → List Write → Xact → Option Xact
unfolding pg_write duckdb_write
run_writes e [] x = some x
run_writes e (postgres ∷ ws) x = run_writes e ws (pg_write x)
run_writes e (duckdb ∷ ws) x = duckdb_write e x >>= run_writes e ws

abbrev pub has_postgres : List Write → Bool
has_postgres [] = false
has_postgres (postgres ∷ ws) = true
has_postgres (duckdb ∷ ws) = has_postgres ws

abbrev pub has_duckdb : List Write → Bool
has_duckdb [] = false
has_duckdb (postgres ∷ ws) = has_duckdb ws
has_duckdb (duckdb ∷ ws) = true

-- A transaction block in which mixed writes are not allowed.
pub record IsStrict (e : Env) : Type 0 where
  pub in_block : (top : Bool) → e.in_transaction_block top ≡ true
  pub not_unsafe : e.unsafe_allow_mixed ≡ false
  pub not_sync : e.motherduck_sync ≡ false
  pub duckdb_runs : e.initialized ≡ true

abbrev is_none : Option Error → Bool
is_none none = true
is_none (some error) = false

-- Do all the writes go through, and the commit after them?
pub commits : Env → List Write → Xact → Bool
unfolding run_writes
commits e ws x = elim (run_writes e ws x) [
  | none ↦ false
  | some y ↦ is_none (xact_callback e pre_commit y).1
]

-- What is known after some writes: `p` and `d` say whether there was a write of either kind.
record Known (p d : Bool) (x : Xact) : Type 0 where
  no_postgres : p ≡ false → x.command_id ≡ x.next_expected_command_id
  some_postgres : p ≡ true → x.next_expected_command_id < x.command_id
  duckdb_shows : x.duckdb_did_writes ≡ d
  not_forced : x.force_allow_writes ≡ false

module _ (e : Env) (strict : IsStrict e) where
  not_allowed : (x : Xact) → x.force_allow_writes ≡ false → mixed_writes_allowed e x ≡ false
  unfolding mixed_writes_allowed
  not_allowed x h = ground (arith, strict.in_block x.top_level_statement)

  pg_write-Known : (p d : Bool) (x : Xact) → Known p d x → Known true d (pg_write x)
  unfolding pg_write
  pg_write-Known p d x k = ground arith

  duckdb_write-refused : (d : Bool) (x : Xact) → Known true d x → duckdb_write e x ≡ none
  unfolding duckdb_write
  duckdb_write-refused d x k = ground (arith, not_allowed x)

  pub claimed_state : Xact → Xact
  claimed_state x = record x {
    command_id = x.command_id + 1;
    next_expected_command_id = x.command_id + 1;
    duckdb_did_writes = true;
  }

  duckdb_write-claims :
      (d : Bool) (x : Xact)
      → Known false d x
      → (duckdb_write e x ≡ some (claimed_state x)) × Known false true (claimed_state x)
  unfolding duckdb_write claimed_state
  duckdb_write-claims d x k = (ground (arith, not_allowed x), ground arith)

  pre_commit-Known :
      (p d : Bool) (x : Xact)
      → e.commit_succeeds ≡ true
      → Known p d x
      → is_none (xact_callback e pre_commit x).1 ≡ not (p && d)
  unfolding xact_callback did_disallowed_mixed_writes
  pre_commit-Known true true x c k = ground (arith, strict.in_block true)
  pre_commit-Known true false x c k = ground (arith, strict.in_block true)
  pre_commit-Known false d x c k = ground (arith, strict.in_block true)

  commits-Known :
      (ws : List Write) (p d : Bool) (x : Xact)
      → e.commit_succeeds ≡ true
      → Known p d x
      → commits e ws x ≡ not ((p || has_postgres ws) && (d || has_duckdb ws))
  unfolding commits
  commits-Known [] p d x c k = pre_commit-Known p d x c k ∙ ground arith
  commits-Known (postgres ∷ ws) p d x c k =
      commits-Known ws true d (pg_write x) c (pg_write-Known p d x k) ∙ ground arith
  commits-Known (duckdb ∷ ws) true d x c k =
      rw (duckdb_write-refused d x k, commits, run_writes) (ground arith)
  commits-Known (duckdb ∷ ws) false d x c k =
      let (runs, known) = duckdb_write-claims d x k in
      rw (runs, commits, run_writes)
        (commits-Known ws false true (claimed_state x) c known ∙ ground arith)

-- In a transaction block where mixed writes are not allowed, a sequence of writes goes through, and
-- commits, exactly when it does not write to both systems.
pub commits_lem :
    (e : Env) (ws : List Write) (x : Xact)
    → IsStrict e
    → e.commit_succeeds ≡ true
    → x.command_id ≡ x.next_expected_command_id
    → x.duckdb_did_writes ≡ false
    → x.force_allow_writes ≡ false
    → commits e ws x ≡ not (has_postgres ws && has_duckdb ws)
commits_lem e ws x s c fresh clean unforced = commits-Known e s ws false false x c (record {
  no_postgres = λ h. fresh;
  some_postgres = λ h. cc;
  duckdb_shows = clean;
  not_forced = unforced;
})
