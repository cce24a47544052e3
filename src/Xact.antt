-- ===== src/Xact.antt =====
-- Transactions, src/pgduckdb_xact.cpp, and `GetConnection` of src/pgduckdb_duckdb.cpp. The static
-- variables and what the code asks Postgres and DuckDB are the fields of one record. A function that
-- throws returns the error beside the state that it leaves.
use pg_duckdb.Common.{
  ℕ, ◌+◌, Bool, true, false, not, ◌&&◌, ◌||◌, Option, none, some, List, [], ◌∷◌, ltb, ◌==◌,
  if◌then◌else◌,
}
pub mod MixedWrites
pub mod TempTables
pub mod Callback
pub mod Savepoints

-- Answers of Postgres, DuckDB and the settings, which pg_duckdb only reads.
pub record Env : Type 0 where
  -- IsInTransactionBlock(is_top_level)
  pub in_transaction_block : Bool → Bool
  -- duckdb.unsafe_allow_mixed_transactions
  pub unsafe_allow_mixed : Bool
  -- doing_motherduck_sync
  pub motherduck_sync : Bool
  -- DuckDBManager::IsInitialized()
  pub initialized : Bool
  -- IsSubTransaction()
  pub in_subtransaction : Bool
  -- has_privs_of_role(GetUserId(), postgres_role_oid)
  pub execution_allowed : Bool
  -- whether a commit of DuckDB goes through
  pub commit_succeeds : Bool

pub data DdlType : Type 0 where
  no_ddl create_table alter_table refresh_materialized_view rename_view : DdlType

pub record Xact : Type 0 where
  pub next_expected_command_id : ℕ
  pub top_level_statement : Bool
  pub force_allow_writes : Bool
  pub modified_temporary : Bool
  pub temporary : List ℕ
  pub temporary_old : List ℕ
  pub executor_nest_level : ℕ
  pub top_level_ddl_type : DdlType
  -- GetCurrentCommandId() of Postgres
  pub command_id : ℕ
  -- DidWrites() of the DuckDB transaction
  pub duckdb_did_writes : Bool
  -- context.transaction.HasActiveTransaction()
  pub active_transaction : Bool

pub data Error : Type 0 where
  mixed_writes prepared_transaction savepoint unknown_event execution_not_allowed : Error
  duckdb_commit_failed : Error

abbrev pub first_command_id : ℕ
first_command_id = 0

unfoldable pub mixed_writes_allowed : Env → Xact → Bool
mixed_writes_allowed e x =
    not (e.in_transaction_block x.top_level_statement)
    || e.unsafe_allow_mixed
    || x.force_allow_writes
    || e.motherduck_sync

unfoldable pub pg_did_writes : Xact → Bool
pg_did_writes x = ltb x.next_expected_command_id x.command_id

-- pg::AllowWrites
unfoldable pub allow_writes : Env → Xact → Bool
unfolding mixed_writes_allowed
allow_writes e x = if mixed_writes_allowed e x then true else not x.duckdb_did_writes

unfoldable pub did_disallowed_mixed_writes : Env → Xact → Bool
unfolding mixed_writes_allowed pg_did_writes
did_disallowed_mixed_writes e x =
    not (mixed_writes_allowed e x) && pg_did_writes x && x.duckdb_did_writes

-- ClaimCurrentCommandId: the claim takes the current id, and the increment makes the next one current.
unfoldable pub claim_current_command_id : Env → Bool → Xact → Xact × Option Error
unfolding mixed_writes_allowed
claim_current_command_id e force x =
    if not (x.command_id == x.next_expected_command_id)
      && not (mixed_writes_allowed e x)
      && not force
    then (x, some mixed_writes)
    else (
      record x { command_id = x.command_id + 1; next_expected_command_id = x.command_id + 1 },
      none,
    )

-- std::unordered_set<Oid>
abbrev pub contains : ℕ → List ℕ → Bool
contains o [] = false
contains o (p ∷ ps) = (p == o) || contains o ps

abbrev pub insert : ℕ → List ℕ → List ℕ
insert o ps = if contains o ps then ps else o ∷ ps

abbrev pub erase : ℕ → List ℕ → List ℕ
erase o [] = []
erase o (p ∷ ps) = let rest = erase o ps in if p == o then rest else p ∷ rest

-- The first change of a transaction saves the set.
abbrev pub save_temporary : Xact → Xact
save_temporary x =
    if not x.modified_temporary
    then record x { modified_temporary = true; temporary_old = x.temporary }
    else x

unfoldable pub register_temp_table : ℕ → Xact → Xact
register_temp_table o x = let y = save_temporary x in record y { temporary = insert o y.temporary }

unfoldable pub unregister_temp_table : ℕ → Xact → Xact
unregister_temp_table o x = let y = save_temporary x in record y { temporary = erase o y.temporary }

unfoldable pub is_duckdb_temp_table : ℕ → Xact → Bool
is_duckdb_temp_table o x = contains o x.temporary

pub data XactEvent : Type 0 where
  pre_commit parallel_pre_commit abort parallel_abort : XactEvent
  prepare pre_prepare commit parallel_commit : XactEvent
  future_event : XactEvent

abbrev pub commit_temporary : Xact → Xact
commit_temporary x =
    if x.modified_temporary then record x { modified_temporary = false; temporary_old = [] } else x

abbrev pub restore_temporary : Xact → Xact
restore_temporary x =
    if x.modified_temporary
    then record x { modified_temporary = false; temporary = x.temporary_old; temporary_old = [] }
    else x

abbrev pub reset_writes : Xact → Xact
reset_writes x = record x {
  next_expected_command_id = first_command_id;
  force_allow_writes = false;
}

unfoldable pub on_pre_commit : Env → Xact → Xact × Option Error
unfolding did_disallowed_mixed_writes
on_pre_commit e x =
    let y = commit_temporary (reset_writes x) in
    if did_disallowed_mixed_writes e x
    then (x, some mixed_writes)
    else if y.active_transaction
    then (
      record y { active_transaction = false },
      if e.commit_succeeds then none else some duckdb_commit_failed,
    )
    else (y, none)

unfoldable pub on_abort : Xact → Xact × Option Error
on_abort x =
    let y = restore_temporary (reset_writes x) in (record y { active_transaction = false }, none)

abbrev pub on_prepare : Xact → Xact × Option Error
on_prepare x = (x, if x.active_transaction then some prepared_transaction else none)

abbrev pub on_event : Env → XactEvent → Xact → Xact × Option Error
on_event e pre_commit x = on_pre_commit e x
on_event e parallel_pre_commit x = on_pre_commit e x
on_event e abort x = on_abort x
on_event e parallel_abort x = on_abort x
on_event e prepare x = on_prepare x
on_event e pre_prepare x = on_prepare x
on_event e commit x = (x, none)
on_event e parallel_commit x = (x, none)
on_event e future_event x = (x, some unknown_event)

-- DuckdbXactCallback_Cpp
unfoldable pub xact_callback : Env → XactEvent → Xact → Xact × Option Error
unfolding on_pre_commit on_abort
xact_callback e event x =
    let y = record x {
      top_level_statement = true;
      top_level_ddl_type = no_ddl;
      executor_nest_level = 0;
    } in
    if not e.initialized then (y, none) else on_event e event y

pub data SubXactEvent : Type 0 where
  start_sub other_sub : SubXactEvent

abbrev is_start : SubXactEvent → Bool
is_start start_sub = true
is_start other_sub = false

-- DuckdbSubXactCallback_Cpp
unfoldable pub sub_xact_callback : Env → SubXactEvent → Xact → Option Error
sub_xact_callback e event x =
    if not e.initialized
    then none
    else if not x.active_transaction
    then none
    else if is_start event
    then some savepoint
    else none

-- DuckDBManager::GetConnection(force_transaction), up to the refresh of the connection's settings.
unfoldable pub get_connection : Env → Bool → Xact → Xact × Option Error
get_connection e force_transaction x =
    if not e.execution_allowed
    then (x, some execution_not_allowed)
    else if x.active_transaction
    then (x, none)
    else if e.in_subtransaction
    then (x, some savepoint)
    else if force_transaction || e.in_transaction_block x.top_level_statement
    then (record x { active_transaction = true }, none)
    else (x, none)
