-- ===== src/Worker/Hints.antt =====
-- The shared state of the background worker for one database, and the session hint that one backend
-- may share with it: src/pgduckdb_background_worker.cpp. Each function that takes the spin lock is
-- one step; the latch is left out.
use pg_duckdb.Common.{
  ℕ, zero, suc, ◌+◌, Bool, true, false, not, ◌&&◌, ◌||◌, Option, none, some, ◌==◌, if◌then◌else◌,
}
pub mod Exclusive

-- BgwStatePerDB
pub record BgwState : Type 0 where
  pub activity_count : ℕ
  pub bgw_session_hint_is_reused : Bool

-- The static variables of one backend; `hooks` counts the calls of before_shmem_exit.
pub record Backend : Type 0 where
  pub is_background_worker : Bool
  pub reused_bgw_session_hint : Bool
  pub set_up_unclaim_session_hint_hook : Bool
  pub hooks : ℕ

-- The entry of the database in the shared map, if there is one.
abbrev pub Shared : Type 0
Shared = Option BgwState

abbrev pub claim : BgwState → BgwState
claim s = record s { bgw_session_hint_is_reused = true }

-- SetBackgroundWorkerState
unfoldable pub set_background_worker_state : Shared → Shared
set_background_worker_state shared =
    some (record { activity_count = 0; bgw_session_hint_is_reused = false })

-- The lock around PossiblyReuseBgwSessionHint: the new state, and whether this backend claims the hint.
unfoldable pub try_claim : Shared → Shared × Bool
try_claim none = (none, false)
try_claim (some s) =
    if not s.bgw_session_hint_is_reused then (some (claim s), true) else (some s, false)

-- PossiblyReuseBgwSessionHint: the last component says that the hint, and not "", is returned.
unfoldable pub possibly_reuse_bgw_session_hint : Shared → Backend → Shared × Backend × Bool
unfolding try_claim
possibly_reuse_bgw_session_hint shared b =
    let (t, claimed) = try_claim shared in
    let c = record b { reused_bgw_session_hint = claimed } in
    let hooked : Backend =
      if claimed && not b.set_up_unclaim_session_hint_hook
      then record c { hooks = c.hooks + 1 }
      else c in
    if b.is_background_worker || b.reused_bgw_session_hint
    then (shared, b, true)
    else (t, hooked, claimed)

abbrev unclaim : Shared → Shared
unclaim none = none
unclaim (some s) = some (record s { bgw_session_hint_is_reused = false })

-- UnclaimBgwSessionHint
unfoldable pub unclaim_bgw_session_hint : Shared → Backend → Shared × Backend
unclaim_bgw_session_hint shared b =
    if not b.reused_bgw_session_hint
    then (shared, b)
    else (unclaim shared, record b { reused_bgw_session_hint = false })

abbrev count_activity : Shared → Shared
count_activity none = none
count_activity (some s) = some (record s { activity_count = s.activity_count + 1 })

-- TriggerActivity
unfoldable pub trigger_activity : Bool → Shared → Shared
trigger_activity motherduck_enabled shared =
    if not motherduck_enabled then shared else count_activity shared

-- The end of pgduckdb_background_worker_main, HASH_REMOVE.
unfoldable pub remove_state : Shared → Shared
remove_state shared = none
