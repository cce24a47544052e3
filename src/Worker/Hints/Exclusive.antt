-- ===== src/Worker/Hints/Exclusive.antt =====
-- The session hint among several backends.
use pg_duckdb.Common.{
  ℕ, ◌≡◌, refl, ◌⊎◌, inr, Bool, true, false, none, some, ◌==◌, if◌then◌else◌, arith,
}
use pg_duckdb.Worker.Hints.{
  Backend, Shared, set_background_worker_state, possibly_reuse_bgw_session_hint,
  unclaim_bgw_session_hint, trigger_activity, remove_state,
}

pub record Cluster : Type 0 where
  pub shared : Shared
  pub backends : ℕ → Backend

abbrev pub update : ℕ → Backend → (ℕ → Backend) → ℕ → Backend
update i b f j = if i == j then b else f j

-- `i` is a backend other than the worker. The worker may end; it is not started again.
pub data Step : Cluster → Cluster → Type 0 where
  reuses :
      (s : Cluster) (i : ℕ)
      → Step s (record {
        shared = (possibly_reuse_bgw_session_hint s.shared (s.backends i)).0;
        backends = update i (possibly_reuse_bgw_session_hint s.shared (s.backends i)).1 s.backends;
      })
  exits :
      (s : Cluster) (i : ℕ)
      → Step s (record {
        shared = (unclaim_bgw_session_hint s.shared (s.backends i)).0;
        backends = update i (unclaim_bgw_session_hint s.shared (s.backends i)).1 s.backends;
      })
  triggers :
      (s : Cluster) (enabled : Bool)
      → Step s (record s { shared = trigger_activity enabled s.shared })
  worker_ends : (s : Cluster) → Step s (record s { shared = remove_state s.shared })

pub data Reach (s : Cluster) : Cluster → Type 0 where
  here : Reach s s
  next : {t u : Cluster} → Reach s t → Step t u → Reach s u

abbrev pub marked : Shared → Bool
marked none = true
marked (some s) = s.bgw_session_hint_is_reused

abbrev pub has_hint : Cluster → ℕ → Bool
has_hint s i = (s.backends i).reused_bgw_session_hint

pub record IsExclusive (s : Cluster) : Type 0 where
  pub at_most_one : (i j : ℕ) → (i ≡ j) ⊎ (has_hint s i ≡ false) ⊎ (has_hint s j ≡ false)
  pub shows : (i : ℕ) → (has_hint s i ≡ false) ⊎ (marked s.shared ≡ true)

Step-IsExclusive : {s t : Cluster} → Step s t → IsExclusive s → IsExclusive t
unfolding possibly_reuse_bgw_session_hint unclaim_bgw_session_hint trigger_activity remove_state
Step-IsExclusive (reuses s i) e = record {
  at_most_one = λ j k. ground (
    arith,
    e.at_most_one j k,
    e.at_most_one i j,
    e.at_most_one i k,
    e.shows i,
    e.shows j,
    e.shows k,
  );
  shows = λ j. ground (arith, e.shows i, e.shows j);
}
Step-IsExclusive (exits s i) e = record {
  at_most_one = λ j k. ground (arith, e.at_most_one j k);
  shows = λ j. ground (arith, e.shows j, e.at_most_one i j);
}
Step-IsExclusive (triggers s enabled) e = record {
  at_most_one = λ j k. e.at_most_one j k;
  shows = λ j. ground (arith, e.shows j);
}
Step-IsExclusive (worker_ends s) e = record {
  at_most_one = λ j k. e.at_most_one j k;
  shows = λ j. inr refl;
}

-- Whatever the backends do, and wherever the worker ends, two backends never share its session hint
-- at the same time.
pub Reach-IsExclusive : {s t : Cluster} → Reach s t → IsExclusive s → IsExclusive t
Reach-IsExclusive here e = e
Reach-IsExclusive (next r st) e = Step-IsExclusive st (Reach-IsExclusive r e)

-- A worker that is started again gives the hint away a second time, while the first backend goes on
-- sharing it.
pub claim_after_restart :
    (shared : Shared) (a b : Backend)
    → a.reused_bgw_session_hint ≡ true
    → b.reused_bgw_session_hint ≡ false
    → b.is_background_worker ≡ false
    → let r = possibly_reuse_bgw_session_hint (set_background_worker_state shared) b in
      ((possibly_reuse_bgw_session_hint r.0 a).2 ≡ true) × (r.2 ≡ true)
unfolding possibly_reuse_bgw_session_hint set_background_worker_state
claim_after_restart shared a b h k w = ground arith
