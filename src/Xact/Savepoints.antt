-- ===== src/Xact/Savepoints.antt =====
-- DuckDB has no savepoints: transactions of DuckDB beside Postgres' stack of subtransactions.
use pg_duckdb.Common.{ℕ, suc, ◌-◌, ◌≡◌, refl, ◌⊎◌, inr, Bool, true, false, not, none, ◌==◌, arith}
use pg_duckdb.Xact.{
  Xact, Env, abort, pre_commit, xact_callback, sub_xact_callback, start_sub, get_connection,
  did_disallowed_mixed_writes,
}

-- pg_duckdb's state beside the depth of Postgres' stack of subtransactions.
pub record Nested : Type 0 where
  pub xact : Xact
  pub depth : ℕ

abbrev pub is_sub : Nested → Bool
is_sub s = not (s.depth == 0)

-- What a backend goes through; each step meets settings and answers of its own. There is no DuckDB
-- transaction without a DuckDB instance, and IsSubTransaction() reads the stack.
pub record Meets (s : Nested) (e : Env) : Type 0 where
  pub runs : s.xact.active_transaction ≡ true → e.initialized ≡ true
  pub sub_is : e.in_subtransaction ≡ is_sub s

pub data Step : Nested → Nested → Type 0 where
  connect :
      (s : Nested) (e : Env) (force : Bool)
      → Meets s e
      → Step s (record s { xact = (get_connection e force s.xact).0 })
  -- The error of the callback stops the subtransaction.
  start :
      (s : Nested) (e : Env)
      → Meets s e
      → sub_xact_callback e start_sub s.xact ≡ none
      → Step s (record s { depth = suc s.depth })
  finish : (s : Nested) → Step s (record s { depth = s.depth - 1 })
  end_commit :
      (s : Nested) (e : Env)
      → Meets s e
      → Step s (record s { xact = (xact_callback e pre_commit s.xact).0 })
  end_abort :
      (s : Nested) (e : Env)
      → Meets s e
      → Step s (record { xact = (xact_callback e abort s.xact).0; depth = 0 })

pub data Reach (s : Nested) : Nested → Type 0 where
  here : Reach s s
  next : {t u : Nested} → Reach s t → Step t u → Reach s u

abbrev pub IsFlat : Nested → Type 0
IsFlat s = (s.xact.active_transaction ≡ false) ⊎ (s.depth ≡ 0)

Step-IsFlat : {s t : Nested} → Step s t → IsFlat s → IsFlat t
unfolding get_connection sub_xact_callback xact_callback did_disallowed_mixed_writes
Step-IsFlat (connect s e force m) h = ground arith
Step-IsFlat (start s e m ok) h = ground arith
Step-IsFlat (finish s) h = ground arith
Step-IsFlat (end_commit s e m) h = ground arith
Step-IsFlat (end_abort s e m) h = inr refl

-- On every path from such a state, a DuckDB transaction that is open stands at the top of the stack: none has been
-- opened inside a subtransaction, and no subtransaction has begun while it was open.
pub Reach-IsFlat : {s t : Nested} → Reach s t → IsFlat s → IsFlat t
Reach-IsFlat here h = h
Reach-IsFlat (next r st) h = Step-IsFlat st (Reach-IsFlat r h)
