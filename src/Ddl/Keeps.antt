-- ===== src/Ddl/Keeps.antt =====
-- Steps of the DDL code that leave a part of the state as it is, and what a step that succeeds has gone
-- through.
use pg_duckdb.Common.{ℕ, Bool, true, false, Option, none, some, List, ◌≡◌, refl, ◌∙◌, arith}
use pg_duckdb.Xact
use pg_duckdb.Xact.{Xact}
use pg_duckdb.Worker.Sync.{Text}
use pg_duckdb.Sql.{Error, Result, ok, err}
use pg_duckdb.Ddl.{
  Env, State, M, continue, ◌>>=◌, lift, refuse_if, when, with_xact, xact_result, claim, connect,
  duckdb_query,
}

-- The step does not change what `f` reads.
pub record Keeps {A X : Type 0} (f : State → X) (m : M A) : Type 0 where
  pub keeps : (s : State) → f (m s).0 ≡ f s

continue-Keeps :
    {A B X : Type 0} (f : State → X) (g : A → M B)
    → ((a : A) → Keeps f (g a))
    → (r : State × Result A) → f (continue g r).0 ≡ f r.0
continue-Keeps f g h (s, ok a) = (h a).keeps s
continue-Keeps f g h (s, err error) = refl

pub bind-Keeps :
    {A B X : Type 0} {f : State → X} {m : M A} {g : A → M B}
    → Keeps f m
    → ((a : A) → Keeps f (g a))
    → Keeps f (m >>= g)
bind-Keeps {f = f} {m} {g} hm hg = record { keeps = λ s. continue-Keeps f g hg (m s) ∙ hm.keeps s }

pub lift-Keeps : {A X : Type 0} {f : State → X} (r : Result A) → Keeps f (lift r)
lift-Keeps r = record { keeps = λ s. refl }

branch_when-Keeps :
    {X : Type 0} (f : State → X) (b : Bool) (m : M (Unit {0}))
    → Keeps f m
    → (s : State) → f (when b m s).0 ≡ f s
branch_when-Keeps f true m h s = h.keeps s
branch_when-Keeps f false m h s = refl

pub when-Keeps :
    {X : Type 0} {f : State → X} (b : Bool) {m : M (Unit {0})} → Keeps f m → Keeps f (when b m)
when-Keeps {f = f} b {m} h = record { keeps = branch_when-Keeps f b m h }

refuse_if_keeps :
    {X : Type 0} (f : State → X) (b : Bool) (error : Error) (s : State)
    → f (refuse_if b error s).0 ≡ f s
refuse_if_keeps f true error s = refl
refuse_if_keeps f false error s = refl

pub refuse_if-Keeps :
    {X : Type 0} {f : State → X} (b : Bool) (error : Error) → Keeps f (refuse_if b error)
refuse_if-Keeps {f = f} b error = record { keeps = refuse_if_keeps f b error }

-- What does not depend on the transaction.
pub record OffXact {X : Type 0} (f : State → X) : Type 0 where
  pub off : (x : Xact) (s : State) → f (with_xact x s) ≡ f s

abbrev pub tables_of : State → List ℕ
tables_of s = s.tables

abbrev pub sent_of : State → List Text
sent_of s = s.sent

abbrev pub force_of : State → Bool
force_of s = s.hooks.xact.force_allow_writes

pub tables_of-OffXact : OffXact tables_of
tables_of-OffXact = record { off = λ x s. refl }

pub sent_of-OffXact : OffXact sent_of
sent_of-OffXact = record { off = λ x s. refl }

module _ {X : Type 0} {f : State → X} (h : OffXact f) (e : Env) where
  xact_result_keeps : (s : State) (r : Xact × Option Xact.Error) → f (xact_result s r).0 ≡ f s
  xact_result_keeps s (x, none) = h.off x s
  xact_result_keeps s (x, some error) = h.off x s

  pub claim-Keeps : (force : Bool) → Keeps f (claim e force)
  unfolding claim
  claim-Keeps force = record { keeps = λ s. xact_result_keeps s _ }

  pub connect-Keeps : Keeps f (connect e)
  unfolding connect
  connect-Keeps = record { keeps = λ s. xact_result_keeps s _ }

pub connect-Keeps_force : (e : Env) → Keeps force_of (connect e)
unfolding connect Xact.get_connection
connect-Keeps_force e = record { keeps = λ s. ground arith }

pub duckdb_query-Keeps_tables : (e : Env) (text : Text) → Keeps tables_of (duckdb_query e text)
unfolding duckdb_query
duckdb_query-Keeps_tables e text = record { keeps = λ s. ground arith }

pub duckdb_query-Keeps_force : (e : Env) (text : Text) → Keeps force_of (duckdb_query e text)
unfolding duckdb_query
duckdb_query-Keeps_force e text = record { keeps = λ s. ground arith }

-- A sequence of two steps that succeeds has succeeded in both.
pub continue-holds :
    {A B : Type 0} (P : State → Type 0) (g : A → M B) (r : State × Result A) {b : B}
    → (continue g r).1 ≡ ok b
    → ((u : State) (a : A) → r ≡ (u, ok a) → (g a u).1 ≡ ok b → P (g a u).0)
    → P (continue g r).0
continue-holds P g (s, ok a) h k = k s a refl h
continue-holds P g (s, err error) h k = cc
