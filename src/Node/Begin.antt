-- ===== src/Node/Begin.antt =====
-- The checks at the start of a scan beside the plan.
use Prim.Native.String.{String}
use pg_duckdb.Common.{
  suc, ◌≡◌, subst, refl, ap, Bool, true, false, not, Option, none, some, List, [], ◌∷◌,
  if◌then◌else◌, length, arith,
}
use pg_duckdb.Types.{Oid, LogicalType}
use pg_duckdb.Types.Oids.{get_postgres_type, get_postgres_typemod}
use pg_duckdb.Hooks.{
  Columns, TargetEntry, Attempt, planned, declined, raised, target_list, add_column, then_column,
  fail, unknown_type, unsupported_type, stands_for_unsupported,
}
use pg_duckdb.Node.{check_type, check_types, check_replanned}

-- The entries of a plan beside the columns that they were made for.
data Fits : Columns → List TargetEntry → Type 0 where
  no_columns : Fits [] []
  column :
      {c : String × LogicalType} {t : TargetEntry} {cs : Columns} {ts : List TargetEntry}
      → get_postgres_type c.1 ≡ some t.vartype
      → Fits cs ts
      → Fits (c ∷ cs) (t ∷ ts)

-- What a plan's target list is for, if there is one.
abbrev FitsPlan : Columns → Attempt (List TargetEntry) → Type 0
FitsPlan cs (planned ts) = Fits cs ts
FitsPlan cs declined = Unit
FitsPlan cs (raised e) = Unit

untyped-FitsPlan :
    (cs : Columns) (unsupported throws : Bool)
    → FitsPlan cs (if unsupported then raised unsupported_type else fail throws unsupported_type)
untyped-FitsPlan cs true throws = tt
untyped-FitsPlan cs false true = tt
untyped-FitsPlan cs false false = tt

known-FitsPlan :
    (c : String × LogicalType) (cs : Columns) (throws known : Bool) (oid : Oid)
    (rest : Attempt (List TargetEntry))
    → get_postgres_type c.1 ≡ some oid
    → FitsPlan cs rest
    → FitsPlan (c ∷ cs) (
        if not known
        then fail throws unknown_type
        else then_column
            (record { resname = c.0; vartype = oid; vartypmod = get_postgres_typemod c.1 })
            rest)
known-FitsPlan c cs true false oid rest e h = tt
known-FitsPlan c cs false false oid rest e h = tt
known-FitsPlan c cs throws true oid (planned ts) e h = column e h
known-FitsPlan c cs throws true oid declined e h = tt
known-FitsPlan c cs throws true oid (raised err) e h = tt

looked_up-FitsPlan :
    (c : String × LogicalType) (cs : Columns) (throws : Bool) (known : Option Bool) (oid : Oid)
    (rest : Attempt (List TargetEntry))
    → get_postgres_type c.1 ≡ some oid
    → FitsPlan cs rest
    → FitsPlan (c ∷ cs) (elim known [
      | none ↦ declined
      | some k ↦
          if not k
          then fail throws unknown_type
          else then_column
              (record { resname = c.0; vartype = oid; vartypmod = get_postgres_typemod c.1 })
              rest
    ])
looked_up-FitsPlan c cs throws none oid rest e h = tt
looked_up-FitsPlan c cs throws (some k) oid rest e h = known-FitsPlan c cs throws k oid rest e h

add_column-FitsPlan :
    (known : Oid → Option Bool) (throws : Bool) (c : String × LogicalType) (cs : Columns)
    (o : Option Oid) (rest : Attempt (List TargetEntry))
    → get_postgres_type c.1 ≡ o
    → FitsPlan cs rest
    → FitsPlan (c ∷ cs) (add_column known throws c o rest)
unfolding add_column
add_column-FitsPlan known throws (name, type) cs none rest e h =
    untyped-FitsPlan _ (stands_for_unsupported type) throws
add_column-FitsPlan known throws (name, type) cs (some oid) rest e h =
    looked_up-FitsPlan (name, type) cs throws (known oid) oid rest e h

target_list-FitsPlan :
    (known : Oid → Option Bool) (throws : Bool) (cs : Columns)
    → FitsPlan cs (target_list known throws cs)
unfolding target_list
target_list-FitsPlan known throws [] = no_columns
target_list-FitsPlan known throws (c ∷ cs) =
    add_column-FitsPlan known throws c cs (get_postgres_type c.1) (target_list known throws cs) refl
      (target_list-FitsPlan known throws cs)

Fits-length : {cs : Columns} {ts : List TargetEntry} → Fits cs ts → length cs ≡ length ts
Fits-length no_columns = refl
Fits-length (column e f) = ap suc (Fits-length f)

check_type-same : (t : TargetEntry) → check_type t (some t.vartype) none ≡ none
check_type-same t = ground arith

Fits-check_types : {cs : Columns} {ts : List TargetEntry} → Fits cs ts → check_types cs ts ≡ none
unfolding check_types
Fits-check_types no_columns = refl
Fits-check_types (column {t = t} e f) = rw (e, Fits-check_types f) (check_type-same t)

-- A plan whose query prepares to the same columns when the scan begins passes the checks there,
-- whatever they are.
pub check_replanned-target_list :
    (known : Oid → Option Bool) (throws is_explain_query : Bool) (cs : Columns)
    (ts : List TargetEntry)
    → target_list known throws cs ≡ planned ts
    → check_replanned is_explain_query (some cs) ts ≡ none
unfolding check_replanned
check_replanned-target_list known throws is_explain_query cs ts h =
    let f : Fits cs ts = subst (FitsPlan cs) h (target_list-FitsPlan known throws cs) in
    ground (arith, Fits-length f, Fits-check_types f)
