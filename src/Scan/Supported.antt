-- ===== src/Scan/Supported.antt =====
-- Filters that become a condition without an exception.
use Prim.Native.String.{String}
use pg_duckdb.Common.{◌≡◌, refl, ◌⊎◌, inl, inr, Bool, true, false, ◌&&◌, List, [], ◌∷◌, arith}
use pg_duckdb.Scan.{Duck, Printed, is_printed, pushdown_expression}
use pg_duckdb.Scan.Filters.{
  Filter, Filters, simple, conjunction, optional, expression, unlisted, no_filters, filter,
  Extracted, kept, dropped, failed, undefined, joined, add_child, from_printed,
  extract_query_filters, extract_children,
}
use pg_duckdb.Scan.Pushdown.{Alike, both_printed, both_unsupported, both_thrown, expression-Alike}

-- Each expression has been accepted for pushdown, and unlisted filters are within optional ones.
unfoldable mutual
  pub is_supported : Duck → Bool → Filter → Bool
  is_supported d inside (simple n) = true
  is_supported d inside (conjunction is_or fs) = all_supported d inside fs
  is_supported d inside (optional f) = is_supported d true f
  is_supported d inside (expression e) = pushdown_expression d e
  is_supported d inside (unlisted n) = inside

  pub all_supported : Duck → Bool → Filters → Bool
  all_supported d inside no_filters = true
  all_supported d inside (filter f fs) = is_supported d inside f && all_supported d inside fs

abbrev IsExtracted : {A : Type 0} → Extracted A → Type 0
IsExtracted (kept s) = Unit
IsExtracted dropped = Unit
IsExtracted failed = ⊥
IsExtracted undefined = ⊥

child-IsExtracted :
    (is_or : Bool) (x : Extracted String) (xs : Extracted (List String))
    → IsExtracted x
    → IsExtracted xs
    → IsExtracted (add_child is_or x xs)
child-IsExtracted is_or (kept s) (kept ss) e es = tt
child-IsExtracted is_or (kept s) dropped e es = tt
child-IsExtracted is_or (kept s) failed e es = es
child-IsExtracted is_or (kept s) undefined e es = es
child-IsExtracted true dropped xs e es = tt
child-IsExtracted false dropped xs e es = es
child-IsExtracted is_or failed xs e es = absurd e
child-IsExtracted is_or undefined xs e es = absurd e

joined-IsExtracted :
    (is_or : Bool) (xs : Extracted (List String)) → IsExtracted xs → IsExtracted (joined is_or xs)
joined-IsExtracted is_or (kept []) e = tt
joined-IsExtracted is_or (kept (s ∷ ss)) e = tt
joined-IsExtracted is_or dropped e = tt
joined-IsExtracted is_or failed e = e
joined-IsExtracted is_or undefined e = e

-- The name of the column makes no difference.
printed-IsExtracted :
    {p q : Printed} → Alike p q → is_printed p ≡ true → IsExtracted (from_printed q)
printed-IsExtracted both_printed h = tt
printed-IsExtracted both_unsupported h = cc
printed-IsExtracted both_thrown h = cc

first : (a b : Bool) → (a && b) ≡ true → a ≡ true
first a b h = ground arith

second : (a b : Bool) → (a && b) ≡ true → b ≡ true
second a b h = ground arith

mutual
  unfolding extract_query_filters is_supported pushdown_expression

  supported-IsExtracted :
      (d : Duck) (column : String) (inside : Bool) (f : Filter)
      → is_supported d inside f ≡ true
      → IsExtracted (extract_query_filters d column inside f)
  supported-IsExtracted d column inside (simple n) h = tt
  supported-IsExtracted d column inside (conjunction is_or fs) h =
      joined-IsExtracted is_or _ (all-IsExtracted d column inside is_or fs h)
  supported-IsExtracted d column inside (optional f) h = supported-IsExtracted d column true f h
  supported-IsExtracted d column inside (expression e) h =
      printed-IsExtracted (expression-Alike d "dummy" column e) h
  supported-IsExtracted d column true (unlisted n) h = tt
  supported-IsExtracted d column false (unlisted n) h = cc

  all-IsExtracted :
      (d : Duck) (column : String) (inside is_or : Bool) (fs : Filters)
      → all_supported d inside fs ≡ true
      → IsExtracted (extract_children d column inside is_or fs)
  all-IsExtracted d column inside is_or no_filters h = tt
  all-IsExtracted d column inside is_or (filter f fs) h =
      child-IsExtracted is_or _ _ (supported-IsExtracted d column inside f (first _ _ h))
        (all-IsExtracted d column inside is_or fs (second _ _ h))

either-IsExtracted :
    (x : Extracted String) → IsExtracted x → ((s : String) × (x ≡ kept s)) ⊎ (x ≡ dropped)
either-IsExtracted (kept s) e = inl (s, refl)
either-IsExtracted dropped e = inr refl
either-IsExtracted failed e = absurd e
either-IsExtracted undefined e = absurd e

-- A filter whose expressions `PostgresScanPushdownExpression` has accepted, and whose unlisted parts
-- are within optional ones, becomes a condition, or none, for any column: no exception is thrown, and
-- no empty std::optional is read.
pub extract_query_filters-supported :
    (d : Duck) (column : String) (f : Filter)
    → is_supported d false f ≡ true
    → ((s : String) × (extract_query_filters d column false f ≡ kept s))
      ⊎ (extract_query_filters d column false f ≡ dropped)
extract_query_filters-supported d column f h =
    either-IsExtracted _ (supported-IsExtracted d column false f h)
