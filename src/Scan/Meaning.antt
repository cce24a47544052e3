-- ===== src/Scan/Meaning.antt =====
-- What a condition says of a row, and what the condition that is extracted from a filter has to say.
use Prim.Native.String.{String, ◌++◌}
use pg_duckdb.Common.{ℕ, ◌≡◌, ◌⊎◌, Bool, true, false, not, ◌&&◌, ◌||◌, List, [], ◌∷◌, if◌then◌else◌}
use pg_duckdb.Scan.{Duck}
use pg_duckdb.Scan.Texts.{Values, eval, Means}
use pg_duckdb.Scan.Filters.{
  Filter, Filters, simple, conjunction, optional, expression, unlisted, no_filters, filter,
  Extracted, kept, dropped, failed, undefined, filter_join,
}

-- Which simple filters and unlisted filters are true of the row at hand, and its values.
pub record Row : Type 0 where
  pub simple_holds : ℕ → Bool
  pub values : Values
  pub unlisted_holds : ℕ → Bool

-- Is the filter true of the row?
unfoldable mutual
  pub holds : Row → Filter → Bool
  holds r (simple n) = r.simple_holds n
  holds r (conjunction is_or fs) = if is_or then any_holds r fs else all_hold r fs
  holds r (optional f) = holds r f
  holds r (expression e) = r.values.is_true (eval r.values e)
  holds r (unlisted n) = r.unlisted_holds n

  pub any_holds : Row → Filters → Bool
  any_holds r no_filters = false
  any_holds r (filter f fs) = holds r f || any_holds r fs

  pub all_hold : Row → Filters → Bool
  all_hold r no_filters = true
  all_hold r (filter f fs) = holds r f && all_hold r fs

-- What a condition's text says of the row, by how it is put together; each part of a conjunction has
-- its own text, and parentheses around them all.
mutual
  pub data Says (d : Duck) (column : String) (r : Row) : String → Bool → Type 0 where
    says_simple : (n : ℕ) → Says d column r (d.filter_string n column) (r.simple_holds n)
    says_expression :
        {s : String} {v : ℕ} → Means d column r.values s v → Says d column r s (r.values.is_true v)
    says_and :
        {ss : List String} {m : Bool}
        → SaysAll d column r ss m
        → Says d column r ("(" ++ (filter_join " AND " ss ++ ")")) m
    says_or :
        {ss : List String} {m : Bool}
        → SaysAny d column r ss m
        → Says d column r ("(" ++ (filter_join " OR " ss ++ ")")) m

  pub data SaysAll (d : Duck) (column : String) (r : Row) : List String → Bool → Type 0 where
    all_none : SaysAll d column r [] true
    all_more :
        {s : String} {ss : List String} {m n : Bool}
        → Says d column r s m
        → SaysAll d column r ss n
        → SaysAll d column r (s ∷ ss) (m && n)

  pub data SaysAny (d : Duck) (column : String) (r : Row) : List String → Bool → Type 0 where
    any_none : SaysAny d column r [] false
    any_more :
        {s : String} {ss : List String} {m n : Bool}
        → Says d column r s m
        → SaysAny d column r ss n
        → SaysAny d column r (s ∷ ss) (m || n)

-- Is every part of the filter one that has to be applied? An OR of nothing is none of DuckDB's.
unfoldable mutual
  pub is_mandatory : Filter → Bool
  is_mandatory (simple n) = true
  is_mandatory (conjunction is_or fs) = not (is_or && has_none fs) && all_mandatory fs
  is_mandatory (optional f) = false
  is_mandatory (expression e) = true
  is_mandatory (unlisted n) = true

  pub all_mandatory : Filters → Bool
  all_mandatory no_filters = true
  all_mandatory (filter f fs) = is_mandatory f && all_mandatory fs

  pub has_none : Filters → Bool
  has_none no_filters = true
  has_none (filter f fs) = false

-- A condition that says `m` lets every row pass of which the filter is true, and no other row, if all
-- of the filter is mandatory.
pub record Fits (filter_holds mandatory m : Bool) : Type 0 where
  pub passes : (filter_holds && not m) ≡ false
  pub exact : (mandatory ≡ false) ⊎ (m ≡ filter_holds)

-- The condition that is extracted: its text, or none at all, which every row passes.
abbrev pub Extracts : Duck → String → Row → Bool → Bool → Extracted String → Type 0
Extracts d column r h mandatory (kept s) = (m : Bool) × Says d column r s m × Fits h mandatory m
Extracts d column r h mandatory dropped = Fits h mandatory true
Extracts d column r h mandatory failed = Unit
Extracts d column r h mandatory undefined = Unit
