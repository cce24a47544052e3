-- ===== src/Scan/Filters.antt =====
-- ExtractQueryFilters and FilterJoin of src/scan/postgres_scan.cpp.
use Prim.Native.String.{String, ◌++◌}
use pg_duckdb.Common.{ℕ, Bool, true, List, [], ◌∷◌, if◌then◌else◌}
use pg_duckdb.Scan.{Duck, Expr, Printed, printed, unsupported, thrown, expression_to_string}

-- duckdb::TableFilter: a simple one is a constant comparison, IS NULL, IS NOT NULL or IN, by a number;
-- `unlisted` is a dynamic filter, STRUCT_EXTRACT, or any other. A conjunction says whether it is an OR.
mutual
  pub data Filter : Type 0 where
    simple : ℕ → Filter
    conjunction : Bool → Filters → Filter
    optional : Filter → Filter
    expression : Expr → Filter
    unlisted : ℕ → Filter

  pub data Filters : Type 0 where
    no_filters : Filters
    filter : Filter → Filters → Filters

-- The text that is appended, nothing where 0 is returned, an exception, or the value of an empty
-- std::optional.
pub data Extracted {ℓ} (A : Type ℓ) : Type ℓ where
  kept : A → Extracted A
  dropped failed undefined : Extracted A

-- The texts from the second on, appended to the first one.
abbrev pub join_after : String → String → List String → String
join_after delimiter so_far [] = so_far
join_after delimiter so_far (s ∷ ss) = join_after delimiter (so_far ++ (delimiter ++ s)) ss

abbrev pub filter_join : String → List String → String
filter_join delimiter [] = ""
filter_join delimiter (s ∷ ss) = join_after delimiter s ss

abbrev pub delimiter_of : Bool → String
delimiter_of is_or = if is_or then " OR " else " AND "

-- What the texts of the children make, if there are any.
abbrev pub joined : Bool → Extracted (List String) → Extracted String
joined is_or (kept []) = dropped
joined is_or (kept (s ∷ ss)) = kept ("(" ++ (filter_join (delimiter_of is_or) (s ∷ ss) ++ ")"))
joined is_or dropped = dropped
joined is_or failed = failed
joined is_or undefined = undefined

abbrev pub in_front : String → Extracted (List String) → Extracted (List String)
in_front s (kept ss) = kept (s ∷ ss)
in_front s dropped = dropped
in_front s failed = failed
in_front s undefined = undefined

-- One child in the loop: an OR is dropped with it, and an AND goes on without it.
abbrev pub add_child : Bool → Extracted String → Extracted (List String) → Extracted (List String)
add_child is_or (kept s) rest = in_front s rest
add_child is_or dropped rest = if is_or then dropped else rest
add_child is_or failed rest = failed
add_child is_or undefined rest = undefined

abbrev pub from_printed : Printed → Extracted String
from_printed (printed s) = kept s
from_printed unsupported = undefined
from_printed thrown = failed

unfoldable mutual
  pub extract_query_filters : Duck → String → Bool → Filter → Extracted String
  extract_query_filters d column inside (simple n) = kept (d.filter_string n column)
  extract_query_filters d column inside (conjunction is_or fs) =
      joined is_or (extract_children d column inside is_or fs)
  extract_query_filters d column inside (optional f) = extract_query_filters d column true f
  extract_query_filters d column inside (expression e) =
      from_printed (expression_to_string d column e)
  extract_query_filters d column inside (unlisted n) = if inside then dropped else failed

  pub extract_children : Duck → String → Bool → Bool → Filters → Extracted (List String)
  extract_children d column inside is_or no_filters = kept []
  extract_children d column inside is_or (filter f fs) =
      add_child is_or (extract_query_filters d column inside f)
        (extract_children d column inside is_or fs)
