-- ===== src/Types/Agree.antt =====
-- How the type maps and the conversions fit together.
use pg_duckdb.Common.{
  ℕ, zero, suc, ◌+◌, ◌-◌, ◌≡◌, ◌≢◌, refl, ◌∙◌, ◌↔◌, ◌⊎◌, Bool, true, false, Option, none, some,
  ◌>>=◌, arith,
}
use pg_duckdb.Common.Int.{ℤ}
use pg_duckdb.Types.{
  Oid, LogicalType, timestamptz_array, list, array, struct, union_type, map_type,
  convert_numeric_type, boolean, bool_oid,
}
use pg_duckdb.Types.Columns.{
  Catalog, Attribute, convert_base_oid, convert_base, convert_column, is_array_type,
  is_array_domain_type, is_invalid, nest, column_dimensions,
}
use pg_duckdb.Types.Oids.{
  get_postgres_array_type, get_postgres_type, is_nested, innermost, list_dimensionality, Target,
  scalar, elements, write_target, can_read,
}

-- The array's elements are written as the scalar is.
abbrev pub SameWriter : Option Target → Option Target → Type 0
SameWriter (some (elements w)) (some (scalar v)) = w ≡ v
SameWriter _ _ = ⊥

-- A flat type that has an array type is written, element by element, by the conversion that writes
-- the type itself.
pub array-elements :
    (t : LogicalType) (a : Oid)
    → get_postgres_array_type t ≡ some a
    → SameWriter (write_target a) (get_postgres_type t >>= write_target)
unfolding get_postgres_array_type get_postgres_type write_target
array-elements boolean a h = ground arith
array-elements _ a h = ground arith

-- Every Postgres type that a DuckDB type is mapped to has a conversion that writes it.
pub get_postgres_type-write_target :
    (t : LogicalType) (o : Oid) → get_postgres_type t ≡ some o → write_target o ≢ none
unfolding get_postgres_type get_postgres_array_type write_target
get_postgres_type-write_target (list t) o h = array_writable (innermost t) o h
  where
    array_writable :
        (u : LogicalType) (a : Oid) → get_postgres_array_type u ≡ some a → write_target a ≢ none
    array_writable boolean a e = ground arith
    array_writable _ a e = ground arith
get_postgres_type-write_target _ o h = ground arith

abbrev pub is_composite : LogicalType → Bool
is_composite struct = true
is_composite union_type = true
is_composite map_type = true
is_composite _ = false

-- Every base type that a Postgres column is given can be read from it, but for the extension's
-- own composite types.
pub convert_base_oid-can_read :
    (as_double : Bool) (o : Oid) (typmod : ℤ)
    → let t = convert_base_oid as_double o typmod in
      (is_invalid t ≡ true) ⊎ (is_composite t ≡ true) ⊎ (can_read t ≡ true)
unfolding convert_base_oid can_read convert_numeric_type
convert_base_oid-can_read as_double bool_oid typmod = ground arith
convert_base_oid-can_read as_double _ typmod = ground arith

-- An array type that DuckDB lists are written to can be read as a column again, except
-- timestamptz[], which the column switch does not list.
pub get_postgres_array_type-convert_base_oid :
    (t : LogicalType) (a : Oid) (typmod : ℤ)
    → get_postgres_array_type t ≡ some a
    → (is_invalid (convert_base_oid true a typmod) ≡ true) ↔ (a ≡ timestamptz_array)
unfolding get_postgres_array_type convert_base_oid convert_numeric_type
get_postgres_array_type-convert_base_oid boolean a typmod h = (λ e. ground arith, λ e. ground arith)
get_postgres_array_type-convert_base_oid _ a typmod h = (λ e. ground arith, λ e. ground arith)

nest-list : (n : ℕ) (t : LogicalType) → nest n (list t) ≡ list (nest n t)
unfolding nest
nest-list zero t = refl
nest-list (suc n) t = nest-list n (list t)

dimensionality-list :
    (n d : ℕ) (t : LogicalType)
    → is_nested t ≡ false
    → list_dimensionality (list (nest n t)) d ≡ d + suc n
unfolding list_dimensionality nest
dimensionality-list zero d t h = rw h (omega arith)
dimensionality-list (suc n) d t h =
    rw (nest-list n t) (dimensionality-list n (d + 1) t h ∙ omega arith)

innermost-nest : (n : ℕ) (t : LogicalType) → innermost (nest n t) ≡ innermost t
unfolding innermost nest
innermost-nest zero t = refl
innermost-nest (suc n) t = innermost-nest n (list t)

base-flat :
    (as_double : Bool) (o : Oid) (typmod : ℤ)
    → is_nested (convert_base_oid as_double o typmod) ≡ false
unfolding convert_base_oid convert_numeric_type
base-flat as_double bool_oid typmod = ground arith
base-flat as_double _ typmod = ground arith

flat-innermost : (t : LogicalType) → is_nested t ≡ false → innermost t ≡ t
unfolding innermost
flat-innermost boolean h = refl
flat-innermost (list t) h = absurd (cc)
flat-innermost (array t) h = absurd (cc)
flat-innermost _ h = refl

module _ (c : Catalog) (as_double : Bool) (a : Attribute)
    (v : is_invalid (convert_base c as_double a) ≡ false)
    (arr : (is_array_type c a.atttypid ≡ true) ⊎ (is_array_domain_type c a.atttypid ≡ true)) where
  convert_column-nest :
      convert_column c as_double a ≡ nest (column_dimensions a) (convert_base c as_double a)
  unfolding convert_column
  convert_column-nest = ground arith

  flat : is_nested (convert_base c as_double a) ≡ false
  unfolding convert_base
  flat = base-flat as_double _ _

  -- A column of an array type, or of a domain over one, whose element type is supported is a list
  -- over that type, as deep as `attndims` says, and of depth 1 where that is 0.
  pub convert_column_lem :
      (list_dimensionality (convert_column c as_double a) 0 ≡ column_dimensions a)
      × (innermost (convert_column c as_double a) ≡ convert_base c as_double a)
  unfolding list_dimensionality nest
  convert_column_lem =
      let depth : column_dimensions a ≡ suc (column_dimensions a - 1) = ground arith in
      (
        rw
            (
              convert_column-nest,
              depth,
              nest-list (column_dimensions a - 1) (convert_base c as_double a),
            )
            (dimensionality-list (column_dimensions a - 1) 0 (convert_base c as_double a) flat
              ∙ omega arith),
        rw (convert_column-nest, innermost-nest (column_dimensions a) (convert_base c as_double a))
            (flat-innermost (convert_base c as_double a) flat),
      )
