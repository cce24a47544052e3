-- ===== src/Arrays.antt =====
-- Writing nested lists as Postgres arrays: `PostgresArrayAppendState` and `ConvertDuckToPostgresArray`
-- of src/pgduckdb_types.cpp. The list type tells the depth, so that a value of depth `n` holds lists
-- down to its elements; `none` is a NULL. The conversion of an element is left out, and elements whose
-- type is ARRAY count as elements here as they do there.
use pg_duckdb.Common.{
  ℕ, zero, suc, ◌+◌, ◌*◌, ◌%◌, ◌^◌, Bool, true, false, not, ◌||◌, Option, none, some, List, [], ◌∷◌,
  ◌++◌, ltb, leb, ◌==◌, length, get_elem?, set, replicate, ◌⊎◌, inl, inr, if◌then◌else◌,
}
pub mod Rectangles
pub mod Dimensions
pub mod Sizes
pub mod Shapes

-- A LIST value of `n` further levels: its children.
abbrev pub Children : Type 0 → ℕ → Type 0
Children A zero = List (Option A)
Children A (suc n) = List (Option (Children A n))

-- `dimensions` has `none` for -1, `allocated` is the size of the two buffers once there are any, and
-- `datums` is what has been written to them, so that `count` is its length.
pub record AppendState (A : Type 0) : Type 0 where
  pub expected_values : ℕ
  pub dimensions : List (Option ℕ)
  pub allocated : Option ℕ
  pub datums : List (Option A)

-- `buffer_overrun` is a write past the buffers or the dimensions, and `invalid_alloc` the error of
-- palloc on a request of more than MaxAllocSize bytes.
pub data ArrayError : Type 0 where
  too_many overflow ragged null_list buffer_overrun invalid_alloc : ArrayError

pub data Appended (A : Type 0) : Type 0 where
  appended : AppendState A → Appended A
  failed : ArrayError → Appended A

infixl 5 ◌and_append◌
abbrev pub ◌and_append◌ : {A : Type 0} → Appended A → (AppendState A → Appended A) → Appended A
appended s and_append f = f s
failed e and_append f = failed e

abbrev pub uint64_size : ℕ
uint64_size = 18446744073709551616

abbrev pub max_int32 : ℕ
max_int32 = 2147483647

-- A dimension that is not set yet: the plain product wraps, and the second one is checked.
unfoldable pub set_dimension : {A : Type 0} → ℕ → ℕ → AppendState A → Appended A
set_dimension to_append dimension s =
    let product = s.expected_values * to_append % uint64_size in
    if leb uint64_size (product * to_append)
    then failed overflow
    else appended (record s {
      dimensions = set s.dimensions dimension (some to_append);
      expected_values = product * to_append;
    })

-- The tests on the size of a list at its dimension.
unfoldable pub enter_dimension : {A : Type 0} → ℕ → ℕ → AppendState A → Appended A
unfolding set_dimension
enter_dimension to_append dimension s =
    if ltb max_int32 to_append then failed too_many else elim (get_elem? s.dimensions dimension) [
      | none ↦ failed buffer_overrun
      | some d ↦ elim d [
        | none ↦ set_dimension to_append dimension s
        | some size ↦ if size == to_append then appended s else failed ragged
      ]
    ]

-- MaxAllocSize of Postgres, and sizeof(Datum)
abbrev pub max_alloc_size : ℕ
max_alloc_size = 1073741823

abbrev pub datum_size : ℕ
datum_size = 8

-- if (!datums): the request for the datums is a size_t that wraps; the second one is for the nulls, of
-- a byte each, so that a request for datums that has wrapped is followed by one that is refused.
unfoldable pub allocate : {A : Type 0} → AppendState A → Appended A
allocate s = elim s.allocated [
  | none ↦
      if ltb max_alloc_size (s.expected_values * datum_size % uint64_size)
        || ltb max_alloc_size s.expected_values
      then failed invalid_alloc
      else appended (record s { allocated = some s.expected_values })
  | some size ↦ appended s
]

abbrev pub has_room : {A : Type 0} → AppendState A → Bool
has_room s = elim s.allocated [ none ↦ false | some size ↦ ltb (length s.datums) size ]

unfoldable pub append_leaves : {A : Type 0} → List (Option A) → AppendState A → Appended A
append_leaves [] s = appended s
append_leaves (v ∷ vs) s =
    let rest = append_leaves vs (record s { datums = s.datums ++ v ∷ [] }) in
    if has_room s then rest else failed buffer_overrun

-- for (auto &child_val : values), at the lists.
unfoldable pub append_each :
    {A V : Type 0} → (V → AppendState A → Appended A) → List (Option V) → AppendState A → Appended A
append_each f [] s = appended s
append_each f (none ∷ vs) s = failed null_list
append_each f (some v ∷ vs) s = f v s and_append append_each f vs

-- AppendValueAtDimension
unfoldable pub append_value_at_dimension :
    {A : Type 0} (n : ℕ) → Children A n → ℕ → AppendState A → Appended A
unfolding allocate
append_value_at_dimension zero values dimension s =
    (enter_dimension (length values) dimension s and_append allocate)
    and_append append_leaves values
append_value_at_dimension (suc n) values dimension s =
    enter_dimension (length values) dimension s
    and_append append_each (λ v u. append_value_at_dimension n v (dimension + 1) u) values

-- The constructor of the state.
abbrev pub new_state : {A : Type 0} → ℕ → AppendState A
new_state number_of_dimensions = record {
  expected_values = 1;
  dimensions = replicate number_of_dimensions none;
  allocated = none;
  datums = [];
}

abbrev pub or_zero : Option ℕ → ℕ
or_zero none = 0
or_zero (some d) = d

abbrev pub or_zeros : List (Option ℕ) → List ℕ
or_zeros [] = []
or_zeros (d ∷ ds) = or_zero d ∷ or_zeros ds

abbrev pub array_of : {A : Type 0} → Appended A → ArrayError ⊎ (List (Option A) × List ℕ)
array_of (failed e) = inl e
array_of (appended s) = inr (s.datums, or_zeros s.dimensions)

-- ConvertDuckToPostgresArray, up to the call of ConstructArray: its datums and dimensions.
unfoldable pub convert_duck_to_postgres_array :
    {A : Type 0} (n : ℕ) → Children A n → ArrayError ⊎ (List (Option A) × List ℕ)
convert_duck_to_postgres_array n values =
    array_of (append_value_at_dimension n values 0 (new_state (suc n)))
