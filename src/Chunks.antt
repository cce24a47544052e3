-- ===== src/Chunks.antt =====
-- Tuples written into a DuckDB chunk, InsertTupleIntoChunk and InsertTuplesIntoChunk of
-- src/pgduckdb_types.cpp. A column of the chunk is the list of its cells, and a NULL is `none`. The
-- locks and memory contexts around the conversions are left out.
use pg_duckdb.Common.{
  ℕ, zero, suc, ◌+◌, Bool, true, false, not, Option, none, some, List, [], ◌∷◌, ◌==◌, if◌then◌else◌,
  length, get_elem?, set,
}
use pg_duckdb.Types.{Oid, LogicalType, varchar, list, bit, jsonb_oid}
use pg_duckdb.Types
pub mod Batch

-- Whether a column's values can be converted without the lock.
abbrev pub is_jsonb : Oid → Bool
is_jsonb jsonb_oid = true
is_jsonb _ = false

unfoldable pub is_thread_safe_type : Oid → LogicalType → Bool
is_thread_safe_type attr_type (varchar json) = not (is_jsonb attr_type)
is_thread_safe_type attr_type (list t) = false
is_thread_safe_type attr_type bit = false
is_thread_safe_type attr_type _ = true

-- The counters of the scan, and the columns of the output.
pub record Output (V : Type 0) : Type 0 where
  pub output_vector_size : ℕ
  pub total_row_count : ℕ
  pub columns : List (List (Option V))

-- `is_varlena` says whether attlen is -1 for an attribute, `detoast` is DetoastPostgresDatum, and
-- `convert` is ConvertPostgresToDuckValue for an attribute's type; `count_of` reads a datum as a number.
module _ {D V : Type 0} (is_varlena : ℕ → Bool) (detoast : D → D) (convert : ℕ → D → V)
    (count_of : D → ℕ) where
  -- A slot's attribute; one that the slot does not have is NULL.
  abbrev pub attribute : List (Option D) → ℕ → Option D
  attribute slot n = elim (get_elem? slot n) [ none ↦ none | some v ↦ v ]

  abbrev pub converted : ℕ → Option D → Option V
  converted n none = none
  converted n (some v) = some (convert n (if is_varlena n then detoast v else v))

  -- One cell of the column for the attribute `n`.
  abbrev pub write : ℕ → ℕ → List (Option D) → List (Option V) → List (Option V)
  write n row slot column = set column row (converted n (attribute slot n))

  -- The loop over the columns for one tuple, from the attribute `n` on.
  unfoldable pub write_row :
      ℕ → ℕ → List (Option D) → List (List (Option V)) → List (List (Option V))
  write_row n row slot [] = []
  write_row n row slot (column ∷ columns) =
      write n row slot column ∷ write_row (n + 1) row slot columns

  abbrev pub first_count : List (Option D) → ℕ
  first_count [] = 0
  first_count (none ∷ vs) = 0
  first_count (some v ∷ vs) = count_of v

  -- InsertTupleIntoChunk
  unfoldable pub insert_tuple_into_chunk : Bool → Output V → List (Option D) → Output V
  insert_tuple_into_chunk count_tuples_only o slot =
      if count_tuples_only
      then record o {
        output_vector_size = o.output_vector_size + first_count slot;
        total_row_count = o.total_row_count + first_count slot;
      }
      else record {
        output_vector_size = o.output_vector_size + 1;
        total_row_count = o.total_row_count + 1;
        columns = write_row 0 o.output_vector_size slot o.columns;
      }

  -- The loop over the slots for one column, from the slot `row` on.
  unfoldable pub write_column :
      ℕ → ℕ → ℕ → List (List (Option D)) → List (Option V) → List (Option V)
  write_column n start row [] column = column
  write_column n start row (slot ∷ slots) column =
      write_column n start (row + 1) slots (write n (start + row) slot column)

  -- The loop over the columns.
  unfoldable pub write_columns :
      ℕ → ℕ → List (List (Option D)) → List (List (Option V)) → List (List (Option V))
  write_columns n start slots [] = []
  write_columns n start slots (column ∷ columns) =
      write_column n start 0 slots column ∷ write_columns (n + 1) start slots columns

  -- InsertTuplesIntoChunk
  unfoldable pub insert_tuples_into_chunk : Output V → List (List (Option D)) → Output V
  insert_tuples_into_chunk o [] = o
  insert_tuples_into_chunk o (slot ∷ slots) = record {
    output_vector_size = o.output_vector_size + length (slot ∷ slots);
    total_row_count = o.total_row_count + length (slot ∷ slots);
    columns = write_columns 0 o.output_vector_size (slot ∷ slots) o.columns;
  }
