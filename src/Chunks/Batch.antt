-- ===== src/Chunks/Batch.antt =====
-- A batch of tuples, written column by column, beside the same tuples one after the other.
use pg_duckdb.Common.{
  ℕ, suc, ◌+◌, ◌≡◌, refl, ap, ap₂, ◌∙◌, Bool, false, Option, List, [], ◌∷◌, length, arith,
}
use pg_duckdb.Chunks.{
  Output, write, write_row, write_column, write_columns, insert_tuple_into_chunk,
  insert_tuples_into_chunk,
}

module _ {D V : Type 0} (is_varlena : ℕ → Bool) (detoast : D → D) (convert : ℕ → D → V)
    (count_of : D → ℕ) where
  -- The tuples one after the other.
  unfoldable pub insert_each : Output V → List (List (Option D)) → Output V
  insert_each o [] = o
  insert_each o (slot ∷ slots) =
      insert_each (insert_tuple_into_chunk is_varlena detoast convert count_of false o slot) slots

  abbrev column_loop : ℕ → ℕ → ℕ → List (List (Option D)) → List (Option V) → List (Option V)
  column_loop = write_column is_varlena detoast convert count_of

  abbrev columns_loop :
      ℕ → ℕ → List (List (Option D)) → List (List (Option V)) → List (List (Option V))
  columns_loop = write_columns is_varlena detoast convert count_of

  abbrev row_loop : ℕ → ℕ → List (Option D) → List (List (Option V)) → List (List (Option V))
  row_loop = write_row is_varlena detoast convert count_of

  abbrev put : ℕ → ℕ → List (Option D) → List (Option V) → List (Option V)
  put = write is_varlena detoast convert count_of

  shifted : (start row : ℕ) → start + (row + 1) ≡ start + 1 + row
  shifted start row = omega arith

  at_start : (start : ℕ) → start + 0 ≡ start
  at_start start = omega arith

  counted : (n : ℕ) (slots : List (List (Option D))) → n + suc (length slots) ≡ n + 1 + length slots
  counted n slots = omega arith

  column-shift :
      (n start row : ℕ) (slots : List (List (Option D))) (column : List (Option V))
      → column_loop n start (row + 1) slots column ≡ column_loop n (start + 1) row slots column
  unfolding write_column
  column-shift n start row [] column = refl
  column-shift n start row (slot ∷ slots) column =
      column-shift n start (row + 1) slots (put n (start + (row + 1)) slot column)
      ∙ ap (λ k. column_loop n (start + 1) (row + 1) slots (put n k slot column))
          (shifted start row)

  columns-cons :
      (n start : ℕ) (slot : List (Option D)) (slots : List (List (Option D)))
      (columns : List (List (Option V)))
      → columns_loop n start (slot ∷ slots) columns
        ≡ columns_loop n (start + 1) slots (row_loop n start slot columns)
  unfolding write_columns write_column write_row
  columns-cons n start slot slots [] = refl
  columns-cons n start slot slots (column ∷ columns) =
      ap₂ (◌∷◌)
        (ap (λ k. column_loop n start 1 slots (put n k slot column)) (at_start start)
          ∙ column-shift n start 0 slots (put n start slot column))
        (columns-cons (n + 1) start slot slots columns)

  columns-nil :
      (n start : ℕ) (columns : List (List (Option V))) → columns_loop n start [] columns ≡ columns
  unfolding write_columns write_column
  columns-nil n start [] = refl
  columns-nil n start (column ∷ columns) = ap (◌∷◌ column) (columns-nil (n + 1) start columns)

  -- What a batch leaves, whether or not it is empty.
  abbrev batched : Output V → List (List (Option D)) → Output V
  batched o slots = record {
    output_vector_size = o.output_vector_size + length slots;
    total_row_count = o.total_row_count + length slots;
    columns = columns_loop 0 o.output_vector_size slots o.columns;
  }

  abbrev as_output : ℕ → ℕ → List (List (Option V)) → Output V
  as_output s t c = record { output_vector_size = s; total_row_count = t; columns = c }

  same_output :
      {s s' t t' : ℕ} {c c' : List (List (Option V))}
      → s ≡ s'
      → t ≡ t'
      → c ≡ c'
      → as_output s t c ≡ as_output s' t' c'
  same_output h k l = cc

  batched-each :
      (o : Output V) (slots : List (List (Option D))) → batched o slots ≡ insert_each o slots
  unfolding insert_each insert_tuple_into_chunk
  batched-each o [] =
      same_output (at_start o.output_vector_size) (at_start o.total_row_count)
        (columns-nil 0 o.output_vector_size o.columns)
  batched-each o (slot ∷ slots) =
      same_output (counted o.output_vector_size slots) (counted o.total_row_count slots)
        (columns-cons 0 o.output_vector_size slot slots o.columns)
      ∙ batched-each (insert_tuple_into_chunk is_varlena detoast convert count_of false o slot)
          slots

-- A batch of tuples, which is written column by column, leaves the chunk and the counters as the same
-- tuples do one after the other.
pub insert_tuples_into_chunk-each :
    (D V : Type 0) (is_varlena : ℕ → Bool) (detoast : D → D) (convert : ℕ → D → V)
    (count_of : D → ℕ) (o : Output V) (slots : List (List (Option D)))
    → insert_tuples_into_chunk is_varlena detoast convert count_of o slots
      ≡ insert_each is_varlena detoast convert count_of o slots
unfolding insert_tuples_into_chunk insert_each
insert_tuples_into_chunk-each D V is_varlena detoast convert count_of o [] = refl
insert_tuples_into_chunk-each D V is_varlena detoast convert count_of o (slot ∷ slots) =
    batched-each is_varlena detoast convert count_of o (slot ∷ slots)
