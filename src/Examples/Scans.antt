-- ===== src/Examples/Scans.antt =====
-- The scan node and the scan of a Postgres table at concrete inputs.
use Prim.Native.String.{String}
use pg_duckdb.Common.{
  ℕ, ◌≤◌, ◌≡◌, refl, true, false, Option, none, some, List, [], ◌∷◌, ◌⊎◌, inl, inr, arith,
}
use pg_duckdb.Chunks.{Output, insert_tuples_into_chunk}
use pg_duckdb.Chunks.Batch.{insert_each, insert_tuples_into_chunk-each}
use pg_duckdb.Types.{integer}
use pg_duckdb.Hooks.{Columns}
use pg_duckdb.Node.{tuple, empty_slot, begun, convert_row}
use pg_duckdb.Node.Rows.{calls, rows_of, no_rows, and_row, calls-rows}
use pg_duckdb.Scan.{
  Duck, varchar, negation, is_null, column_ref, constant, function, expr, no_exprs,
  func_arg_to_like_string, pushdown_expression,
}
use pg_duckdb.Scan.Filters.{
  Filter, simple, conjunction, optional, expression, unlisted, filter, no_filters, kept, dropped,
  extract_query_filters,
}
use pg_duckdb.Scan.Meaning.{Row}
use pg_duckdb.Scan.Supported.{is_supported, extract_query_filters-supported}
use pg_duckdb.Scan.Readers as Queues
use pg_duckdb.Scan.Readers.Complete.{all_tuples, count, total, size, pending, all_tuples-count}
use pg_duckdb.Scan.Batches.{Sizes, Local, Scan, register_local_state}
use pg_duckdb.Scan.Batches.Rows as Rows
use pg_duckdb.Scan.Batches.Outputs as Outputs
use pg_duckdb.Scan.Batches.Registration.{
  Threads, start, created, here, next, creates, Reach-cleanups,
}

-- Two chunks of one column, with a NULL.
abbrev chunks : List (List (List (Option ℕ)))
chunks = ((some 1 ∷ []) ∷ (none ∷ []) ∷ []) ∷ ((some 3 ∷ []) ∷ []) ∷ []

abbrev same : ℕ → ℕ → Option ℕ
same column v = some v

calls-rows_example :
    (calls same 4 (some chunks) (begun ℕ)).1
    ≡ tuple (some 1 ∷ []) ∷ tuple (none ∷ []) ∷ tuple (some 3 ∷ []) ∷ empty_slot ∷ []
unfolding convert_row rows_of
calls-rows_example =
    calls-rows ℕ ℕ same chunks ((some 1 ∷ []) ∷ (none ∷ []) ∷ (some 3 ∷ []) ∷ [])
      (and_row refl (and_row refl (and_row refl no_rows)))

abbrev columns : Columns
columns = ("n", integer) ∷ []

abbrev duck : Duck
duck = record {
  operator = λ op. "=";
  conjunction_operator = λ is_or. "AND";
  sql_string = λ s. s;
  replace = λ s from to. s;
  filter_string = λ n column. column;
}

-- An optional filter that no case names, a simple filter, and `contains(column, 'x')`.
abbrev contains_x : Filter
contains_x = expression (
    function "contains" false false
      (expr (column_ref true) (expr (constant true (varchar "x")) no_exprs)))

-- `NOT (column IS NULL)`
abbrev present : Filter
present = expression (negation (is_null (column_ref true)))

abbrev filters : Filter
filters = conjunction false (
    filter (optional (unlisted 1))
      (filter (simple 2) (filter contains_x (filter present no_filters))))

abbrev row : Row
row = record {
  simple_holds = λ n. true;
  values = record {
    column_value = 5;
    null_value = 0;
    string_value = λ s. 1;
    unprinted = λ e. 0;
    negate = λ v. 0;
    test_null = λ v. 0;
    test_not_null = λ v. 1;
    compare = λ op v w. 1;
    none_of = λ is_or. 0;
    combine = λ is_or v w. w;
    call = λ name is_operator vs. 1;
    is_true = λ v. true;
  };
  unlisted_holds = λ n. false;
}

extract_query_filters-supported_example :
    ((s : String) × (extract_query_filters duck "c" false filters ≡ kept s))
    ⊎ (extract_query_filters duck "c" false filters ≡ dropped)
unfolding is_supported pushdown_expression func_arg_to_like_string
extract_query_filters-supported_example = extract_query_filters-supported duck "c" filters refl

-- Two workers; the first has nothing at first.
abbrev two_workers : Queues.Readers
two_workers = record {
  readers = (Queues.nothing ∷ Queues.tuple 5 ∷ []) ∷ (Queues.tuple 6 ∷ Queues.tuple 5 ∷ []) ∷ [];
  next = 0;
}

all_tuples-count_example :
    (ys : List ℕ) × (all_tuples 9 9 two_workers ≡ some ys) × (count 5 ys ≡ pending 5 two_workers)
unfolding total size
all_tuples-count_example =
    all_tuples-count 9 9 5 two_workers (omega arith) (omega arith) (inr (omega arith))

abbrev sizes : Sizes
sizes = record { vector = 4; slot_batch = 2 }

-- Five rows, in batches of slots.
abbrev row_scan : Scan
row_scan = record { count_tuples_only = false; max_threads = 2 }

abbrev five : Local
five = record {
  tuples = 1 ∷ 2 ∷ 3 ∷ 4 ∷ 5 ∷ [];
  output_vector_size = 0;
  exhausted_scan = false;
  output = [];
}

all_rows-pending_example :
    (Rows.rows_out sizes row_scan 6 five ≡ some (Rows.pending row_scan five))
    × (Outputs.all_within sizes row_scan 6 five ≡ true)
    × ((row_scan.count_tuples_only ≡ true)
        ⊎ (Outputs.all_rows sizes row_scan 6 five ≡ 1 ∷ 2 ∷ 3 ∷ 4 ∷ 5 ∷ []))
unfolding Rows.value
all_rows-pending_example =
    Outputs.all_rows-pending sizes row_scan 6 five
      (record { positive = omega arith; divides = refl; ends = inl refl; count_is_one = inl refl })
      (inl (inl refl)) (omega arith)

abbrev one_thread : Threads
one_thread = created start (register_local_state start.global)

Reach-cleanups_example :
    ((one_thread.global.cleanups ≡ 0) ⊎ (one_thread.registered ≡ 0))
    × (one_thread.global.cleanups ≤ 1)
Reach-cleanups_example = Reach-cleanups one_thread (next here (creates start))

-- A chunk of one column with three cells, one of them written.
abbrev output : Output ℕ
output = record {
  output_vector_size = 1;
  total_row_count = 1;
  columns = (some 4 ∷ none ∷ none ∷ []) ∷ [];
}

insert_tuples_into_chunk-each_example :
    insert_tuples_into_chunk
      (λ n. false)
      (λ v. v)
      (λ n v. v)
      (λ v. v)
      output
      ((some 5 ∷ []) ∷ (none ∷ []) ∷ [])
    ≡ insert_each
        (λ n. false)
        (λ v. v)
        (λ n v. v)
        (λ v. v)
        output
        ((some 5 ∷ []) ∷ (none ∷ []) ∷ [])
insert_tuples_into_chunk-each_example =
    insert_tuples_into_chunk-each ℕ ℕ (λ n. false) (λ v. v) (λ n v. v) (λ v. v) output
      ((some 5 ∷ []) ∷ (none ∷ []) ∷ [])
