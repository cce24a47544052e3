-- ===== src/Scan/Batches.antt =====
-- The table function of src/scan/postgres_scan.cpp, with the counters of InsertTupleIntoChunk and
-- InsertTuplesIntoChunk of src/pgduckdb_types.cpp. The reader is the list of the tuples that it has
-- yet to give, by the first value of each; the conversion of the values stands elsewhere. The output is
-- the tuples that are written to it, a row each, and DuckDB empties it before a call.
use pg_duckdb.Common.{
  ℕ, zero, suc, ◌+◌, ◌-◌, ◌/◌, Bool, true, false, not, ◌&&◌, ◌||◌, Option, none, some, List, [],
  ◌∷◌, ◌++◌, leb, ltb, ◌==◌, if◌then◌else◌,
}
use pg_duckdb.Common.Int.{ℤ, pos, negsuc}
pub mod Rows
pub mod Outputs
pub mod Registration

-- STANDARD_VECTOR_SIZE of DuckDB and LOCAL_STATE_SLOT_BATCH_SIZE
pub record Sizes : Type 0 where
  pub vector : ℕ
  pub slot_batch : ℕ

-- What the global state says for the whole scan.
pub record Scan : Type 0 where
  pub count_tuples_only : Bool
  pub max_threads : ℕ

-- The constructor's choice of max_threads; `configured` is duckdb_threads_for_postgres_scan.
unfoldable pub choose_threads : ℕ → Bool → ℕ → ℕ
choose_threads workers_launched count_only configured =
    if ltb 0 workers_launched && not count_only then configured else 1

pub record Local : Type 0 where
  pub tuples : List ℕ
  pub output_vector_size : ℕ
  pub exhausted_scan : Bool
  pub output : List ℕ

-- SetOutputCardinality
unfoldable pub set_output_cardinality : ℕ → Local → Local × ℕ
set_output_cardinality vector l =
    let cardinality = if leb l.output_vector_size vector then l.output_vector_size else vector in
    (record l { output_vector_size = l.output_vector_size - cardinality }, cardinality)

-- What a tuple adds to output_vector_size.
abbrev pub weight : Bool → ℕ → ℕ
weight count_only t = if count_only then t else 1

-- The row that it fills: none where only the count is read.
abbrev pub written : Bool → ℕ → List ℕ → List ℕ
written count_only t output = if count_only then output else output ++ t ∷ []

-- The loop over one batch: up to so many tuples are read.
unfoldable pub read_tuples : Bool → ℕ → List ℕ → ℕ → Bool → List ℕ → Local
read_tuples count_only zero ts size ex output = record {
  tuples = ts;
  output_vector_size = size;
  exhausted_scan = ex;
  output = output;
}
read_tuples count_only (suc k) [] size ex output = record {
  tuples = [];
  output_vector_size = size;
  exhausted_scan = true;
  output = output;
}
read_tuples count_only (suc k) (t ∷ ts) size ex output =
    read_tuples count_only k ts (size + weight count_only t) ex (written count_only t output)

abbrev pub read_batch : Bool → ℕ → Local → Local
read_batch count_only k l =
    read_tuples count_only k l.tuples l.output_vector_size l.exhausted_scan l.output

-- The loop over the batches, which goes on after a batch that has met the end.
unfoldable pub read_batches : Bool → ℕ → ℕ → Local → Local
unfolding read_tuples
read_batches count_only batch_size zero l = l
read_batches count_only batch_size (suc n) l =
    read_batches count_only batch_size n (read_batch count_only batch_size l)

abbrev pub batch_size_of : Sizes → Scan → ℕ
batch_size_of z s = if ltb 1 s.max_threads then z.slot_batch else z.vector

-- The output of an exhausted scan, which reads nothing, and of one that has read.
abbrev pub outputs : Bool → Local × ℕ → Local × ℕ → Bool → Local × ℕ × Bool
outputs true (l, n) read ended = (l, n, false)
outputs false exhausted (l, n) ended = (l, n, ended)

-- PostgresScanFunction: the local state, the cardinality of the output, and whether the local state
-- was unregistered.
unfoldable pub postgres_scan_function : Sizes → Scan → Local → Local × ℕ × Bool
postgres_scan_function z s l =
    let k = batch_size_of z s in
    let read =
      read_batches s.count_tuples_only k (z.vector / k)
        (record l { output_vector_size = 0; output = [] }) in
    outputs l.exhausted_scan (set_output_cardinality z.vector (record l { output = [] }))
      (set_output_cardinality z.vector read) read.exhausted_scan

-- The global state's count of local states, and the reader that is cleaned up once; `cleanups` counts
-- the calls of Cleanup.
pub record Global : Type 0 where
  pub registered_local_states : ℤ
  pub cleanups : ℕ

abbrev pub is_negative : ℤ → Bool
is_negative (pos n) = false
is_negative (negsuc n) = true

abbrev pub increment : ℤ → ℤ
increment (pos n) = pos (n + 1)
increment (negsuc zero) = pos 0
increment (negsuc (suc n)) = negsuc n

abbrev pub decrement : ℤ → ℤ
decrement (pos zero) = negsuc 0
decrement (pos (suc n)) = pos n
decrement (negsuc n) = negsuc (n + 1)

abbrev pub is_zero : ℤ → Bool
is_zero (pos zero) = true
is_zero _ = false

-- RegisterLocalState
unfoldable pub register_local_state : Global → Global × Bool
register_local_state g =
    if is_negative g.registered_local_states
    then (g, false)
    else (record g { registered_local_states = increment g.registered_local_states }, true)

-- UnregisterLocalState
unfoldable pub unregister_local_state : Global → Global
unregister_local_state g =
    let n = decrement g.registered_local_states in
    if is_zero n
    then record { registered_local_states = negsuc 0; cleanups = g.cleanups + 1 }
    else record g { registered_local_states = n }
