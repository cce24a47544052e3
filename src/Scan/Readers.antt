-- ===== src/Scan/Readers.antt =====
-- The tuple queues of the parallel workers, GetNextWorkerTuple of src/scan/postgres_table_reader.cpp.
-- A reader is the list of what its queue will give: a tuple, or nothing for the moment; a worker is
-- done when its list is at its end. The wait for the latch between two rounds is left out.
use pg_duckdb.Common.{
  ℕ, zero, suc, ◌+◌, ◌≤◌, ◌<◌, ◌≡◌, refl, ◌⊎◌, inl, inr, Bool, true, false, not, Option, none, some,
  List, [], ◌∷◌, leb, ltb, ◌==◌, if◌then◌else◌, length, get_elem?, set, arith,
}
pub mod Complete

pub data Event : Type 0 where
  nothing : Event
  tuple : ℕ → Event

-- parallel_worker_readers with nreaders, and next_parallel_reader
pub record Readers : Type 0 where
  pub readers : List (List Event)
  pub next : ℕ

-- the memmove
unfoldable pub remove : List (List Event) → ℕ → List (List Event)
remove [] n = []
remove (r ∷ rs) zero = rs
remove (r ∷ rs) (suc n) = r ∷ remove rs n

-- One round of the loop: the function returns, with a tuple or NULL, or goes on.
pub data Round : Type 0 where
  returns : Readers → Option ℕ → Round
  goes_on : Readers → Round

-- The next place, or the first one past the end.
abbrev pub wrapped : ℕ → List (List Event) → ℕ
wrapped n rs = if leb (length rs) n then 0 else n

abbrev pub without_reader : List (List Event) → ℕ → Round
without_reader [] n = returns (record { readers = []; next = n }) none
without_reader (r ∷ rs) n = goes_on (record { readers = r ∷ rs; next = wrapped n (r ∷ rs) })

-- What TupleQueueReaderNext gives at the reader's place, if there is one.
abbrev pub round_at : Readers → Option (List Event) → Round
round_at s none = returns s none
round_at s (some []) = without_reader (remove s.readers s.next) s.next
round_at s (some (tuple t ∷ es)) = returns (record s { readers = set s.readers s.next es }) (some t)
round_at s (some (nothing ∷ es)) =
    let rs = set s.readers s.next es in
    goes_on (record { readers = rs; next = wrapped (s.next + 1) rs })

unfoldable pub round : Readers → Round
unfolding remove
round s = round_at s (get_elem? s.readers s.next)

abbrev pub follow : (Readers → Option (Readers × Option ℕ)) → Round → Option (Readers × Option ℕ)
follow again (returns s t) = some (s, t)
follow again (goes_on s) = again s

-- GetNextWorkerTuple; `none` where the fuel is not enough.
unfoldable pub get_next_worker_tuple : ℕ → Readers → Option (Readers × Option ℕ)
unfolding round
get_next_worker_tuple zero s = none
get_next_worker_tuple (suc fuel) s = follow (get_next_worker_tuple fuel) (round s)
