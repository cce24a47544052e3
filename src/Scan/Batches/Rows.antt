-- ===== src/Scan/Batches/Rows.antt =====
-- Call after call of the table function.
use native.Mathlib.Nat.{suc-mul}
use pg_duckdb.Common.{
  ℕ, zero, suc, ◌+◌, ◌*◌, ◌/◌, ◌≤◌, ◌<◌, ◌≡◌, refl, ◌∙◌, ◌⊎◌, inl, inr, Bool, true, false, Option,
  none, some, List, [], ◌∷◌, ◌++◌, ◌==◌, if◌then◌else◌, length, ℕ_discrete, arith,
}
use pg_duckdb.Scan.Batches.{
  Sizes, Scan, Local, weight, written, read_tuples, read_batch, read_batches,
  set_output_cardinality, batch_size_of, outputs, postgres_scan_function,
}

-- The rows that the tuples stand for.
unfoldable pub value : Bool → List ℕ → ℕ
value count_only [] = 0
value count_only (t ∷ ts) = weight count_only t + value count_only ts

-- A local state that is exhausted has no tuples.
pub record IsEnded (l : Local) : Type 0 where
  pub ended : (l.exhausted_scan ≡ false) ⊎ (l.tuples ≡ [])

-- After reads that started at a number of rows: no row is lost, and a read that did not meet the end
-- has added so many, unless only the count is read; `was` says whether the end had been met before.
pub record HasRead (count_only was : Bool) (rows size added : ℕ) (l : Local) : Type 0 where
  stays : (was ≡ false) ⊎ (l.exhausted_scan ≡ true)
  kept : value count_only l.tuples + l.output_vector_size ≡ rows + size
  at_end : IsEnded l
  full : (l.exhausted_scan ≡ true) ⊎ (count_only ≡ true) ⊎ (l.output_vector_size ≡ size + added)
  pub within : (count_only ≡ true) ⊎ (l.output_vector_size ≤ size + added)

read_tuples-HasRead :
    (c : Bool) (k : ℕ) (ts : List ℕ) (size : ℕ) (ex : Bool) (out : List ℕ)
    → (ex ≡ false) ⊎ (ts ≡ [])
    → HasRead c ex (value c ts) size k (read_tuples c k ts size ex out)
unfolding read_tuples value
read_tuples-HasRead c zero ts size ex out e = ground arith
read_tuples-HasRead c (suc k) [] size ex out e = ground arith
read_tuples-HasRead true (suc k) (t ∷ ts) size ex out e =
    ground (arith, read_tuples-HasRead true k ts (size + t) ex out (ground arith))
read_tuples-HasRead false (suc k) (t ∷ ts) size ex out e =
    ground (arith, read_tuples-HasRead false k ts (size + 1) ex (out ++ t ∷ []) (ground arith))

-- With so few tuples, the batch meets the end.
read_tuples-ends :
    (c : Bool) (k : ℕ) (ts : List ℕ) (size : ℕ) (ex : Bool) (out : List ℕ)
    → length ts < k
    → (read_tuples c k ts size ex out).exhausted_scan ≡ true
unfolding read_tuples
read_tuples-ends c zero ts size ex out h = ground arith
read_tuples-ends c (suc k) [] size ex out h = refl
read_tuples-ends c (suc k) (t ∷ ts) size ex out h =
    read_tuples-ends c k ts (size + weight c t) ex (written c t out) (ground arith)

-- Reads that follow each other.
then-HasRead :
    (c was : Bool) (rows size added more : ℕ) (l m : Local)
    → HasRead c was rows size added l
    → HasRead c l.exhausted_scan (value c l.tuples) l.output_vector_size more m
    → HasRead c was rows size (added + more) m
then-HasRead c was rows size added more l m h k = ground arith

pub times : ℕ → ℕ → ℕ
times zero k = 0
times (suc n) k = k + times n k

pub times_mul : (n k : ℕ) → times n k ≡ n * k
unfolding times
times_mul zero k = ground arith
times_mul (suc n) k = omega (arith, times_mul n k, suc-mul n k)

pub read_batches-HasRead :
    (c : Bool) (k n : ℕ) (l : Local)
    → IsEnded l
    → HasRead c l.exhausted_scan
        (value c l.tuples)
        l.output_vector_size
        (times n k)
        (read_batches c k n l)
unfolding read_batches times
read_batches-HasRead c k zero l e = ground arith
read_batches-HasRead c k (suc n) l e =
    let h =
      read_tuples-HasRead c k l.tuples l.output_vector_size l.exhausted_scan l.output e.ended in
    then-HasRead c _ _ _ _ _ (read_batch c k l) _ h
      (read_batches-HasRead c k n (read_batch c k l) h.at_end)

-- What the table function has yet to give.
abbrev pub pending : Scan → Local → ℕ
pending s l = if l.exhausted_scan then l.output_vector_size else value s.count_tuples_only l.tuples

-- The batches fill a vector, and where only the count is read, its one tuple comes in one thread.
pub record IsSetUp (z : Sizes) (s : Scan) (l : Local) : Type 0 where
  pub positive : 0 < z.vector
  pub divides : z.vector / batch_size_of z s * batch_size_of z s ≡ z.vector
  pub ends : (l.exhausted_scan ≡ false) ⊎ (l.tuples ≡ [])
  pub count_is_one :
      (s.count_tuples_only ≡ false)
      ⊎ (z.vector / batch_size_of z s ≡ 1) × (length l.tuples < batch_size_of z s)

-- One call gives some of the rows, none only if none is left.
pub record Gives (z : Sizes) (s : Scan) (l m : Local) (cardinality : ℕ) : Type 0 where
  pub kept : cardinality + pending s m ≡ pending s l
  pub bounded : cardinality ≤ z.vector
  pub progress : (pending s l ≡ 0) ⊎ (0 < cardinality)
  pub set_up : IsSetUp z s m

exhausted-Gives :
    (z : Sizes) (s : Scan) (l : Local)
    → IsSetUp z s l
    → l.exhausted_scan ≡ true
    → Gives z s l
        (set_output_cardinality z.vector (record l { output = [] })).0
        (set_output_cardinality z.vector (record l { output = [] })).1
unfolding set_output_cardinality
exhausted-Gives z s l i h = ground arith

-- The read of a call, before its output is set.
record IsRead (z : Sizes) (s : Scan) (rows : ℕ) (m : Local) : Type 0 where
  total : value s.count_tuples_only m.tuples + m.output_vector_size ≡ rows
  at_end : IsEnded m
  full : (m.exhausted_scan ≡ true) ⊎ (m.output_vector_size ≡ z.vector)
  one : (s.count_tuples_only ≡ false) ⊎ (m.exhausted_scan ≡ true)

ended_value :
    (c : Bool) (m : Local) → IsEnded m → (m.exhausted_scan ≡ false) ⊎ (value c m.tuples ≡ 0)
unfolding value
ended_value c m e = ground arith

read-Gives :
    (z : Sizes) (s : Scan) (l m : Local)
    → IsSetUp z s l
    → l.exhausted_scan ≡ false
    → IsRead z s (value s.count_tuples_only l.tuples) m
    → Gives z s l (set_output_cardinality z.vector m).0 (set_output_cardinality z.vector m).1
unfolding set_output_cardinality value
read-Gives z s l m i h r = ground (arith, ended_value s.count_tuples_only m r.at_end)

one_batch-ends :
    (c : Bool) (k n : ℕ) (l : Local)
    → n ≡ 1
    → length l.tuples < k
    → (read_batches c k n l).exhausted_scan ≡ true
unfolding read_batches
one_batch-ends c k n l e h = rw e (read_tuples-ends c k l.tuples l.output_vector_size _ l.output h)

batches-IsRead :
    (z : Sizes) (s : Scan) (l : Local)
    → IsSetUp z s l
    → l.exhausted_scan ≡ false
    → IsRead z s (value s.count_tuples_only l.tuples) (
        read_batches s.count_tuples_only
          (batch_size_of z s)
          (z.vector / batch_size_of z s)
          (record l { output_vector_size = 0; output = [] }))
batches-IsRead z s l i h =
    let k = batch_size_of z s in
    let n = z.vector / k in
    let begun : Local = record l { output_vector_size = 0; output = [] } in
    let r = read_batches-HasRead s.count_tuples_only k n begun (record { ended = inl h }) in
    let whole = times_mul n k ∙ i.divides in
    let m = read_batches s.count_tuples_only k n begun in
    let counted =
      elim i.count_is_one as (λ x. (s.count_tuples_only ≡ false) ⊎ (m.exhausted_scan ≡ true)) [
        | inl rows ↦ inl rows
        | inr (one, few) ↦ inr (one_batch-ends s.count_tuples_only k n begun one few)
      ] in
    record {
      total = omega (arith, r.kept);
      at_end = r.at_end;
      full = ground (arith, r.full, whole, counted);
      one = counted;
    }

outputs-Gives :
    (z : Sizes) (s : Scan) (l : Local) (met : Bool) (rest read : Local × ℕ) (ended : Bool)
    → l.exhausted_scan ≡ met
    → (l.exhausted_scan ≡ true → Gives z s l rest.0 rest.1)
    → (l.exhausted_scan ≡ false → Gives z s l read.0 read.1)
    → Gives z s l (outputs met rest read ended).0 (outputs met rest read ended).1
outputs-Gives z s l true rest read ended e h k = h e
outputs-Gives z s l false rest read ended e h k = k e

pub call-Gives :
    (z : Sizes) (s : Scan) (l : Local)
    → IsSetUp z s l
    → Gives z s l (postgres_scan_function z s l).0 (postgres_scan_function z s l).1
unfolding postgres_scan_function
call-Gives z s l i =
    outputs-Gives z s l l.exhausted_scan _ _ _ refl (exhausted-Gives z s l i)
      (λ h. read-Gives z s l _ i h (batches-IsRead z s l i h))

-- The rows of so many calls, up to the first that gives none.
abbrev pub add_rows : ℕ → Option ℕ → Option ℕ
add_rows n none = none
add_rows n (some m) = some (n + m)

unfoldable pub rows_out : Sizes → Scan → ℕ → Local → Option ℕ
rows_out z s zero l = none
rows_out z s (suc calls) l =
    let r = postgres_scan_function z s l in
    let rest = rows_out z s calls r.0 in if r.1 == 0 then some 0 else add_rows r.1 rest

pub calls-pending :
    (z : Sizes) (s : Scan) (calls : ℕ) (l : Local)
    → IsSetUp z s l
    → pending s l < calls
    → rows_out z s calls l ≡ some (pending s l)
unfolding rows_out
calls-pending z s zero l i h = absurd (omega (arith, h))
calls-pending z s (suc calls) l i h =
    let g = call-Gives z s l i in
    let m = (postgres_scan_function z s l).0 in
    elim (ℕ_discrete (postgres_scan_function z s l).1 0) [
      | yes e ↦ ground (arith, g.kept, g.progress, e)
      | no n ↦
          ground
            (arith, g.kept, n, calls-pending z s calls m g.set_up (omega (arith, g.kept, n, h)))
    ]
