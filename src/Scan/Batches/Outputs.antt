-- ===== src/Scan/Batches/Outputs.antt =====
-- The rows that the calls of the table function give, where the rows are read.
use mathlib.Core.List.{append_assoc}
use pg_duckdb.Common.{
  ℕ, zero, suc, ◌+◌, ◌/◌, ◌≤◌, ◌<◌, ◌≡◌, refl, sym, ap, ◌∙◌, ◌⊎◌, inl, inr, Bool, true, false, ◌&&◌,
  some, List, [], ◌∷◌, ◌++◌, take, leb, ◌==◌, if◌then◌else◌, length, length-append, ℕ_discrete,
  Bool-cases, arith,
}
use pg_duckdb.Scan.Batches.{
  Sizes, Scan, Local, read_tuples, read_batch, read_batches, set_output_cardinality, batch_size_of,
  outputs, postgres_scan_function,
}
use pg_duckdb.Scan.Batches.Rows.{
  value, pending, IsSetUp, call-Gives, rows_out, calls-pending, read_batches-HasRead, times_mul,
}

-- The rows of so many calls, up to the first that gives none: of the output, as many as its cardinality.
unfoldable pub all_rows : Sizes → Scan → ℕ → Local → List ℕ
all_rows z s zero l = []
all_rows z s (suc calls) l =
    let r = postgres_scan_function z s l in
    let rest = all_rows z s calls r.0 in if r.1 == 0 then [] else take r.1 r.0.output ++ rest

-- Whether each of these calls gives at most a vector.
unfoldable pub all_within : Sizes → Scan → ℕ → Local → Bool
all_within z s zero l = true
all_within z s (suc calls) l =
    let r = postgres_scan_function z s l in
    let rest = all_within z s calls r.0 in leb r.1 z.vector && (if r.1 == 0 then true else rest)

-- What has been written, in rows that are as many as are counted, and what is left, are what there was.
record HasWritten (out ts : List ℕ) (m : Local) : Type 0 where
  all : m.output ++ m.tuples ≡ out ++ ts
  size_is : length m.output ≡ m.output_vector_size

read_tuples-HasWritten :
    (k : ℕ) (ts : List ℕ) (size : ℕ) (ex : Bool) (out : List ℕ)
    → length out ≡ size
    → HasWritten out ts (read_tuples false k ts size ex out)
unfolding read_tuples
read_tuples-HasWritten zero ts size ex out h = record { all = refl; size_is = h }
read_tuples-HasWritten (suc k) [] size ex out h = record { all = refl; size_is = h }
read_tuples-HasWritten (suc k) (t ∷ ts) size ex out h =
    let longer : length (out ++ t ∷ []) ≡ size + 1 =
      length-append out (t ∷ []) ∙ omega (arith, h) in
    let later = read_tuples-HasWritten k ts (size + 1) ex (out ++ t ∷ []) longer in
    record { all = later.all ∙ append_assoc out (t ∷ []) ts; size_is = later.size_is }

read_batches-HasWritten :
    (k n : ℕ) (l : Local)
    → length l.output ≡ l.output_vector_size
    → HasWritten l.output l.tuples (read_batches false k n l)
unfolding read_batches
read_batches-HasWritten k zero l h = record { all = refl; size_is = h }
read_batches-HasWritten k (suc n) l h =
    let one = read_tuples-HasWritten k l.tuples l.output_vector_size l.exhausted_scan l.output h in
    let later = read_batches-HasWritten k n (read_batch false k l) one.size_is in
    record { all = later.all ∙ one.all; size_is = later.size_is }

take_all : (xs : List ℕ) → take (length xs) xs ≡ xs
take_all [] = refl
take_all (x ∷ xs) = ap (λ ys. x ∷ ys) (take_all xs)

take-nil : (n : ℕ) → take {A = ℕ} n [] ≡ []
take-nil zero = refl
take-nil (suc n) = refl

-- An exhausted scan of rows has nothing to give.
abbrev pub IsDone : Local → Type 0
IsDone l = (l.exhausted_scan ≡ false) ⊎ (l.output_vector_size ≡ 0)

-- One call: its rows and what is left are what was left, and an exhausted scan is done.
record GivesRows (l m : Local) (cardinality : ℕ) : Type 0 where
  rows : take cardinality m.output ++ m.tuples ≡ l.tuples
  done : IsDone m

done-GivesRows :
    (vector : ℕ) (l : Local)
    → l.output_vector_size ≡ 0
    → GivesRows l
        (set_output_cardinality vector (record l { output = [] })).0
        (set_output_cardinality vector (record l { output = [] })).1
unfolding set_output_cardinality
done-GivesRows vector l h = record {
  rows = ap (λ xs. xs ++ l.tuples) (take-nil _);
  done = inr (ground arith);
}

written-GivesRows :
    (vector : ℕ) (l m : Local)
    → HasWritten [] l.tuples m
    → m.output_vector_size ≤ vector
    → GivesRows l (set_output_cardinality vector m).0 (set_output_cardinality vector m).1
unfolding set_output_cardinality
written-GivesRows vector l m w le =
    let fits : leb m.output_vector_size vector ≡ true = ground arith in
    let whole : take m.output_vector_size m.output ≡ m.output =
      ap (λ n. take n m.output) (sym w.size_is) ∙ take_all m.output in
    rw fits (record { rows = ap (λ xs. xs ++ m.tuples) whole ∙ w.all; done = inr (omega arith) })

outputs-GivesRows :
    (l : Local) (met : Bool) (rest read : Local × ℕ) (ended : Bool)
    → l.exhausted_scan ≡ met
    → (l.exhausted_scan ≡ true → GivesRows l rest.0 rest.1)
    → (l.exhausted_scan ≡ false → GivesRows l read.0 read.1)
    → GivesRows l (outputs met rest read ended).0 (outputs met rest read ended).1
outputs-GivesRows l true rest read ended e h k = h e
outputs-GivesRows l false rest read ended e h k = k e

module _ (z : Sizes) (s : Scan) (rows_are_read : s.count_tuples_only ≡ false) where
  batches-GivesRows :
      (l : Local)
      → IsSetUp z s l
      → l.exhausted_scan ≡ false
      → GivesRows l
          (set_output_cardinality z.vector (
            read_batches s.count_tuples_only
              (batch_size_of z s)
              (z.vector / batch_size_of z s)
              (record l { output_vector_size = 0; output = [] }))).0
          (set_output_cardinality z.vector (
            read_batches s.count_tuples_only
              (batch_size_of z s)
              (z.vector / batch_size_of z s)
              (record l { output_vector_size = 0; output = [] }))).1
  batches-GivesRows l i h =
      let k = batch_size_of z s in
      let n = z.vector / k in
      let begun : Local = record l { output_vector_size = 0; output = [] } in
      let m = read_batches false k n begun in
      let read = read_batches-HasRead false k n begun (record { ended = inl h }) in
      let whole = times_mul n k ∙ i.divides in
      let small : m.output_vector_size ≤ z.vector = ground (arith, read.within, whole) in
      rw rows_are_read
        (written-GivesRows z.vector l m (read_batches-HasWritten k n begun refl) small)

  call-GivesRows :
      (l : Local)
      → IsSetUp z s l
      → IsDone l
      → GivesRows l (postgres_scan_function z s l).0 (postgres_scan_function z s l).1
  unfolding postgres_scan_function
  call-GivesRows l i d =
      outputs-GivesRows l l.exhausted_scan _ _ _ refl
        (λ h. done-GivesRows z.vector l (ground arith)) (batches-GivesRows l i)

  -- Where no row is pending, no tuple is left.
  none_left : (l : Local) → IsSetUp z s l → pending s l ≡ 0 → l.tuples ≡ []
  unfolding value
  none_left l i h = ground (arith, i.ends, rows_are_read)

  all_rows-tuples :
      (calls : ℕ) (l : Local)
      → IsSetUp z s l
      → IsDone l
      → pending s l < calls
      → all_rows z s calls l ≡ l.tuples
  unfolding all_rows
  all_rows-tuples zero l i d h = absurd (omega (arith, h))
  all_rows-tuples (suc calls) l i d h =
      let g = call-Gives z s l i in
      let r = call-GivesRows l i d in
      let m = (postgres_scan_function z s l).0 in
      elim (ℕ_discrete (postgres_scan_function z s l).1 0) [
        | yes e ↦ rw e (sym (none_left l i (ground (arith, g.kept, g.progress, e))))
        | no n ↦
            let later = all_rows-tuples calls m g.set_up r.done (omega (arith, g.kept, n, h)) in
            let test : ((postgres_scan_function z s l).1 == 0) ≡ false = ground arith in
            rw (test, later) r.rows
      ]

all_within-true :
    (z : Sizes) (s : Scan) (calls : ℕ) (l : Local) → IsSetUp z s l → all_within z s calls l ≡ true
unfolding all_within
all_within-true z s zero l i = refl
all_within-true z s (suc calls) l i =
    let g = call-Gives z s l i in
    let m = (postgres_scan_function z s l).0 in
    ground (arith, g.bounded, all_within-true z s calls m g.set_up)

-- Calls of the table function, one more than there are rows, end with an empty output. Until then their
-- outputs, each of at most a vector, have as many rows as the scan, and where rows are read, they are
-- the tuples of the scan, each once and in order: in one thread or in batches of slots, if the batches
-- fill a vector, a count comes as few tuples in one batch, and an exhausted scan of rows starts with
-- none to give.
pub all_rows-pending :
    (z : Sizes) (s : Scan) (calls : ℕ) (l : Local)
    → IsSetUp z s l
    → IsDone l ⊎ (s.count_tuples_only ≡ true)
    → pending s l < calls
    → (rows_out z s calls l ≡ some (pending s l))
      × (all_within z s calls l ≡ true)
      × ((s.count_tuples_only ≡ true) ⊎ (all_rows z s calls l ≡ l.tuples))
all_rows-pending z s calls l i d h = (
  calls-pending z s calls l i h,
  all_within-true z s calls l i,
  elim (Bool-cases s.count_tuples_only) [
    | inl counts ↦ inl counts
    | inr reads ↦ inr (all_rows-tuples z s reads calls l i (ground arith) h)
  ],
)
