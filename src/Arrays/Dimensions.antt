-- ===== src/Arrays/Dimensions.antt =====
-- The dimensions of an array while it is appended: which are set, and how the first descent sets them.
use pg_duckdb.Common.{
  ℕ, zero, suc, ◌+◌, ◌*◌, ◌≤◌, ◌<◌, ◌≡◌, refl, ap, ◌∙◌, Option, none, some, List, [], ◌∷◌, length,
  get_elem?, set, replicate, length-set, arith, subst,
}
use pg_duckdb.Arrays.Rectangles.{squares}
use pg_duckdb.Arrays.{AppendState, or_zeros}

-- The dimensions from `dimension` on are those of a shape.
abbrev pub AreSet : List (Option ℕ) → ℕ → List ℕ → Type 0
AreSet dims dimension [] = Unit {0}
AreSet dims dimension (d ∷ ds) =
    (get_elem? dims dimension ≡ some (some d)) × AreSet dims (dimension + 1) ds

-- They are there and not set yet.
abbrev pub AreUnset : List (Option ℕ) → ℕ → List ℕ → Type 0
AreUnset dims dimension [] = Unit {0}
AreUnset dims dimension (d ∷ ds) =
    (get_elem? dims dimension ≡ some none) × AreUnset dims (dimension + 1) ds

-- The state after the first descent, before any element.
unfoldable pub fill : {A : Type 0} → ℕ → List ℕ → AppendState A → AppendState A
fill dimension [] s = record s { allocated = some s.expected_values }
fill dimension (d ∷ ds) s = fill (dimension + 1) ds (record s {
  dimensions = set s.dimensions dimension (some d);
  expected_values = s.expected_values * d * d;
})

pub fill_lem :
    {A : Type 0} (dimension : ℕ) (ds : List ℕ) (s : AppendState A)
    → ((fill dimension ds s).allocated ≡ some (s.expected_values * squares ds))
      × ((fill dimension ds s).datums ≡ s.datums)
unfolding fill
fill_lem dimension [] s = (ap some (omega arith), refl)
fill_lem dimension (d ∷ ds) s =
    let rest = fill_lem (dimension + 1) ds (record s {
      dimensions = set s.dimensions dimension (some d);
      expected_values = s.expected_values * d * d;
    }) in
    (rest.0 ∙ ap some (grind arith), rest.1)

pub set_same {ℓ} :
    {B : Type ℓ} (xs : List B) (i : ℕ) (x v : B)
    → get_elem? xs i ≡ some x
    → get_elem? (set xs i v) i ≡ some v
set_same [] i x v h = absurd (cc)
set_same (y ∷ ys) zero x v h = refl
set_same (y ∷ ys) (suc i) x v h = set_same ys i x v h

pub set_other {ℓ} :
    {B : Type ℓ} (xs : List B) (i j : ℕ) (v : B) → i < j → get_elem? (set xs i v) j ≡ get_elem? xs j
set_other [] i j v h = refl
set_other (y ∷ ys) i zero v h = absurd (omega arith)
set_other (y ∷ ys) zero (suc j) v h = refl
set_other (y ∷ ys) (suc i) (suc j) v h = set_other ys i j v (omega arith)

pub set_below {ℓ} :
    {B : Type ℓ} (xs : List B) (i j : ℕ) (v : B) → j < i → get_elem? (set xs i v) j ≡ get_elem? xs j
set_below [] i j v h = refl
set_below (y ∷ ys) zero j v h = absurd (omega arith)
set_below (y ∷ ys) (suc i) zero v h = refl
set_below (y ∷ ys) (suc i) (suc j) v h = set_below ys i j v (omega arith)

pub set-AreUnset :
    (dims : List (Option ℕ)) (i dimension : ℕ) (v : Option ℕ) (ds : List ℕ)
    → i < dimension
    → AreUnset dims dimension ds
    → AreUnset (set dims i v) dimension ds
set-AreUnset dims i dimension v [] h u = tt
set-AreUnset dims i dimension v (d ∷ ds) h u = (
  set_other dims i dimension v h ∙ u.0,
  set-AreUnset dims i (dimension + 1) v ds (omega arith) u.1,
)

pub fill_below :
    {A : Type 0} (dimension j : ℕ) (ds : List ℕ) (s : AppendState A)
    → j < dimension
    → get_elem? (fill dimension ds s).dimensions j ≡ get_elem? s.dimensions j
unfolding fill
fill_below dimension j [] s h = refl
fill_below dimension j (d ∷ ds) s h =
    fill_below (dimension + 1) j ds _ (omega arith) ∙ set_below s.dimensions dimension j (some d) h

pub fill-AreSet :
    {A : Type 0} (dimension : ℕ) (ds : List ℕ) (s : AppendState A)
    → AreUnset s.dimensions dimension ds
    → AreSet (fill dimension ds s).dimensions dimension ds
unfolding fill
fill-AreSet dimension [] s u = tt
fill-AreSet dimension (d ∷ ds) s u = (
  fill_below (dimension + 1) dimension ds _ (omega arith)
      ∙ set_same s.dimensions dimension none (some d) u.0,
  fill-AreSet (dimension + 1) ds _
      (set-AreUnset s.dimensions dimension (dimension + 1) (some d) ds (omega arith) u.1),
)

pub get_elem?-replicate :
    {B : Type 0} (n k : ℕ) (b : B) → k < n → get_elem? (replicate n b) k ≡ some b
get_elem?-replicate zero k b h = absurd (omega arith)
get_elem?-replicate (suc n) zero b h = refl
get_elem?-replicate (suc n) (suc k) b h = get_elem?-replicate n k b (omega arith)

pub replicate-AreUnset :
    (n k : ℕ) (ds : List ℕ) → k + length ds ≤ n → AreUnset (replicate n none) k ds
replicate-AreUnset n k [] h = tt
replicate-AreUnset n k (d ∷ ds) h =
    (get_elem?-replicate n k none (omega arith), replicate-AreUnset n (k + 1) ds (omega arith))

abbrev pub entered : {A : Type 0} → ℕ → ℕ → AppendState A → AppendState A
entered d dimension s = record s {
  dimensions = set s.dimensions dimension (some d);
  expected_values = s.expected_values * d * d;
}

pub length-fill :
    {A : Type 0} (dimension : ℕ) (ds : List ℕ) (s : AppendState A)
    → length (fill dimension ds s).dimensions ≡ length s.dimensions
unfolding fill
length-fill dimension [] s = refl
length-fill dimension (d ∷ ds) s =
    length-fill (dimension + 1) ds (entered d dimension s)
    ∙ length-set s.dimensions dimension (some d)

pub AreSet-tail :
    (x : Option ℕ) (l : List (Option ℕ)) (k : ℕ) (ds : List ℕ)
    → AreSet (x ∷ l) (suc k) ds
    → AreSet l k ds
AreSet-tail x l k [] h = tt
AreSet-tail x l k (d ∷ ds) h =
    let next : suc k + 1 ≡ suc (k + 1) = omega arith in
    (h.0, AreSet-tail x l (k + 1) ds (subst (λ m. AreSet (x ∷ l) m ds) next h.1))

pub or_zeros-AreSet :
    (l : List (Option ℕ)) (ds : List ℕ) → length l ≡ length ds → AreSet l 0 ds → or_zeros l ≡ ds
or_zeros-AreSet [] [] h a = refl
or_zeros-AreSet [] (d ∷ ds) h a = absurd (omega arith)
or_zeros-AreSet (x ∷ l) [] h a = absurd (omega arith)
or_zeros-AreSet (x ∷ l) (d ∷ ds) h a =
    let rest = or_zeros-AreSet l ds (omega arith) (AreSet-tail x l 0 ds a.1) in
    let same : x ≡ some d = cc a.0 in rw (same, rest)
