-- ===== src/Arrays/Rectangles.antt =====
-- Rectangular nested lists, and the two inner loops of `append_value_at_dimension`.
use mathlib.Core.List.{append_assoc, append-nil}
use pg_duckdb.Common.{
  ℕ, zero, suc, ◌+◌, ◌*◌, ◌≤◌, ◌≡◌, sym, ap, ◌∙◌, true, Option, none, some, List, [], ◌∷◌, ◌++◌,
  length, length-append, arith,
}
use pg_duckdb.Arrays.{
  Children, AppendState, Appended, appended, max_int32, has_room, append_leaves, append_each,
}

abbrev pub concat_some : {V A : Type 0} → (V → List A) → List (Option V) → List A
concat_some g [] = []
concat_some g (none ∷ vs) = concat_some g vs
concat_some g (some v ∷ vs) = g v ++ concat_some g vs

-- The elements in order.
unfoldable pub flatten : {A : Type 0} (n : ℕ) → Children A n → List (Option A)
flatten zero vs = vs
flatten (suc n) vs = concat_some (flatten n) vs

abbrev pub AreSome : {V : Type 0} → (V → Type 0) → List (Option V) → Type 0
AreSome P [] = Unit {0}
AreSome P (none ∷ vs) = ⊥
AreSome P (some v ∷ vs) = P v × AreSome P vs

-- Every list of one level has the size that the shape gives to it, and is not NULL.
unfoldable pub HasShape : (A : Type 0) (n : ℕ) → Children A n → List ℕ → Type 0
HasShape A n vs [] = ⊥
HasShape A zero vs (d ∷ []) = length vs ≡ d
HasShape A zero vs (d ∷ e ∷ ds) = ⊥
HasShape A (suc n) vs (d ∷ ds) = (length vs ≡ d) × AreSome (λ v. HasShape A n v ds) vs

-- The sizes are positive int32 values.
abbrev pub AreSizes : List ℕ → Type 0
AreSizes [] = Unit {0}
AreSizes (d ∷ ds) = (1 ≤ d) × (d ≤ max_int32) × AreSizes ds

abbrev pub product : List ℕ → ℕ
product [] = 1
product (d ∷ ds) = d * product ds

-- What expected_values is multiplied by.
abbrev pub squares : List ℕ → ℕ
squares [] = 1
squares (d ∷ ds) = d * d * squares ds

abbrev pub advance : {A : Type 0} → List (Option A) → AppendState A → AppendState A
advance xs s = record s { datums = s.datums ++ xs }

pub advance-append :
    {A : Type 0} (xs ys : List (Option A)) (s : AppendState A)
    → advance ys (advance xs s) ≡ advance (xs ++ ys) s
advance-append xs ys s = ap (λ l. record s { datums = l }) (append_assoc s.datums xs ys)

advance-nil : {A : Type 0} (s : AppendState A) → advance [] s ≡ s
advance-nil s = ap (λ l. record s { datums = l }) (append-nil s.datums)

pub append_leaves_lem :
    {A : Type 0} (vs : List (Option A)) (s : AppendState A) (size : ℕ)
    → s.allocated ≡ some size
    → length s.datums + length vs ≤ size
    → append_leaves vs s ≡ appended (advance vs s)
unfolding append_leaves
append_leaves_lem [] s size a h = ap appended (sym (advance-nil s))
append_leaves_lem (v ∷ vs) s size a h =
    let room : has_room s ≡ true = ground arith in
    rw room (
      append_leaves_lem vs (advance (v ∷ []) s) size a
        (omega (arith, length-append s.datums (v ∷ [])))
      ∙ ap appended (advance-append (v ∷ []) vs s))

-- A function that appends `g v` appends all of them.
pub append_each_lem :
    {A V : Type 0} (f : V → AppendState A → Appended A) (g : V → List (Option A)) (P : V → Type 0)
    (dims : List (Option ℕ)) (size : ℕ)
    → ((v : V) (u : AppendState A)
        → P v
        → u.dimensions ≡ dims
        → u.allocated ≡ some size
        → length u.datums + length (g v) ≤ size
        → f v u ≡ appended (advance (g v) u))
    → (vs : List (Option V)) (s : AppendState A) → AreSome P vs
    → s.dimensions ≡ dims
    → s.allocated ≡ some size
    → length s.datums + length (concat_some g vs) ≤ size
    → append_each f vs s ≡ appended (advance (concat_some g vs) s)
unfolding append_each
append_each_lem f g P dims size h [] s ok d a le = ap appended (sym (advance-nil s))
append_each_lem f g P dims size h (none ∷ vs) s ok d a le = absurd ok
append_each_lem f g P dims size h (some v ∷ vs) s ok d a le =
    let total = length-append (g v) (concat_some g vs) in
    rw (h v s ok.0 d a (omega (arith, total))) (
      append_each_lem f g P dims size h vs (advance (g v) s) ok.1 d a
        (omega (arith, total, length-append s.datums (g v)))
      ∙ ap appended (advance-append (g v) (concat_some g vs) s))
