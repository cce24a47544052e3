-- ===== src/Arrays/Sizes.antt =====
-- The number of elements of a rectangular list, and the products that bound it.
use pg_duckdb.Common.{
  ℕ, zero, suc, ◌*◌, ◌%◌, ◌≤◌, ◌<◌, ◌≡◌, refl, ap, ◌∙◌, Option, none, some, List, [], ◌∷◌, length,
  length-append, arith,
}
use pg_duckdb.Arrays.{Children, uint64_size}
use pg_duckdb.Arrays.Rectangles.{
  concat_some, flatten, AreSome, HasShape, AreSizes, product, squares,
}

pub length-concat_some :
    {V A : Type 0} (g : V → List A) (P : V → Type 0) (p : ℕ) (vs : List (Option V))
    → ((v : V) → P v → length (g v) ≡ p)
    → AreSome P vs
    → length (concat_some g vs) ≡ length vs * p
length-concat_some g P p [] h ok = omega arith
length-concat_some g P p (none ∷ vs) h ok = absurd ok
length-concat_some g P p (some v ∷ vs) h ok =
    length-append (g v) (concat_some g vs)
    ∙ grind (arith, h v ok.0, length-concat_some g P p vs h ok.1)

pub length-flatten :
    (A : Type 0) (n : ℕ) (ds : List ℕ) (vs : Children A n)
    → HasShape A n vs ds
    → length (flatten n vs) ≡ product ds
unfolding HasShape flatten
length-flatten A zero [] vs shape = absurd shape
length-flatten A (suc n) [] vs shape = absurd shape
length-flatten A zero (d ∷ e ∷ ds) vs shape = absurd shape
length-flatten A zero (d ∷ []) vs shape = omega (arith, shape)
length-flatten A (suc n) (d ∷ ds) vs shape =
    length-concat_some (flatten n) (λ v. HasShape A n v ds) (product ds) vs
      (λ v ok. length-flatten A n ds v ok) shape.1
    ∙ ap (λ k. k * product ds) shape.0

pub squares_positive : (ds : List ℕ) → AreSizes ds → 1 ≤ squares ds
squares_positive [] h = omega arith
squares_positive (d ∷ ds) h = grind (arith, squares_positive ds h.2)

pub product-squares : (ds : List ℕ) → AreSizes ds → product ds ≤ squares ds
product-squares [] h = omega arith
product-squares (d ∷ ds) h = grind (arith, product-squares ds h.2)

pub no_wrap : (e d : ℕ) → 1 ≤ d → e * d * d < uint64_size → e * d % uint64_size ≡ e * d
no_wrap e d h lt = let le : e * d ≤ e * d * d = grind arith in omega arith

pub lt_of_mul : (x q u : ℕ) → 1 ≤ q → x * q < u → x < u
lt_of_mul x q u h lt = grind arith

pub positive : (e d : ℕ) → 1 ≤ e → 1 ≤ d → 1 ≤ e * d * d
positive e d h k = grind arith

pub grows_by : (x e : ℕ) → 1 ≤ e → x ≤ e * x
grows_by x e h = grind arith

pub enough : (e d q p : ℕ) → 1 ≤ e → p ≤ d * d * q → p ≤ e * d * d * q
enough e d q p h le =
    let same : e * d * d * q ≡ e * (d * d * q) = grind arith in
    let grows : d * d * q ≤ e * (d * d * q) = grows_by (d * d * q) e h in omega arith

pub HasShape-length :
    (A : Type 0) (n : ℕ) (ds : List ℕ) (vs : Children A n)
    → HasShape A n vs ds
    → AreSizes ds
    → length ds ≡ suc n
unfolding HasShape
HasShape-length A zero [] vs shape sizes = absurd shape
HasShape-length A (suc n) [] vs shape sizes = absurd shape
HasShape-length A zero (d ∷ e ∷ ds) vs shape sizes = absurd shape
HasShape-length A zero (d ∷ []) vs shape sizes = refl
HasShape-length A (suc n) (d ∷ ds) [] shape sizes = absurd (omega (arith, shape.0, sizes.0))
HasShape-length A (suc n) (d ∷ ds) (none ∷ vs) shape sizes = absurd shape.1
HasShape-length A (suc n) (d ∷ ds) (some v ∷ vs) shape sizes =
    ap suc (HasShape-length A n ds v shape.1.0 sizes.2)
