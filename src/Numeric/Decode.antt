-- ===== src/Numeric/Decode.antt =====
-- What the digit loops of `ConvertDecimal` compute.
use pg_duckdb.Common.{
  ℕ, zero, suc, ◌+◌, ◌*◌, ◌/◌, ◌^◌, ◌≤◌, ◌≡◌, refl, ap, some, List, [], ◌∷◌, ◌++◌, length, le→leb,
  arith,
}
use pg_duckdb.Common.Int.{pos}
use pg_duckdb.Numeric.Power.{get_power_of_ten_lem, small_power, le-drop_digits}
use pg_duckdb.Numeric.{CType, max_value, nbase, fit, push_integral, push_fractional}
use pg_duckdb.Numeric.Digits.{horner, le-horner}

pub fit-eq-some : (t : CType) (x : ℕ) → x ≤ max_value t → fit t x ≡ some x
fit-eq-some t x h = rw (le→leb x (max_value t) h)

-- The integer digits, read from the front of the digit list.
pub push_integral-horner :
    (t : CType) (ds rest : List ℕ) (acc : ℕ)
    → horner acc ds ≤ max_value t
    → push_integral t (length ds) (ds ++ rest) acc ≡ some (horner acc ds)
unfolding push_integral
push_integral-horner t [] rest acc h = refl
push_integral-horner t (d ∷ ds) rest acc h =
    rw
      (
        fit-eq-some t (acc * nbase) (omega (arith, le-horner (acc * nbase + d) ds)),
        fit-eq-some t (acc * nbase + d) (omega (arith, le-horner (acc * nbase + d) ds)),
      )
      (push_integral-horner t ds rest (acc * nbase + d) h)

-- The compensation of the last digit divides the whole fraction: 10 ^ c divides the base.
last_digit : (c h d : ℕ) → c ≤ 3 → h * (nbase / 10 ^ c) + d / 10 ^ c ≡ (h * nbase + d) / 10 ^ c
last_digit zero h d le = omega arith
last_digit (suc zero) h d le = omega arith
last_digit (suc (suc zero)) h d le = omega arith
last_digit (suc (suc (suc zero))) h d le = omega arith
last_digit (suc (suc (suc (suc c)))) h d le = absurd (omega arith)

-- The fractional digits, with a correction that drops at most three decimal digits.
pub push_fractional-horner :
    (t : CType) (c d : ℕ) (ds : List ℕ) (f : ℕ)
    → c ≤ 3
    → horner f (d ∷ ds) / 10 ^ c ≤ max_value t
    → push_fractional t (pos c) (d ∷ ds) f ≡ some (horner f (d ∷ ds) / 10 ^ c)
unfolding push_fractional
push_fractional-horner t c d [] f le h =
    let whole = last_digit c f d le in
    rw
      (
        get_power_of_ten_lem t c (small_power t c le).0,
        fit-eq-some t (10 ^ c) (small_power t c le).1,
        fit-eq-some t (f * (nbase / 10 ^ c)) (omega arith),
        fit-eq-some t (f * (nbase / 10 ^ c) + d / 10 ^ c) (omega arith),
      )
      (ap some whole)
push_fractional-horner t c d (e ∷ ds) f le h =
    let bound =
      le-drop_digits (f * nbase + d) (horner f (d ∷ e ∷ ds)) c le
        (omega (arith, le-horner ((f * nbase + d) * nbase + e) ds)) in
    rw (fit-eq-some t (f * nbase) (omega arith), fit-eq-some t (f * nbase + d) (omega arith))
      (push_fractional-horner t c e ds (f * nbase + d) le h)
