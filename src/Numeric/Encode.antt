-- ===== src/Numeric/Encode.antt =====
-- The result of `ConvertNumeric`.
use native.Mathlib.Nat.{one-le-pow, mod-lt, div-le_self, lt_of_le_of_lt}
use pg_duckdb.Common.{
  ℕ, zero, suc, ◌*◌, ◌/◌, ◌%◌, ◌^◌, ◌≤◌, ◌<◌, ◌≡◌, sym, ◌∙◌, none, some, List, ◌++◌, reverse,
  length, length-reverse, lt→leb, le→leb, suc-eq-zero, ap, ap₂, arith,
}
use pg_duckdb.Common.Int.{ℤ, sub_ℕ}
use pg_duckdb.Numeric.{
  CType, max_value, max_digits, table_size, magnitude, sign_of, fractional_ndigits, correction,
  nbase, fit, split_scale, align, convert_numeric, integral_loop, fractional_loop,
}
use pg_duckdb.Numeric.Power.{
  pow-add, pow-four, get_power_of_ten_lem, correction-le, scale-correction, small_power,
}
use pg_duckdb.Numeric.Digits.{
  horner, horner-reverse, AreDigits, AreDigits-reverse, AreDigits-++, Splits, integral_loop-Splits,
  fractional_loop-Splits, length-fractional_loop,
}
use pg_duckdb.Numeric.Decode.{fit-eq-some}

-- 10 ^ scale is in the table and fits T.
pub record IsScale (t : CType) (scale : ℕ) : Type 0 where
  pub in_table : scale < table_size t
  pub fits : 10 ^ scale ≤ max_value t

-- |v| % 10 ^ scale, shifted left to a whole number of base-10000 digits.
abbrev pub aligned : ℤ → ℕ → ℕ
aligned v scale = magnitude v % 10 ^ scale * 10 ^ correction scale

split_scale_lem :
    (t : CType) (scale v : ℕ)
    → IsScale t scale
    → split_scale t scale v ≡ some (v / 10 ^ scale, v % 10 ^ scale)
unfolding split_scale
split_scale_lem t zero v s = ap some (ap₂ (λ a b. (a, b)) (omega arith) (omega arith))
split_scale_lem t (suc k) v s = rw (
  suc-eq-zero k,
  lt→leb (suc k) (table_size t) s.in_table,
  le→leb (10 ^ suc k) (max_value t) s.fits,
)

align_lem : (t : CType) (scale f : ℕ) → align t scale f ≡ fit t (f * 10 ^ correction scale)
unfolding align
align_lem t scale f =
    let small = small_power t (correction scale) (correction-le scale) in
    rw (
      get_power_of_ten_lem t (correction scale) small.0,
      fit-eq-some t (10 ^ correction scale) small.1,
    )

-- The integral digits fit their buffer: T has fewer than 4 * sizeof(T) base-10000 digits.
max_value-lt : (t : CType) → max_value t < nbase ^ max_digits t
max_value-lt t = ground arith

-- and so do the fractional digits.
fractional_ndigits-le :
    (t : CType) (scale : ℕ) → scale < table_size t → fractional_ndigits scale ≤ max_digits t
fractional_ndigits-le t scale h = ground arith

mul-lt : (a b c : ℕ) → a < b → 1 ≤ c → a * c < b * c
mul-lt a b c h p = grind arith

aligned-lt : (v : ℤ) (scale : ℕ) → aligned v scale < nbase ^ fractional_ndigits scale
aligned-lt v scale =
    let whole : 10 ^ scale * 10 ^ correction scale ≡ nbase ^ fractional_ndigits scale =
      sym (pow-add 10 scale (correction scale))
      ∙ ap (λ m. 10 ^ m) (scale-correction scale)
      ∙ pow-four (fractional_ndigits scale) in
    rw (← whole) (
      mul-lt (magnitude v % 10 ^ scale) (10 ^ scale) (10 ^ correction scale)
        (mod-lt (magnitude v) (one-le-pow scale 10 (omega arith)))
        (one-le-pow (correction scale) 10 (omega arith)))

-- The digits that `ConvertNumeric` leaves in `result`.
pub record Encoded (t : CType) (v : ℤ) (scale : ℕ) : Type 0 where
  pub integral : List ℕ
  pub fractional : List ℕ
  pub returns :
      convert_numeric t v scale
      ≡ some (record {
        weight = sub_ℕ (length integral) 1;
        sign = sign_of v;
        dscale = scale;
        digits = integral ++ fractional;
      })
  pub integral_is : horner 0 integral ≡ magnitude v / 10 ^ scale
  pub fractional_is : horner 0 fractional ≡ aligned v scale
  pub fractional_length : length fractional ≡ fractional_ndigits scale
  pub are_digits : AreDigits (integral ++ fractional)

module _ (t : CType) (v : ℤ) (scale : ℕ) (s : IsScale t scale) (h : magnitude v ≤ max_value t) where
  integral_digits :
      Splits
        (magnitude v / 10 ^ scale)
        (max_digits t)
        (integral_loop (max_digits t) (magnitude v / 10 ^ scale))
  integral_digits =
      integral_loop-Splits (max_digits t) (magnitude v / 10 ^ scale)
        (lt_of_le_of_lt (div-le_self (magnitude v) (10 ^ scale)) (omega (arith, max_value-lt t)))

  fractional_digits :
      Splits
        (aligned v scale)
        (fractional_ndigits scale)
        (fractional_loop (max_digits t) (fractional_ndigits scale) (aligned v scale))
  fractional_digits =
      fractional_loop-Splits (max_digits t) (fractional_ndigits scale) (aligned v scale)
        (fractional_ndigits-le t scale s.in_table) (aligned-lt v scale)

  pub convert_numeric-Encoded : aligned v scale ≤ max_value t → Encoded t v scale
  unfolding convert_numeric
  convert_numeric-Encoded g = record {
    integral = reverse i.found;
    fractional = reverse f.found;
    returns = rw (
      fit-eq-some t (magnitude v) h,
      split_scale_lem t scale (magnitude v) s,
      i.returns,
      align_lem t scale (magnitude v % 10 ^ scale),
      fit-eq-some t (aligned v scale) g,
      f.returns,
      length-reverse i.found,
    );
    integral_is = horner-reverse i.found ∙ i.value_is;
    fractional_is = horner-reverse f.found ∙ f.value_is;
    fractional_length =
        length-reverse f.found
        ∙ length-fractional_loop (max_digits t) (fractional_ndigits scale) (aligned v scale) f.found
            f.returns;
    are_digits =
        AreDigits-++ (reverse i.found) (reverse f.found) (AreDigits-reverse i.found i.are_digits)
          (AreDigits-reverse f.found f.are_digits);
  }
    where
      i :
          Splits
            (magnitude v / 10 ^ scale)
            (max_digits t)
            (integral_loop (max_digits t) (magnitude v / 10 ^ scale))
      i = integral_digits

      f :
          Splits
            (aligned v scale)
            (fractional_ndigits scale)
            (fractional_loop (max_digits t) (fractional_ndigits scale) (aligned v scale))
      f = fractional_digits

  pub convert_numeric-none : max_value t < aligned v scale → convert_numeric t v scale ≡ none
  unfolding convert_numeric
  convert_numeric-none g = rw (
    fit-eq-some t (magnitude v) h,
    split_scale_lem t scale (magnitude v) s,
    integral_digits.returns,
    align_lem t scale (magnitude v % 10 ^ scale),
    lt→leb (max_value t) (aligned v scale) g,
  )
