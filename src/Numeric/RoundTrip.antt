-- ===== src/Numeric/RoundTrip.antt =====
-- `ConvertNumeric` followed by `ConvertDecimal`.
use mathlib.Core.List.{append-nil}
use native.Mathlib.Nat.{zero-div, mul-div_cancel, div-add-mod', one-le-pow, div-le_self, le_trans}
use native.Mathlib.Decide.{dec_lt}
use pg_duckdb.Common.{
  ℕ, suc, ◌+◌, ◌*◌, ◌/◌, ◌%◌, ◌^◌, ◌≤◌, ◌<◌, ◌≡◌, refl, sym, ap, subst, ◌↔◌, Option, none, some,
  List, [], ◌∷◌, ◌++◌, length, length-append, true, false, ltb, drop, arith, ◌>>=◌,
}
use pg_duckdb.Common.Int.{ℤ, pos, negsuc, sub_ℕ}
use pg_duckdb.Numeric.{
  CType, NumericVar, max_value, magnitude, sign_of, signed, fractional_ndigits, correction,
  before_point, power_correction, fit, integral_part, fractional_part, convert_numeric,
  convert_decimal,
}
use pg_duckdb.Numeric.Power.{get_power_of_ten_lem, correction-le}
use pg_duckdb.Numeric.Digits.{horner}
use pg_duckdb.Numeric.Decode.{fit-eq-some, push_integral-horner, push_fractional-horner}
use pg_duckdb.Numeric.Encode.{
  IsScale, aligned, Encoded, convert_numeric-Encoded, convert_numeric-none,
}

abbrev encoded : ℤ → ℕ → List ℕ → List ℕ → NumericVar
encoded v scale is fs = record {
  weight = sub_ℕ (length is) 1;
  sign = sign_of v;
  dscale = scale;
  digits = is ++ fs;
}

before_point_lem : (n : ℕ) → before_point (sub_ℕ n 1) ≡ n
before_point_lem n = ground arith

power_correction_lem :
    (v : ℤ) (scale : ℕ) (is fs : List ℕ)
    → length fs ≡ fractional_ndigits scale
    → power_correction (encoded v scale is fs) ≡ pos (correction scale)
power_correction_lem v scale is fs e = ground (arith, length-append is fs)

drop-append : (xs ys : List ℕ) → drop (length xs) (xs ++ ys) ≡ ys
drop-append [] ys = refl
drop-append (x ∷ xs) ys = drop-append xs ys

sub_one : (n : ℕ) → sub_ℕ (suc n) 1 ≡ pos n
sub_one n = ground arith

module _ (t : CType) (v : ℤ) (scale : ℕ) (fs : List ℕ) where
  integral_part_lem :
      (is : List ℕ)
      → horner 0 is * 10 ^ scale ≤ max_value t
      → horner 0 is ≤ max_value t
      → integral_part t (10 ^ scale) (encoded v scale is fs) ≡ some (horner 0 is * 10 ^ scale)
  unfolding integral_part
  integral_part_lem [] h g = ap some (omega arith)
  integral_part_lem (x ∷ xs) h g = rw (
    sub_one (length xs),
    integral_part,
    push_integral-horner t (x ∷ xs) fs 0 g,
    fit-eq-some t (horner 0 (x ∷ xs) * 10 ^ scale) h,
  )

ltb_self : (n : ℕ) → ltb n n ≡ false
ltb_self n = ground arith

ltb-append : (xs : List ℕ) (y : ℕ) (ys : List ℕ) → ltb (length xs) (length (xs ++ y ∷ ys)) ≡ true
ltb-append xs y ys = ground (arith, length-append xs (y ∷ ys))

fractional_part_lem :
    (t : CType) (v : ℤ) (scale : ℕ) (is fs : List ℕ)
    → length fs ≡ fractional_ndigits scale
    → horner 0 fs / 10 ^ correction scale ≤ max_value t
    → fractional_part t (encoded v scale is fs) ≡ some (horner 0 fs / 10 ^ correction scale)
unfolding fractional_part
fractional_part_lem t v scale is [] e h =
    rw (before_point_lem (length is), append-nil is, ltb_self (length is))
      (ap some (sym (zero-div (10 ^ correction scale))))
fractional_part_lem t v scale is (x ∷ xs) e h =
    rw
      (
        power_correction_lem v scale is (x ∷ xs) e,
        before_point_lem (length is),
        drop-append is (x ∷ xs),
        ltb-append is x xs,
      )
      (push_fractional-horner t (correction scale) x xs 0 (correction-le scale) h)

signed_lem : (v : ℤ) → signed (sign_of v) (magnitude v) ≡ v
signed_lem (pos n) = refl
signed_lem (negsuc n) = ground arith

-- The integer and the fractional part make up the value.
whole : (v p q : ℕ) → 1 ≤ q → v / p * p + v % p * q / q ≡ v
whole v p q h = rw (mul-div_cancel (v % p) h) (div-add-mod' v p)

abbrev body : CType → ℕ → NumericVar → Option ℕ
body t scale_power r = elim r.digits [
  | [] ↦ some 0
  | d ∷ ds ↦ do i ← integral_part t scale_power r; f ← fractional_part t r; fit t (i + f)
]

module _ (t : CType) (v : ℤ) (scale : ℕ) (h : magnitude v ≤ max_value t) where
  split_whole :
      magnitude v / 10 ^ scale * 10 ^ scale + aligned v scale / 10 ^ correction scale ≡ magnitude v
  split_whole =
      whole (magnitude v) (10 ^ scale) (10 ^ correction scale)
        (one-le-pow (correction scale) 10 (omega arith))

  parts_lem :
      (is fs : List ℕ)
      → horner 0 is ≡ magnitude v / 10 ^ scale
      → horner 0 fs ≡ aligned v scale
      → length fs ≡ fractional_ndigits scale
      → (integral_part t (10 ^ scale) (encoded v scale is fs) >>= λ i.
          fractional_part t (encoded v scale is fs) >>= λ f. fit t (i + f))
        ≡ some (magnitude v)
  parts_lem is fs i f l =
      let sum : horner 0 is * 10 ^ scale + horner 0 fs / 10 ^ correction scale ≡ magnitude v =
        rw (i, f) split_whole in
      let small : horner 0 is ≤ max_value t =
        rw i (le_trans (div-le_self (magnitude v) (10 ^ scale)) h) in
      rw
        (
          integral_part_lem t v scale fs is (omega arith) small,
          fractional_part_lem t v scale is fs l (omega arith),
          sum,
        )
        (fit-eq-some t (magnitude v) h)

  body_lem :
      (is fs : List ℕ)
      → horner 0 is ≡ magnitude v / 10 ^ scale
      → horner 0 fs ≡ aligned v scale
      → length fs ≡ fractional_ndigits scale
      → body t (10 ^ scale) (encoded v scale is fs) ≡ some (magnitude v)
  body_lem [] [] i f l =
      let zeros = rw (← i, ← f) at split_whole in
      ap some (omega (arith, zeros, zero-div (10 ^ correction scale)))
  body_lem [] (y ∷ ys) i f l = parts_lem [] (y ∷ ys) i f l
  body_lem (x ∷ xs) fs i f l = parts_lem (x ∷ xs) fs i f l

  convert_decimal-Encoded :
      (s : IsScale t scale) (e : Encoded t v scale)
      → convert_decimal t (encoded v scale e.integral e.fractional) ≡ some v
  unfolding convert_decimal
  convert_decimal-Encoded s e = rw (
    get_power_of_ten_lem t scale s.in_table,
    body_lem e.integral e.fractional e.integral_is e.fractional_is e.fractional_length,
    signed_lem v,
  )

-- For a value whose magnitude T can hold, which is any but the minimum of a signed T, at a scale
-- whose power of ten T holds: an intermediate result of `ConvertNumeric` leaves T's range, or a
-- digit is written past its buffer, exactly when the fraction, shifted to whole digits, is above
-- T's largest value.
pub convert_numeric-none_iff :
    (t : CType) (v : ℤ) (scale : ℕ)
    → IsScale t scale
    → magnitude v ≤ max_value t
    → (convert_numeric t v scale ≡ none) ↔ (max_value t < aligned v scale)
convert_numeric-none_iff t v scale s h = (
  λ e. elim (dec_lt (max_value t) (aligned v scale)) [
    | yes p ↦ p
    | no p ↦ let enc = convert_numeric-Encoded t v scale s h (omega arith) in cc (enc.returns, e)
  ],
  convert_numeric-none t v scale s h,
)

-- For a value whose magnitude T can hold, which is any but the minimum of a signed T, at a scale
-- whose power of ten T holds: if no intermediate result of `ConvertNumeric` leaves T's range,
-- `ConvertDecimal` reads back the value from what it writes, and leaves T's range nowhere either.
pub convert_decimal-convert_numeric :
    (t : CType) (v : ℤ) (scale : ℕ) (r : NumericVar)
    → IsScale t scale
    → magnitude v ≤ max_value t
    → convert_numeric t v scale ≡ some r
    → convert_decimal t r ≡ some v
convert_decimal-convert_numeric t v scale r s h e = elim (dec_lt (max_value t) (aligned v scale)) [
  | yes p ↦ cc (convert_numeric-none t v scale s h p, e)
  | no p ↦
      let enc = convert_numeric-Encoded t v scale s h (omega arith) in
      let same : encoded v scale enc.integral enc.fractional ≡ r = cc (enc.returns, e) in
      subst (λ x. convert_decimal t x ≡ some v) same (convert_decimal-Encoded t v scale h s enc)
]
