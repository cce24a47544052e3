-- ===== src/Numeric.antt =====
-- NUMERIC conversion, src/pgduckdb_types.cpp: `ConvertNumeric` and `ConvertDecimal` with their
-- tables of powers. A value of the C++ type `T` is a magnitude and a sign. `none` says
-- that the computation has left what it can represent: an operation whose exact result is outside
-- T's range, a write past a digit buffer, or the exception of `GetPowerOfTen`. What C++ makes of
-- such a result (undefined for int32_t and int64_t, a narrowing or a wrap around for int16_t,
-- uint64_t and the 128-bit types of DuckDB, whose source is not here) is not followed: from
-- there on the model says nothing of the digits.
use pg_duckdb.Common.{
  ℕ, zero, suc, ◌+◌, ◌-◌, ◌*◌, ◌/◌, ◌%◌, ◌^◌, Bool, true, false, Option, none, some, List, [], ◌∷◌,
  ◌++◌, reverse, ltb, leb, ◌==◌, if◌then◌else◌, length, take, drop, ◌>>=◌,
}
use pg_duckdb.Common.Int.{ℤ, pos, negsuc, pos_part, neg_part, sub_ℕ}
pub mod Power
pub mod Digits
pub mod Encode
pub mod Decode
pub mod RoundTrip

-- The types at which the templates are instantiated.
pub data CType : Type 0 where
  int16 int32 int64 uint64 int128 uint128 : CType

-- sizeof(T)
abbrev pub size_of : CType → ℕ
size_of int16 = 2
size_of int32 = 4
size_of int64 = 8
size_of uint64 = 8
size_of int128 = 16
size_of uint128 = 16

-- The largest value of T.
abbrev pub max_value : CType → ℕ
max_value int16 = 32767
max_value int32 = 2147483647
max_value int64 = 9223372036854775807
max_value uint64 = 18446744073709551615
max_value int128 = 170141183460469231731687303715884105727
max_value uint128 = 340282366920938463463374607431768211455

abbrev pub nbase : ℕ
nbase = 10000

abbrev pub dec_digits : ℕ
dec_digits = 4

-- A result that T can hold; `none` where the exact result is out of its range.
abbrev pub fit : CType → ℕ → Option ℕ
fit t x = if leb x (max_value t) then some x else none

-- DecimalConversionInteger::GetPowerOfTen and DecimalConversionHugeint::GetPowerOfTen: tables of
-- 19 and 39 entries, and an exception past the end.
abbrev pub table_size : CType → ℕ
table_size int128 = 39
table_size uint128 = 39
table_size _ = 19

unfoldable pub get_power_of_ten : CType → ℕ → Option ℕ
get_power_of_ten t index = if leb (table_size t) index then none else some (10 ^ index)

pub data Sign : Type 0 where
  numeric_pos numeric_neg : Sign

pub record NumericVar : Type 0 where
  pub weight : ℤ
  pub sign : Sign
  pub dscale : ℕ
  pub digits : List ℕ

abbrev pub ndigits : NumericVar → ℕ
ndigits v = length v.digits

-- The buffers `integral_digits` and `fractional_digits` have this many entries.
abbrev pub max_digits : CType → ℕ
max_digits t = size_of t * 4

-- while (integer_part > 0): the digits, lowest first. `room` counts the entries left in the
-- buffer, and a write past its end is `none`.
unfoldable pub integral_loop : ℕ → ℕ → Option (List ℕ)
integral_loop zero n = if n == 0 then some [] else none
integral_loop (suc room) n =
    let rest = integral_loop room (n / nbase) in
    if n == 0 then some [] else (rest >>= λ ds. some ((n % nbase) ∷ ds))

-- for (i = 0; i < fractional_ndigits; i++), with the same buffer bound.
unfoldable pub fractional_loop : ℕ → ℕ → ℕ → Option (List ℕ)
fractional_loop room zero f = some []
fractional_loop zero (suc rounds) f = none
fractional_loop (suc room) (suc rounds) f = do
  ds ← fractional_loop room rounds (f / nbase)
  some ((f % nbase) ∷ ds)

abbrev pub fractional_ndigits : ℕ → ℕ
fractional_ndigits scale = (scale + dec_digits - 1) / dec_digits

abbrev pub correction : ℕ → ℕ
correction scale = fractional_ndigits scale * dec_digits - scale

-- value < 0 ? (-value, NUMERIC_NEG) : (value, NUMERIC_POS)
abbrev pub magnitude : ℤ → ℕ
magnitude (pos n) = n
magnitude (negsuc n) = suc n

abbrev pub sign_of : ℤ → Sign
sign_of (pos n) = numeric_pos
sign_of (negsuc n) = numeric_neg

-- The integer part and the fractional part, before the digits are split.
unfoldable pub split_scale : CType → ℕ → ℕ → Option (ℕ × ℕ)
unfolding get_power_of_ten
split_scale t scale value =
    let scaled = get_power_of_ten t scale >>= λ p. fit t p >>= λ q. some (value / q, value % q) in
    if scale == 0 then some (value, 0) else scaled

-- fractional_part *= T(GetPowerOfTen(correction))
unfoldable pub align : CType → ℕ → ℕ → Option ℕ
unfolding get_power_of_ten
align t scale fractional_part = do
  p ← get_power_of_ten t (correction scale)
  q ← fit t p
  fit t (fractional_part * q)

-- ConvertNumeric<T, OP>
unfoldable pub convert_numeric : CType → ℤ → ℕ → Option NumericVar
convert_numeric t ddb_value scale = do
  value ← fit t (magnitude ddb_value)
  parts ← split_scale t scale value
  integral ← integral_loop (max_digits t) parts.0
  aligned ← align t scale parts.1
  fractional ← fractional_loop (max_digits t) (fractional_ndigits scale) aligned
  some (record {
    weight = sub_ℕ (length integral) 1;
    sign = sign_of ddb_value;
    dscale = scale;
    digits = reverse integral ++ reverse fractional;
  })

-- The digits up to the weight: `rounds` more positions, zero where the digits have ended.
pub push_integral : CType → ℕ → List ℕ → ℕ → Option ℕ
push_integral t zero ds acc = some acc
push_integral t (suc rounds) [] acc = do a ← fit t (acc * nbase); push_integral t rounds [] a
push_integral t (suc rounds) (d ∷ ds) acc = do
  a ← fit t (acc * nbase)
  b ← fit t (a + d)
  push_integral t rounds ds b

-- The last fractional digit: `final_base` and `final_digit` after the compensation.
pub compensate : CType → ℤ → ℕ → Option (ℕ × ℕ)
unfolding get_power_of_ten
compensate t (pos c) d = do p ← get_power_of_ten t c; q ← fit t p; some (nbase / q, d / q)
compensate t (negsuc c) d = do
  p ← get_power_of_ten t (suc c)
  q ← fit t p
  b ← fit t (nbase * q)
  e ← fit t (d * q)
  some (b, e)

-- The loop over the digits after the weight.
pub push_fractional : CType → ℤ → List ℕ → ℕ → Option ℕ
unfolding compensate
push_fractional t c [] f = some f
push_fractional t c (d ∷ []) f = do
  last ← compensate t c d
  g ← fit t (f * last.0)
  fit t (g + last.1)
push_fractional t c (d ∷ e ∷ ds) f = do
  g ← fit t (f * nbase)
  h ← fit t (g + d)
  push_fractional t c (e ∷ ds) h

-- weight + 1, which is what the C++ code compares and subtracts: 0 or less as a negative part.
abbrev pub before_point : ℤ → ℕ
before_point (pos w) = suc w
before_point (negsuc w) = 0

-- (ndigits - weight - 1) * DEC_DIGITS - dscale, where ndigits > weight + 1.
abbrev pub power_correction : NumericVar → ℤ
power_correction v =
    sub_ℕ ((length v.digits + neg_part v.weight - 1 - pos_part v.weight) * dec_digits) v.dscale

pub integral_part : CType → ℕ → NumericVar → Option ℕ
integral_part t scale_power v = elim v.weight [
  | pos w ↦ (push_integral t (suc w) v.digits 0 >>= λ n. fit t (n * scale_power))
  | negsuc w ↦ some 0
]

pub fractional_part : CType → NumericVar → Option ℕ
fractional_part t v =
    if ltb (before_point v.weight) (length v.digits)
    then push_fractional t (power_correction v) (drop (before_point v.weight) v.digits) 0
    else some 0

abbrev pub signed : Sign → ℕ → ℤ
signed numeric_pos n = pos n
signed numeric_neg n = sub_ℕ 0 n

-- ConvertDecimal<T, OP> at the integer types.
pub convert_decimal : CType → NumericVar → Option ℤ
convert_decimal t v = do
  scale_power ← get_power_of_ten t v.dscale
  body ← elim v.digits [
    | [] ↦ some 0
    | d ∷ ds ↦ do i ← integral_part t scale_power v; f ← fractional_part t v; fit t (i + f)
  ]
  some (signed v.sign body)
