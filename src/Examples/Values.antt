-- ===== src/Examples/Values.antt =====
-- Numbers, dates, timestamps, UUIDs and types at concrete values.
use pg_duckdb.Common.{◌<◌, ◌≡◌, ◌↔◌, refl, none, some, [], ◌∷◌, arith}
use pg_duckdb.Common.Int.{ℤ, pos, negsuc}
use pg_duckdb.Numeric.{
  int16, int32, max_value, split_scale, integral_loop, align, fractional_loop, get_power_of_ten,
  NumericVar, numeric_neg, convert_numeric, convert_decimal,
}
use pg_duckdb.Numeric.Encode.{aligned}
use pg_duckdb.Numeric.RoundTrip.{convert_decimal-convert_numeric, convert_numeric-none_iff}
use pg_duckdb.Temporal.{
  Limits, IsLimits, ok, convert_date_datum, append_date, millis, convert_timestamp_datum,
  append_timestamp,
}
use pg_duckdb.Temporal.Dates.{append_date-convert_date_datum}
use pg_duckdb.Temporal.Timestamps.{Microseconds, append_timestamp-units}

-- DECIMAL(4, 3), -1.234, in an int16_t.
abbrev minus_1_234 : NumericVar
minus_1_234 = record { weight = pos 0; sign = numeric_neg; dscale = 3; digits = 1 ∷ 2340 ∷ [] }

convert_decimal-convert_numeric_example : convert_decimal int16 minus_1_234 ≡ some (negsuc 1233)
unfolding convert_numeric split_scale integral_loop align fractional_loop get_power_of_ten
convert_decimal-convert_numeric_example =
    convert_decimal-convert_numeric int16 (negsuc 1233) 3 minus_1_234
      (record { in_table = omega arith; fits = omega arith }) (omega arith) refl

-- DECIMAL(9, 9), 0.999999999, in an int32_t.
convert_numeric-none_iff_example :
    (convert_numeric int32 (pos 999999999) 9 ≡ none) ↔ (max_value int32 < aligned (pos 999999999) 9)
convert_numeric-none_iff_example =
    convert_numeric-none_iff int32 (pos 999999999) 9
      (record { in_table = omega arith; fits = omega arith }) (omega arith)

-- The values in the headers of Postgres and DuckDB.
abbrev limits : Limits
limits = record {
  date_infinity = pos 2147483647;
  date_ninfinity = negsuc 2147483646;
  timestamp_infinity = pos 9223372036854775807;
  timestamp_ninfinity = negsuc 9223372036854775806;
  dateval_noend = pos 2147483647;
  dateval_nobegin = negsuc 2147483647;
  dt_noend = pos 9223372036854775807;
  dt_nobegin = negsuc 9223372036854775807;
  min_date = negsuc 2440587;
  max_date = pos 2145042905;
}

limits-IsLimits : IsLimits limits
limits-IsLimits = record {
  date_order = ground arith;
  date_infinities = λ e. ground arith;
  timestamp_order = ground arith;
  dates_fit = ground arith;
  noend_is = refl;
  nobegin_is = refl;
  dt_noend_is = refl;
  dt_nobegin_is = refl;
}

-- 2000-01-02
append_date-convert_date_datum_example : append_date limits (pos 1) ≡ ok (pos 10958)
unfolding convert_date_datum
append_date-convert_date_datum_example =
    append_date-convert_date_datum limits (pos 10958) (pos 1) limits-IsLimits refl

append_timestamp-units_example :
    (value : ℤ) × (append_timestamp limits (pos 1000) ≡ ok value)
    × Microseconds millis (pos 946684800001) value
unfolding convert_timestamp_datum
append_timestamp-units_example =
    append_timestamp-units limits millis (pos 946684800001) (pos 1000) limits-IsLimits
      (λ e. ground arith) (λ e. ground arith) refl
