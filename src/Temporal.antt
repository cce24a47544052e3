-- ===== src/Temporal.antt =====
-- Dates, timestamps and UUIDs, src/pgduckdb_types.cpp and include/pgduckdb/pgduckdb_types.hpp.
-- Days and microseconds are integers; `overflow` is a signed overflow of int32_t or int64_t, which
-- C++ leaves undefined. The infinities of DuckDB and Postgres and the range of Postgres dates come
-- from headers outside the repository: they are a parameter, `Limits`.
use pg_duckdb.Common.{
  ℕ, ◌*◌, ◌/◌, ◌-◌, ◌+◌, ◌<◌, ◌≡◌, ◌≢◌, Bool, true, false, not, ◌&&◌, ◌||◌, List, [], ◌∷◌, ltb,
  reverse, if◌then◌else◌,
}
use pg_duckdb.Common.Int.{ℤ, pos, negsuc, ◌+ℤ◌, ◌-ℤ◌, neg_ℤ, leb_ℤ, ltb_ℤ, eqb_ℤ, ◌≤ℤ◌}
pub mod Dates
pub mod Timestamps
pub mod Uuids

pub data Outcome : Type 0 where
  ok : ℤ → Outcome
  out_of_range overflow : Outcome

-- date_t::infinity() and ninfinity(), timestamp_t::infinity() and ninfinity(), DATEVAL_NOEND and
-- DATEVAL_NOBEGIN, DT_NOEND and DT_NOBEGIN, and the dates 4714-11-24 BC and 5874897-12-31.
pub record Limits : Type 0 where
  pub date_infinity : ℤ
  pub date_ninfinity : ℤ
  pub timestamp_infinity : ℤ
  pub timestamp_ninfinity : ℤ
  pub dateval_noend : ℤ
  pub dateval_nobegin : ℤ
  pub dt_noend : ℤ
  pub dt_nobegin : ℤ
  pub min_date : ℤ
  pub max_date : ℤ

-- PGDUCKDB_DUCK_DATE_OFFSET
abbrev pub date_offset : ℤ
date_offset = pos 10957

-- PGDUCKDB_DUCK_TIMESTAMP_OFFSET = 10957 * 86400000000
abbrev pub timestamp_offset : ℤ
timestamp_offset = pos 946684800000000

abbrev pub max_timestamp : ℤ
max_timestamp = pos 9223371244800000000

-- -210866803200000000
abbrev pub min_timestamp : ℤ
min_timestamp = negsuc 210866803199999999

-- A result of int32_t, or of int64_t, arithmetic.
abbrev pub int32 : ℤ → Outcome
int32 z = if leb_ℤ (negsuc 2147483647) z && leb_ℤ z (pos 2147483647) then ok z else overflow

abbrev pub int64 : ℤ → Outcome
int64 z =
    if leb_ℤ (negsuc 9223372036854775807) z && leb_ℤ z (pos 9223372036854775807)
    then ok z
    else overflow

infixl 5 ◌>>=◌
abbrev pub ◌>>=◌ : Outcome → (ℤ → Outcome) → Outcome
ok z >>= f = f z
out_of_range >>= f = out_of_range
overflow >>= f = overflow

pub valid_date : Limits → ℤ → Bool
valid_date l dt =
    if eqb_ℤ dt l.date_infinity || eqb_ℤ dt l.date_ninfinity
    then true
    else leb_ℤ l.min_date dt && leb_ℤ dt l.max_date

unfoldable pub convert_date_datum : Limits → ℤ → Outcome
unfolding valid_date ◌-ℤ◌
convert_date_datum l date =
    if not (valid_date l date)
    then out_of_range
    else if eqb_ℤ date l.date_ninfinity
    then ok l.dateval_nobegin
    else if eqb_ℤ date l.date_infinity
    then ok l.dateval_noend
    else int32 (date -ℤ date_offset)

unfoldable pub append_date : Limits → ℤ → Outcome
unfolding ◌+ℤ◌
append_date l date =
    if eqb_ℤ date l.dateval_nobegin
    then ok l.date_ninfinity
    else if eqb_ℤ date l.dateval_noend
    then ok l.date_infinity
    else int32 (date +ℤ date_offset)

-- The DATEOID case of ConvertPostgresParameterToDuckValue.
unfoldable pub parameter_date : ℤ → Outcome
unfolding ◌+ℤ◌
parameter_date value = int32 (value +ℤ date_offset)

unfoldable pub valid_timestamp : ℤ → Bool
valid_timestamp timestamp = leb_ℤ min_timestamp timestamp && ltb_ℤ timestamp max_timestamp

-- The type of the DuckDB value that ConvertTimestampDatum is given.
pub data TimeUnit : Type 0 where
  micros millis nanos seconds : TimeUnit

-- C++ division truncates towards 0.
abbrev pub div_trunc : ℤ → ℕ → ℤ
div_trunc (pos n) d = pos (n / d)
div_trunc (negsuc n) d = neg_ℤ (pos ((n + 1) / d))

abbrev pub scale_ℤ : ℤ → ℕ → ℤ
scale_ℤ (pos n) d = pos (n * d)
scale_ℤ (negsuc n) d = neg_ℤ (pos ((n + 1) * d))

-- rawValue in microseconds.
abbrev pub to_micros : TimeUnit → ℤ → Outcome
to_micros micros raw = ok raw
to_micros millis raw = int64 (scale_ℤ raw 1000)
to_micros nanos raw = ok (div_trunc raw 1000)
to_micros seconds raw = int64 (scale_ℤ raw 1000000)

abbrev pub check_range : ℤ → Outcome
check_range value =
    if not (valid_timestamp value) then out_of_range else int64 (value -ℤ timestamp_offset)

unfoldable pub convert_timestamp_datum : Limits → TimeUnit → ℤ → Outcome
unfolding valid_timestamp ◌-ℤ◌
convert_timestamp_datum l unit raw =
    if eqb_ℤ raw l.timestamp_ninfinity
    then ok l.dt_nobegin
    else if eqb_ℤ raw l.timestamp_infinity
    then ok l.dt_noend
    else (to_micros unit raw >>= check_range)

unfoldable pub convert_timestamp_tz_datum : Limits → ℤ → Outcome
unfolding valid_timestamp ◌-ℤ◌
convert_timestamp_tz_datum l raw =
    if eqb_ℤ raw l.timestamp_ninfinity
    then ok l.dt_nobegin
    else if eqb_ℤ raw l.timestamp_infinity
    then ok l.dt_noend
    else check_range raw

-- AppendTimestamp and AppendTimestampTz.
unfoldable pub append_timestamp : Limits → ℤ → Outcome
unfolding valid_timestamp ◌+ℤ◌
append_timestamp l timestamp =
    if eqb_ℤ timestamp l.dt_nobegin
    then ok l.timestamp_ninfinity
    else if eqb_ℤ timestamp l.dt_noend
    then ok l.timestamp_infinity
    else (int64 (timestamp +ℤ timestamp_offset) >>= λ shifted.
        if not (valid_timestamp shifted) then out_of_range else ok shifted)

-- The TIMESTAMPOID and TIMESTAMPTZOID cases of ConvertPostgresParameterToDuckValue.
unfoldable pub parameter_timestamp : ℤ → Outcome
unfolding ◌+ℤ◌
parameter_timestamp value = int64 (value +ℤ timestamp_offset)

-- The documented values of the constants, as far as the conversions rely on them.
pub record IsLimits (l : Limits) : Type 0 where
  pub date_order :
      (l.date_ninfinity ≤ℤ l.min_date)
      × (l.min_date ≤ℤ l.max_date)
      × (l.max_date ≤ℤ l.date_infinity)
  pub date_infinities : l.date_ninfinity ≢ l.date_infinity
  pub timestamp_order :
      (l.timestamp_ninfinity ≤ℤ min_timestamp) × (max_timestamp ≤ℤ l.timestamp_infinity)
  pub dates_fit : (negsuc 2147472689 ≤ℤ l.min_date) × (l.max_date ≤ℤ pos 2147483646)
  pub noend_is : l.dateval_noend ≡ pos 2147483647
  pub nobegin_is : l.dateval_nobegin ≡ negsuc 2147483647
  pub dt_noend_is : l.dt_noend ≡ pos 9223372036854775807
  pub dt_nobegin_is : l.dt_nobegin ≡ negsuc 9223372036854775807
