-- ===== src/Temporal/Timestamps.antt =====
-- Timestamps across the conversions.
use pg_duckdb.Common.{ℕ, ◌*◌, ◌+◌, ◌≤◌, ◌≡◌, ◌≢◌, ◌↔◌, ◌<◌, refl, arith}
use pg_duckdb.Common.Int.{ℤ, negsuc, pos_part, neg_part, ◌≤ℤ◌, ◌-ℤ◌}
use pg_duckdb.Temporal.{
  Limits, IsLimits, ok, overflow, TimeUnit, micros, millis, nanos, seconds, to_micros,
  convert_timestamp_datum, convert_timestamp_tz_datum, append_timestamp, parameter_timestamp,
  check_range, valid_timestamp, Outcome, out_of_range, ◌>>=◌,
}

-- A microsecond timestamp that converts, infinite or not, is read back as itself.
pub append_timestamp-convert_timestamp_datum :
    (l : Limits) (d p : ℤ)
    → IsLimits l
    → convert_timestamp_datum l micros d ≡ ok p
    → append_timestamp l p ≡ ok d
unfolding convert_timestamp_datum append_timestamp
append_timestamp-convert_timestamp_datum l d p i h = ground arith

-- A TIMESTAMPTZ that converts, infinite or not, is read back as itself.
pub append_timestamp-convert_timestamp_tz_datum :
    (l : Limits) (d p : ℤ)
    → IsLimits l
    → convert_timestamp_tz_datum l d ≡ ok p
    → append_timestamp l p ≡ ok d
unfolding convert_timestamp_tz_datum append_timestamp
append_timestamp-convert_timestamp_tz_datum l d p i h = ground arith

append_timestamp-check_range :
    (l : Limits) (value p : ℤ)
    → IsLimits l
    → check_range value ≡ ok p
    → append_timestamp l p ≡ ok value
unfolding append_timestamp valid_timestamp ◌-ℤ◌
append_timestamp-check_range l value p i h = ground arith

>>=-eq-ok :
    (r : Outcome) (f : ℤ → Outcome) (p : ℤ)
    → (r >>= f) ≡ ok p
    → (value : ℤ) × (r ≡ ok value) × (f value ≡ ok p)
>>=-eq-ok (ok z) f p h = (z, refl, h)
>>=-eq-ok out_of_range f p h = cc
>>=-eq-ok overflow f p h = cc

converted :
    (l : Limits) (u : TimeUnit) (d p : ℤ)
    → d ≢ l.timestamp_infinity
    → d ≢ l.timestamp_ninfinity
    → convert_timestamp_datum l u d ≡ ok p
    → (to_micros u d >>= check_range) ≡ ok p
unfolding convert_timestamp_datum
converted l u d p f g h = ground arith

-- How many nanoseconds the unit has.
abbrev nanoseconds : TimeUnit → ℕ
nanoseconds nanos = 1
nanoseconds micros = 1000
nanoseconds millis = 1000000
nanoseconds seconds = 1000000000

-- `value` microseconds are `d` units, with what is less than a microsecond cut off towards 0.
pub record Microseconds (u : TimeUnit) (d value : ℤ) : Type 0 where
  pub below : pos_part value * 1000 ≤ pos_part d * nanoseconds u
  pub above : pos_part d * nanoseconds u < pos_part value * 1000 + 1000
  pub below_0 : neg_part value * 1000 ≤ neg_part d * nanoseconds u
  pub above_0 : neg_part d * nanoseconds u < neg_part value * 1000 + 1000

to_micros-Microseconds :
    (u : TimeUnit) (d value : ℤ) → to_micros u d ≡ ok value → Microseconds u d value
to_micros-Microseconds micros d value h = ground arith
to_micros-Microseconds millis d value h = ground arith
to_micros-Microseconds nanos d value h = ground arith
to_micros-Microseconds seconds d value h = ground arith

-- A finite value of any of the four units that converts is read back from its Postgres timestamp as
-- as many microseconds: 1000000 for a second, 1000 for a millisecond, and one for 1000 nanoseconds, cut
-- off towards 0.
pub append_timestamp-units :
    (l : Limits) (u : TimeUnit) (d p : ℤ)
    → IsLimits l
    → d ≢ l.timestamp_infinity
    → d ≢ l.timestamp_ninfinity
    → convert_timestamp_datum l u d ≡ ok p
    → (value : ℤ) × (append_timestamp l p ≡ ok value) × Microseconds u d value
append_timestamp-units l u d p i f g h =
    let (value, is, checked) = >>=-eq-ok (to_micros u d) check_range p (converted l u d p f g h) in
    (value, append_timestamp-check_range l value p i checked, to_micros-Microseconds u d value is)

-- The shift to the DuckDB epoch comes before the range check, and overflows int64_t for exactly the
-- last finite Postgres timestamps.
pub append_timestamp-overflow :
    (l : Limits) (p : ℤ)
    → IsLimits l
    → negsuc 9223372036854775807 ≤ℤ p
    → p ≢ l.dt_noend
    → p ≢ l.dt_nobegin
    → (append_timestamp l p ≡ overflow) ↔ (9222425352054775807 < pos_part p)
unfolding append_timestamp
append_timestamp-overflow l p i w h k = (λ e. ground arith, λ lt. ground arith)

-- A finite timestamp that a column reads can also be a parameter, and is the same value there.
pub parameter_timestamp-append_timestamp :
    (l : Limits) (d p : ℤ)
    → IsLimits l
    → p ≢ l.dt_noend
    → p ≢ l.dt_nobegin
    → append_timestamp l p ≡ ok d
    → parameter_timestamp p ≡ ok d
unfolding parameter_timestamp append_timestamp
parameter_timestamp-append_timestamp l d p i h k e = ground arith
