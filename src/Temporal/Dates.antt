-- ===== src/Temporal/Dates.antt =====
-- Dates across the conversions: values, order, and the path of query parameters.
use pg_duckdb.Common.{◌+◌, ◌≡◌, ◌≢◌, ◌⊎◌, inl, inr, arith}
use pg_duckdb.Common.Int.{ℤ, pos, negsuc, pos_part, neg_part, ◌≤ℤ◌}
use pg_duckdb.Temporal.{
  Limits, IsLimits, ok, overflow, convert_date_datum, append_date, parameter_date,
}

-- A DuckDB date that converts to a Postgres date, infinite or not, is read back as itself.
pub append_date-convert_date_datum :
    (l : Limits) (d p : ℤ) → IsLimits l → convert_date_datum l d ≡ ok p → append_date l p ≡ ok d
unfolding convert_date_datum append_date
append_date-convert_date_datum l d p i h = ground arith

-- The range check is enough: the subtraction of the offset never overflows int32_t.
pub convert_date_datum-no_overflow :
    (l : Limits) (d : ℤ) → IsLimits l → convert_date_datum l d ≢ overflow
unfolding convert_date_datum
convert_date_datum-no_overflow l d i h = ground arith

-- What a date converts to.
abbrev Image : Limits → ℤ → ℤ → Type 0
Image l d p =
    ((d ≡ l.date_ninfinity) × (p ≡ negsuc 2147483647))
    ⊎ ((d ≡ l.date_infinity) × (p ≡ pos 2147483647))
    ⊎ ((d ≢ l.date_infinity)
        × (d ≢ l.date_ninfinity)
        × (l.min_date ≤ℤ d)
        × (d ≤ℤ l.max_date)
        × (pos_part p + neg_part d + 10957 ≡ neg_part p + pos_part d)
        × (negsuc 2147483647 ≤ℤ p)
        × (p ≤ℤ pos 2147483647))

convert_date_datum-Image :
    (l : Limits) (d p : ℤ) → IsLimits l → convert_date_datum l d ≡ ok p → Image l d p
unfolding convert_date_datum
convert_date_datum-Image l d p i h = ground arith

Image_mono : (l : Limits) (d e p q : ℤ) → IsLimits l → Image l d p → Image l e q → d ≤ℤ e → p ≤ℤ q
Image_mono l d e p q i (inl a) b le = ground arith
Image_mono l d e p q i (inr (inl a)) b le = ground arith
Image_mono l d e p q i (inr (inr a)) b le = ground arith

-- Dates keep their order, the infinities at the two ends.
pub convert_date_datum_mono :
    (l : Limits) (d e p q : ℤ)
    → IsLimits l
    → convert_date_datum l d ≡ ok p
    → convert_date_datum l e ≡ ok q
    → d ≤ℤ e
    → p ≤ℤ q
convert_date_datum_mono l d e p q i h k =
    Image_mono l d e p q i (convert_date_datum-Image l d p i h) (convert_date_datum-Image l e q i k)

-- A query parameter that is no infinity is read as a column value is.
pub parameter_date-append_date :
    (l : Limits) (p : ℤ)
    → IsLimits l
    → p ≢ l.dateval_noend
    → p ≢ l.dateval_nobegin
    → parameter_date p ≡ append_date l p
unfolding parameter_date append_date
parameter_date-append_date l p i h k = ground arith

-- An infinity is not: the parameter 'infinity' overflows int32_t and '-infinity' becomes a finite date,
-- where a column has DuckDB's infinities.
pub parameter_date_infinities :
    (l : Limits)
    → IsLimits l
    → (parameter_date l.dateval_noend ≡ overflow)
      × (parameter_date l.dateval_nobegin ≡ ok (negsuc 2147472690))
      × (append_date l l.dateval_noend ≡ ok l.date_infinity)
      × (append_date l l.dateval_nobegin ≡ ok l.date_ninfinity)
unfolding parameter_date append_date
parameter_date_infinities l i = (ground arith, ground arith, ground arith, ground arith)
