-- ===== src/Types/Typmod.antt =====
-- Typmods of DECIMAL columns.
use pg_duckdb.Common.{ℕ, ◌≤◌, ◌<◌, ◌≡◌, Bool, arith}
use pg_duckdb.Common.Int.{pos}
use pg_duckdb.Types.{
  make_numeric_typmod, numeric_typmod_precision, numeric_typmod_scale, convert_numeric_type,
  decimal,
}
use pg_duckdb.Types.Oids.{get_postgres_typemod}

-- The two readers take a typmod apart that `make_numeric_typmod` has built.
pub typmod_fields :
    (p s : ℕ)
    → p < 32768
    → s < 1024
    → (numeric_typmod_precision (pos (make_numeric_typmod p s)) ≡ p)
      × (numeric_typmod_scale (pos (make_numeric_typmod p s)) ≡ pos s)
unfolding make_numeric_typmod numeric_typmod_precision numeric_typmod_scale
typmod_fields p s hp hs = (omega arith, ground arith)

-- A DECIMAL type that DuckDB has (1 to 38 digits, a scale within them) is given a typmod that maps
-- back to the same DECIMAL type, whatever the setting.
pub convert_numeric_type-get_postgres_typemod :
    (as_double : Bool) (width scale : ℕ)
    → 1 ≤ width
    → width ≤ 38
    → scale ≤ width
    → convert_numeric_type as_double (get_postgres_typemod (decimal width scale))
      ≡ decimal width scale
unfolding convert_numeric_type get_postgres_typemod
convert_numeric_type-get_postgres_typemod as_double w s a b c = ground (arith, typmod_fields w s)
