-- ===== src/Types.antt =====
-- The type maps of src/pgduckdb_types.cpp. A type OID is a constructor for each OID that the
-- switches name, with those of the extension's own types, which are looked up at run time, and
-- `other` for every remaining one. `none` is an exception or `InvalidOid`; which of the two depends
-- on the caller's `throw_error`.
use pg_duckdb.Common.{
  ℕ, zero, suc, ◌+◌, ◌-◌, ◌*◌, ◌/◌, ◌%◌, Bool, true, false, ◌&&◌, ◌||◌, Option, none, some, ltb,
  ◌==◌, if◌then◌else◌,
}
use pg_duckdb.Common.Int.{ℤ, pos, negsuc, pos_part, ltb_ℤ, eqb_ℤ, sub_ℕ}
pub mod Typmod
pub mod Agree
pub mod Oids
pub mod Columns

pub data Oid : Type 0 where
  bool_oid char_oid int2_oid int4_oid int8_oid bpchar_oid text_oid varchar_oid date_oid : Oid
  timestamp_oid timestamptz_oid interval_oid bit_oid varbit_oid time_oid timetz_oid : Oid
  float4_oid float8_oid numeric_oid uuid_oid json_oid jsonb_oid regclass_oid bytea_oid : Oid
  bool_array char_array int2_array int4_array int8_array bpchar_array text_array : Oid
  varchar_array date_array timestamp_array timestamptz_array interval_array bit_array : Oid
  varbit_array time_array timetz_array float4_array float8_array numeric_array : Oid
  uuid_array json_array jsonb_array regclass_array bytea_array : Oid
  -- what DuckdbStructOid, DuckdbUnionOid and DuckdbMapOid give, and those of their arrays: OIDs of the
  -- metadata cache, of which the callers test whether they are valid
  duckdb_struct duckdb_union duckdb_map : Oid
  duckdb_struct_array duckdb_union_array duckdb_map_array : Oid
  other : ℕ → Oid

-- The four texts of the NUMERIC error, and that of an unknown OID.
pub data Unsupported : Type 0 where
  no_precision bad_precision bad_scale scale_over_precision unknown_oid : Unsupported

-- duckdb::LogicalType, as far as the code tells types apart. `double_from_numeric` is DOUBLE with the
-- extra info `NumericAsDouble`, `varchar json` is VARCHAR with its JSON flag, `invalid` is the type
-- that CreateUnsupportedPostgresType makes, and `unlisted` is any id that no switch names.
pub data LogicalType : Type 0 where
  boolean tinyint smallint integer bigint hugeint utinyint usmallint uinteger : LogicalType
  ubigint uhugeint : LogicalType
  varchar : Bool → LogicalType
  geometry date timestamp timestamp_sec timestamp_ms timestamp_ns timestamp_tz : LogicalType
  interval bit time time_tz float double double_from_numeric : LogicalType
  decimal : ℕ → ℕ → LogicalType
  uuid blob bignum struct union_type map_type enum : LogicalType
  list array : LogicalType → LogicalType
  invalid : Unsupported → LogicalType
  unlisted : ℕ → LogicalType

-- make_numeric_typmod: the `|` joins disjoint bits.
unfoldable pub make_numeric_typmod : ℕ → ℕ → ℕ
make_numeric_typmod precision scale = precision * 65536 + scale % 2048 + 4

-- typmod - VARHDRSZ as the 32 bits of an int32.
abbrev pub typmod_bits : ℤ → ℕ
typmod_bits (pos n) = (n + 4294967296 - 4) % 4294967296
typmod_bits (negsuc n) = 4294967296 - 4 - 1 - n

pub numeric_typmod_precision : ℤ → ℕ
numeric_typmod_precision typmod = typmod_bits typmod / 65536

-- ((bits & 0x7ff) ^ 1024) - 1024: an eleven-bit signed number.
pub numeric_typmod_scale : ℤ → ℤ
numeric_typmod_scale typmod =
    let low = typmod_bits typmod % 2048 in if ltb low 1024 then pos low else sub_ℕ low 2048

abbrev pub no_typmod : ℤ
no_typmod = negsuc 0

-- The NUMERICOID case; past the test `scale` is not negative. `as_double` is duckdb.convert_unsupported_numeric_to_double.
unfoldable pub convert_numeric_type : Bool → ℤ → LogicalType
unfolding numeric_typmod_precision numeric_typmod_scale
convert_numeric_type as_double typmod =
    let precision = numeric_typmod_precision typmod in
    let scale = numeric_typmod_scale typmod in
    if eqb_ℤ typmod no_typmod
      || ltb precision 1
      || ltb 38 precision
      || ltb_ℤ scale (pos 0)
      || ltb_ℤ (pos 38) scale
      || ltb_ℤ (pos precision) scale
    then (if as_double
        then double_from_numeric
        else if eqb_ℤ typmod no_typmod
        then invalid no_precision
        else if ltb precision 1 || ltb 38 precision
        then invalid bad_precision
        else if ltb_ℤ scale (pos 0) || ltb_ℤ (pos 38) scale
        then invalid bad_scale
        else invalid scale_over_precision)
    else decimal precision (pos_part scale)
