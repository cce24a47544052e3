-- ===== src/Types/Columns.antt =====
-- From a Postgres column to a DuckDB type: `ConvertPostgresToBaseDuckColumnType`,
-- `ConvertPostgresToDuckColumnType`, and the helpers of src/pg/types.cpp. The system catalog is a
-- parameter.
use pg_duckdb.Common.{
  ℕ, zero, suc, Bool, true, false, not, ◌&&◌, Option, none, some, ◌==◌, if◌then◌else◌,
}
use pg_duckdb.Common.Int.{ℤ}
use pg_duckdb.Types.{
  bool_oid, char_oid, int2_oid, int4_oid, int8_oid, bpchar_oid, text_oid, varchar_oid, date_oid,
  timestamp_oid, timestamptz_oid, interval_oid, bit_oid, varbit_oid, time_oid, timetz_oid,
  float4_oid, float8_oid, numeric_oid, uuid_oid, json_oid, jsonb_oid, regclass_oid, bytea_oid,
  bool_array, char_array, int2_array, int4_array, int8_array, bpchar_array, text_array,
  varchar_array, date_array, timestamp_array, interval_array, bit_array, varbit_array, time_array,
  timetz_array, float4_array, float8_array, numeric_array, uuid_array, json_array, jsonb_array,
  regclass_array, bytea_array, duckdb_struct, duckdb_union, duckdb_map, duckdb_struct_array,
  duckdb_union_array, duckdb_map_array, unknown_oid, boolean, tinyint, smallint, integer, bigint,
  uinteger, varchar, date, timestamp, timestamp_tz, interval, bit, time, time_tz, float, double,
  uuid, blob, struct, union_type, map_type, list, invalid, convert_numeric_type, Oid, LogicalType,
}

-- The catalog lookups that the code calls; `none` is InvalidOid.
pub record Catalog : Type 0 where
  pub is_domain : Oid → Bool
  pub base_type : Oid → Oid
  pub base_typmod : Oid → ℤ → ℤ
  pub element_type : Oid → Option Oid
  pub base_element_type : Oid → Option Oid
  pub array_type : Oid → Oid

pub record Attribute : Type 0 where
  pub atttypid : Oid
  pub atttypmod : ℤ
  pub attndims : ℕ

abbrev is_some : Option Oid → Bool
is_some none = false
is_some (some o) = true

-- get_element_type(type_oid) != InvalidOid
unfoldable pub is_array_type : Catalog → Oid → Bool
is_array_type c o = is_some (c.element_type o)

unfoldable pub is_array_domain_type : Catalog → Oid → Bool
is_array_domain_type c o = if c.is_domain o then is_some (c.base_element_type o) else false

abbrev array_of_base : Catalog → Oid → Option Oid → Oid
array_of_base c o none = o
array_of_base c o (some element) =
    if c.is_domain element then c.array_type (c.base_type element) else o

unfoldable pub get_base_type_and_typmod : Catalog → Oid → ℤ → Oid × ℤ
unfolding is_array_type
get_base_type_and_typmod c o typmod =
    if c.is_domain o
    then (c.base_type o, c.base_typmod o typmod)
    else if is_array_type c o
    then (array_of_base c o (c.base_element_type o), typmod)
    else (o, typmod)

-- The switch, once the domain has been resolved.
unfoldable pub convert_base_oid : Bool → Oid → ℤ → LogicalType
unfolding convert_numeric_type
convert_base_oid as_double bool_oid typmod = boolean
convert_base_oid as_double bool_array typmod = boolean
convert_base_oid as_double char_oid typmod = tinyint
convert_base_oid as_double char_array typmod = tinyint
convert_base_oid as_double int2_oid typmod = smallint
convert_base_oid as_double int2_array typmod = smallint
convert_base_oid as_double int4_oid typmod = integer
convert_base_oid as_double int4_array typmod = integer
convert_base_oid as_double int8_oid typmod = bigint
convert_base_oid as_double int8_array typmod = bigint
convert_base_oid as_double bpchar_oid typmod = varchar false
convert_base_oid as_double bpchar_array typmod = varchar false
convert_base_oid as_double text_oid typmod = varchar false
convert_base_oid as_double text_array typmod = varchar false
convert_base_oid as_double varchar_oid typmod = varchar false
convert_base_oid as_double varchar_array typmod = varchar false
convert_base_oid as_double date_oid typmod = date
convert_base_oid as_double date_array typmod = date
convert_base_oid as_double timestamp_oid typmod = timestamp
convert_base_oid as_double timestamp_array typmod = timestamp
convert_base_oid as_double timestamptz_oid typmod = timestamp_tz
convert_base_oid as_double interval_oid typmod = interval
convert_base_oid as_double interval_array typmod = interval
convert_base_oid as_double bit_oid typmod = bit
convert_base_oid as_double bit_array typmod = bit
convert_base_oid as_double varbit_oid typmod = bit
convert_base_oid as_double varbit_array typmod = bit
convert_base_oid as_double time_oid typmod = time
convert_base_oid as_double time_array typmod = time
convert_base_oid as_double timetz_oid typmod = time_tz
convert_base_oid as_double timetz_array typmod = time_tz
convert_base_oid as_double float4_oid typmod = float
convert_base_oid as_double float4_array typmod = float
convert_base_oid as_double float8_oid typmod = double
convert_base_oid as_double float8_array typmod = double
convert_base_oid as_double numeric_oid typmod = convert_numeric_type as_double typmod
convert_base_oid as_double numeric_array typmod = convert_numeric_type as_double typmod
convert_base_oid as_double uuid_oid typmod = uuid
convert_base_oid as_double uuid_array typmod = uuid
convert_base_oid as_double json_oid typmod = varchar true
convert_base_oid as_double json_array typmod = varchar true
convert_base_oid as_double jsonb_oid typmod = varchar true
convert_base_oid as_double jsonb_array typmod = varchar true
convert_base_oid as_double regclass_oid typmod = uinteger
convert_base_oid as_double regclass_array typmod = uinteger
convert_base_oid as_double bytea_oid typmod = blob
convert_base_oid as_double bytea_array typmod = blob
convert_base_oid as_double duckdb_union typmod = union_type
convert_base_oid as_double duckdb_struct typmod = struct
convert_base_oid as_double duckdb_map typmod = map_type
convert_base_oid as_double duckdb_union_array typmod = union_type
convert_base_oid as_double duckdb_struct_array typmod = struct
convert_base_oid as_double duckdb_map_array typmod = map_type
convert_base_oid as_double _ typmod = invalid unknown_oid

unfoldable pub convert_base : Catalog → Bool → Attribute → LogicalType
convert_base c as_double a =
    let (o, typmod) = get_base_type_and_typmod c a.atttypid a.atttypmod in
    convert_base_oid as_double o typmod

-- for (int i = 0; i < dimensions; i++) base_type = LIST(base_type)
unfoldable pub nest : ℕ → LogicalType → LogicalType
nest zero t = t
nest (suc n) t = nest n (list t)

abbrev pub is_invalid : LogicalType → Bool
is_invalid (invalid e) = true
is_invalid _ = false

-- attndims, or 1 where it is 0
abbrev pub column_dimensions : Attribute → ℕ
column_dimensions a = if a.attndims == 0 then 1 else a.attndims

unfoldable pub convert_column : Catalog → Bool → Attribute → LogicalType
convert_column c as_double a =
    let base = convert_base c as_double a in
    if is_invalid base
    then base
    else if not (is_array_type c a.atttypid) && not (is_array_domain_type c a.atttypid)
    then base
    else nest (column_dimensions a) base
