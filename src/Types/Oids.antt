-- ===== src/Types/Oids.antt =====
-- From a DuckDB type to a Postgres type, and the conversions that exist for either: the functions
-- `GetPostgresArrayDuckDBType`, `GetPostgresDuckDBType`, `GetDuckDBListDimensionality`,
-- `GetPostgresDuckDBTypemod`, and the switches of `ConvertDuckToPostgresValue` and
-- `ConvertPostgresToDuckValue`.
use pg_duckdb.Common.{ℕ, ◌+◌, Bool, true, false, Option, none, some, if◌then◌else◌}
use pg_duckdb.Common.Int.{ℤ, pos}
use pg_duckdb.Types.{
  bool_oid, char_oid, int2_oid, int4_oid, int8_oid, bpchar_oid, text_oid, varchar_oid, date_oid,
  timestamp_oid, timestamptz_oid, interval_oid, bit_oid, varbit_oid, time_oid, timetz_oid,
  float4_oid, float8_oid, numeric_oid, uuid_oid, json_oid, bytea_oid, bool_array, char_array,
  int2_array, int4_array, int8_array, bpchar_array, text_array, varchar_array, date_array,
  timestamp_array, timestamptz_array, interval_array, bit_array, varbit_array, time_array,
  timetz_array, float4_array, float8_array, numeric_array, uuid_array, json_array, bytea_array,
  duckdb_struct, duckdb_union, duckdb_map, duckdb_struct_array, duckdb_union_array,
  duckdb_map_array, boolean, tinyint, smallint, integer, bigint, hugeint, utinyint, usmallint,
  uinteger, ubigint, uhugeint, varchar, geometry, date, timestamp, timestamp_sec, timestamp_ms,
  timestamp_ns, timestamp_tz, interval, bit, time, time_tz, float, double, double_from_numeric,
  decimal, uuid, blob, bignum, struct, union_type, map_type, enum, list, array, invalid, unlisted,
  make_numeric_typmod, Oid, LogicalType, no_typmod,
}

unfoldable pub get_postgres_array_type : LogicalType → Option Oid
get_postgres_array_type boolean = some bool_array
get_postgres_array_type tinyint = some int2_array
get_postgres_array_type smallint = some int2_array
get_postgres_array_type integer = some int4_array
get_postgres_array_type bigint = some int8_array
get_postgres_array_type hugeint = some numeric_array
get_postgres_array_type utinyint = some int2_array
get_postgres_array_type usmallint = some int4_array
get_postgres_array_type uinteger = some int8_array
get_postgres_array_type (varchar json) = some (if json then json_array else text_array)
get_postgres_array_type geometry = some text_array
get_postgres_array_type date = some date_array
get_postgres_array_type timestamp = some timestamp_array
get_postgres_array_type timestamp_tz = some timestamptz_array
get_postgres_array_type interval = some interval_array
get_postgres_array_type bit = some varbit_array
get_postgres_array_type time = some time_array
get_postgres_array_type time_tz = some timetz_array
get_postgres_array_type float = some float4_array
get_postgres_array_type double = some float8_array
get_postgres_array_type double_from_numeric = some float8_array
get_postgres_array_type (decimal width scale) = some numeric_array
get_postgres_array_type uuid = some uuid_array
get_postgres_array_type blob = some bytea_array
get_postgres_array_type bignum = some numeric_array
get_postgres_array_type struct = some duckdb_struct_array
get_postgres_array_type union_type = some duckdb_union_array
get_postgres_array_type map_type = some duckdb_map_array
get_postgres_array_type _ = none

abbrev pub is_nested : LogicalType → Bool
is_nested (list t) = true
is_nested (array t) = true
is_nested _ = false

-- while (IsNestedType(duck_type->id())) duck_type = &GetChildType(*duck_type)
unfoldable pub innermost : LogicalType → LogicalType
innermost (list t) = innermost t
innermost (array t) = innermost t
innermost t = t

-- CheckForUnsupportedPostgresType throws at `invalid`.
unfoldable pub get_postgres_type : LogicalType → Option Oid
unfolding get_postgres_array_type innermost
get_postgres_type boolean = some bool_oid
get_postgres_type tinyint = some int2_oid
get_postgres_type smallint = some int2_oid
get_postgres_type integer = some int4_oid
get_postgres_type bigint = some int8_oid
get_postgres_type ubigint = some numeric_oid
get_postgres_type hugeint = some numeric_oid
get_postgres_type uhugeint = some numeric_oid
get_postgres_type utinyint = some int2_oid
get_postgres_type usmallint = some int4_oid
get_postgres_type uinteger = some int8_oid
get_postgres_type (varchar json) = some (if json then json_oid else text_oid)
get_postgres_type geometry = some text_oid
get_postgres_type date = some date_oid
get_postgres_type timestamp = some timestamp_oid
get_postgres_type timestamp_sec = some timestamp_oid
get_postgres_type timestamp_ms = some timestamp_oid
get_postgres_type timestamp_ns = some timestamp_oid
get_postgres_type timestamp_tz = some timestamptz_oid
get_postgres_type interval = some interval_oid
get_postgres_type bit = some varbit_oid
get_postgres_type time = some time_oid
get_postgres_type time_tz = some timetz_oid
get_postgres_type float = some float4_oid
get_postgres_type double = some float8_oid
get_postgres_type double_from_numeric = some float8_oid
get_postgres_type (decimal width scale) = some numeric_oid
get_postgres_type uuid = some uuid_oid
get_postgres_type bignum = some numeric_oid
get_postgres_type struct = some duckdb_struct
get_postgres_type (list t) = get_postgres_array_type (innermost t)
get_postgres_type (array t) = get_postgres_array_type (innermost t)
get_postgres_type blob = some bytea_oid
get_postgres_type union_type = some duckdb_union
get_postgres_type map_type = some duckdb_map
get_postgres_type enum = some varchar_oid
get_postgres_type (invalid e) = none
get_postgres_type (unlisted n) = none

unfoldable pub get_postgres_typemod : LogicalType → ℤ
unfolding make_numeric_typmod
get_postgres_typemod (decimal width scale) = pos (make_numeric_typmod width scale)
get_postgres_typemod _ = no_typmod

-- The depth counts up from the caller's; the child of a LIST or ARRAY decides. The last clause is
-- the assertion's case: callers pass a nested type.
unfoldable pub list_dimensionality : LogicalType → ℕ → ℕ
list_dimensionality (list t) depth =
    let deeper = list_dimensionality t (depth + 1) in if is_nested t then deeper else depth + 1
list_dimensionality (array t) depth =
    let deeper = list_dimensionality t (depth + 1) in if is_nested t then deeper else depth + 1
list_dimensionality t depth = depth

-- The `Convert…Datum` functions.
pub data Writer : Type 0 where
  varbit_datum bool_datum char_datum int2_datum int4_datum int8_datum string_datum : Writer
  date_datum timestamp_datum timestamptz_datum interval_datum time_datum timetz_datum : Writer
  float_datum double_datum numeric_datum uuid_datum binary_datum : Writer
  struct_datum union_datum map_datum : Writer

pub data Target : Type 0 where
  scalar elements : Writer → Target

-- ConvertDuckToPostgresValue: which conversion an attribute's OID selects; `none` returns false.
unfoldable pub write_target : Oid → Option Target
write_target bit_oid = some (scalar varbit_datum)
write_target varbit_oid = some (scalar varbit_datum)
write_target bool_oid = some (scalar bool_datum)
write_target char_oid = some (scalar char_datum)
write_target int2_oid = some (scalar int2_datum)
write_target int4_oid = some (scalar int4_datum)
write_target int8_oid = some (scalar int8_datum)
write_target bpchar_oid = some (scalar string_datum)
write_target text_oid = some (scalar string_datum)
write_target json_oid = some (scalar string_datum)
write_target varchar_oid = some (scalar string_datum)
write_target date_oid = some (scalar date_datum)
write_target timestamp_oid = some (scalar timestamp_datum)
write_target timestamptz_oid = some (scalar timestamptz_datum)
write_target interval_oid = some (scalar interval_datum)
write_target time_oid = some (scalar time_datum)
write_target timetz_oid = some (scalar timetz_datum)
write_target float4_oid = some (scalar float_datum)
write_target float8_oid = some (scalar double_datum)
write_target numeric_oid = some (scalar numeric_datum)
write_target uuid_oid = some (scalar uuid_datum)
write_target bytea_oid = some (scalar binary_datum)
write_target bool_array = some (elements bool_datum)
write_target char_array = some (elements char_datum)
write_target int2_array = some (elements int2_datum)
write_target int4_array = some (elements int4_datum)
write_target int8_array = some (elements int8_datum)
write_target bpchar_array = some (elements string_datum)
write_target text_array = some (elements string_datum)
write_target json_array = some (elements string_datum)
write_target varchar_array = some (elements string_datum)
write_target date_array = some (elements date_datum)
write_target timestamp_array = some (elements timestamp_datum)
write_target timestamptz_array = some (elements timestamptz_datum)
write_target interval_array = some (elements interval_datum)
write_target bit_array = some (elements varbit_datum)
write_target varbit_array = some (elements varbit_datum)
write_target time_array = some (elements time_datum)
write_target timetz_array = some (elements timetz_datum)
write_target float4_array = some (elements float_datum)
write_target float8_array = some (elements double_datum)
write_target numeric_array = some (elements numeric_datum)
write_target uuid_array = some (elements uuid_datum)
write_target bytea_array = some (elements binary_datum)
write_target duckdb_struct = some (scalar struct_datum)
write_target duckdb_union = some (scalar union_datum)
write_target duckdb_map = some (scalar map_datum)
write_target duckdb_struct_array = some (elements struct_datum)
write_target duckdb_union_array = some (elements union_datum)
write_target duckdb_map_array = some (elements map_datum)
write_target _ = none

-- ConvertPostgresToDuckValue: has the type of the result vector a case?
unfoldable pub can_read : LogicalType → Bool
can_read boolean = true
can_read tinyint = true
can_read smallint = true
can_read integer = true
can_read uinteger = true
can_read bigint = true
can_read (varchar json) = true
can_read date = true
can_read timestamp_sec = true
can_read timestamp_ms = true
can_read timestamp_ns = true
can_read timestamp = true
can_read timestamp_tz = true
can_read interval = true
can_read bit = true
can_read time = true
can_read time_tz = true
can_read float = true
can_read double = true
can_read double_from_numeric = true
can_read (decimal width scale) = true
can_read uuid = true
can_read blob = true
can_read (list t) = true
can_read _ = false
