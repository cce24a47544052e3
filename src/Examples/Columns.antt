-- ===== src/Examples/Columns.antt =====
-- The type maps at concrete types and columns.
use pg_duckdb.Common.{false, some}
use pg_duckdb.Types.{int4_oid, int4_array}
use pg_duckdb.Types.Columns.{Catalog}

-- A column of type integer[][].
abbrev catalog : Catalog
catalog = record {
  is_domain = λ o. false;
  base_type = λ o. o;
  base_typmod = λ o typmod. typmod;
  element_type = λ o. some int4_oid;
  base_element_type = λ o. some int4_oid;
  array_type = λ o. int4_array;
}
