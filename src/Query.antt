-- ===== src/Query.antt =====
-- The tests on a query of src/pgduckdb_hooks.cpp and check_view_perms_recursive of
-- src/pgduckdb_planner.cpp. A query is a tree; the children that the tree walkers of Postgres visit
-- are the contents of the range table, those of the CTEs and the expressions.
use pg_duckdb.Common.{
  ℕ, Bool, true, false, not, ◌&&◌, ◌||◌, Option, none, some, ◌==◌, if◌then◌else◌,
}
pub mod Reasons

abbrev pub invalid_oid : ℕ
invalid_oid = 0

pub data CommandType : Type 0 where
  select insert update delete other_command : CommandType

-- The fields of a Query that the code reads; resultRelation counts from 1.
pub record QueryInfo : Type 0 where
  pub command_type : CommandType
  pub result_relation : ℕ
  pub has_modifying_cte : Bool
  pub has_returning : Bool

-- The fields of a RangeTblEntry; `permitted` is the answer of the permission check on it, and
-- `has_perminfo` says whether its perminfoindex is not 0.
pub record RteInfo : Type 0 where
  pub relid : ℕ
  pub relkind : ℕ
  pub has_perminfo : Bool
  pub permitted : Bool

-- An entry is a subquery, or holds other nodes, such as the calls of a table function.
mutual
  pub data Query : Type 0 where
    query : QueryInfo → Rtes → Ctes → Nodes → Query

  pub data Rtes : Type 0 where
    no_rtes : Rtes
    subquery : RteInfo → Query → Rtes → Rtes
    entry : RteInfo → Nodes → Rtes → Rtes

  pub data Ctes : Type 0 where
    no_ctes : Ctes
    cte : Query → Ctes → Ctes
    unplanned_cte : Nodes → Ctes → Ctes

  pub data Nodes : Type 0 where
    no_nodes : Nodes
    query_node : Query → Nodes → Nodes
    func_expr aggref : ℕ → Nodes → Nodes → Nodes
    other_node : Nodes → Nodes → Nodes

abbrev pub info : Query → QueryInfo
info (query i rs cs ns) = i

abbrev pub rtable : Query → Rtes
rtable (query i rs cs ns) = rs

-- What Postgres and the metadata cache say of a relation or a function.
pub record Relations : Type 0 where
  pub has_duckdb_am : ℕ → Bool
  pub relkind_of : ℕ → ℕ
  pub namespace_of : ℕ → ℕ
  pub is_duckdb_only_function : ℕ → Bool

-- PG_CATALOG_NAMESPACE and PG_TOAST_NAMESPACE
abbrev pub pg_catalog_namespace : ℕ
pg_catalog_namespace = 11

abbrev pub pg_toast_namespace : ℕ
pg_toast_namespace = 99

-- RELKIND_VIEW, 'v'
abbrev pub view_kind : ℕ
view_kind = 118

unfoldable pub is_catalog_table : Relations → ℕ → Bool
is_catalog_table env relid =
    (env.namespace_of relid == pg_catalog_namespace)
    || (env.namespace_of relid == pg_toast_namespace)

-- IsDuckdbTable of the hooks, and DuckdbTableAmGetName of a relation's OID
unfoldable pub is_duckdb_table : Relations → ℕ → Bool
is_duckdb_table env relid = if relid == invalid_oid then false else env.has_duckdb_am relid

unfoldable mutual
  unfolding is_catalog_table

  pub contains_catalog_table : Relations → Rtes → Bool
  contains_catalog_table env no_rtes = false
  contains_catalog_table env (subquery r q rs) =
      query_contains_catalog_table env q
      || (not (r.relid == invalid_oid) && is_catalog_table env r.relid)
      || contains_catalog_table env rs
  contains_catalog_table env (entry r ns rs) =
      (not (r.relid == invalid_oid) && is_catalog_table env r.relid)
      || contains_catalog_table env rs

  pub query_contains_catalog_table : Relations → Query → Bool
  query_contains_catalog_table env (query i rs cs ns) = contains_catalog_table env rs

unfoldable pub contains_duckdb_tables : Relations → Rtes → Bool
unfolding is_duckdb_table
contains_duckdb_tables env no_rtes = false
contains_duckdb_tables env (subquery r q rs) =
    is_duckdb_table env r.relid || contains_duckdb_tables env rs
contains_duckdb_tables env (entry r ns rs) =
    is_duckdb_table env r.relid || contains_duckdb_tables env rs

-- ContainsDuckdbItems: a member of the block for each kind of child that the walkers visit.
unfoldable mutual
  unfolding contains_duckdb_tables

  pub contains_duckdb_items : Relations → Query → Bool
  contains_duckdb_items env (query i rs cs ns) =
      contains_duckdb_tables env rs
      || (rtes_contain_items env rs || (ctes_contain_items env cs || nodes_contain_items env ns))

  pub rtes_contain_items : Relations → Rtes → Bool
  rtes_contain_items env no_rtes = false
  rtes_contain_items env (subquery r q rs) =
      contains_duckdb_items env q || rtes_contain_items env rs
  rtes_contain_items env (entry r ns rs) = nodes_contain_items env ns || rtes_contain_items env rs

  pub ctes_contain_items : Relations → Ctes → Bool
  ctes_contain_items env no_ctes = false
  ctes_contain_items env (cte q cs) = contains_duckdb_items env q || ctes_contain_items env cs
  ctes_contain_items env (unplanned_cte ns cs) =
      nodes_contain_items env ns || ctes_contain_items env cs

  pub nodes_contain_items : Relations → Nodes → Bool
  nodes_contain_items env no_nodes = false
  nodes_contain_items env (query_node q ns) =
      contains_duckdb_items env q || nodes_contain_items env ns
  nodes_contain_items env (func_expr funcid args ns) =
      env.is_duckdb_only_function funcid
      || (nodes_contain_items env args || nodes_contain_items env ns)
  nodes_contain_items env (aggref aggfnoid args ns) =
      env.is_duckdb_only_function aggfnoid
      || (nodes_contain_items env args || nodes_contain_items env ns)
  nodes_contain_items env (other_node children ns) =
      nodes_contain_items env children || nodes_contain_items env ns

-- The test that ContainsPostgresTable makes on an entry.
unfoldable pub is_postgres_relation : Relations → ℕ → Bool
unfolding is_duckdb_table
is_postgres_relation env relid =
    if relid == invalid_oid
    then false
    else if env.relkind_of relid == view_kind
    then false
    else not (is_duckdb_table env relid)

-- ContainsPostgresTable, in the same way.
unfoldable mutual
  unfolding is_postgres_relation

  pub contains_postgres_table : Relations → Query → Bool
  contains_postgres_table env (query i rs cs ns) =
      any_postgres_relation env rs
      || (rtes_contain_postgres env rs
          || (ctes_contain_postgres env cs || nodes_contain_postgres env ns))

  pub any_postgres_relation : Relations → Rtes → Bool
  any_postgres_relation env no_rtes = false
  any_postgres_relation env (subquery r q rs) =
      is_postgres_relation env r.relid || any_postgres_relation env rs
  any_postgres_relation env (entry r ns rs) =
      is_postgres_relation env r.relid || any_postgres_relation env rs

  pub rtes_contain_postgres : Relations → Rtes → Bool
  rtes_contain_postgres env no_rtes = false
  rtes_contain_postgres env (subquery r q rs) =
      contains_postgres_table env q || rtes_contain_postgres env rs
  rtes_contain_postgres env (entry r ns rs) =
      nodes_contain_postgres env ns || rtes_contain_postgres env rs

  pub ctes_contain_postgres : Relations → Ctes → Bool
  ctes_contain_postgres env no_ctes = false
  ctes_contain_postgres env (cte q cs) =
      contains_postgres_table env q || ctes_contain_postgres env cs
  ctes_contain_postgres env (unplanned_cte ns cs) =
      nodes_contain_postgres env ns || ctes_contain_postgres env cs

  pub nodes_contain_postgres : Relations → Nodes → Bool
  nodes_contain_postgres env no_nodes = false
  nodes_contain_postgres env (query_node q ns) =
      contains_postgres_table env q || nodes_contain_postgres env ns
  nodes_contain_postgres env (func_expr funcid args ns) =
      nodes_contain_postgres env args || nodes_contain_postgres env ns
  nodes_contain_postgres env (aggref aggfnoid args ns) =
      nodes_contain_postgres env args || nodes_contain_postgres env ns
  nodes_contain_postgres env (other_node children ns) =
      nodes_contain_postgres env children || nodes_contain_postgres env ns

-- The check on one entry, as it is from Postgres 16 on.
unfoldable pub view_refused : RteInfo → Bool
view_refused r = r.has_perminfo && (r.relkind == view_kind) && not r.permitted

-- check_view_perms_recursive; `true` where it raises the error.
unfoldable mutual
  unfolding view_refused

  pub views_refused : Query → Bool
  views_refused (query i rs cs ns) = rtes_refused rs || ctes_refused cs

  pub rtes_refused : Rtes → Bool
  rtes_refused no_rtes = false
  rtes_refused (subquery r q rs) = view_refused r || views_refused q || rtes_refused rs
  rtes_refused (entry r ns rs) = view_refused r || rtes_refused rs

  pub ctes_refused : Ctes → Bool
  ctes_refused no_ctes = false
  ctes_refused (cte q cs) = views_refused q || ctes_refused cs
  ctes_refused (unplanned_cte ns cs) = ctes_refused cs
