-- ===== src/Query/Reasons.antt =====
-- What the tests on a query find: the relations and functions of the whole tree, as lists.
use pg_duckdb.Common.{ℕ, ◌≡◌, refl, Bool, false, ◌||◌, List, [], ◌∷◌, ◌++◌, arith}
use pg_duckdb.Query.{
  Query, Rtes, Ctes, Nodes, Relations, query, no_rtes, subquery, entry, no_ctes, cte, unplanned_cte,
  no_nodes, query_node, func_expr, aggref, other_node, is_duckdb_table, is_postgres_relation,
  contains_duckdb_tables, contains_duckdb_items, rtes_contain_items, ctes_contain_items,
  nodes_contain_items, contains_postgres_table, any_postgres_relation, rtes_contain_postgres,
  ctes_contain_postgres, nodes_contain_postgres,
}

unfoldable pub any : (ℕ → Bool) → List ℕ → Bool
any p [] = false
any p (x ∷ xs) = p x || any p xs

any-append : (p : ℕ → Bool) (xs ys : List ℕ) → any p (xs ++ ys) ≡ (any p xs || any p ys)
unfolding any
any-append p [] ys = refl
any-append p (x ∷ xs) ys = ground (arith, any-append p xs ys)

unfoldable pub relids : Rtes → List ℕ
relids no_rtes = []
relids (subquery r q rs) = r.relid ∷ relids rs
relids (entry r ns rs) = r.relid ∷ relids rs

-- The relations of every range table in the tree.
unfoldable mutual
  unfolding relids

  pub relations : Query → List ℕ
  relations (query i rs cs ns) =
      relids rs ++ (rtes_relations rs ++ (ctes_relations cs ++ nodes_relations ns))

  pub rtes_relations : Rtes → List ℕ
  rtes_relations no_rtes = []
  rtes_relations (subquery r q rs) = relations q ++ rtes_relations rs
  rtes_relations (entry r ns rs) = nodes_relations ns ++ rtes_relations rs

  pub ctes_relations : Ctes → List ℕ
  ctes_relations no_ctes = []
  ctes_relations (cte q cs) = relations q ++ ctes_relations cs
  ctes_relations (unplanned_cte ns cs) = nodes_relations ns ++ ctes_relations cs

  pub nodes_relations : Nodes → List ℕ
  nodes_relations no_nodes = []
  nodes_relations (query_node q ns) = relations q ++ nodes_relations ns
  nodes_relations (func_expr o args ns) = nodes_relations args ++ nodes_relations ns
  nodes_relations (aggref o args ns) = nodes_relations args ++ nodes_relations ns
  nodes_relations (other_node children ns) = nodes_relations children ++ nodes_relations ns

-- The functions and aggregates that are called anywhere in the tree.
unfoldable mutual
  pub functions : Query → List ℕ
  functions (query i rs cs ns) = rtes_functions rs ++ (ctes_functions cs ++ nodes_functions ns)

  pub rtes_functions : Rtes → List ℕ
  rtes_functions no_rtes = []
  rtes_functions (subquery r q rs) = functions q ++ rtes_functions rs
  rtes_functions (entry r ns rs) = nodes_functions ns ++ rtes_functions rs

  pub ctes_functions : Ctes → List ℕ
  ctes_functions no_ctes = []
  ctes_functions (cte q cs) = functions q ++ ctes_functions cs
  ctes_functions (unplanned_cte ns cs) = nodes_functions ns ++ ctes_functions cs

  pub nodes_functions : Nodes → List ℕ
  nodes_functions no_nodes = []
  nodes_functions (query_node q ns) = functions q ++ nodes_functions ns
  nodes_functions (func_expr o args ns) = o ∷ (nodes_functions args ++ nodes_functions ns)
  nodes_functions (aggref o args ns) = o ∷ (nodes_functions args ++ nodes_functions ns)
  nodes_functions (other_node children ns) = nodes_functions children ++ nodes_functions ns

module _ (env : Relations) where
  tables-any : (rs : Rtes) → contains_duckdb_tables env rs ≡ any (is_duckdb_table env) (relids rs)
  unfolding contains_duckdb_tables any relids
  tables-any no_rtes = refl
  tables-any (subquery r q rs) = ground (arith, tables-any rs)
  tables-any (entry r ns rs) = ground (arith, tables-any rs)

  postgres-any :
      (rs : Rtes) → any_postgres_relation env rs ≡ any (is_postgres_relation env) (relids rs)
  unfolding contains_postgres_table any relids
  postgres-any no_rtes = refl
  postgres-any (subquery r q rs) = ground (arith, postgres-any rs)
  postgres-any (entry r ns rs) = ground (arith, postgres-any rs)

  -- A test's answer at a piece of the tree, and the lists that it comes from.
  record Items (a : Bool) (rels funs : List ℕ) : Type 0 where
    found : a ≡ (any (is_duckdb_table env) rels || any env.is_duckdb_only_function funs)

  record Postgres (a : Bool) (rels : List ℕ) : Type 0 where
    found : a ≡ any (is_postgres_relation env) rels

  both :
      {a b : Bool} {rels rels' funs funs' : List ℕ}
      → Items a rels funs
      → Items b rels' funs'
      → Items (a || b) (rels ++ rels') (funs ++ funs')
  both {rels = rels} {rels' = rels'} {funs = funs} {funs' = funs'} h k = record {
    found =
        rw
          (
            h.found,
            k.found,
            any-append (is_duckdb_table env) rels rels',
            any-append env.is_duckdb_only_function funs funs',
          )
          (ground arith);
  }

  called :
      {a : Bool} (o : ℕ) {rels funs : List ℕ}
      → Items a rels funs
      → Items (env.is_duckdb_only_function o || a) rels (o ∷ funs)
  unfolding any
  called o h = ground arith

  with_tables :
      {a : Bool} {rels funs : List ℕ} (rs : Rtes)
      → Items a rels funs
      → Items (contains_duckdb_tables env rs || a) (relids rs ++ rels) funs
  with_tables {rels = rels} rs h = record {
    found =
        rw (h.found, tables-any rs, any-append (is_duckdb_table env) (relids rs) rels)
          (ground arith);
  }

  mutual
    unfolding contains_duckdb_items relations functions any

    query-Items : (q : Query) → Items (contains_duckdb_items env q) (relations q) (functions q)
    query-Items (query i rs cs ns) =
        with_tables rs (both (rtes-Items rs) (both (ctes-Items cs) (nodes-Items ns)))

    rtes-Items :
        (rs : Rtes) → Items (rtes_contain_items env rs) (rtes_relations rs) (rtes_functions rs)
    rtes-Items no_rtes = record { found = refl }
    rtes-Items (subquery r q rs) = both (query-Items q) (rtes-Items rs)
    rtes-Items (entry r ns rs) = both (nodes-Items ns) (rtes-Items rs)

    ctes-Items :
        (cs : Ctes) → Items (ctes_contain_items env cs) (ctes_relations cs) (ctes_functions cs)
    ctes-Items no_ctes = record { found = refl }
    ctes-Items (cte q cs) = both (query-Items q) (ctes-Items cs)
    ctes-Items (unplanned_cte ns cs) = both (nodes-Items ns) (ctes-Items cs)

    nodes-Items :
        (ns : Nodes) → Items (nodes_contain_items env ns) (nodes_relations ns) (nodes_functions ns)
    nodes-Items no_nodes = record { found = refl }
    nodes-Items (query_node q ns) = both (query-Items q) (nodes-Items ns)
    nodes-Items (func_expr o args ns) = called o (both (nodes-Items args) (nodes-Items ns))
    nodes-Items (aggref o args ns) = called o (both (nodes-Items args) (nodes-Items ns))
    nodes-Items (other_node children ns) = both (nodes-Items children) (nodes-Items ns)

  joined :
      {a b : Bool} {rels rels' : List ℕ}
      → Postgres a rels
      → Postgres b rels'
      → Postgres (a || b) (rels ++ rels')
  joined {rels = rels} {rels' = rels'} h k = record {
    found = rw (h.found, k.found, any-append (is_postgres_relation env) rels rels') refl;
  }

  tables-Postgres : (rs : Rtes) → Postgres (any_postgres_relation env rs) (relids rs)
  tables-Postgres rs = record { found = postgres-any rs }

  mutual
    unfolding contains_postgres_table relations any

    query-Postgres : (q : Query) → Postgres (contains_postgres_table env q) (relations q)
    query-Postgres (query i rs cs ns) =
        joined (tables-Postgres rs)
          (joined (rtes-Postgres rs) (joined (ctes-Postgres cs) (nodes-Postgres ns)))

    rtes-Postgres : (rs : Rtes) → Postgres (rtes_contain_postgres env rs) (rtes_relations rs)
    rtes-Postgres no_rtes = record { found = refl }
    rtes-Postgres (subquery r q rs) = joined (query-Postgres q) (rtes-Postgres rs)
    rtes-Postgres (entry r ns rs) = joined (nodes-Postgres ns) (rtes-Postgres rs)

    ctes-Postgres : (cs : Ctes) → Postgres (ctes_contain_postgres env cs) (ctes_relations cs)
    ctes-Postgres no_ctes = record { found = refl }
    ctes-Postgres (cte q cs) = joined (query-Postgres q) (ctes-Postgres cs)
    ctes-Postgres (unplanned_cte ns cs) = joined (nodes-Postgres ns) (ctes-Postgres cs)

    nodes-Postgres : (ns : Nodes) → Postgres (nodes_contain_postgres env ns) (nodes_relations ns)
    nodes-Postgres no_nodes = record { found = refl }
    nodes-Postgres (query_node q ns) = joined (query-Postgres q) (nodes-Postgres ns)
    nodes-Postgres (func_expr o args ns) = joined (nodes-Postgres args) (nodes-Postgres ns)
    nodes-Postgres (aggref o args ns) = joined (nodes-Postgres args) (nodes-Postgres ns)
    nodes-Postgres (other_node children ns) = joined (nodes-Postgres children) (nodes-Postgres ns)

-- The tests on a query come down to the relations and functions of its whole tree, subqueries, CTEs
-- and sublinks included: it has DuckDB items exactly if one of the relations is of a DuckDB access
-- method or the function of a FuncExpr or the aggregate of an Aggref is only DuckDB's (that of a
-- WindowFunc or of any other node does not count), and a Postgres table exactly if one of the
-- relations, views aside, is not of a DuckDB access method.
pub contains-any :
    (env : Relations) (q : Query)
    → (contains_duckdb_items env q ≡ (
        any (is_duckdb_table env) (relations q) || any env.is_duckdb_only_function (functions q)))
      × (contains_postgres_table env q ≡ any (is_postgres_relation env) (relations q))
contains-any env q = ((query-Items env q).found, (query-Postgres env q).found)
