-- ===== src/Metadata/Functions.antt =====
-- The list of the functions that only DuckDB executes.
use Prim.Native.String.{String}
use pg_duckdb.Common.{ℕ, ◌≡◌, refl, ◌∙◌, Bool, false, ◌&&◌, ◌||◌, List, [], ◌∷◌, ◌++◌, ◌==◌, arith}
use pg_duckdb.Metadata.{Catalog, contains_oid, members, build_duckdb_only_functions, function_names}

-- Does one of the names have a function of this OID?
abbrev pub is_named : Catalog → ℕ → List String → Bool
is_named pg o [] = false
is_named pg o (name ∷ names) = contains_oid o (pg.functions_named name) || is_named pg o names

-- Is it a function of the extension under one of the names?
abbrev pub is_ours : Catalog → ℕ → Bool
is_ours pg o = (pg.extension_of o == pg.extension_oid) && is_named pg o function_names

contains-append :
    (o : ℕ) (ps qs : List ℕ) → contains_oid o (ps ++ qs) ≡ (contains_oid o ps || contains_oid o qs)
contains-append o [] qs = refl
contains-append o (p ∷ ps) qs = ground (arith, contains-append o ps qs)

contains-members :
    (pg : Catalog) (e o : ℕ) (ps : List ℕ)
    → contains_oid o (members pg e ps) ≡ ((pg.extension_of o == e) && contains_oid o ps)
unfolding members
contains-members pg e o [] = ground arith
contains-members pg e o (p ∷ ps) = ground (arith, contains-members pg e o ps)

pub contains-build :
    (pg : Catalog) (e o : ℕ) (names : List String)
    → contains_oid o (build_duckdb_only_functions pg e names)
      ≡ ((pg.extension_of o == e) && is_named pg o names)
unfolding build_duckdb_only_functions
contains-build pg e o [] = ground arith
contains-build pg e o (name ∷ names) =
    contains-append o (members pg e (pg.functions_named name))
      (build_duckdb_only_functions pg e names)
    ∙ rw (contains-members pg e o (pg.functions_named name), contains-build pg e o names)
        (ground arith)
