-- ===== src/Examples/Lists.antt =====
-- Nested lists as arrays.
use pg_duckdb.Common.{ℕ, none, some, [], ◌∷◌}
use pg_duckdb.Arrays.{Children}

-- [[1, NULL], [3, 4]]
abbrev square : Children ℕ 1
square = some (some 1 ∷ none ∷ []) ∷ some (some 3 ∷ some 4 ∷ []) ∷ []
