-- ===== src/Arrays/Shapes.antt =====
-- `convert_duck_to_postgres_array` on rectangular lists.
