-- ===== src/Worker.antt =====
-- The MotherDuck sync worker, src/pgduckdb_background_worker.cpp.
pub mod Hints
pub mod Sync
