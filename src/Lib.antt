-- ===== src/Lib.antt =====
-- pg_duckdb, the Postgres extension that runs DuckDB inside a Postgres backend: a model of its core and
-- what is proved of it.
--
-- The extension converts types and values between the two systems, ties DuckDB's transactions to those
-- of Postgres, and keeps shell tables in step with a MotherDuck account from a background worker. The
-- parts, with the files that model them:
--
--   src/pgduckdb_types.cpp, numbers            Numeric       ConvertNumeric, ConvertDecimal
--   src/pgduckdb_types.cpp, dates and UUIDs    Temporal      Convert...Datum, Append..., DatumGetUUID
--   src/pgduckdb_types.cpp, src/pg/types.cpp   Types         typmods, OID and LogicalType both ways
--   src/pgduckdb_types.cpp, arrays             Arrays        PostgresArrayAppendState
--   src/pgduckdb_types.cpp, tuples             Chunks        InsertTupleIntoChunk, a batch of them
--   src/pgduckdb_xact.cpp, GetConnection       Xact          mixed writes, temporary tables, callbacks
--   src/pgduckdb_background_worker.cpp         Worker        session hint, sync commands, sync loop
--   src/pgduckdb_detoast.cpp                   Detoast       DetoastPostgresDatum and its helpers
--   src/pgduckdb_userdata_cache.cpp            UserData      the cache of server, role and mapping
--   src/pgduckdb_metadata_cache.cpp            Metadata      the cache of the extension's OIDs
--   src/pgduckdb_hooks.cpp                     Query, Hooks  the tests on a query, planner and executor
--   src/pgduckdb_planner.cpp                   Query, Hooks  views' permissions, CreatePlan
--   src/pgduckdb_ddl.cpp                       Ddl           utility hook and event triggers
--   src/pgduckdb_ruleutils.cpp                 Ruleutils     names, texts of DDL and operators
--   src/utility/copy.cpp                       Copy          COPY through DuckDB
--   src/pgduckdb_node.cpp                      Node          the custom scan node
--   src/scan/postgres_scan.cpp                 Scan          pushed-down conditions, batches, local states
--   src/scan/postgres_table_reader.cpp         Scan/Readers  the tuple queues of the workers
--
-- A function of the source has the same name in snake case. A value conversion reads a type's id from
-- the type maps, so that Types states which conversion is chosen and Numeric and Temporal what it does.
-- The planner hook asks the metadata cache, tests the query, gets its connection from Xact and the types
-- of its columns from Types; the executor hooks change the state of Xact, and the scan node checks its
-- columns against the plan's. The utility hook makes COPY statements with Copy, tests a DDL statement,
-- claims the command id in Xact and plans queries with Hooks; the event triggers then write the
-- relation's text with Ruleutils, send it to DuckDB (the state keeps what is sent) and keep the table
-- duckdb.tables. Sql holds the texts and errors that these share. Postgres' answers are a record (`Env`)
-- in each part. The worker's sync is a function on a session, whose subtransactions are a stack of saved
-- catalogs.
--
-- Integers of C++ are numbers with their range checked at each operation (`fit`, `int32`, `int64`): a
-- result out of range is an outcome of its own, and what C++ goes on with, where it goes on, is not
-- followed; the unsigned products of `set_dimension` and `allocate` wrap. Fuel stands in four places. `drop_batches` is given one more than the number of rows, which is enough.
-- `detoast_postgres_datum` needs one unit for every datum but an indirect one. The digit loops of
-- ConvertNumeric run on the size of their buffers. `get_next_worker_tuple` is given more than there are
-- events and workers, which is enough.
--
-- Parameters stand for what lies outside the repository: `Limits` for the constants of Postgres' and
-- DuckDB's headers, `Columns.Catalog` for the system catalog's lookups, `Postgres` for the catalog and
-- the execution of commands, `Toast` for the toast table and the decompressors, `Metadata.Catalog` and
-- `Hooks.Env` for the catalog, the settings and what DuckDB prepares, `Duck` for DuckDB's texts of the
-- parts of an expression, `Copy.Env` and `Ddl.Env` for name lookup, parsing, permissions, the answers of
-- DuckDB and the effect of Postgres' own part of a statement. A query through SPI is its effect on the
-- state, and takes the statement from the top level. The tree walkers of Postgres are taken to visit the
-- children that a query has.
--
-- Not modelled: UpdateDuckdbViewDefinition, which is an operation of `Ddl.Env`, the SQL text of a scan's
-- query and its parallel set-up, EXPLAIN, the SELECT * reconstruction, GetDuckdbViewExprFromQuery,
-- options, secrets, the foreign data wrapper and the table access method; locks and memory contexts;
-- floating-point conversion of NUMERIC; logging; and the worker's process control.
pub mod Common
pub mod Numeric
pub mod Temporal
pub mod Types
pub mod Arrays
pub mod Xact
pub mod Worker
pub mod Detoast
pub mod UserData
pub mod Metadata
pub mod Query
pub mod Hooks
pub mod Sql
pub mod Ruleutils
pub mod Copy
pub mod Ddl
pub mod Node
pub mod Chunks
pub mod Scan
pub mod Examples
