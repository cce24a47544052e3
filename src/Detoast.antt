-- ===== src/Detoast.antt =====
-- Detoasting, src/pgduckdb_detoast.cpp. A varlena is told apart as the VARATT macros do it; `live`
-- counts the buffers of duckdb_malloc that have not been freed. The toast table, the two
-- decompressors and the layout of a compressed datum belong to Postgres and are a parameter.
use pg_duckdb.Common.{
  ℕ, zero, suc, ◌+◌, ◌-◌, ◌≡◌, Bool, true, false, Option, none, some, List, [], ◌∷◌, length,
  if◌then◌else◌, ◌==◌,
}
pub mod Buffers

abbrev pub Bytes : Type 0
Bytes = List ℕ

pub data Method : Type 0 where
  pglz lz4 : Method
  other_method : Method

-- VARATT_IS_EXTERNAL_ONDISK carries the toast relation, the value's id, its external size and whether
-- it is compressed there.
pub data Varlena : Type 0 where
  plain short compressed : Bytes → Varlena
  ondisk : ℕ → ℕ → ℕ → Bool → Varlena
  indirect : Varlena → Varlena
  expanded : Bytes → Varlena

pub record Toast : Type 0 where
  -- table_relation_fetch_toast_slice; `none` is a toast relation that is gone.
  pub fetch : ℕ → ℕ → ℕ → Option Bytes
  -- TOAST_COMPRESS_METHOD
  pub method_of : Bytes → Method
  -- pglz_decompress and LZ4_decompress_safe; `none` is a negative size.
  pub pglz_decompress : Bytes → Option Bytes
  pub lz4_decompress : Bytes → Option Bytes
  -- the build option USE_LZ4
  pub use_lz4 : Bool

-- `null` is a null pointer; each way out has the number of live buffers.
pub data Result : Type 0 where
  returned : Varlena → ℕ → Result
  null thrown : ℕ → Result

module _ (pg : Toast) where
  open pg use {fetch, method_of, pglz_decompress, lz4_decompress, use_lz4}

  -- The buffer is allocated before the data is looked at.
  unfoldable pub pglz_decompress_datum : Bytes → ℕ → Result
  pglz_decompress_datum value live = elim (pglz_decompress value) [
    | none ↦ thrown (live + 1)
    | some raw ↦ returned (plain raw) (live + 1)
  ]

  unfoldable pub lz4_decompress_datum : Bytes → ℕ → Result
  lz4_decompress_datum value live =
      let decompressed : Result = elim (lz4_decompress value) [
        | none ↦ thrown (live + 1)
        | some raw ↦ returned (plain raw) (live + 1)
      ] in
      if use_lz4 then decompressed else null live

  unfoldable pub toast_decompress_datum : Bytes → ℕ → Result
  unfolding pglz_decompress_datum lz4_decompress_datum
  toast_decompress_datum attr live = elim (method_of attr) [
    | pglz ↦ pglz_decompress_datum attr live
    | lz4 ↦ lz4_decompress_datum attr live
    | other_method ↦ thrown live
  ]

  abbrev stored : Bool → Bytes → Varlena
  stored true data_bytes = compressed data_bytes
  stored false data_bytes = plain data_bytes

  -- ToastFetchDatum, at an on-disk datum
  unfoldable pub toast_fetch_datum : ℕ → ℕ → ℕ → Bool → ℕ → Result
  toast_fetch_datum toastrelid valueid attrsize is_compressed live =
      let fetched : Result = elim (fetch toastrelid valueid attrsize) [
        | none ↦ thrown live
        | some slice ↦ returned (stored is_compressed slice) (live + 1)
      ] in
      if attrsize == 0 then returned (stored is_compressed []) (live + 1) else fetched

  -- duckdb_free(tmp)
  abbrev pub free_one : Result → Result
  free_one (returned v live) = returned v (live - 1)
  free_one (null live) = null (live - 1)
  free_one (thrown live) = thrown live

  -- The fetched datum is decompressed if it has to be.
  unfoldable pub decompress_fetched : Result → Result
  unfolding toast_decompress_datum
  decompress_fetched (returned (compressed value) live) =
      free_one (toast_decompress_datum value live)
  decompress_fetched r = r

  -- DetoastPostgresDatum, with `should_free` and on fuel for its call of itself, which passes `attr` on
  -- unchanged; `none` when the fuel is out.
  unfoldable pub detoast_postgres_datum : ℕ → Varlena → ℕ → Option (Result × Bool)
  unfolding toast_fetch_datum decompress_fetched toast_decompress_datum
  detoast_postgres_datum zero attr live = none
  detoast_postgres_datum (suc fuel) (ondisk toastrelid valueid attrsize is_compressed) live =
      some (
        decompress_fetched (toast_fetch_datum toastrelid valueid attrsize is_compressed live),
        true,
      )
  detoast_postgres_datum (suc fuel) (indirect target) live =
      detoast_postgres_datum fuel (indirect target) live
  detoast_postgres_datum (suc fuel) (expanded flat) live =
      some (returned (plain flat) (live + 1), true)
  detoast_postgres_datum (suc fuel) (compressed value) live =
      some (toast_decompress_datum value live, true)
  detoast_postgres_datum (suc fuel) (short content) live =
      some (returned (plain content) (live + 1), true)
  detoast_postgres_datum (suc fuel) (plain content) live =
      some (returned (plain content) live, false)
