-- ===== src/Detoast/Buffers.antt =====
-- What a detoasted datum contains, and the buffers that are left.
use pg_duckdb.Common.{
  ℕ, zero, suc, ◌+◌, ◌≤◌, ◌≡◌, refl, Bool, true, false, Option, none, some, [], if◌then◌else◌, ◌==◌,
  ◌>>=◌, arith,
}
use pg_duckdb.Detoast.{
  Bytes, pglz, lz4, other_method, Varlena, plain, short, compressed, ondisk, indirect, expanded,
  Toast, Result, returned, null, thrown, detoast_postgres_datum,
}

-- The content of a datum, with no buffers and no pointers; `none` if it cannot be read.
abbrev decompressed : Toast → Bytes → Option Bytes
decompressed pg value = elim (pg.method_of value) [
  | pglz ↦ pg.pglz_decompress value
  | lz4 ↦ if pg.use_lz4 then pg.lz4_decompress value else none
  | other_method ↦ none
]

abbrev slice : Toast → ℕ → ℕ → ℕ → Option Bytes
slice pg toastrelid valueid attrsize =
    if attrsize == 0 then some [] else pg.fetch toastrelid valueid attrsize

pub content : Toast → Varlena → Option Bytes
content pg (plain bytes) = some bytes
content pg (short bytes) = some bytes
content pg (compressed value) = decompressed pg value
content pg (ondisk toastrelid valueid attrsize true) =
    slice pg toastrelid valueid attrsize >>= decompressed pg
content pg (ondisk toastrelid valueid attrsize false) = slice pg toastrelid valueid attrsize
content pg (indirect target) = content pg target
content pg (expanded flat) = some flat

abbrev pub is_indirect : Varlena → Bool
is_indirect (indirect target) = true
is_indirect _ = false

-- A datum that can be read is returned with its content, in one buffer more than before if the caller
-- is to free it and in none if not. One that cannot be read is a null pointer or an exception.
abbrev pub Delivers : Option Bytes → ℕ → Result × Bool → Type 0
Delivers (some bytes) live (r, should_free) =
    r ≡ returned (plain bytes) (if should_free then live + 1 else live)
Delivers none live (null left, should_free) = left ≡ live
Delivers none live (thrown left, should_free) = live ≤ left
Delivers none live (returned v left, should_free) = ⊥

abbrev pub Returns : Option Bytes → ℕ → Option (Result × Bool) → Type 0
Returns c live none = ⊥
Returns c live (some r) = Delivers c live r

-- Every datum but an indirect one, at the first call.
pub detoast_postgres_datum-content :
    (pg : Toast) (fuel live : ℕ) (attr : Varlena)
    → is_indirect attr ≡ false
    → Returns (content pg attr) live (detoast_postgres_datum pg (suc fuel) attr live)
unfolding content detoast_postgres_datum
detoast_postgres_datum-content pg fuel live (plain bytes) h = ground arith
detoast_postgres_datum-content pg fuel live (short bytes) h = ground arith
detoast_postgres_datum-content pg fuel live (compressed value) h = ground arith
detoast_postgres_datum-content pg fuel live (ondisk toastrelid valueid attrsize true) h =
    ground arith
detoast_postgres_datum-content pg fuel live (ondisk toastrelid valueid attrsize false) h =
    ground arith
detoast_postgres_datum-content pg fuel live (indirect target) h = absurd (cc)
detoast_postgres_datum-content pg fuel live (expanded flat) h = ground arith

-- An indirect datum, whatever it points to, is never returned: no amount of fuel is enough.
pub detoast_postgres_datum-indirect :
    (pg : Toast) (fuel live : ℕ) (target : Varlena)
    → detoast_postgres_datum pg fuel (indirect target) live ≡ none
unfolding detoast_postgres_datum
detoast_postgres_datum-indirect pg zero live target = refl
detoast_postgres_datum-indirect pg (suc fuel) live target =
    detoast_postgres_datum-indirect pg fuel live target
