-- ===== src/Temporal/Uuids.antt =====
-- UUIDs. A hugeint_t is its 16 bytes in memory, lowest first (x86 and ARM), so
-- that the top byte of `upper` is the last one.
use mathlib.Core.List.{reverse-reverse}
use pg_duckdb.Common.{
  ℕ, ◌+◌, ◌-◌, ◌<◌, ◌≡◌, refl, ◌∙◌, ap, List, [], ◌∷◌, reverse, ltb, if◌then◌else◌, arith,
}

-- duckdb_uuid.upper ^= (uint64_t(1) << 63), on the top byte
abbrev pub flip_top : ℕ → ℕ
flip_top b = if ltb b 128 then b + 128 else b - 128

abbrev pub flip_last : List ℕ → List ℕ
flip_last [] = []
flip_last (b ∷ []) = flip_top b ∷ []
flip_last (b ∷ c ∷ bs) = b ∷ flip_last (c ∷ bs)

-- ConvertUUIDDatum: flip, then data[i] = uuid_bytes[UUID_LEN - 1 - i].
pub convert_uuid_datum : List ℕ → List ℕ
convert_uuid_datum duckdb_uuid = reverse (flip_last duckdb_uuid)

-- DatumGetUUID: bytes[UUID_LEN - 1 - i] = pg_uuid[i], then flip.
pub datum_get_uuid : List ℕ → List ℕ
datum_get_uuid pg_uuid = flip_last (reverse pg_uuid)

abbrev pub AreBytes : List ℕ → Type 0
AreBytes [] = Unit {0}
AreBytes (b ∷ bs) = (b < 256) × AreBytes bs

flip_last_twice : (bs : List ℕ) → AreBytes bs → flip_last (flip_last bs) ≡ bs
flip_last_twice [] h = refl
flip_last_twice (b ∷ []) h = ground arith
flip_last_twice (b ∷ c ∷ []) h = ap (λ r. b ∷ r) (flip_last_twice (c ∷ []) h.1)
flip_last_twice (b ∷ c ∷ d ∷ bs) h = ap (λ r. b ∷ r) (flip_last_twice (c ∷ d ∷ bs) h.1)

-- A UUID written to Postgres is read back unchanged.
pub datum_get_uuid-convert_uuid_datum :
    (u : List ℕ) → AreBytes u → datum_get_uuid (convert_uuid_datum u) ≡ u
unfolding datum_get_uuid convert_uuid_datum
datum_get_uuid-convert_uuid_datum u h =
    ap flip_last (reverse-reverse (flip_last u)) ∙ flip_last_twice u h

-- A UUID of Postgres, read and written again, is unchanged.
pub convert_uuid_datum-datum_get_uuid :
    (p : List ℕ) → AreBytes (reverse p) → convert_uuid_datum (datum_get_uuid p) ≡ p
unfolding datum_get_uuid convert_uuid_datum
convert_uuid_datum-datum_get_uuid p h =
    ap reverse (flip_last_twice (reverse p) h) ∙ reverse-reverse p
