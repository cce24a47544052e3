-- ===== src/Numeric/Power.antt =====
-- The tables of powers of ten.
use native.Mathlib.Nat
use native.Mathlib.Nat.{pow-suc}
use pg_duckdb.Common.{
  ℕ, zero, suc, ◌+◌, ◌*◌, ◌/◌, ◌^◌, ◌≤◌, ◌<◌, ◌≡◌, refl, ap, some, lt→leb, arith,
}
use pg_duckdb.Numeric.{
  CType, max_value, table_size, get_power_of_ten, fractional_ndigits, correction, nbase,
}

pub pow-add : (b m n : ℕ) → b ^ (m + n) ≡ b ^ m * b ^ n
pow-add b m zero = rw (Nat.add-zero m, Nat.pow-zero b) (omega arith)
pow-add b m (suc n) =
    rw (Nat.add-suc m n, pow-suc b (m + n), pow-suc b n, pow-add b m n) (omega arith)

pub pow-four : (n : ℕ) → 10 ^ (n * 4) ≡ nbase ^ n
pow-four zero = refl
pow-four (suc n) =
    rw (pow-suc nbase n, ← pow-four n)
      (rw (← pow-add 10 (n * 4) 4) (ap (λ m. 10 ^ m) (omega arith)))

pub get_power_of_ten_lem :
    (t : CType) (index : ℕ) → index < table_size t → get_power_of_ten t index ≡ some (10 ^ index)
unfolding get_power_of_ten
get_power_of_ten_lem t index h = rw (lt→leb index (table_size t) h)

pub correction-le : (scale : ℕ) → correction scale ≤ 3
correction-le scale = omega arith

pub scale-correction : (scale : ℕ) → scale + correction scale ≡ fractional_ndigits scale * 4
scale-correction scale = omega arith

pub small_power : (t : CType) (c : ℕ) → c ≤ 3 → (c < table_size t) × (10 ^ c ≤ max_value t)
small_power t zero le = ground arith
small_power t (suc zero) le = ground arith
small_power t (suc (suc zero)) le = ground arith
small_power t (suc (suc (suc zero))) le = ground arith
small_power t (suc (suc (suc (suc c)))) le = absurd (omega arith)

-- Dropping at most three decimal digits of a number keeps all but its last base-10000 digit.
pub le-drop_digits : (x h c : ℕ) → c ≤ 3 → x * nbase ≤ h → x ≤ h / 10 ^ c
le-drop_digits x h zero le g = omega arith
le-drop_digits x h (suc zero) le g = omega arith
le-drop_digits x h (suc (suc zero)) le g = omega arith
le-drop_digits x h (suc (suc (suc zero))) le g = omega arith
le-drop_digits x h (suc (suc (suc (suc c)))) le g = absurd (omega arith)
