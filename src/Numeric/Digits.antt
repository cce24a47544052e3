-- ===== src/Numeric/Digits.antt =====
-- Base-10000 digit lists, for the loops of `ConvertNumeric`.
use mathlib.Core.List.{reverse-cons}
use native.Mathlib.Nat.{pow-suc}
use pg_duckdb.Common.{
  ℕ, zero, suc, ◌+◌, ◌*◌, ◌/◌, ◌%◌, ◌^◌, ◌≤◌, ◌<◌, ◌≡◌, refl, ◌∙◌, ap, Option, some, List, [], ◌∷◌,
  ◌++◌, reverse, length, ◌>>=◌, suc-eq-zero, arith,
}
use pg_duckdb.Numeric.{nbase, integral_loop, fractional_loop}

-- Lowest digit first.
abbrev pub value_le : List ℕ → ℕ
value_le [] = 0
value_le (d ∷ ds) = d + nbase * value_le ds

-- Highest digit first, onto `acc`.
abbrev pub horner : ℕ → List ℕ → ℕ
horner acc [] = acc
horner acc (d ∷ ds) = horner (acc * nbase + d) ds

abbrev pub AreDigits : List ℕ → Type 0
AreDigits [] = Unit {0}
AreDigits (d ∷ ds) = (d < nbase) × AreDigits ds

pub horner-append : (acc : ℕ) (xs ys : List ℕ) → horner acc (xs ++ ys) ≡ horner (horner acc xs) ys
horner-append acc [] ys = refl
horner-append acc (x ∷ xs) ys = horner-append (acc * nbase + x) xs ys

pub horner-reverse : (ds : List ℕ) → horner 0 (reverse ds) ≡ value_le ds
horner-reverse [] = refl
horner-reverse (d ∷ ds) =
    ap (horner 0) (reverse-cons d ds)
    ∙ horner-append 0 (reverse ds) (d ∷ [])
    ∙ omega (arith, horner-reverse ds)

pub le-horner : (acc : ℕ) (ds : List ℕ) → acc ≤ horner acc ds
le-horner acc [] = omega arith
le-horner acc (d ∷ ds) = omega (arith, le-horner (acc * nbase + d) ds)

AreDigits-append : (xs ys : List ℕ) → AreDigits xs → AreDigits ys → AreDigits (xs ++ ys)
AreDigits-append [] ys p q = q
AreDigits-append (x ∷ xs) ys p q = (p.0, AreDigits-append xs ys p.1 q)

pub AreDigits-reverse : (ds : List ℕ) → AreDigits ds → AreDigits (reverse ds)
AreDigits-reverse [] p = tt
AreDigits-reverse (d ∷ ds) p =
    rw (reverse-cons d ds)
      (AreDigits-append (reverse ds) (d ∷ []) (AreDigits-reverse ds p.1) (p.0, tt))

pub AreDigits-++ : (xs ys : List ℕ) → AreDigits xs → AreDigits ys → AreDigits (xs ++ ys)
AreDigits-++ = AreDigits-append

-- What the loops deliver.
pub record Splits (n room : ℕ) (r : Option (List ℕ)) : Type 0 where
  pub found : List ℕ
  pub returns : r ≡ some found
  pub value_is : value_le found ≡ n
  pub are_digits : AreDigits found
  pub within : length found ≤ room

Splits-push :
    (n room : ℕ) {r : Option (List ℕ)}
    → Splits (n / nbase) room r
    → Splits n (suc room) (r >>= λ ds. some ((n % nbase) ∷ ds))
Splits-push n room rest = record {
  found = (n % nbase) ∷ rest.found;
  returns = rw rest.returns;
  value_is = omega (arith, rest.value_is);
  are_digits = (omega arith, rest.are_digits);
  within = omega (arith, rest.within);
}

-- A buffer of `room` entries takes every number of at most `room` digits, and the loop ends.
pub integral_loop-Splits : (room n : ℕ) → n < nbase ^ room → Splits n room (integral_loop room n)
unfolding integral_loop
integral_loop-Splits zero zero h = record {
  found = [];
  returns = refl;
  value_is = refl;
  are_digits = tt;
  within = omega arith;
}
integral_loop-Splits zero (suc n) h = absurd (omega arith)
integral_loop-Splits (suc room) zero h = record {
  found = [];
  returns = refl;
  value_is = refl;
  are_digits = tt;
  within = omega arith;
}
integral_loop-Splits (suc room) (suc n) h = rw (suc-eq-zero n) (
    Splits-push (suc n) room
      (integral_loop-Splits room (suc n / nbase) (omega (arith, pow-suc nbase room))))

pub fractional_loop-Splits :
    (room rounds n : ℕ)
    → rounds ≤ room
    → n < nbase ^ rounds
    → Splits n rounds (fractional_loop room rounds n)
unfolding fractional_loop
fractional_loop-Splits room zero n le h = record {
  found = [];
  returns = refl;
  value_is = omega arith;
  are_digits = tt;
  within = omega arith;
}
fractional_loop-Splits zero (suc rounds) n le h = absurd (omega arith)
fractional_loop-Splits (suc room) (suc rounds) n le h = Splits-push n rounds (
    fractional_loop-Splits room rounds (n / nbase) (omega arith)
      (omega (arith, pow-suc nbase rounds)))

pub length-fractional_loop :
    (room rounds n : ℕ) (ds : List ℕ) → fractional_loop room rounds n ≡ some ds → length ds ≡ rounds
unfolding fractional_loop
length-fractional_loop room zero n ds h = ground arith
length-fractional_loop zero (suc rounds) n ds h = absurd (cc)
length-fractional_loop (suc room) (suc rounds) n [] h = ground arith
length-fractional_loop (suc room) (suc rounds) n (d ∷ ds) h =
    ground (arith, length-fractional_loop room rounds (n / nbase) ds)
