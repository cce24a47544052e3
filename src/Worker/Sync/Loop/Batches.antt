-- ===== src/Worker/Sync/Loop/Batches.antt =====
-- The cleanup in batches of 100.
use pg_duckdb.Common.{
  ℕ, zero, suc, ◌+◌, ◌<◌, ◌≤◌, ◌≡◌, refl, ap, ◌∙◌, sym, Bool, false, some, List, [], ◌∷◌, ◌==◌,
  length, take, drop, ==_iff, arith, Bool-cases, inl, inr,
}
use pg_duckdb.Worker.Sync.{Text, RelKind, Postgres, Session}
use pg_duckdb.Worker.Sync.Loop.{drop_each, drop_batches}

length-take-drop {ℓ} :
    {A : Type ℓ} (n : ℕ) (xs : List A) → length (take n xs) + length (drop n xs) ≡ length xs
length-take-drop zero xs = omega arith
length-take-drop (suc n) [] = omega arith
length-take-drop (suc n) (x ∷ xs) = omega (arith, length-take-drop n xs)

drop-short {ℓ} : {A : Type ℓ} (n : ℕ) (xs : List A) → length (take n xs) < n → drop n xs ≡ []
drop-short zero xs h = absurd (omega arith)
drop-short (suc n) [] h = refl
drop-short (suc n) (x ∷ xs) h = drop-short n xs (omega arith)

length-take-le {ℓ} : {A : Type ℓ} (n : ℕ) (xs : List A) → length (take n xs) ≤ n
length-take-le zero xs = omega arith
length-take-le (suc n) [] = omega arith
length-take-le (suc n) (x ∷ xs) = omega (arith, length-take-le n xs)

module _ {C : Type 0} (pg : Postgres C) (cascade : Bool) where
  drop_each-take :
      (n : ℕ) (rows : List (Text × RelKind)) (s : Session C)
      → drop_each pg cascade (drop n rows) (drop_each pg cascade (take n rows) s)
        ≡ drop_each pg cascade rows s
  unfolding drop_each
  drop_each-take zero rows s = refl
  drop_each-take (suc n) [] s = refl
  drop_each-take (suc n) ((name, kind) ∷ rows) s = drop_each-take n rows _

  last_batch :
      (n : ℕ) (rows : List (Text × RelKind)) (s : Session C)
      → (length (take n rows) == n) ≡ false
      → drop_each pg cascade (take n rows) s ≡ drop_each pg cascade rows s
  unfolding drop_each
  last_batch n rows s h =
      let short : length (take n rows) < n = ground (arith, length-take-le n rows) in
      ap (λ l. drop_each pg cascade l (drop_each pg cascade (take n rows) s))
        (sym (drop-short n rows short))
      ∙ drop_each-take n rows s

  -- With more fuel than rows the batches drop each of the rows once, in order: the last batch, which
  -- may be empty, ends the loop.
  pub drop_batches-drop_each :
      (fuel : ℕ) (rows : List (Text × RelKind)) (s : Session C)
      → length rows < fuel
      → drop_batches pg fuel cascade rows s ≡ some (drop_each pg cascade rows s)
  unfolding drop_batches
  drop_batches-drop_each zero rows s h = absurd (omega arith)
  drop_batches-drop_each (suc fuel) rows s h = elim (Bool-cases (length (take 100 rows) == 100)) [
    | inr partial ↦ rw partial (ap some (last_batch 100 rows s partial))
    | inl whole ↦
        let full : length (take 100 rows) ≡ 100 = (==_iff (length (take 100 rows)) 100).0 whole in
        rw whole (
          drop_batches-drop_each fuel (drop 100 rows) (drop_each pg cascade (take 100 rows) s)
            (omega (arith, length-take-drop 100 rows))
          ∙ ap some (drop_each-take 100 rows s))
  ]
