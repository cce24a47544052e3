-- ===== src/Scan/Conditions.antt =====
-- The WHERE condition that a table filter becomes, beside the filter.
use Prim.Native.String.{String}
use pg_duckdb.Common.{
  ◌≡◌, ◌≢◌, refl, subst, Bool, true, false, not, ◌&&◌, ◌||◌, List, [], ◌∷◌, arith,
}
use pg_duckdb.Scan.{Duck, Expr, Printed, printed, unsupported, thrown, expression_to_string}
use pg_duckdb.Scan.Filters.{
  Filter, Filters, simple, conjunction, optional, expression, unlisted, no_filters, filter,
  Extracted, kept, dropped, failed, undefined, joined, add_child, from_printed,
  extract_query_filters, extract_children,
}
use pg_duckdb.Scan.Texts.{eval, expression_to_string-Means}
use pg_duckdb.Scan.Meaning.{
  Row, holds, any_holds, all_hold, says_simple, says_expression, says_and, says_or, SaysAll,
  all_none, all_more, SaysAny, any_none, any_more, is_mandatory, all_mandatory, Fits, Extracts,
}

abbrev ExtractsAll : Duck → String → Row → Bool → Bool → Extracted (List String) → Type 0
ExtractsAll d column r h mandatory (kept ss) =
    (m : Bool) × SaysAll d column r ss m × Fits h mandatory m
ExtractsAll d column r h mandatory dropped = ⊥
ExtractsAll d column r h mandatory failed = Unit
ExtractsAll d column r h mandatory undefined = Unit

-- An OR that is dropped has a child without a condition.
abbrev ExtractsAny : Duck → String → Row → Bool → Bool → Extracted (List String) → Type 0
ExtractsAny d column r h mandatory (kept ss) =
    (m : Bool) × SaysAny d column r ss m × Fits h mandatory m
ExtractsAny d column r h mandatory dropped = Fits h mandatory true
ExtractsAny d column r h mandatory failed = Unit
ExtractsAny d column r h mandatory undefined = Unit

Fits-and : (h k p q m n : Bool) → Fits h p m → Fits k q n → Fits (h && k) (p && q) (m && n)
Fits-and h k p q m n f g = ground arith

Fits-or : (h k p q m n : Bool) → Fits h p m → Fits k q n → Fits (h || k) (p && q) (m || n)
Fits-or h k p q m n f g = ground arith

module _ (d : Duck) (column : String) (r : Row) where
  and-child :
      (h k p q : Bool) (x : Extracted String) (xs : Extracted (List String))
      → Extracts d column r h p x
      → ExtractsAll d column r k q xs
      → ExtractsAll d column r (h && k) (p && q) (add_child false x xs)
  and-child h k p q (kept s) (kept ss) (m, says, f) (n, all, g) =
      (m && n, all_more says all, Fits-and h k p q m n f g)
  and-child h k p q (kept s) dropped e es = es
  and-child h k p q (kept s) failed e es = tt
  and-child h k p q (kept s) undefined e es = tt
  and-child h k p q dropped (kept ss) f (n, all, g) = (n, all, Fits-and h k p q true n f g)
  and-child h k p q dropped dropped f es = es
  and-child h k p q dropped failed f es = tt
  and-child h k p q dropped undefined f es = tt
  and-child h k p q failed xs e es = tt
  and-child h k p q undefined xs e es = tt

  Fits-dropped : (h k p q : Bool) → Fits h p true → Fits (h || k) (p && q) true
  Fits-dropped h k p q f = ground arith

  Fits-later : (h k p q : Bool) → Fits k q true → Fits (h || k) (p && q) true
  Fits-later h k p q f = ground arith

  or-child :
      (h k p q : Bool) (x : Extracted String) (xs : Extracted (List String))
      → Extracts d column r h p x
      → ExtractsAny d column r k q xs
      → ExtractsAny d column r (h || k) (p && q) (add_child true x xs)
  or-child h k p q (kept s) (kept ss) (m, says, f) (n, any, g) =
      (m || n, any_more says any, Fits-or h k p q m n f g)
  or-child h k p q (kept s) dropped e g = Fits-later h k p q g
  or-child h k p q (kept s) failed e es = tt
  or-child h k p q (kept s) undefined e es = tt
  or-child h k p q dropped xs f es = Fits-dropped h k p q f
  or-child h k p q failed xs e es = tt
  or-child h k p q undefined xs e es = tt

  or-child-some :
      (x : Extracted String) (xs : Extracted (List String)) → add_child true x xs ≢ kept []
  or-child-some (kept s) (kept ss) = ground arith
  or-child-some (kept s) dropped = ground arith
  or-child-some (kept s) failed = ground arith
  or-child-some (kept s) undefined = ground arith
  or-child-some dropped xs = ground arith
  or-child-some failed xs = ground arith
  or-child-some undefined xs = ground arith

  and-joined :
      (h p : Bool) (xs : Extracted (List String))
      → ExtractsAll d column r h p xs
      → Extracts d column r h p (joined false xs)
  and-joined h p (kept []) (m, all_none, f) = f
  and-joined h p (kept (s ∷ ss)) (m, all, f) = (m, says_and all, f)
  and-joined h p dropped e = absurd e
  and-joined h p failed e = tt
  and-joined h p undefined e = tt

  or-joined :
      (h p : Bool) (xs : Extracted (List String))
      → xs ≢ kept []
      → ExtractsAny d column r h p xs
      → Extracts d column r h p (joined true xs)
  or-joined h p (kept []) n e = absurd (n refl)
  or-joined h p (kept (s ∷ ss)) n (m, any, f) = (m, says_or any, f)
  or-joined h p dropped n f = f
  or-joined h p failed n e = tt
  or-joined h p undefined n e = tt

  Fits-itself : (h p : Bool) → Fits h p h
  Fits-itself h p = ground arith

  Fits-nothing : (outside : Bool) → Fits false (outside && false) true
  Fits-nothing outside = ground arith

  outside_both : (o p q : Bool) → ((o && p) && (o && q)) ≡ (o && (p && q))
  outside_both o p q = ground arith

  outside_none : (o : Bool) → false ≡ (o && false)
  outside_none o = ground arith

  abbrev holds_value : Expr → Bool
  holds_value e = r.values.is_true (eval r.values e)

  expression-Extracts :
      (mandatory : Bool) (e : Expr) (p : Printed)
      → expression_to_string d column e ≡ p
      → Extracts d column r (holds_value e) mandatory (from_printed p)
  expression-Extracts mandatory e (printed s) h = (
    holds_value e,
    says_expression (expression_to_string-Means d column r.values e s h),
    Fits-itself (holds_value e) mandatory,
  )
  expression-Extracts mandatory e unsupported h = tt
  expression-Extracts mandatory e thrown h = tt

  Fits-unlisted : (h : Bool) → Fits h false true
  Fits-unlisted h = ground arith

  mutual
    unfolding extract_query_filters holds is_mandatory

    extract-Extracts :
        (inside : Bool) (f : Filter)
        → Extracts d column r
            (holds r f)
            (not inside && is_mandatory f)
            (extract_query_filters d column inside f)
    extract-Extracts inside (simple n) =
        (r.simple_holds n, says_simple n, Fits-itself (r.simple_holds n) _)
    extract-Extracts inside (conjunction false fs) =
        and-joined _ _ _ (extract-ExtractsAll inside fs)
    extract-Extracts inside (conjunction true no_filters) = Fits-nothing (not inside)
    extract-Extracts inside (conjunction true (filter f fs)) =
        or-joined _ _ _ (or-child-some _ _) (extract-ExtractsAny inside (filter f fs))
    extract-Extracts inside (optional f) =
        subst (λ p. Extracts d column r (holds r f) p (extract_query_filters d column true f))
          (outside_none (not inside)) (extract-Extracts true f)
    extract-Extracts inside (expression e) =
        expression-Extracts _ e (expression_to_string d column e) refl
    extract-Extracts true (unlisted n) = Fits-unlisted (r.unlisted_holds n)
    extract-Extracts false (unlisted n) = tt

    extract-ExtractsAll :
        (inside : Bool) (fs : Filters)
        → ExtractsAll d column r
            (all_hold r fs)
            (not inside && all_mandatory fs)
            (extract_children d column inside false fs)
    extract-ExtractsAll inside no_filters = (true, all_none, Fits-itself true _)
    extract-ExtractsAll inside (filter f fs) =
        subst
          (λ p.
            ExtractsAll d column r (all_hold r (filter f fs)) p
              (extract_children d column inside false (filter f fs)))
          (outside_both (not inside) (is_mandatory f) (all_mandatory fs))
          (and-child _ _ _ _ _ _ (extract-Extracts inside f) (extract-ExtractsAll inside fs))

    extract-ExtractsAny :
        (inside : Bool) (fs : Filters)
        → ExtractsAny d column r
            (any_holds r fs)
            (not inside && all_mandatory fs)
            (extract_children d column inside true fs)
    extract-ExtractsAny inside no_filters = (false, any_none, Fits-itself false _)
    extract-ExtractsAny inside (filter f fs) =
        subst
          (λ p.
            ExtractsAny d column r (any_holds r (filter f fs)) p
              (extract_children d column inside true (filter f fs)))
          (outside_both (not inside) (is_mandatory f) (all_mandatory fs))
          (or-child _ _ _ _ _ _ (extract-Extracts inside f) (extract-ExtractsAny inside fs))
