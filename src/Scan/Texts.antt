-- ===== src/Scan/Texts.antt =====
-- What the text of an expression says, beside what the expression is of a row: the texts of
-- `ExpressionToString` in src/scan/postgres_scan.cpp.
use Prim.Native.String.{String, ◌++◌}
use text.Mathlib.Text.{◌==◌}
use pg_duckdb.Common.{
  ℕ, ◌≡◌, ◌≢◌, refl, subst, sym, ap, Bool, false, List, [], ◌∷◌, if◌then◌else◌, arith,
}
use pg_duckdb.Scan.{
  Duck, Comparison, greater, greater_equal, less, less_equal, null, varchar, other_constant, Expr,
  Exprs, negation, is_null, is_not_null, comparison, between, conjunction, function, column_ref,
  constant, other, no_exprs, expr, Printed, printed, unsupported, thrown, then_printed, Args,
  arguments, function_to_string, join_printed, expression_to_string,
}

-- The values of the row at hand and what SQL makes of values, each by a number.
pub record Values : Type 0 where
  pub column_value : ℕ
  pub null_value : ℕ
  pub string_value : String → ℕ
  pub unprinted : Expr → ℕ
  pub negate : ℕ → ℕ
  pub test_null : ℕ → ℕ
  pub test_not_null : ℕ → ℕ
  pub compare : Comparison → ℕ → ℕ → ℕ
  pub none_of : Bool → ℕ
  pub combine : Bool → ℕ → ℕ → ℕ
  pub call : String → Bool → List ℕ → ℕ
  pub is_true : ℕ → Bool

-- A conjunction, taken from the left.
unfoldable pub combined : Values → Bool → ℕ → List ℕ → ℕ
combined r is_or v [] = v
combined r is_or v (w ∷ ws) = combined r is_or (r.combine is_or v w) ws

-- The value of an expression.
unfoldable mutual
  pub eval : Values → Expr → ℕ
  eval r (negation e) = r.negate (eval r e)
  eval r (is_null e) = r.test_null (eval r e)
  eval r (is_not_null e) = r.test_not_null (eval r e)
  eval r (comparison op e f) = r.compare op (eval r e) (eval r f)
  eval r (between lower_inclusive upper_inclusive e lower upper) =
      r.combine false
        (r.compare (if lower_inclusive then greater_equal else greater) (eval r e) (eval r lower))
        (r.compare (if upper_inclusive then less_equal else less) (eval r e) (eval r upper))
  eval r (conjunction is_or es) = combined r is_or (r.none_of is_or) (evals r es)
  eval r (function name is_operator v es) = r.call name is_operator (evals r es)
  eval r (column_ref v) = r.column_value
  eval r (constant v null) = r.null_value
  eval r (constant v (varchar s)) = r.string_value s
  eval r (constant v other_constant) = r.unprinted (constant v other_constant)
  eval r (other v) = r.unprinted (other v)

  pub evals : Values → Exprs → List ℕ
  evals r no_exprs = []
  evals r (expr e es) = eval r e ∷ evals r es

-- A list of operands, each put after an operator unless nothing is before it.
unfoldable pub separated : String → String → List String → String
separated op so_far [] = so_far
separated op so_far (s ∷ ss) =
    separated op (if so_far == "" then s else so_far ++ (" " ++ (op ++ (" " ++ s)))) ss

-- How Postgres reads a condition's text, by the grammar of SQL. Of the call of a function the text
-- is taken to mean the call, if the texts of its arguments mean their values.
mutual
  pub data Means (d : Duck) (column : String) (r : Values) : String → ℕ → Type 0 where
    means_not :
        {s : String} {v : ℕ}
        → Means d column r s v
        → Means d column r ("NOT (" ++ (s ++ ")")) (r.negate v)
    means_null :
        {s : String} {v : ℕ}
        → Means d column r s v
        → Means d column r ("(" ++ (s ++ ") IS NULL")) (r.test_null v)
    means_not_null :
        {s : String} {v : ℕ}
        → Means d column r s v
        → Means d column r ("(" ++ (s ++ ") IS NOT NULL")) (r.test_not_null v)
    means_compare :
        {s t : String} {v w : ℕ} (op : Comparison)
        → Means d column r s v
        → Means d column r t w
        → Means d column r
            ("(" ++ (s ++ (" " ++ (d.operator op ++ (" " ++ (t ++ ")"))))))
            (r.compare op v w)
    means_both :
        {s t u : String} {v w x : ℕ} (op op' : Comparison)
        → Means d column r s v
        → Means d column r t w
        → Means d column r u x
        → Means d column r
            ("(("
              ++ (s
                  ++ (" "
                      ++ (d.operator op
                          ++ (" "
                              ++ (t
                                  ++ (") AND ("
                                      ++ (s
                                          ++ (" "
                                              ++ (d.operator op' ++ (" " ++ (u ++ "))"))))))))))))
            (r.combine false (r.compare op v w) (r.compare op' v x))
    means_combined :
        {ss : List String} {vs : List ℕ} (is_or : Bool)
        → MeansAll d column r ss vs
        → Means d column r
            ("(" ++ (separated (d.conjunction_operator is_or) "" ss ++ ")"))
            (combined r is_or (r.none_of is_or) vs)
    means_column : Means d column r column r.column_value
    means_no_value : Means d column r "NULL" r.null_value
    means_string : (s : String) → Means d column r (d.sql_string s) (r.string_value s)
    means_call :
        {args : Args} {vs : List ℕ} {s : String} (name : String) (is_operator : Bool)
        → MeansArgs d column r args vs
        → function_to_string d name is_operator args ≡ printed s
        → Means d column r s (r.call name is_operator vs)

  pub data MeansAll (d : Duck) (column : String) (r : Values) : List String → List ℕ → Type 0 where
    means_none : MeansAll d column r [] []
    means_more :
        {s : String} {v : ℕ} {ss : List String} {vs : List ℕ}
        → Means d column r s v
        → MeansAll d column r ss vs
        → MeansAll d column r (s ∷ ss) (v ∷ vs)

  -- The arguments of a call, some of which may have no text.
  pub data MeansArgs (d : Duck) (column : String) (r : Values) : Args → List ℕ → Type 0 where
    no_args : MeansArgs d column r [] []
    printed_arg :
        {e : Expr} {s : String} {v : ℕ} {args : Args} {vs : List ℕ}
        → Means d column r s v
        → MeansArgs d column r args vs
        → MeansArgs d column r ((e, printed s) ∷ args) (v ∷ vs)
    other_arg :
        {e : Expr} {p : Printed} {v : ℕ} {args : Args} {vs : List ℕ}
        → ((s : String) → p ≢ printed s)
        → MeansArgs d column r args vs
        → MeansArgs d column r ((e, p) ∷ args) (v ∷ vs)

abbrev text_of : Printed → String
text_of (printed s) = s
text_of _ = ""

-- A text that is made of another one has been made of one that was printed.
then_printed-inverse :
    (p : Printed) (f : String → Printed) {s : String}
    → then_printed p f ≡ printed s
    → (t : String) × (p ≡ printed t) × (f t ≡ printed s)
then_printed-inverse (printed t) f h = (t, refl, h)
then_printed-inverse unsupported f h = ground arith
then_printed-inverse thrown f h = ground arith

module _ (d : Duck) (column : String) (r : Values) where
  Means-printed :
      {s t : String} {v : ℕ} → printed s ≡ printed t → Means d column r s v → Means d column r t v
  Means-printed {v = v} h m = subst (λ p. Means d column r (text_of p) v) h m

  argument-Means :
      (e : Expr) (p : Printed) {v : ℕ} {args : Args} {vs : List ℕ}
      → ((s : String) → p ≡ printed s → Means d column r s v)
      → MeansArgs d column r args vs
      → MeansArgs d column r ((e, p) ∷ args) (v ∷ vs)
  argument-Means e (printed s) m rest = printed_arg (m s refl) rest
  argument-Means e unsupported m rest = other_arg (λ s. ground arith) rest
  argument-Means e thrown m rest = other_arg (λ s. ground arith) rest

  mutual
    unfolding expression_to_string eval join_printed separated

    pub expression_to_string-Means :
        (e : Expr) (s : String)
        → expression_to_string d column e ≡ printed s
        → Means d column r s (eval r e)
    expression_to_string-Means (negation e) s h =
        let (t, p, k) = then_printed-inverse (expression_to_string d column e) _ h in
        Means-printed k (means_not (expression_to_string-Means e t p))
    expression_to_string-Means (is_null e) s h =
        let (t, p, k) = then_printed-inverse (expression_to_string d column e) _ h in
        Means-printed k (means_null (expression_to_string-Means e t p))
    expression_to_string-Means (is_not_null e) s h =
        let (t, p, k) = then_printed-inverse (expression_to_string d column e) _ h in
        Means-printed k (means_not_null (expression_to_string-Means e t p))
    expression_to_string-Means (comparison op e f) s h =
        let (t, p, k) = then_printed-inverse (expression_to_string d column e) _ h in
        let (u, q, l) = then_printed-inverse (expression_to_string d column f) _ k in
        Means-printed l
          (means_compare op (expression_to_string-Means e t p) (expression_to_string-Means f u q))
    expression_to_string-Means (between a b e lower upper) s h =
        let (t, p, k) = then_printed-inverse (expression_to_string d column e) _ h in
        let (u, q, l) = then_printed-inverse (expression_to_string d column lower) _ k in
        let (v, o, m) = then_printed-inverse (expression_to_string d column upper) _ l in
        Means-printed m (
          means_both _ _ (expression_to_string-Means e t p) (expression_to_string-Means lower u q)
            (expression_to_string-Means upper v o))
    expression_to_string-Means (conjunction is_or es) s h =
        let joined = join_printed (d.conjunction_operator is_or) "" (arguments d column es) in
        let (t, p, k) = then_printed-inverse joined _ h in
        let (ss, all, eq) = arguments-MeansAll es (d.conjunction_operator is_or) "" t p in
        Means-printed k (
          subst (λ u. Means d column r ("(" ++ (u ++ ")")) (eval r (conjunction is_or es))) (sym eq)
            (means_combined is_or all))
    expression_to_string-Means (function name is_operator v es) s h =
        means_call name is_operator (arguments-MeansArgs es) h
    expression_to_string-Means (column_ref v) s h = Means-printed h means_column
    expression_to_string-Means (constant v null) s h = Means-printed h means_no_value
    expression_to_string-Means (constant v (varchar t)) s h = Means-printed h (means_string t)
    expression_to_string-Means (constant v other_constant) s h = ground arith
    expression_to_string-Means (other v) s h = ground arith

    arguments-MeansAll :
        (es : Exprs) (op so_far t : String)
        → join_printed op so_far (arguments d column es) ≡ printed t
        → (ss : List String) × MeansAll d column r ss (evals r es) × (t ≡ separated op so_far ss)
    arguments-MeansAll no_exprs op so_far t h = ([], means_none, sym (ap text_of h))
    arguments-MeansAll (expr e es) op so_far t h =
        let (s, p, k) = then_printed-inverse (expression_to_string d column e) _ h in
        let (ss, all, eq) = arguments-MeansAll es op _ t k in
        (s ∷ ss, means_more (expression_to_string-Means e s p) all, eq)

    arguments-MeansArgs : (es : Exprs) → MeansArgs d column r (arguments d column es) (evals r es)
    arguments-MeansArgs no_exprs = no_args
    arguments-MeansArgs (expr e es) =
        argument-Means e (expression_to_string d column e) (expression_to_string-Means e)
          (arguments-MeansArgs es)
