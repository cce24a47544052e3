-- ===== src/Scan/Pushdown.antt =====
-- The expressions that PostgresScanPushdownExpression accepts.
use Prim.Native.String.{String}
use pg_duckdb.Common.{Bool, true, false, not, ◌&&◌, [], ◌∷◌, if◌then◌else◌}
use pg_duckdb.Scan.{
  Duck, Expr, Exprs, Printed, printed, unsupported, thrown, then_printed, Args, negation, is_null,
  is_not_null, comparison, between, conjunction, function, column_ref, constant, other, no_exprs,
  expr, func_arg_to_like_string, like_text, func_to_like_string, function_to_string, join_printed,
  expression_to_string, arguments, is_like, is_escape, with_escape, case_text, operator_text,
  pattern_text, is_case, is_pattern_operator, constant_text, is_varchar,
}

-- Both have a text, or both have none and for the same reason.
pub data Alike : Printed → Printed → Type 0 where
  both_printed : {s t : String} → Alike (printed s) (printed t)
  both_unsupported : Alike unsupported unsupported
  both_thrown : Alike thrown thrown

data AlikeArgs : Args → Args → Type 0 where
  no_args : AlikeArgs [] []
  arg :
      {e : Expr} {p q : Printed} {as' bs : Args}
      → Alike p q
      → AlikeArgs as' bs
      → AlikeArgs ((e, p) ∷ as') ((e, q) ∷ bs)

Alike-refl : (p : Printed) → Alike p p
Alike-refl (printed s) = both_printed
Alike-refl unsupported = both_unsupported
Alike-refl thrown = both_thrown

then-Alike :
    {p q : Printed} {f g : String → Printed}
    → Alike p q
    → ((s t : String) → Alike (f s) (g t))
    → Alike (then_printed p f) (then_printed q g)
then-Alike (both_printed {s} {t}) h = h s t
then-Alike both_unsupported h = both_unsupported
then-Alike both_thrown h = both_thrown

if-Alike :
    {p q r s : Printed} (b : Bool)
    → Alike p q
    → Alike r s
    → Alike (if b then p else r) (if b then q else s)
if-Alike true h k = h
if-Alike false h k = k

join-Alike :
    {xs ys : Args} (op s t : String)
    → AlikeArgs xs ys
    → Alike (join_printed op s xs) (join_printed op t ys)
unfolding join_printed
join-Alike op s t no_args = both_printed
join-Alike op s t (arg h hs) = then-Alike h (λ s' t'. join-Alike op _ _ hs)

like-Alike :
    (d : Duck) (name : String) (h n : Expr) {p q r s : Printed}
    → Alike p q
    → Alike r s
    → Alike (like_text d name (h, p) (n, r)) (like_text d name (h, q) (n, s))
like-Alike d name h n k l = if-Alike (not (is_varchar h)) both_unsupported (
    then-Alike k (λ s t.
      then-Alike (if-Alike (is_escape name) l (Alike-refl (func_arg_to_like_string d name n)))
        (λ s t. both_printed)))

escape-Alike :
    {p q e f : Printed}
    → Alike p q
    → Alike e f
    → Alike (then_printed p (λ s. with_escape s e)) (then_printed q (λ s. with_escape s f))
escape-Alike both_printed both_printed = both_printed
escape-Alike both_printed both_unsupported = both_unsupported
escape-Alike both_printed both_thrown = both_thrown
escape-Alike both_unsupported k = both_unsupported
escape-Alike both_thrown k = both_thrown

to_like-Alike :
    (d : Duck) (name : String) {xs ys : Args}
    → AlikeArgs xs ys
    → Alike (func_to_like_string d name xs) (func_to_like_string d name ys)
unfolding func_to_like_string
to_like-Alike d name no_args = both_unsupported
to_like-Alike d name (arg h no_args) = both_unsupported
to_like-Alike d name (arg {e = a} h (arg {e = b} k no_args)) = like-Alike d name a b h k
to_like-Alike d name (arg {e = a} h (arg {e = b} k (arg l no_args))) =
    escape-Alike (like-Alike d name a b h k) l
to_like-Alike d name (arg h (arg k (arg l (arg m ms)))) = both_unsupported

case-Alike :
    (name : String) {xs ys : Args} → AlikeArgs xs ys → Alike (case_text name xs) (case_text name ys)
case-Alike name no_args = both_unsupported
case-Alike name (arg h hs) = then-Alike h (λ s t. both_printed)

operator-Alike :
    (name : String) (a b : Expr) {p q r s : Printed}
    → Alike p q
    → Alike r s
    → Alike (operator_text name (a, p) (b, r)) (operator_text name (a, q) (b, s))
operator-Alike name a b h k =
    if-Alike (not (is_varchar a)) both_unsupported
      (then-Alike h (λ s t. then-Alike k (λ s t. both_printed)))

pattern-Alike :
    (name : String) {xs ys : Args}
    → AlikeArgs xs ys
    → Alike (pattern_text name xs) (pattern_text name ys)
pattern-Alike name no_args = both_unsupported
pattern-Alike name (arg h no_args) = both_unsupported
pattern-Alike name (arg {e = a} h (arg {e = b} k no_args)) = operator-Alike name a b h k
pattern-Alike name (arg h (arg k (arg l ls))) = both_unsupported

function-Alike :
    (d : Duck) (name : String) (is_operator : Bool) {xs ys : Args}
    → AlikeArgs xs ys
    → Alike (function_to_string d name is_operator xs) (function_to_string d name is_operator ys)
unfolding function_to_string
function-Alike d name is_operator h = if-Alike (is_like name) (to_like-Alike d name h) (
    if-Alike (is_case name) (case-Alike name h)
      (if-Alike (is_pattern_operator name && is_operator) (pattern-Alike name h) both_unsupported))

mutual
  unfolding expression_to_string

  pub expression-Alike :
      (d : Duck) (c c' : String) (e : Expr)
      → Alike (expression_to_string d c e) (expression_to_string d c' e)
  expression-Alike d c c' (negation e) =
      then-Alike (expression-Alike d c c' e) (λ s t. both_printed)
  expression-Alike d c c' (is_null e) = then-Alike (expression-Alike d c c' e) (λ s t. both_printed)
  expression-Alike d c c' (is_not_null e) =
      then-Alike (expression-Alike d c c' e) (λ s t. both_printed)
  expression-Alike d c c' (comparison op l r) =
      then-Alike (expression-Alike d c c' l)
        (λ s t. then-Alike (expression-Alike d c c' r) (λ s t. both_printed))
  expression-Alike d c c' (between li ui i l u) = then-Alike (expression-Alike d c c' i) (λ s t.
      then-Alike (expression-Alike d c c' l)
        (λ s t. then-Alike (expression-Alike d c c' u) (λ s t. both_printed)))
  expression-Alike d c c' (conjunction is_or es) =
      then-Alike (join-Alike (d.conjunction_operator is_or) "" "" (arguments-Alike d c c' es))
        (λ s t. both_printed)
  expression-Alike d c c' (function name is_operator v es) =
      function-Alike d name is_operator (arguments-Alike d c c' es)
  expression-Alike d c c' (column_ref v) = both_printed
  expression-Alike d c c' (constant v k) = Alike-refl (constant_text d k)
  expression-Alike d c c' (other v) = both_unsupported

  arguments-Alike :
      (d : Duck) (c c' : String) (es : Exprs) → AlikeArgs (arguments d c es) (arguments d c' es)
  arguments-Alike d c c' no_exprs = no_args
  arguments-Alike d c c' (expr e es) = arg (expression-Alike d c c' e) (arguments-Alike d c c' es)
