-- ===== src/Scan.antt =====
-- The scan of a Postgres table, src/scan/postgres_scan.cpp: here the conditions that are pushed down
-- to Postgres, as SQL text; the scan itself stands in the children. What DuckDB gives for a piece of
-- an expression, such as the text of a constant, is the fields of one record.
use Prim.Native.String.{String, ◌++◌}
use text.Mathlib.Text.{◌==◌}
use pg_duckdb.Common.{
  ℕ, zero, suc, Bool, true, false, not, ◌&&◌, ◌||◌, List, [], ◌∷◌, if◌then◌else◌,
}
pub mod Filters
pub mod Texts
pub mod Meaning
pub mod Conditions
pub mod Pushdown
pub mod Supported
pub mod Batches
pub mod Readers

pub data Comparison : Type 0 where
  equal not_equal less greater less_equal greater_equal distinct not_distinct : Comparison

pub data Constant : Type 0 where
  null : Constant
  varchar : String → Constant
  other_constant : Constant

-- duckdb::Expression, as far as the code tells expressions apart; a node carries the test on its
-- return type, VARCHAR or not, where the code makes it. `other` is every type that no case names.
mutual
  pub data Expr : Type 0 where
    negation is_null is_not_null : Expr → Expr
    comparison : Comparison → Expr → Expr → Expr
    between : Bool → Bool → Expr → Expr → Expr → Expr
    conjunction : Bool → Exprs → Expr
    function : String → Bool → Bool → Exprs → Expr
    column_ref : Bool → Expr
    constant : Bool → Constant → Expr
    other : Bool → Expr

  pub data Exprs : Type 0 where
    no_exprs : Exprs
    expr : Expr → Exprs → Exprs

-- ExpressionTypeToOperator of a comparison and of OR and AND, ToSQLString of a VARCHAR value, StringUtil::Replace (text, from, to), and
-- ToString of a simple table filter, by its number, for a column.
pub record Duck : Type 0 where
  pub operator : Comparison → String
  pub conjunction_operator : Bool → String
  pub sql_string : String → String
  pub replace : String → String → String → String
  pub filter_string : ℕ → String → String

-- `unsupported` is std::nullopt.
pub data Printed : Type 0 where
  printed : String → Printed
  unsupported thrown : Printed

abbrev pub then_printed : Printed → (String → Printed) → Printed
then_printed (printed s) f = f s
then_printed unsupported f = unsupported
then_printed thrown f = thrown

abbrev pub is_varchar : Expr → Bool
is_varchar (function name is_operator v es) = v
is_varchar (column_ref v) = v
is_varchar (constant v c) = v
is_varchar (other v) = v
is_varchar _ = false

abbrev pub as_constant : (Constant → Printed) → Expr → Printed
as_constant f (constant v c) = f c
as_constant f _ = unsupported

-- The escapes of FuncArgToLikeString
abbrev pub escaped : Duck → String → String
escaped d s =
    d.replace (d.replace (d.replace (d.replace s "'" "''") "\\" "\\\\") "%" "\\%") "_" "\\_"

abbrev pub like_pattern : Duck → String → Constant → Printed
like_pattern d name null = printed "NULL"
like_pattern d name (varchar s) =
    if name == "contains"
    then printed ("'%" ++ (escaped d s ++ "%'"))
    else if name == "suffix"
    then printed ("'%" ++ (escaped d s ++ "'"))
    else if name == "prefix"
    then printed ("'" ++ (escaped d s ++ "%'"))
    else thrown
like_pattern d name other_constant = unsupported

unfoldable pub func_arg_to_like_string : Duck → String → Expr → Printed
func_arg_to_like_string d name e = as_constant (like_pattern d name) e

abbrev pub is_escape : String → Bool
is_escape name = (name == "like_escape") || (name == "ilike_escape")

abbrev pub is_like : String → Bool
is_like name = (name == "contains") || (name == "suffix") || (name == "prefix") || is_escape name

abbrev pub is_case : String → Bool
is_case name = (name == "lower") || (name == "upper")

abbrev pub is_pattern_operator : String → Bool
is_pattern_operator name = (name == "~~") || (name == "!~~")

-- The arguments of a function beside their texts.
abbrev pub Args : Type 0
Args = List (Expr × Printed)

abbrev pub with_escape : String → Printed → Printed
with_escape s escape =
    then_printed escape (λ t. printed (if t == "'\\'" then s else s ++ (" ESCAPE " ++ t)))

abbrev pub like_operator : String → String
like_operator name = if name == "ilike_escape" then " ILIKE " else " LIKE "

abbrev pub like_text : Duck → String → Expr × Printed → Expr × Printed → Printed
like_text d name (haystack, h) (needle, n) =
    let needle_str = if is_escape name then n else func_arg_to_like_string d name needle in
    if not (is_varchar haystack)
    then unsupported
    else then_printed h
        (λ s. then_printed needle_str (λ t. printed (s ++ (like_operator name ++ t))))

unfoldable pub func_to_like_string : Duck → String → Args → Printed
func_to_like_string d name (h ∷ n ∷ []) = like_text d name h n
func_to_like_string d name (h ∷ n ∷ e ∷ []) =
    then_printed (like_text d name h n) (λ s. with_escape s e.1)
func_to_like_string d name _ = unsupported

-- lower and upper take the first argument; DuckDB's binder gives them one.
abbrev pub case_text : String → Args → Printed
case_text name [] = unsupported
case_text name (a ∷ as') = then_printed a.1 (λ s. printed (name ++ ("(" ++ (s ++ ")"))))

abbrev pub operator_text : String → Expr × Printed → Expr × Printed → Printed
operator_text name a b =
    if not (is_varchar a.0)
    then unsupported
    else then_printed a.1 (λ s.
      then_printed b.1 (λ t. printed (s ++ (" OPERATOR(pg_catalog." ++ (name ++ (") " ++ t))))))

abbrev pub pattern_text : String → Args → Printed
pattern_text name (a ∷ b ∷ []) = operator_text name a b
pattern_text name _ = unsupported

-- The BOUND_FUNCTION case
unfoldable pub function_to_string : Duck → String → Bool → Args → Printed
unfolding func_to_like_string
function_to_string d name is_operator args =
    if is_like name
    then func_to_like_string d name args
    else if is_case name
    then case_text name args
    else if is_pattern_operator name && is_operator
    then pattern_text name args
    else unsupported

-- The loop over the children of a conjunction; no child has an empty text.
unfoldable pub join_printed : String → String → Args → Printed
join_printed op so_far [] = printed so_far
join_printed op so_far (a ∷ rest) =
    then_printed a.1 (λ s.
      join_printed op (if so_far == "" then s else so_far ++ (" " ++ (op ++ (" " ++ s)))) rest)

abbrev pub lower_comparison : Bool → Comparison
lower_comparison inclusive = if inclusive then greater_equal else greater

abbrev pub upper_comparison : Bool → Comparison
upper_comparison inclusive = if inclusive then less_equal else less

abbrev pub between_text : Duck → Bool → Bool → String → String → String → String
between_text d lower_inclusive upper_inclusive i l u =
    "(("
    ++ (i
        ++ (" "
            ++ (d.operator (lower_comparison lower_inclusive)
                ++ (" "
                    ++ (l
                        ++ (") AND ("
                            ++ (i
                                ++ (" "
                                    ++ (d.operator (upper_comparison upper_inclusive)
                                        ++ (" " ++ (u ++ "))")))))))))))

abbrev pub constant_text : Duck → Constant → Printed
constant_text d null = printed "NULL"
constant_text d (varchar s) = printed (d.sql_string s)
constant_text d other_constant = unsupported

-- ExpressionToString
unfoldable mutual
  unfolding function_to_string join_printed

  pub expression_to_string : Duck → String → Expr → Printed
  expression_to_string d column (negation e) =
      then_printed (expression_to_string d column e) (λ s. printed ("NOT (" ++ (s ++ ")")))
  expression_to_string d column (is_null e) =
      then_printed (expression_to_string d column e) (λ s. printed ("(" ++ (s ++ ") IS NULL")))
  expression_to_string d column (is_not_null e) =
      then_printed (expression_to_string d column e) (λ s. printed ("(" ++ (s ++ ") IS NOT NULL")))
  expression_to_string d column (comparison op l r) =
      then_printed (expression_to_string d column l) (λ s.
        then_printed (expression_to_string d column r)
          (λ t. printed ("(" ++ (s ++ (" " ++ (d.operator op ++ (" " ++ (t ++ ")"))))))))
  expression_to_string d column (between lower_inclusive upper_inclusive input lower upper) =
      then_printed (expression_to_string d column input) (λ i.
        then_printed (expression_to_string d column lower) (λ l.
          then_printed (expression_to_string d column upper)
            (λ u. printed (between_text d lower_inclusive upper_inclusive i l u))))
  expression_to_string d column (conjunction is_or es) =
      then_printed (join_printed (d.conjunction_operator is_or) "" (arguments d column es))
        (λ s. printed ("(" ++ (s ++ ")")))
  expression_to_string d column (function name is_operator v es) =
      function_to_string d name is_operator (arguments d column es)
  expression_to_string d column (column_ref v) = printed column
  expression_to_string d column (constant v c) = constant_text d c
  expression_to_string d column (other v) = unsupported

  pub arguments : Duck → String → Exprs → Args
  arguments d column no_exprs = []
  arguments d column (expr e es) = (e, expression_to_string d column e) ∷ arguments d column es

abbrev pub is_printed : Printed → Bool
is_printed (printed s) = true
is_printed _ = false

-- PostgresScanPushdownExpression
unfoldable pub pushdown_expression : Duck → Expr → Bool
unfolding expression_to_string
pushdown_expression d e = is_printed (expression_to_string d "dummy" e)
