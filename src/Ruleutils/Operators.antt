-- ===== src/Ruleutils/Operators.antt =====
-- The texts of operators and of the percentage of a sample, which the deparser asks for:
-- `pg_duckdb_get_oper_expr_*` and `pgduckdb_add_tablesample_percent`.
use Prim.Native.String.{String}
use mathlib.Core.List.{append_assoc}
use pg_duckdb.Common.{
  ℕ, Bool, true, false, not, ◌&&◌, ◌||◌, ◌==◌, Option, none, some, [], ◌++◌, ◌≡◌, if◌then◌else◌,
}
use pg_duckdb.Worker.Sync.{Text}
use pg_duckdb.Worker.Sync.Loop.{eq_text}
use pg_duckdb.Sql.{lit, Result, ok, err, unexpected_like_function}

-- The right side of an operator, deparsed: a function call, with the function's name and its first two
-- arguments, or another expression.
pub data Operand : Type 0 where
  func_expr : (text name first second : Text) → Operand
  other_expr : Text → Operand

-- PGDuckDBGetOperExprContext; `none` is a null pointer.
pub record OperContext : Type 0 where
  pub pg_op_name : Text
  pub duckdb_op_name : Option Text
  pub escape_pattern : Text
  pub is_likeish_op : Bool
  pub is_negated : Bool

abbrev likeish : Text → String → Bool → OperContext
likeish op_name duckdb_name is_negated = record {
  pg_op_name = op_name;
  duckdb_op_name = some (lit duckdb_name);
  escape_pattern = lit "'\\'";
  is_likeish_op = true;
  is_negated = is_negated;
}

unfoldable pub oper_context : Text → OperContext
oper_context op_name =
    if eq_text op_name (lit "~~")
    then likeish op_name "LIKE" false
    else if eq_text op_name (lit "~~*")
    then likeish op_name "ILIKE" false
    else if eq_text op_name (lit "!~~")
    then likeish op_name "LIKE" true
    else if eq_text op_name (lit "!~~*")
    then likeish op_name "ILIKE" true
    else record {
      pg_op_name = op_name;
      duckdb_op_name = none;
      escape_pattern = lit "'\\'";
      is_likeish_op = false;
      is_negated = false;
    }

abbrev operand_text : Operand → Text
operand_text (func_expr text name first second) = text
operand_text (other_expr t) = t

abbrev with_operand : OperContext → Operand → Result (OperContext × Text)
with_operand c (other_expr t) = ok (c, t)
with_operand c (func_expr text name first second) =
    if eq_text name (lit "like_escape") || eq_text name (lit "ilike_escape")
    then ok (record c { escape_pattern = second }, first)
    else err unexpected_like_function

-- pg_duckdb_get_oper_expr_make_ctx, with the operand that it leaves
unfoldable pub make_oper_context : Text → Operand → Result (OperContext × Text)
unfolding oper_context
make_oper_context op_name o =
    let c = oper_context op_name in
    if c.is_likeish_op then with_operand c o else ok (c, operand_text o)

unfoldable pub oper_prefix : OperContext → Text
oper_prefix c = if c.is_likeish_op && c.is_negated then lit "NOT (" else []

unfoldable pub oper_middle : OperContext → Text
oper_middle c =
    lit " " ++ (elim c.duckdb_op_name [ none ↦ c.pg_op_name | some name ↦ name ]) ++ lit " "

unfoldable pub oper_suffix : OperContext → Text
oper_suffix c =
    if c.is_likeish_op
    then lit " ESCAPE " ++ c.escape_pattern ++ (if c.is_negated then lit ")" else [])
    else []

-- The operator between its sides, as the deparser composes it.
abbrev pub oper_text : OperContext → Text → Text → Text
oper_text c left right = oper_prefix c ++ left ++ oper_middle c ++ right ++ oper_suffix c

-- is_system_sampling and is_bernoulli_sampling; `same_name` is pg_strcasecmp.
unfoldable pub is_percent_sampling : (same_name : Text → Text → Bool) → Text → ℕ → Bool
is_percent_sampling same_name tsm_name num_args =
    (same_name tsm_name (lit "system") && num_args == 1)
    || (same_name tsm_name (lit "bernoulli") && num_args == 1)

-- pgduckdb_add_tablesample_percent
unfoldable pub add_tablesample_percent : (same_name : Text → Text → Bool) → Text → ℕ → Text → Text
unfolding is_percent_sampling
add_tablesample_percent same_name tsm_name num_args buf =
    if not (is_percent_sampling same_name tsm_name num_args) then buf else buf ++ lit "%"

-- A negated LIKE or ILIKE is printed as the plain one within NOT ( ).
oper_text-negated :
    (c : OperContext) (left right : Text)
    → c.is_likeish_op ≡ true
    → oper_text (record c { is_negated = true }) left right
      ≡ lit "NOT (" ++ (oper_text (record c { is_negated = false }) left right ++ lit ")")
unfolding oper_prefix oper_middle oper_suffix
oper_text-negated c left right h = simp (h, append_assoc)
