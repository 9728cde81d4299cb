-- ===== src/Tag/Expression/Token.antt =====
-- backend/internal/tag/expression.go: tokens, syntax trees and errors. Error texts are left out; a
-- syntax error keeps its position.
use iot_edge.Prelude.{ℕ, Bool, ◌&&◌, ◌||◌, leb, ◌==◌}
use iot_edge.Value.{Value}

abbrev pub max_expression_length : ℕ
max_expression_length = 2048

abbrev pub max_expression_tokens : ℕ
max_expression_tokens = 256

abbrev pub max_expression_depth : ℕ
max_expression_depth = 32

abbrev pub max_expression_dependencies : ℕ
max_expression_dependencies = 32

-- `out_of_range` is Go's panic on an index out of range, and `diverged` a loop of the model that is
-- out of fuel.
pub data ExpressionError : Type 0 where
  required too_complex evaluation reference out_of_range diverged : ExpressionError
  invalid_at : ℕ → ExpressionError

pub data Operator : Type 0 where
  or_op and_op eq_op ne_op lt_op le_op gt_op ge_op add_op sub_op mul_op div_op mod_op not_op :
      Operator

-- The source compares the operators' texts, which differ.
abbrev pub operator_code : Operator → ℕ
operator_code or_op = 0
operator_code and_op = 1
operator_code eq_op = 2
operator_code ne_op = 3
operator_code lt_op = 4
operator_code le_op = 5
operator_code gt_op = 6
operator_code ge_op = 7
operator_code add_op = 8
operator_code sub_op = 9
operator_code mul_op = 10
operator_code div_op = 11
operator_code mod_op = 12
operator_code not_op = 13

abbrev pub operator_eq : Operator → Operator → Bool
operator_eq a b = operator_code a == operator_code b

-- `tokenKind`, with the payload that the kind has.
pub data TokenKind : Type 0 where
  eof true_word false_word left_parenthesis right_parenthesis : TokenKind
  number : ℕ → TokenKind
  reference : ℕ → TokenKind
  operator : Operator → TokenKind

pub record Token : Type 0 where
  pub kind : TokenKind
  pub position : ℕ

-- `expressionNode`
pub data Node : Type 0 where
  literal : Value → Node
  reference : ℕ → Node
  unary : Operator → Node → Node
  binary : Operator → Node → Node → Node

unfoldable pub is_digit : ℕ → Bool
is_digit c = leb b'0' c && leb c b'9'

unfoldable pub is_alpha : ℕ → Bool
is_alpha c = (leb b'a' c && leb c b'z') || (leb b'A' c && leb c b'Z')
