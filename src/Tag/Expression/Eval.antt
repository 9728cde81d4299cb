-- ===== src/Tag/Expression/Eval.antt =====
-- backend/internal/tag/expression.go: `expressionEvaluator`. The n-th reading of `ctx.Err()` is
-- `cancelled_at n`; the resolver is a function of the tag's id; float64 arithmetic is a parameter.
use iot_edge.Prelude.{
  ℕ, ◌+◌, Bool, true, false, ◌||◌, ◌&&◌, not, Option, none, some, List, [], ◌∷◌, ◌==◌,
  if◌then◌else◌, pos, Result, ok, err, ◌>>=◌,
}
use iot_edge.Value.{Value}
use iot_edge.Value.Float.{Arithmetic, is_finite64, float_eq, float_lt, float_le, float_neg}
use iot_edge.Tag.Expression.Token.{
  Operator, or_op, and_op, eq_op, ne_op, lt_op, le_op, gt_op, ge_op, add_op, sub_op, mul_op, div_op,
  mod_op, not_op, Node, literal, unary, binary,
}
use iot_edge.Tag.Expression.Parser.{Expression}

-- A context's error, a failed reference, or a failed operation.
pub data EvaluationError : Type 0 where
  context_done evaluation reference : EvaluationError

abbrev pub Resolver : Type 0
Resolver = ℕ → Option Value

-- `asked` is the trace of the resolver's calls, the last one first.
pub record Evaluator : Type 0 where
  pub cache : List (ℕ × Value)
  pub polls : ℕ
  pub asked : List ℕ

abbrev pub lookup : ℕ → List (ℕ × Value) → Option Value
lookup id [] = none
lookup id ((k, v) ∷ m) = if k == id then some v else lookup id m

module _ (arithmetic : Arithmetic) where
  -- `expressionNumber`: the float64 of any number.
  unfoldable pub expression_number : Value → Option ℕ
  expression_number (Value.int z) = some (arithmetic.of_int z)
  expression_number (Value.int8 z) = some (arithmetic.of_int z)
  expression_number (Value.int16 z) = some (arithmetic.of_int z)
  expression_number (Value.int32 z) = some (arithmetic.of_int z)
  expression_number (Value.int64 z) = some (arithmetic.of_int z)
  expression_number (Value.uint n) = some (arithmetic.of_int (pos n))
  expression_number (Value.uint8 n) = some (arithmetic.of_int (pos n))
  expression_number (Value.uint16 n) = some (arithmetic.of_int (pos n))
  expression_number (Value.uint32 n) = some (arithmetic.of_int (pos n))
  expression_number (Value.uint64 n) = some (arithmetic.of_int (pos n))
  expression_number (Value.float32 b) = some (arithmetic.widen b)
  expression_number (Value.float64 b) = some b
  expression_number _ = none

  unfoldable pub finite_expression_result : ℕ → Result EvaluationError Value
  unfolding is_finite64
  finite_expression_result b = if is_finite64 b then ok (Value.float64 b) else err evaluation

  unfoldable pub normalize_number : Option ℕ → Result EvaluationError Value
  unfolding finite_expression_result
  normalize_number none = err evaluation
  normalize_number (some b) = finite_expression_result b

  -- `normalizeExpressionValue`
  unfoldable pub normalize_expression_value : Value → Result EvaluationError Value
  unfolding normalize_number expression_number
  normalize_expression_value (Value.bool b) = ok (Value.bool b)
  normalize_expression_value v = normalize_number (expression_number v)

  unfoldable pub bool_of : Value → Result EvaluationError Bool
  bool_of (Value.bool b) = ok b
  bool_of _ = err evaluation

  unfoldable pub number_of : Value → Result EvaluationError ℕ
  unfolding expression_number
  number_of v = elim (expression_number v) [ none ↦ err evaluation | some b ↦ ok b ]

  unfoldable pub is_bool : Value → Bool
  is_bool (Value.bool b) = true
  is_bool _ = false

  abbrev same_bool : Bool → Bool → Bool
  same_bool true b = b
  same_bool false b = not b

  unfoldable pub expression_values_equal : Value → Value → Result EvaluationError Bool
  unfolding bool_of number_of is_bool float_eq
  expression_values_equal left right =
      if is_bool left || is_bool right
      then (bool_of left >>= λ a. bool_of right >>= λ b. ok (same_bool a b))
      else (number_of left >>= λ a. number_of right >>= λ b. ok (float_eq a b))

  unfoldable pub apply_unary : Operator → Value → Result EvaluationError Value
  unfolding bool_of number_of float_neg
  apply_unary not_op v = bool_of v >>= λ b. ok (Value.bool (not b))
  apply_unary add_op v = number_of v >>= λ b. ok (Value.float64 b)
  apply_unary sub_op v = number_of v >>= λ b. ok (Value.float64 (float_neg b))
  apply_unary _ v = err evaluation

  -- `rightNumber == 0`
  abbrev pub is_zero : ℕ → Bool
  is_zero b = float_eq b 0

  unfoldable pub apply_numeric : Operator → ℕ → ℕ → Result EvaluationError Value
  unfolding finite_expression_result float_eq float_lt float_le
  apply_numeric add_op a b = finite_expression_result (arithmetic.add a b)
  apply_numeric sub_op a b = finite_expression_result (arithmetic.sub a b)
  apply_numeric mul_op a b = finite_expression_result (arithmetic.mul a b)
  apply_numeric div_op a b =
      if is_zero b then err evaluation else finite_expression_result (arithmetic.div a b)
  apply_numeric mod_op a b =
      if is_zero b then err evaluation else finite_expression_result (arithmetic.fmod a b)
  apply_numeric lt_op a b = ok (Value.bool (float_lt a b))
  apply_numeric le_op a b = ok (Value.bool (float_le a b))
  apply_numeric gt_op a b = ok (Value.bool (float_lt b a))
  apply_numeric ge_op a b = ok (Value.bool (float_le b a))
  apply_numeric _ a b = err evaluation

  -- The operators that need both operands, once both are known.
  unfoldable pub apply_binary : Operator → Value → Value → Result EvaluationError Value
  unfolding expression_values_equal number_of apply_numeric
  apply_binary eq_op left right = expression_values_equal left right >>= λ b. ok (Value.bool b)
  apply_binary ne_op left right =
      expression_values_equal left right >>= λ b. ok (Value.bool (not b))
  apply_binary o left right = number_of left >>= λ a. number_of right >>= λ b. apply_numeric o a b

  abbrev pub is_logical : Operator → Bool
  is_logical and_op = true
  is_logical or_op = true
  is_logical _ = false

  -- The value of the left operand that settles `&&` or `||`.
  abbrev pub settles : Operator → Bool → Bool
  settles and_op b = not b
  settles _ b = b

  abbrev pub combine : Operator → Bool → Bool → Bool
  combine and_op a b = a && b
  combine _ a b = a || b

  module _ (cancelled_at : ℕ → Bool) (resolver : Option Resolver) where
    -- `evaluator.ctx.Err()`
    unfoldable pub poll : Evaluator → Result EvaluationError Evaluator
    poll s =
        if cancelled_at s.polls then err context_done else ok (record s { polls = s.polls + 1 })

    unfoldable pub keep :
        ℕ → Evaluator → Result EvaluationError Value → Result EvaluationError (Value × Evaluator)
    keep id s (ok v) = ok (v, record s { cache = (id, v) ∷ s.cache; asked = id ∷ s.asked })
    keep id s (err e) = err reference

    abbrev pub resolved : Option Value → Result EvaluationError Value
    resolved none = err reference
    resolved (some v) = normalize_expression_value v

    unfoldable pub resolve :
        ℕ → Option Resolver → Evaluator → Result EvaluationError (Value × Evaluator)
    unfolding keep normalize_expression_value
    resolve id none s = err reference
    resolve id (some r) s = keep id s (resolved (r id))

    unfoldable pub evaluate_reference : ℕ → Evaluator → Result EvaluationError (Value × Evaluator)
    unfolding resolve
    evaluate_reference id s = elim (lookup id s.cache) [
      | some v ↦ ok (v, s)
      | none ↦ resolve id resolver s
    ]

    -- `&&` and `||`: the right operand is taken only where the left one does not settle the value.
    unfoldable pub logical :
        Operator
        → Bool
        → Evaluator
        → Result EvaluationError (Value × Evaluator)
        → Result EvaluationError (Value × Evaluator)
    unfolding bool_of
    logical o a s right =
        if settles o a
        then ok (Value.bool a, s)
        else (right >>= λ (v, s'). bool_of v >>= λ b. ok (Value.bool (combine o a b), s'))

    unfoldable pub eval : Node → Evaluator → Result EvaluationError (Value × Evaluator)
    unfolding poll evaluate_reference apply_unary apply_binary logical
    eval (literal v) s = poll s >>= λ s1. ok (v, s1)
    eval (Node.reference id) s = poll s >>= λ s1. evaluate_reference id s1
    eval (unary o n) s =
        poll s >>= λ s1. eval n s1 >>= λ (v, s2). apply_unary o v >>= λ r. ok (r, s2)
    eval (binary o l r) s = poll s >>= λ s1. eval l s1 >>= λ (left, s2).
        let right = eval r s2 in
        if is_logical o
        then (bool_of left >>= λ a. logical o a s2 right)
        else (right >>= λ (v, s3). apply_binary o left v >>= λ w. ok (w, s3))

    -- `Expression.Evaluate`
    unfoldable pub evaluate : Expression → Result EvaluationError Value
    unfolding eval
    evaluate e = eval e.root (record { cache = []; polls = 0; asked = [] }) >>= λ (v, s). ok v
