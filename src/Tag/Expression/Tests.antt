-- ===== src/Tag/Expression/Tests.antt =====
-- The expression language at a concrete text, `1 + 2 * ${a} < 9 && !(${b} == true)`, and the
-- theorems about it there.
use iot_edge.Prelude.{
  ℕ, ◌≡◌, refl, some, none, ok, [], ◌∷◌, Bool, true, false, pos, Option, All, if◌then◌else◌, ◌==◌,
}
use iot_edge.Value.{Value}
use iot_edge.Value.Float.{Arithmetic}
use iot_edge.Value.Text.{Text, codes}
use iot_edge.Tag.Expression.Token.{
  Node, literal, unary, binary, and_op, lt_op, add_op, mul_op, not_op, eq_op,
}
use iot_edge.Tag.Expression.Lexer.{lex_expression}
use iot_edge.Tag.Expression.Parser.{Expression, contains, parse_expression}
use iot_edge.Tag.Expression.Progress.{IsConstant}
use iot_edge.Tag.Expression.Stream.{LexOutcome, lex_expression-LexOutcome}
use iot_edge.Tag.Expression.Whole.{ParseOutcome, parse_expression-ParseOutcome}
use iot_edge.Tag.Expression.Eval.{Resolver, Evaluator, eval, evaluate}
use iot_edge.Tag.Expression.Soundness.{parse_evaluate-IsConstant}
use iot_edge.Tag.Expression.Meaning.{meaning, evaluate-eq-meaning}
use iot_edge.Tag.Expression.Asked.{NoRepeat, parse_eval-asked}

-- Whole numbers in place of rounding: it only serves to run the code.
abbrev whole : Arithmetic
whole = record {
  add = λ a b. a;
  sub = λ a b. a;
  mul = λ a b. b;
  div = λ a b. a;
  fmod = λ a b. a;
  of_int = λ z. 0;
  widen = λ a. a;
  narrow = λ a. a;
  trunc = λ a. a;
  to_int = λ a. pos 0;
  parse_float = first_digit;
}
  where
    first_digit : Text → Option ℕ
    first_digit [] = none
    first_digit (c ∷ s) = some c

-- Reads an id of one letter.
abbrev letter_id : Text → Option ℕ
letter_id [] = none
letter_id (c ∷ s) = some c

abbrev text : Text
text = codes "1 + 2 * ${a} < 9 && !(${b} == true)"

abbrev tree : Expression
tree = record {
  root =
      binary and_op
        (binary lt_op
          (binary add_op (literal (Value.float64 b'1'))
            (binary mul_op (literal (Value.float64 b'2')) (Node.reference b'a')))
          (literal (Value.float64 b'9')))
        (unary not_op (binary eq_op (Node.reference b'b') (literal (Value.bool true))));
  dependencies = b'a' ∷ b'b' ∷ [];
}

abbrev tags : Resolver
tags id =
    if id == b'a'
    then some (Value.uint16 5)
    else if id == b'b'
    then some (Value.bool false)
    else none

abbrev never : ℕ → Bool
never n = false

text_parses : parse_expression whole letter_id text ≡ ok tree
unfolding parse_expression
text_parses = refl

tree_evaluates : evaluate whole never (some tags) tree ≡ ok (Value.bool true)
unfolding evaluate
tree_evaluates = refl

abbrev finished : Evaluator
finished = record {
  cache = (b'b', Value.bool false) ∷ (b'a', Value.float64 0) ∷ [];
  polls = 12;
  asked = b'b' ∷ b'a' ∷ [];
}

tree_asks :
    eval whole never (some tags) tree.root (record { cache = []; polls = 0; asked = [] })
    ≡ ok (Value.bool true, finished)
unfolding eval
tree_asks = refl

lex_expression-LexOutcome_example : LexOutcome (lex_expression whole letter_id text)
lex_expression-LexOutcome_example = lex_expression-LexOutcome whole letter_id text

parse_expression-ParseOutcome_example : ParseOutcome (parse_expression whole letter_id text)
parse_expression-ParseOutcome_example = parse_expression-ParseOutcome whole letter_id text

parse_evaluate-IsConstant_example : IsConstant (Value.bool true)
parse_evaluate-IsConstant_example =
    parse_evaluate-IsConstant whole letter_id never (some tags) text text_parses tree_evaluates

evaluate-eq-meaning_example :
    evaluate whole never (some tags) tree ≡ meaning whole never tags tree.root
evaluate-eq-meaning_example = evaluate-eq-meaning whole never tags (λ n. refl) tree

parse_eval-asked_example :
    NoRepeat finished.asked × All (λ id. contains tree.dependencies id ≡ true) finished.asked
parse_eval-asked_example =
    parse_eval-asked whole letter_id never (some tags) text text_parses tree_asks
