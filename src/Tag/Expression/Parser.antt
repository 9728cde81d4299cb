-- ===== src/Tag/Expression/Parser.antt =====
-- backend/internal/tag/expression.go: `expressionParser` and `ParseExpression`. The parser's index is
-- kept as the tokens that are left. Its set of dependencies holds what its list of them holds.
-- Recursion is on the nesting that is left, which `enterDepth` bounds.
use iot_edge.Prelude.{
  ℕ, zero, suc, ◌+◌, ◌-◌, Bool, true, false, ◌||◌, Option, none, some, List, [], ◌∷◌, ◌++◌, length,
  leb, ltb, ◌==◌, if◌then◌else◌, Result, ok, err, ◌>>=◌, ◌>>◌, fail_if,
}
use iot_edge.Value.{Value}
use iot_edge.Value.Float.{Arithmetic}
use iot_edge.Value.Text.{Text, is_empty}
use iot_edge.Tag.Expression.Token.{
  ExpressionError, required, too_complex, invalid_at, out_of_range, diverged, Operator, operator_eq,
  or_op, and_op, eq_op, ne_op, lt_op, le_op, gt_op, ge_op, add_op, sub_op, mul_op, div_op, mod_op,
  not_op, TokenKind, eof, true_word, false_word, left_parenthesis, right_parenthesis, number,
  operator, Token, Node, literal, unary, binary, max_expression_length, max_expression_depth,
  max_expression_dependencies,
}
use iot_edge.Tag.Expression.Lexer.{lex_expression}

pub record ParserState : Type 0 where
  pub rest : List Token
  pub depth : ℕ
  pub dependencies : List ℕ

abbrev pub Parsed : Type 0
Parsed = Result ExpressionError (Node × ParserState)

abbrev pub contains : List ℕ → ℕ → Bool
contains [] id = false
contains (x ∷ xs) id = (x == id) || contains xs id

abbrev pub tail : List Token → List Token
tail [] = []
tail (t ∷ r) = r

abbrev pub advance : ParserState → ParserState
advance s = record s { rest = tail s.rest }

-- `parser.depth--`, after `enterDepth` has raised it
abbrev pub leave_depth : ParserState → ParserState
leave_depth s = record s { depth = s.depth - 1 }

-- An index past the last token panics.
abbrev pub first_token : List Token → Result ExpressionError Token
first_token [] = err out_of_range
first_token (t ∷ r) = ok t

unfoldable pub current : ParserState → Result ExpressionError Token
current s = first_token s.rest

unfoldable pub enter_depth : ParserState → Result ExpressionError ParserState
enter_depth s =
    if ltb max_expression_depth (s.depth + 1)
    then err too_complex
    else ok (record s { depth = s.depth + 1 })

abbrev pub operator_in : List Operator → Operator → Bool
operator_in [] o = false
operator_in (p ∷ ps) o = operator_eq o p || operator_in ps o

abbrev pub matched : List Operator → ParserState → TokenKind → Option Operator × ParserState
matched ops s (operator o) = if operator_in ops o then (some o, advance s) else (none, s)
matched ops s _ = (none, s)

-- `matchesOperator`, with the operator that `previous` would then give.
unfoldable pub matches_operator :
    List Operator → ParserState → Result ExpressionError (Option Operator × ParserState)
unfolding current
matches_operator ops s = current s >>= λ t. ok (matched ops s t.kind)

-- The loop of `parseBinary`; every round takes a token.
unfoldable pub binary_loop :
    ℕ → (ParserState → Parsed) → List Operator → Node → ParserState → Parsed
unfolding matches_operator
binary_loop zero next ops left s = err diverged
binary_loop (suc fuel) next ops left s = matches_operator ops s >>= λ (found, s1). elim found [
  | none ↦ ok (left, s1)
  | some o ↦ next s1 >>= λ (right, s2). binary_loop fuel next ops (binary o left right) s2
]

unfoldable pub parse_binary : (ParserState → Parsed) → List Operator → ParserState → Parsed
unfolding binary_loop
parse_binary next ops s =
    next s >>= λ (left, s1). binary_loop (suc (length s1.rest)) next ops left s1

abbrev pub factor_operators : List Operator
factor_operators = mul_op ∷ div_op ∷ mod_op ∷ []

abbrev pub term_operators : List Operator
term_operators = add_op ∷ sub_op ∷ []

abbrev pub comparison_operators : List Operator
comparison_operators = lt_op ∷ le_op ∷ gt_op ∷ ge_op ∷ []

abbrev pub equality_operators : List Operator
equality_operators = eq_op ∷ ne_op ∷ []

-- The six levels, from `parseFactor` up to `parseOr`, over `parseUnary`.
unfoldable pub parse_factor : (ParserState → Parsed) → ParserState → Parsed
unfolding parse_binary
parse_factor unary_level = parse_binary unary_level factor_operators

unfoldable pub parse_term : (ParserState → Parsed) → ParserState → Parsed
unfolding parse_factor
parse_term unary_level = parse_binary (parse_factor unary_level) term_operators

unfoldable pub parse_comparison : (ParserState → Parsed) → ParserState → Parsed
unfolding parse_term
parse_comparison unary_level = parse_binary (parse_term unary_level) comparison_operators

unfoldable pub parse_equality : (ParserState → Parsed) → ParserState → Parsed
unfolding parse_comparison
parse_equality unary_level = parse_binary (parse_comparison unary_level) equality_operators

unfoldable pub parse_and : (ParserState → Parsed) → ParserState → Parsed
unfolding parse_equality
parse_and unary_level = parse_binary (parse_equality unary_level) (and_op ∷ [])

unfoldable pub parse_or : (ParserState → Parsed) → ParserState → Parsed
unfolding parse_and
parse_or unary_level = parse_binary (parse_and unary_level) (or_op ∷ [])

-- `dependencySet` and `dependencies` at a reference.
unfoldable pub add_dependency : ℕ → ParserState → Result ExpressionError ParserState
add_dependency id s =
    if contains s.dependencies id
    then ok s
    else if leb max_expression_dependencies (length s.dependencies)
    then err too_complex
    else ok (record s { dependencies = s.dependencies ++ id ∷ [] })

unfoldable pub close_parenthesis : Node → ParserState → TokenKind → ℕ → Parsed
close_parenthesis node s right_parenthesis position = ok (node, advance s)
close_parenthesis node s _ position = err (invalid_at (position + 1))

-- The `switch` of `parsePrimary`; `nested` is `parseOr`.
unfoldable pub primary_of : (ParserState → Parsed) → ParserState → TokenKind → ℕ → Parsed
unfolding enter_depth current add_dependency close_parenthesis
primary_of nested s (number bits) position = ok (literal (Value.float64 bits), advance s)
primary_of nested s true_word position = ok (literal (Value.bool true), advance s)
primary_of nested s false_word position = ok (literal (Value.bool false), advance s)
primary_of nested s (TokenKind.reference id) position =
    add_dependency id (advance s) >>= λ s1. ok (Node.reference id, s1)
primary_of nested s left_parenthesis position = enter_depth (advance s) >>= λ s1.
    nested s1 >>= λ (node, s2).
    current (leave_depth s2) >>= λ t. close_parenthesis node (leave_depth s2) t.kind t.position
primary_of nested s _ position = err (invalid_at (position + 1))

unfoldable pub parse_primary : (ParserState → Parsed) → ParserState → Parsed
unfolding current primary_of
parse_primary nested s = current s >>= λ t. primary_of nested s t.kind t.position

abbrev pub unary_operators : List Operator
unary_operators = not_op ∷ add_op ∷ sub_op ∷ []

unfoldable pub parse_unary : ℕ → ParserState → Parsed
unfolding matches_operator enter_depth parse_primary parse_or
parse_unary zero s = err diverged
parse_unary (suc fuel) s = matches_operator unary_operators s >>= λ (found, s1). elim found [
  | none ↦ parse_primary (parse_or (parse_unary fuel)) s1
  | some o ↦ enter_depth s1 >>= λ s2.
      parse_unary fuel s2 >>= λ (operand, s3). ok (unary o operand, leave_depth s3)
]

pub record Expression : Type 0 where
  pub root : Node
  pub dependencies : List ℕ

abbrev pub is_eof : TokenKind → Bool
is_eof eof = true
is_eof _ = false

abbrev pub start : List Token → ParserState
start tokens = record { rest = tokens; depth = 0; dependencies = [] }

-- From the tokens on: the whole of them must be one expression.
unfoldable pub parse_tokens : List Token → Result ExpressionError Expression
unfolding parse_unary parse_or current
parse_tokens tokens =
    parse_or (parse_unary (suc max_expression_depth)) (start tokens) >>= λ (root, s).
    current s >>= λ t.
    if is_eof t.kind
    then ok (record { root = root; dependencies = s.dependencies })
    else err (invalid_at (t.position + 1))

module _ (arithmetic : Arithmetic) (parse_uuid : Text → Option ℕ) where
  unfoldable pub parse_expression : Text → Result ExpressionError Expression
  unfolding lex_expression parse_tokens
  parse_expression raw =
      fail_if (is_empty raw) required
      >> fail_if (ltb max_expression_length (length raw)) too_complex
      >> (lex_expression arithmetic parse_uuid raw >>= parse_tokens)

  -- `ValidateExpression`: the dependencies of an expression that parses.
  unfoldable pub validate_expression : Text → Result ExpressionError (List ℕ)
  unfolding parse_expression
  validate_expression raw = parse_expression raw >>= λ e. ok e.dependencies
