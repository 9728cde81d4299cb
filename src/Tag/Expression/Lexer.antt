-- ===== src/Tag/Expression/Lexer.antt =====
-- backend/internal/tag/expression.go: `lexExpression` and its scanners. The lexer's index is kept as
-- the bytes that are left. `uuid.Parse` and `strconv.ParseFloat` are parameters.
use iot_edge.Prelude.{
  ℕ, zero, suc, ◌+◌, ◌-◌, Bool, true, false, ◌&&◌, ◌||◌, Option, none, some, List, [], ◌∷◌, ◌++◌,
  length, take, drop, leb, ◌==◌, if◌then◌else◌, Result, ok, err, ◌>>=◌,
}
use iot_edge.Value.Float.{Arithmetic, is_finite64}
use iot_edge.Value.Text.{Text, codes, is_space, text_eq}
use iot_edge.Tag.Expression.Token.{
  ExpressionError, too_complex, invalid_at, diverged, Operator, or_op, and_op, eq_op, ne_op, lt_op,
  le_op, gt_op, ge_op, add_op, sub_op, mul_op, div_op, mod_op, not_op, TokenKind, eof, true_word,
  false_word, left_parenthesis, right_parenthesis, number, operator, Token, is_digit, is_alpha,
  max_expression_tokens,
}

unfoldable pub drop_while : (ℕ → Bool) → Text → Text
drop_while p [] = []
drop_while p (c ∷ r) = if p c then drop_while p r else c ∷ r

-- The bytes from the start of `whole` up to `rest`.
abbrev pub consumed : Text → Text → Text
consumed whole rest = take (length whole - length rest) whole

unfoldable pub starts_with : Text → Text → Bool
starts_with [] s = true
starts_with (c ∷ p) [] = false
starts_with (c ∷ p) (d ∷ s) = (c == d) && starts_with p s

abbrev pub two_byte_operators : List (Text × Operator)
two_byte_operators =
    (codes "&&", and_op)
    ∷ (codes "||", or_op)
    ∷ (codes "==", eq_op)
    ∷ (codes "!=", ne_op)
    ∷ (codes "<=", le_op)
    ∷ (codes ">=", ge_op)
    ∷ []

abbrev pub one_byte_operators : List (Text × Operator)
one_byte_operators =
    (codes "+", add_op)
    ∷ (codes "-", sub_op)
    ∷ (codes "*", mul_op)
    ∷ (codes "/", div_op)
    ∷ (codes "%", mod_op)
    ∷ (codes "!", not_op)
    ∷ (codes "<", lt_op)
    ∷ (codes ">", gt_op)
    ∷ []

-- The first operator of a list that the text starts with, and the text after it.
unfoldable pub match_operator : List (Text × Operator) → Text → Option (Operator × Text)
unfolding starts_with
match_operator [] s = none
match_operator ((p, o) ∷ ops) s =
    if starts_with p s then some (o, drop (length p) s) else match_operator ops s

abbrev Scan : Type 0
Scan = Result ExpressionError (TokenKind × Text)

unfoldable pub scan_operator : ℕ → Text → Scan
unfolding match_operator
scan_operator position s = elim (match_operator (two_byte_operators ++ one_byte_operators) s) [
  | some (o, rest) ↦ ok (operator o, rest)
  | none ↦ err (invalid_at (position + 1))
]

unfoldable pub scan_keyword : ℕ → Text → Scan
unfolding drop_while is_alpha
scan_keyword position s =
    let rest = drop_while is_alpha s in
    let word = consumed s rest in
    if text_eq word (codes "true")
    then ok (true_word, rest)
    else if text_eq word (codes "false")
    then ok (false_word, rest)
    else err (invalid_at (position + 1))

-- The optional fraction of a number: a point, and any digits.
unfoldable pub skip_fraction : Text → Text
unfolding drop_while is_digit
skip_fraction [] = []
skip_fraction (c ∷ r) = if c == b'.' then drop_while is_digit r else c ∷ r

unfoldable pub skip_sign : Text → Text
skip_sign [] = []
skip_sign (c ∷ r) = if (c == b'+') || (c == b'-') then r else c ∷ r

-- The optional exponent, which must have a digit.
unfoldable pub skip_exponent : ℕ → Text → Result ExpressionError Text
unfolding drop_while is_digit skip_sign
skip_exponent position [] = ok []
skip_exponent position (c ∷ r) =
    if (c == b'e') || (c == b'E')
    then (let digits = skip_sign r in
        let rest = drop_while is_digit digits in
        if length rest == length digits then err (invalid_at (position + 1)) else ok rest)
    else ok (c ∷ r)

-- Splits at the first `}`.
unfoldable pub split_brace : Text → Option (Text × Text)
split_brace [] = none
split_brace (c ∷ r) =
    let rest = split_brace r in
    if c == b'}'
    then some ([], r)
    else elim rest [ none ↦ none | some (before, after) ↦ some (c ∷ before, after) ]

abbrev pub accept_number : ℕ → Text → Option ℕ → Scan
accept_number position rest none = err (invalid_at (position + 1))
accept_number position rest (some bits) =
    if is_finite64 bits then ok (number bits, rest) else err (invalid_at (position + 1))

abbrev pub accept_reference : ℕ → Text → Option ℕ → Scan
accept_reference position rest none = err (invalid_at (position + 1))
accept_reference position rest (some id) =
    if id == 0 then err (invalid_at (position + 1)) else ok (TokenKind.reference id, rest)

abbrev pub starts_number : ℕ → Text → Bool
starts_number c [] = is_digit c
starts_number c (d ∷ r) = is_digit c || ((c == b'.') && is_digit d)

-- `lexer.append`
unfoldable pub append_token : List Token → Token → Result ExpressionError (List Token)
append_token tokens t =
    if leb max_expression_tokens (length tokens) then err too_complex else ok (tokens ++ t ∷ [])

module _ (arithmetic : Arithmetic) (parse_uuid : Text → Option ℕ) where
  unfoldable pub scan_number : ℕ → Text → Scan
  unfolding drop_while is_digit skip_fraction skip_exponent is_finite64
  scan_number position s =
      skip_exponent position (skip_fraction (drop_while is_digit s)) >>= λ rest.
      accept_number position rest (arithmetic.parse_float (consumed s rest))

  unfoldable pub scan_braces : ℕ → Option (Text × Text) → Scan
  scan_braces position none = err (invalid_at (position + 1))
  scan_braces position (some (inner, rest)) = accept_reference position rest (parse_uuid inner)

  unfoldable pub scan_reference : ℕ → Text → Scan
  unfolding scan_braces split_brace
  scan_reference position [] = err (invalid_at (position + 1))
  scan_reference position (c ∷ s) =
      if c == b'{' then scan_braces position (split_brace s) else err (invalid_at (position + 1))

  -- One round of the loop, at a byte that is no space.
  unfoldable pub scan_token : ℕ → ℕ → Text → Scan
  unfolding scan_number scan_keyword scan_reference scan_operator is_digit is_alpha
  scan_token position c r =
      if starts_number c r
      then scan_number position (c ∷ r)
      else if is_alpha c
      then scan_keyword position (c ∷ r)
      else if c == b'$'
      then scan_reference position r
      else if c == b'('
      then ok (left_parenthesis, r)
      else if c == b')'
      then ok (right_parenthesis, r)
      else scan_operator position (c ∷ r)

  -- The loop, over the bytes left of `size`; every round takes one or more.
  unfoldable pub lex_loop : ℕ → ℕ → List Token → Text → Result ExpressionError (List Token)
  unfolding scan_token append_token is_space
  lex_loop zero size tokens s = err diverged
  lex_loop (suc fuel) size tokens [] = ok (tokens ++ (record { kind = eof; position = size }) ∷ [])
  lex_loop (suc fuel) size tokens (c ∷ r) =
      let position = size - suc (length r) in
      let skip = lex_loop fuel size tokens r in
      let scan = scan_token position c r >>= λ (kind, rest).
      append_token tokens (record { kind = kind; position = position }) >>= λ tokens'.
      lex_loop fuel size tokens' rest in
      if is_space c then skip else scan

  unfoldable pub lex_expression : Text → Result ExpressionError (List Token)
  unfolding lex_loop
  lex_expression raw = lex_loop (suc (length raw)) (length raw) [] raw
