-- ===== src/Tag/Expression/Whole.antt =====
-- `ParseExpression` always ends, and what it returns is well formed.
use iot_edge.Prelude.{
  ℕ, ◌≤◌, ◌≡◌, refl, Bool, true, false, Option, List, [], length, ltb, Result, ok, err, ◌>>=◌, ◌>>◌,
  fail_if, >>=-elim, if-elim, arith,
}
use iot_edge.Value.Float.{Arithmetic}
use iot_edge.Value.Text.{Text, is_empty}
use iot_edge.Tag.Expression.Token.{ExpressionError, required, too_complex, Token, Node}
use iot_edge.Tag.Expression.Lexer.{lex_expression}
use iot_edge.Tag.Expression.Scan.{IsProper, IsStream}
use iot_edge.Tag.Expression.Stream.{LexOutcome, lex_expression-LexOutcome}
use iot_edge.Tag.Expression.Parser.{
  ParserState, current, parse_or, parse_unary, Expression, is_eof, start, parse_tokens,
  parse_expression,
}
use iot_edge.Tag.Expression.Progress.{
  collect, nesting, IsWellFormed, Outcome, first_token-IsStream, Outcome-err, Outcome-ok,
}
use iot_edge.Tag.Expression.Levels.{or-Parses}
use iot_edge.Tag.Expression.Primary.{unary-Parses}

-- What is known of an expression that parses.
pub record IsParsed (e : Expression) : Type 0 where
  pub collected : e.dependencies ≡ collect [] e.root
  pub few : length e.dependencies ≤ 32
  pub nested : nesting e.root ≤ 32
  pub formed : IsWellFormed e.root

abbrev pub ParseOutcome : Result ExpressionError Expression → Type 0
ParseOutcome (ok e) = IsParsed e
ParseOutcome (err x) = IsProper x

parse_tokens-ParseOutcome :
    (tokens : List Token) → IsStream tokens → ParseOutcome (parse_tokens tokens)
unfolding parse_tokens
parse_tokens-ParseOutcome tokens stream =
    let s = start tokens in
    let f = parse_or (parse_unary 33) in
    let outcome : Outcome s (f s) =
      or-Parses 0 (parse_unary 33) (unary-Parses 33 0 refl) s
        (record { stream = stream; at_depth = refl; shallow = omega arith; few = omega arith }) in
    >>=-elim ParseOutcome (f s) _
      (λ (a : Node × ParserState) e.
        let p = Outcome-ok s (f s) a outcome e in
        let (t, first, from, lt) = first_token-IsStream a.1.rest p.stream in
        unfold current in
        rw first (
          if-elim ParseOutcome (is_eof t.kind)
            (λ done. record {
              collected = p.collected;
              few = p.few;
              nested = omega (arith, p.nested);
              formed = p.formed;
            })
            (λ more. tt)))
      (λ x e. Outcome-err s (f s) outcome e)

lexed-ParseOutcome :
    (m : Result ExpressionError (List Token)) → LexOutcome m → ParseOutcome (m >>= parse_tokens)
lexed-ParseOutcome (ok tokens) h = parse_tokens-ParseOutcome tokens h.0
lexed-ParseOutcome (err x) h = h

guarded-ParseOutcome :
    (missing long : Bool) (m : Result ExpressionError Expression)
    → ParseOutcome m
    → ParseOutcome (fail_if missing required >> fail_if long too_complex >> m)
guarded-ParseOutcome true long m h = tt
guarded-ParseOutcome false true m h = tt
guarded-ParseOutcome false false m h = h

-- Parsing ends on every text, without a panic, and its errors are those of the language. Of an
-- expression that parses, the dependencies are the references of the tree in the order of their
-- first appearance, at most 32; unary operators are nested at most 32 deep; constants are Booleans
-- and finite numbers, and each operator stands where the evaluator knows it.
pub parse_expression-ParseOutcome :
    (arithmetic : Arithmetic) (parse_uuid : Text → Option ℕ) (raw : Text)
    → ParseOutcome (parse_expression arithmetic parse_uuid raw)
unfolding parse_expression
parse_expression-ParseOutcome arithmetic parse_uuid raw =
    guarded-ParseOutcome (is_empty raw) (ltb 2048 (length raw))
      (lex_expression arithmetic parse_uuid raw >>= parse_tokens)
      (lexed-ParseOutcome (lex_expression arithmetic parse_uuid raw)
        (lex_expression-LexOutcome arithmetic parse_uuid raw))
