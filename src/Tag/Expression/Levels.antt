-- ===== src/Tag/Expression/Levels.antt =====
-- Every level of the parser makes progress: it ends, and never runs past the last token.
use iot_edge.Prelude.{
  ℕ, zero, suc, ◌<◌, ◌≡◌, ap, ◌∙◌, true, inl, inr, List, [], ◌∷◌, length, >>=-elim, arith,
}
use iot_edge.Tag.Expression.Token.{Operator, or_op, and_op, Node, binary}
use iot_edge.Tag.Expression.Scan.{IsStream}
use iot_edge.Tag.Expression.Parser.{
  ParserState, Parsed, tail, advance, operator_in, factor_operators, term_operators,
  comparison_operators, equality_operators, binary_loop, parse_binary, parse_factor, parse_term,
  parse_comparison, parse_equality, parse_and, parse_or,
}
use iot_edge.Tag.Expression.Progress.{
  collect, is_binary, Valid, Progress, Outcome, Parses, Progress-Valid,
  matches_operator-TakesOperator, Outcome-err, Outcome-ok,
}

module _ (d : ℕ) (next : ParserState → Parsed) (ops : List Operator)
    (known : (o : Operator) → operator_in ops o ≡ true → is_binary o ≡ true)
    (parses : Parses d next) where
  Progress-binary :
      (o : Operator) (s0 s s2 : ParserState) (left right : Node)
      → Progress s0 left s
      → operator_in ops o ≡ true
      → length (tail s.rest) < length s.rest
      → Progress (advance s) right s2
      → Progress s0 (binary o left right) s2
  Progress-binary o s0 s s2 left right p found lt q = record {
    stream = q.stream;
    shorter = omega (arith, p.shorter, q.shorter);
    same_depth = q.same_depth ∙ p.same_depth;
    collected = q.collected ∙ ap (λ known. collect known right) p.collected;
    few = q.few;
    nested = omega (arith, p.nested, q.nested, p.same_depth);
    formed = (known o found, p.formed, q.formed);
  }

  advance-Valid : (s : ParserState) → Valid d s → IsStream (tail s.rest) → Valid d (advance s)
  advance-Valid s v h = record {
    stream = h;
    at_depth = v.at_depth;
    shallow = v.shallow;
    few = v.few;
  }

  binary_loop-Outcome :
      (fuel : ℕ) (left : Node) (s0 s : ParserState)
      → Valid d s0
      → Progress s0 left s
      → length s.rest < fuel
      → Outcome s0 (binary_loop fuel next ops left s)
  unfolding binary_loop
  binary_loop-Outcome zero left s0 s v p f = absurd (omega arith)
  binary_loop-Outcome (suc fuel) left s0 s v p f =
      elim (matches_operator-TakesOperator ops s p.stream) [
        | inl e ↦ rw e p
        | inr (o, e, found, stream, lt) ↦ rw e (
            >>=-elim (Outcome s0) (next (advance s)) _
              (λ (a : Node × ParserState) eq.
                let q =
                  Outcome-ok (advance s) (next (advance s)) a
                    (parses (advance s) (advance-Valid s (Progress-Valid d s0 left s v p) stream))
                    eq in
                binary_loop-Outcome fuel (binary o left a.0) s0 a.1 v
                  (Progress-binary o s0 s a.1 left a.0 p found lt q) (omega (arith, q.shorter)))
              (λ x eq.
                Outcome-err (advance s) (next (advance s))
                  (parses (advance s) (advance-Valid s (Progress-Valid d s0 left s v p) stream))
                  eq))
      ]

  pub parse_binary-Parses : Parses d (parse_binary next ops)
  unfolding parse_binary
  parse_binary-Parses s v =
      >>=-elim (Outcome s) (next s) _
        (λ (a : Node × ParserState) e.
          binary_loop-Outcome (suc (length a.1.rest)) a.0 s a.1 v
            (Outcome-ok s (next s) a (parses s v) e) (omega arith))
        (λ x e. Outcome-err s (next s) (parses s v) e)

module _ (d : ℕ) (unary_level : ParserState → Parsed) (parses : Parses d unary_level) where
  factor-Parses : Parses d (parse_factor unary_level)
  unfolding parse_factor
  factor-Parses = parse_binary-Parses d unary_level factor_operators (λ o h. ground arith) parses

  term-Parses : Parses d (parse_term unary_level)
  unfolding parse_term
  term-Parses =
      parse_binary-Parses d (parse_factor unary_level) term_operators (λ o h. ground arith)
        factor-Parses

  comparison-Parses : Parses d (parse_comparison unary_level)
  unfolding parse_comparison
  comparison-Parses =
      parse_binary-Parses d (parse_term unary_level) comparison_operators (λ o h. ground arith)
        term-Parses

  equality-Parses : Parses d (parse_equality unary_level)
  unfolding parse_equality
  equality-Parses =
      parse_binary-Parses d (parse_comparison unary_level) equality_operators (λ o h. ground arith)
        comparison-Parses

  and-Parses : Parses d (parse_and unary_level)
  unfolding parse_and
  and-Parses =
      parse_binary-Parses d (parse_equality unary_level) (and_op ∷ []) (λ o h. ground arith)
        equality-Parses

  pub or-Parses : Parses d (parse_or unary_level)
  unfolding parse_or
  or-Parses =
      parse_binary-Parses d (parse_and unary_level) (or_op ∷ []) (λ o h. ground arith) and-Parses
