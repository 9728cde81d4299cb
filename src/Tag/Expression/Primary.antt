-- ===== src/Tag/Expression/Primary.antt =====
-- `parsePrimary` and `parseUnary` make progress.
use iot_edge.Prelude.{
  ℕ, zero, suc, ◌+◌, ◌≤◌, ◌<◌, ◌≡◌, refl, sym, subst, true, false, inl, inr, [], ◌∷◌, length,
  length-append, ok, err, ◌>>=◌, >>=-elim, Bool-cases, arith,
}
use iot_edge.Value.{Value}
use iot_edge.Tag.Expression.Token.{
  ExpressionError, too_complex, Operator, TokenKind, number, Node, literal, unary, true_word,
  false_word, left_parenthesis, right_parenthesis,
}
use iot_edge.Tag.Expression.Scan.{IsProper, StreamFrom, IsStream}
use iot_edge.Tag.Expression.Parser.{
  ParserState, Parsed, contains, tail, advance, leave_depth, current, enter_depth, operator_in,
  add_dependency, close_parenthesis, unary_operators, parse_or, primary_of, parse_primary,
  parse_unary,
}
use iot_edge.Tag.Expression.Progress.{
  collect, IsWellFormed, Valid, Progress, Outcome, Parses, first_token-IsStream,
  matches_operator-TakesOperator, Outcome-err, Outcome-ok,
}
use iot_edge.Tag.Expression.Levels.{or-Parses}

add_dependency-ok :
    (id : ℕ) (s : ParserState) {s1 : ParserState}
    → add_dependency id s ≡ ok s1
    → (s1 ≡ record s { dependencies = collect s.dependencies (Node.reference id) })
      × (length s.dependencies ≤ 32 → length (collect s.dependencies (Node.reference id)) ≤ 32)
unfolding add_dependency
add_dependency-ok id s h = elim (Bool-cases (contains s.dependencies id)) [
  | inl seen ↦ (ground arith, ground arith)
  | inr new ↦ (ground arith, ground (arith, length-append s.dependencies (id ∷ [])))
]

add_dependency-err :
    (id : ℕ) (s : ParserState) {x : ExpressionError} → add_dependency id s ≡ err x → x ≡ too_complex
unfolding add_dependency
add_dependency-err id s h = ground arith

enter_depth-ok :
    (s : ParserState) {s1 : ParserState}
    → enter_depth s ≡ ok s1
    → (s1 ≡ record s { depth = s.depth + 1 }) × (s.depth + 1 ≤ 32)
unfolding enter_depth
enter_depth-ok s h = ground arith

enter_depth-err : (s : ParserState) {x : ExpressionError} → enter_depth s ≡ err x → x ≡ too_complex
unfolding enter_depth
enter_depth-err s h = ground arith

too_complex-IsProper : {x : ExpressionError} → x ≡ too_complex → IsProper x
too_complex-IsProper e = subst IsProper (sym e) tt

close_parenthesis-Outcome :
    (d : ℕ) (s s2 : ParserState) (node : Node) (k : TokenKind) (position : ℕ)
    → Valid d s
    → Progress (record s { rest = tail s.rest; depth = s.depth + 1 }) node s2
    → length (tail s.rest) < length s.rest
    → StreamFrom k (tail s2.rest) (IsStream (tail s2.rest))
    → length (tail s2.rest) < length s2.rest
    → Outcome s (close_parenthesis node (leave_depth s2) k position)
unfolding close_parenthesis
close_parenthesis-Outcome d s s2 node right_parenthesis position v p lt from lt2 = record {
  stream = from;
  shorter = omega (arith, p.shorter);
  same_depth = omega (arith, p.same_depth);
  collected = p.collected;
  few = p.few;
  nested = omega (arith, p.nested);
  formed = p.formed;
}
close_parenthesis-Outcome d s s2 node _ position v p lt from lt2 = tt

literal-Progress :
    (d : ℕ) (s : ParserState) (value : Value)
    → Valid d s
    → IsStream (tail s.rest)
    → length (tail s.rest) < length s.rest
    → IsWellFormed (literal value)
    → Progress s (literal value) (advance s)
literal-Progress d s value v stream lt formed = record {
  stream = stream;
  shorter = lt;
  same_depth = refl;
  collected = refl;
  few = v.few;
  nested = omega (arith, v.at_depth, v.shallow);
  formed = formed;
}

module _ (d : ℕ) (nested : ParserState → Parsed) (parses : suc d ≤ 32 → Parses (suc d) nested) where
  parenthesis-Outcome :
      (s : ParserState) (position : ℕ)
      → Valid d s
      → IsStream (tail s.rest)
      → length (tail s.rest) < length s.rest
      → Outcome s (primary_of nested s left_parenthesis position)
  unfolding primary_of
  parenthesis-Outcome s position v stream lt =
      >>=-elim (Outcome s) (enter_depth (advance s)) _
        (λ s1 e. rw (enter_depth-ok (advance s) e).0 (inside (enter_depth-ok (advance s) e).1))
        (λ x e. too_complex-IsProper (enter_depth-err (advance s) e))
    where
      inner : ParserState
      inner = record s { rest = tail s.rest; depth = s.depth + 1 }

      inside :
          s.depth + 1 ≤ 32
          → Outcome s (
              nested inner >>= λ (node, s2). current (leave_depth s2) >>= λ t.
              close_parenthesis node (leave_depth s2) t.kind t.position)
      inside room =
          let outcome : Outcome inner (nested inner) =
            parses (omega (arith, v.at_depth)) inner (record {
              stream = stream;
              at_depth = omega (arith, v.at_depth);
              shallow = omega (arith, v.at_depth);
              few = v.few;
            }) in
          >>=-elim (Outcome s) (nested inner) _
            (λ (a : Node × ParserState) e.
              let p = Outcome-ok inner (nested inner) a outcome e in
              let (t, first, from, lt2) = first_token-IsStream a.1.rest p.stream in
              unfold current in
              rw first (close_parenthesis-Outcome d s a.1 a.0 t.kind t.position v p lt from lt2))
            (λ x e. Outcome-err inner (nested inner) outcome e)

  primary_of-Outcome :
      (s : ParserState) (k : TokenKind) (position : ℕ)
      → Valid d s
      → StreamFrom k (tail s.rest) (IsStream (tail s.rest))
      → length (tail s.rest) < length s.rest
      → Outcome s (primary_of nested s k position)
  unfolding primary_of
  primary_of-Outcome s (number bits) position v from lt =
      literal-Progress d s (Value.float64 bits) v from.1 lt from.0
  primary_of-Outcome s true_word position v from lt =
      literal-Progress d s (Value.bool true) v from lt tt
  primary_of-Outcome s false_word position v from lt =
      literal-Progress d s (Value.bool false) v from lt tt
  primary_of-Outcome s (TokenKind.reference id) position v from lt =
      >>=-elim (Outcome s) (add_dependency id (advance s)) _
        (λ s1 e.
          let (same, few) = add_dependency-ok id (advance s) e in
          subst (Progress s (Node.reference id)) (sym same) (record {
            stream = from;
            shorter = lt;
            same_depth = refl;
            collected = refl;
            few = few v.few;
            nested = omega (arith, v.at_depth, v.shallow);
            formed = tt;
          }))
        (λ x e. too_complex-IsProper (add_dependency-err id (advance s) e))
  primary_of-Outcome s left_parenthesis position v from lt =
      parenthesis-Outcome s position v from lt
  primary_of-Outcome s _ position v from lt = tt

  pub primary-Parses : Parses d (parse_primary nested)
  unfolding parse_primary
  primary-Parses s v =
      let (t, first, from, lt) = first_token-IsStream s.rest v.stream in
      unfold current in rw first (primary_of-Outcome s t.kind t.position v from lt)

unary-Progress :
    (o : Operator) (s : ParserState) (operand : Node) (s3 : ParserState)
    → operator_in unary_operators o ≡ true
    → length (tail s.rest) < length s.rest
    → Progress (record s { rest = tail s.rest; depth = s.depth + 1 }) operand s3
    → Progress s (unary o operand) (leave_depth s3)
unary-Progress o s operand s3 found lt p = record {
  stream = p.stream;
  shorter = omega (arith, p.shorter);
  same_depth = omega (arith, p.same_depth);
  collected = p.collected;
  few = p.few;
  nested = omega (arith, p.nested);
  formed = (found, p.formed);
}

-- With the nesting that is left as fuel, `parseUnary` always ends.
pub unary-Parses : (fuel d : ℕ) → d + fuel ≡ 33 → Parses d (parse_unary fuel)
unfolding parse_unary
unary-Parses zero d sum s v = absurd (omega (arith, v.shallow))
unary-Parses (suc fuel) d sum s v =
    elim (matches_operator-TakesOperator unary_operators s v.stream) [
      | inl e ↦ rw e (
          primary-Parses d (parse_or (parse_unary fuel))
            (λ room. or-Parses (suc d) (parse_unary fuel) (unary-Parses fuel (suc d) (omega arith)))
            s v)
      | inr (o, e, found, stream, lt) ↦ rw e (
          >>=-elim (Outcome s) (enter_depth (advance s)) _
            (λ s2 eq.
              let inner = record s { rest = tail s.rest; depth = s.depth + 1 } in
              let room = (enter_depth-ok (advance s) eq).1 in
              let outcome : Outcome inner (parse_unary fuel inner) =
                unary-Parses fuel (suc d) (omega arith) inner (record {
                  stream = stream;
                  at_depth = omega (arith, v.at_depth);
                  shallow = omega (arith, v.at_depth, room);
                  few = v.few;
                }) in
              rw (enter_depth-ok (advance s) eq).0 (
                >>=-elim (Outcome s) (parse_unary fuel inner) _
                  (λ (a : Node × ParserState) eq2.
                    unary-Progress o s a.0 a.1 found lt
                      (Outcome-ok inner (parse_unary fuel inner) a outcome eq2))
                  (λ x eq2. Outcome-err inner (parse_unary fuel inner) outcome eq2)))
            (λ x eq. too_complex-IsProper (enter_depth-err (advance s) eq)))
    ]
