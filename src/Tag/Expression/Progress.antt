-- ===== src/Tag/Expression/Progress.antt =====
-- What a parsing function does to the parser: it takes tokens, restores the depth, and records the
-- references of the tree that it returns.
use iot_edge.Prelude.{
  ℕ, suc, ◌+◌, ◌≤◌, ◌<◌, ◌≡◌, refl, subst, ◌∙◌, Bool, true, ◌||◌, ◌⊎◌, inl, inr, Option, none, some,
  List, [], ◌∷◌, ◌++◌, length, if◌then◌else◌, Result, ok, err, Bool-cases, arith,
}
use Prim.Native.Nat.{max}
use iot_edge.Value.{Value}
use iot_edge.Value.Float.{is_finite64}
use iot_edge.Tag.Expression.Token.{
  ExpressionError, Operator, or_op, and_op, TokenKind, operator, Token, Node, literal, unary,
  binary,
}
use iot_edge.Tag.Expression.Scan.{IsProper, StreamFrom, IsStream}
use iot_edge.Tag.Expression.Parser.{
  ParserState, Parsed, contains, tail, advance, first_token, operator_in, matched, matches_operator,
  factor_operators, term_operators, comparison_operators, equality_operators, unary_operators,
}

-- The references of a tree, after those already known, in the order of their first appearance.
abbrev pub collect : List ℕ → Node → List ℕ
collect known (literal v) = known
collect known (Node.reference id) = if contains known id then known else known ++ id ∷ []
collect known (unary o n) = collect known n
collect known (binary o l r) = collect (collect known l) r

-- The unary operators above each other.
abbrev pub nesting : Node → ℕ
nesting (literal v) = 0
nesting (Node.reference id) = 0
nesting (unary o n) = suc (nesting n)
nesting (binary o l r) = max (nesting l) (nesting r)

abbrev pub IsConstant : Value → Type 0
IsConstant (Value.bool b) = Unit {0}
IsConstant (Value.float64 bits) = is_finite64 bits ≡ true
IsConstant _ = ⊥

abbrev pub is_binary : Operator → Bool
is_binary o =
    operator_in factor_operators o
    || operator_in term_operators o
    || operator_in comparison_operators o
    || operator_in equality_operators o
    || operator_in (and_op ∷ []) o
    || operator_in (or_op ∷ []) o

-- Constants are Booleans and finite numbers, and operators stand where the evaluator knows them.
abbrev pub IsWellFormed : Node → Type 0
IsWellFormed (literal v) = IsConstant v
IsWellFormed (Node.reference id) = Unit {0}
IsWellFormed (unary o n) = (operator_in unary_operators o ≡ true) × IsWellFormed n
IsWellFormed (binary o l r) = (is_binary o ≡ true) × IsWellFormed l × IsWellFormed r

pub record Valid (d : ℕ) (s : ParserState) : Type 0 where
  pub stream : IsStream s.rest
  pub at_depth : s.depth ≡ d
  pub shallow : d ≤ 32
  pub few : length s.dependencies ≤ 32

pub record Progress (s : ParserState) (n : Node) (s' : ParserState) : Type 0 where
  pub stream : IsStream s'.rest
  pub shorter : length s'.rest < length s.rest
  pub same_depth : s'.depth ≡ s.depth
  pub collected : s'.dependencies ≡ collect s.dependencies n
  pub few : length s'.dependencies ≤ 32
  pub nested : nesting n + s.depth ≤ 32
  pub formed : IsWellFormed n

abbrev pub Outcome : ParserState → Parsed → Type 0
Outcome s (ok (n, s')) = Progress s n s'
Outcome s (err e) = IsProper e

-- A function that makes progress wherever it is called at depth `d`.
abbrev pub Parses : ℕ → (ParserState → Parsed) → Type 0
Parses d f = (s : ParserState) → Valid d s → Outcome s (f s)

pub Progress-Valid :
    (d : ℕ) (s : ParserState) (n : Node) (s' : ParserState)
    → Valid d s
    → Progress s n s'
    → Valid d s'
Progress-Valid d s n s' v p = record {
  stream = p.stream;
  at_depth = p.same_depth ∙ v.at_depth;
  shallow = v.shallow;
  few = p.few;
}

-- A stream has a first token, and what is behind it depends on its kind.
pub first_token-IsStream :
    (r : List Token)
    → IsStream r
    → (t : Token) × (first_token r ≡ ok t)
      × (StreamFrom t.kind (tail r) (IsStream (tail r)))
      × (length (tail r) < length r)
first_token-IsStream [] h = absurd h
first_token-IsStream (t ∷ r) h = (t, refl, h, omega arith)

abbrev pub TakesOperator : List Operator → ParserState → Type 0
TakesOperator ops s =
    (matches_operator ops s ≡ ok (none, s))
    ⊎ ((o : Operator) × (matches_operator ops s ≡ ok (some o, advance s))
        × (operator_in ops o ≡ true)
        × IsStream (tail s.rest)
        × (length (tail s.rest) < length s.rest))

-- On a stream `matchesOperator` never panics: it takes an operator of the list, or nothing.
pub matches_operator-TakesOperator :
    (ops : List Operator) (s : ParserState) → IsStream s.rest → TakesOperator ops s
unfolding matches_operator
matches_operator-TakesOperator ops s h =
    let (t, e, from, lt) = first_token-IsStream s.rest h in rw e (go t.kind from lt)
  where
    go :
        (k : TokenKind)
        → StreamFrom k (tail s.rest) (IsStream (tail s.rest))
        → length (tail s.rest) < length s.rest
        → (◌≡◌ {A = Result ExpressionError (Option Operator × ParserState)}
            (ok (matched ops s k))
            (ok (none, s)))
          ⊎ ((o : Operator) × (◌≡◌ {A = Result ExpressionError (Option Operator × ParserState)}
                (ok (matched ops s k))
                (ok (some o, advance s)))
              × (operator_in ops o ≡ true)
              × IsStream (tail s.rest)
              × (length (tail s.rest) < length s.rest))
    go (operator o) h lt = elim (Bool-cases (operator_in ops o)) [
      | inl found ↦ inr (o, rw found refl, found, h, lt)
      | inr other ↦ inl (rw other refl)
    ]
    go _ h lt = inl refl

pub Outcome-err :
    (s : ParserState) (p : Parsed) {x : ExpressionError} → Outcome s p → p ≡ err x → IsProper x
Outcome-err s p h e = subst (Outcome s) e h

pub Outcome-ok :
    (s : ParserState) (p : Parsed) (a : Node × ParserState)
    → Outcome s p
    → p ≡ ok a
    → Progress s a.0 a.1
Outcome-ok s p a h e = subst (Outcome s) e h
