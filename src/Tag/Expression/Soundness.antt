-- ===== src/Tag/Expression/Soundness.antt =====
-- An expression that parses evaluates to Booleans and finite numbers only.
use iot_edge.Prelude.{
  ℕ, ◌+◌, ◌≡◌, refl, subst, Bool, Option, none, some, List, [], ◌∷◌, ◌==◌, if-elim, Result, ok, err,
  ◌>>=◌, >>=-elim, All, Bool-cases, inl, inr, ◌∙◌,
}
use iot_edge.Value.{Value}
use iot_edge.Value.Text.{Text}
use iot_edge.Value.Float.{Arithmetic, is_finite64, is_finite64-float_neg}
use iot_edge.Tag.Expression.Token.{
  Operator, eq_op, ne_op, add_op, sub_op, mul_op, div_op, mod_op, not_op, Node, literal, unary,
  binary,
}
use iot_edge.Tag.Expression.Parser.{Expression, parse_expression}
use iot_edge.Tag.Expression.Progress.{IsConstant, IsWellFormed}
use iot_edge.Tag.Expression.Whole.{ParseOutcome, parse_expression-ParseOutcome}
use iot_edge.Tag.Expression.Eval.{
  EvaluationError, Resolver, Evaluator, lookup, expression_number, finite_expression_result,
  normalize_number, normalize_expression_value, bool_of, number_of, expression_values_equal,
  apply_unary, is_zero, apply_numeric, apply_binary, is_logical, settles, combine, poll, keep,
  resolved, resolve, evaluate_reference, logical, eval, evaluate,
}

abbrev Gives : Result EvaluationError Value → Type 0
Gives (ok v) = IsConstant v
Gives (err e) = Unit {0}

abbrev Cached : Evaluator → Type 0
Cached s = All (λ (e : ℕ × Value). IsConstant e.1) s.cache

abbrev Sound : Result EvaluationError (Value × Evaluator) → Type 0
Sound (ok (v, s)) = IsConstant v × Cached s
Sound (err e) = Unit {0}

lookup-IsConstant :
    (id : ℕ) (m : List (ℕ × Value)) {v : Value}
    → All (λ (e : ℕ × Value). IsConstant e.1) m
    → lookup id m ≡ some v
    → IsConstant v
lookup-IsConstant id [] h e = cc
lookup-IsConstant id ((k, w) ∷ m) {v} h e = elim (Bool-cases (k == id)) [
  | inl here ↦ let same : w ≡ v = cc (rw here at e) in subst IsConstant same h.0
  | inr there ↦ lookup-IsConstant id m h.1 (rw there at e)
]

module _ (a : Arithmetic) where
  finite-Gives : (b : ℕ) → Gives (finite_expression_result a b)
  unfolding finite_expression_result
  finite-Gives b = if-elim Gives (is_finite64 b) (λ finite. finite) (λ odd. tt)

  number-Gives : (o : Option ℕ) → Gives (normalize_number a o)
  unfolding normalize_number
  number-Gives none = tt
  number-Gives (some b) = finite-Gives b

  normalize-Gives : (v : Value) → Gives (normalize_expression_value a v)
  unfolding normalize_expression_value
  normalize-Gives (Value.bool b) = tt
  normalize-Gives v = number-Gives (expression_number a v)

  numeric-Gives : (o : Operator) (x y : ℕ) → Gives (apply_numeric a o x y)
  unfolding apply_numeric
  numeric-Gives add_op x y = finite-Gives (a.add x y)
  numeric-Gives sub_op x y = finite-Gives (a.sub x y)
  numeric-Gives mul_op x y = finite-Gives (a.mul x y)
  numeric-Gives div_op x y = if-elim Gives (is_zero a y) (λ z. tt) (λ z. finite-Gives (a.div x y))
  numeric-Gives mod_op x y = if-elim Gives (is_zero a y) (λ z. tt) (λ z. finite-Gives (a.fmod x y))
  numeric-Gives _ x y = tt

  binary-Gives : (o : Operator) (v w : Value) → Gives (apply_binary a o v w)
  unfolding apply_binary
  binary-Gives eq_op v w = >>=-elim Gives (expression_values_equal a v w) _ (λ b e. tt) (λ x e. tt)
  binary-Gives ne_op v w = >>=-elim Gives (expression_values_equal a v w) _ (λ b e. tt) (λ x e. tt)
  binary-Gives o v w =
      >>=-elim Gives (number_of a v) _
        (λ x e. >>=-elim Gives (number_of a w) _ (λ y e'. numeric-Gives o x y) (λ z e'. tt))
        (λ z e. tt)

  unary-Gives : (o : Operator) (v : Value) → IsConstant v → Gives (apply_unary a o v)
  unfolding apply_unary number_of expression_number
  unary-Gives not_op v h = >>=-elim Gives (bool_of a v) _ (λ b e. tt) (λ x e. tt)
  unary-Gives add_op (Value.bool b) h = tt
  unary-Gives add_op (Value.float64 b) h = h
  unary-Gives add_op _ h = absurd h
  unary-Gives sub_op (Value.bool b) h = tt
  unary-Gives sub_op (Value.float64 b) h = is_finite64-float_neg b ∙ h
  unary-Gives sub_op _ h = absurd h
  unary-Gives _ v h = tt

  module _ (cancelled_at : ℕ → Bool) (resolver : Option Resolver) where
    poll-Sound :
        (s : Evaluator) (f : Evaluator → Result EvaluationError (Value × Evaluator))
        → ((s1 : Evaluator) → s1.cache ≡ s.cache → Sound (f s1))
        → Sound (poll a cancelled_at resolver s >>= f)
    unfolding poll
    poll-Sound s f h = elim (Bool-cases (cancelled_at s.polls)) [
      | inl done ↦ rw done tt
      | inr live ↦ rw live (h (record s { polls = s.polls + 1 }) refl)
    ]

    keep-Sound :
        (id : ℕ) (s : Evaluator) (r : Result EvaluationError Value)
        → Cached s
        → Gives r
        → Sound (keep a cancelled_at resolver id s r)
    unfolding keep
    keep-Sound id s (ok v) c g = (g, (g, c))
    keep-Sound id s (err e) c g = tt

    resolved-Gives : (o : Option Value) → Gives (resolved a cancelled_at resolver o)
    resolved-Gives none = tt
    resolved-Gives (some v) = normalize-Gives v

    resolve-Sound :
        (id : ℕ) (r : Option Resolver) (s : Evaluator)
        → Cached s
        → Sound (resolve a cancelled_at resolver id r s)
    unfolding resolve
    resolve-Sound id none s c = tt
    resolve-Sound id (some r) s c =
        keep-Sound id s (resolved a cancelled_at resolver (r id)) c (resolved-Gives (r id))

    reference-Sound :
        (id : ℕ) (s : Evaluator)
        → Cached s
        → Sound (evaluate_reference a cancelled_at resolver id s)
    unfolding evaluate_reference
    reference-Sound id s c = go (lookup id s.cache) refl
      where
        go :
            (o : Option Value)
            → lookup id s.cache ≡ o
            → Sound (elim o [
              | some v ↦ ok (v, s)
              | none ↦ resolve a cancelled_at resolver id resolver s
            ])
        go none e = resolve-Sound id resolver s c
        go (some v) e = (lookup-IsConstant id s.cache c e, c)

    logical-Sound :
        (o : Operator) (b : Bool) (s : Evaluator)
        (right : Result EvaluationError (Value × Evaluator))
        → Cached s
        → Sound right
        → Sound (logical a cancelled_at resolver o b s right)
    unfolding logical
    logical-Sound o b s right c h =
        if-elim Sound (settles a o b) (λ settled. (tt, c)) (λ both. rest right h)
      where
        rest :
            (r : Result EvaluationError (Value × Evaluator))
            → Sound r
            → Sound (r >>= λ (v, s'). bool_of a v >>= λ d. ok (Value.bool (combine a o b d), s'))
        rest (ok (v, s')) g = >>=-elim Sound (bool_of a v) _ (λ d e. (tt, g.1)) (λ x e. tt)
        rest (err x) g = tt

    then-Sound :
        (m : Result EvaluationError (Value × Evaluator))
        (f : Value × Evaluator → Result EvaluationError (Value × Evaluator))
        → Sound m
        → ((v : Value) (s : Evaluator) → IsConstant v → Cached s → Sound (f (v, s)))
        → Sound (m >>= f)
    then-Sound (ok (v, s)) f h k = k v s h.0 h.1
    then-Sound (err x) f h k = tt

    give-Sound :
        (m : Result EvaluationError Value) (s : Evaluator)
        → Gives m
        → Cached s
        → Sound (m >>= λ r. ok (r, s))
    give-Sound (ok v) s g c = (g, c)
    give-Sound (err x) s g c = tt

    eval-Sound :
        (n : Node) (s : Evaluator)
        → IsWellFormed n
        → Cached s
        → Sound (eval a cancelled_at resolver n s)
    unfolding eval
    eval-Sound (literal v) s w c = poll-Sound s _ (λ s1 e. (w, rw e c))
    eval-Sound (Node.reference id) s w c = poll-Sound s _ (λ s1 e. reference-Sound id s1 (rw e c))
    eval-Sound (unary o n) s w c = poll-Sound s _ (λ s1 e.
        then-Sound (eval a cancelled_at resolver n s1) _ (eval-Sound n s1 w.1 (rw e c))
          (λ v s2 g c2. give-Sound (apply_unary a o v) s2 (unary-Gives o v g) c2))
    eval-Sound (binary o l r) s w c = poll-Sound s _ (λ s1 e.
        then-Sound (eval a cancelled_at resolver l s1) _ (eval-Sound l s1 w.1 (rw e c))
          (λ left s2 g c2.
            if-elim Sound (is_logical a o)
              (λ logic.
                >>=-elim Sound (bool_of a left) _
                  (λ b eb.
                    logical-Sound o b s2 (eval a cancelled_at resolver r s2) c2
                      (eval-Sound r s2 w.2 c2))
                  (λ x eb. tt))
              (λ plain.
                then-Sound (eval a cancelled_at resolver r s2) _ (eval-Sound r s2 w.2 c2)
                  (λ v s3 g3 c3.
                    give-Sound (apply_binary a o left v) s3 (binary-Gives o left v) c3))))

    evaluate-Gives :
        (e : Expression) → IsWellFormed e.root → Gives (evaluate a cancelled_at resolver e)
    unfolding evaluate
    evaluate-Gives e w =
        go (eval a cancelled_at resolver e.root (record { cache = []; polls = 0; asked = [] }))
          (eval-Sound e.root (record { cache = []; polls = 0; asked = [] }) w tt)
      where
        go :
            (m : Result EvaluationError (Value × Evaluator))
            → Sound m
            → Gives (m >>= λ (v, s). ok v)
        go (ok (v, s)) h = h.0
        go (err x) h = tt

-- A text that parses evaluates, if it evaluates at all, to a Boolean or a finite number, whatever
-- float64 arithmetic rounds to, whatever the resolver returns and whenever the context ends.
pub parse_evaluate-IsConstant :
    (a : Arithmetic) (parse_uuid : Text → Option ℕ) (cancelled_at : ℕ → Bool)
    (resolver : Option Resolver) (raw : Text) {e : Expression} {v : Value}
    → parse_expression a parse_uuid raw ≡ ok e
    → evaluate a cancelled_at resolver e ≡ ok v
    → IsConstant v
parse_evaluate-IsConstant a parse_uuid cancelled_at resolver raw {e} parsed evaluated =
    let known = subst ParseOutcome parsed (parse_expression-ParseOutcome a parse_uuid raw) in
    subst Gives evaluated (evaluate-Gives a cancelled_at resolver e known.formed)
