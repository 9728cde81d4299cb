-- ===== src/Tag/Expression/Meaning.antt =====
-- The cache of the evaluator does not show, and keeps it from asking twice for a tag.
use iot_edge.Prelude.{
  ℕ, ◌+◌, ◌≡◌, refl, sym, subst, ap, ◌∙◌, Bool, false, Option, none, some, List, [], ◌∷◌, ◌==◌,
  if◌then◌else◌, Result, ok, err, ◌>>=◌, Bool-cases, inl, inr, ==_iff,
}
use iot_edge.Value.{Value}
use iot_edge.Value.Float.{Arithmetic}
use iot_edge.Tag.Expression.Token.{Operator, Node, literal, unary, binary}
use iot_edge.Tag.Expression.Parser.{Expression}
use iot_edge.Tag.Expression.Eval.{
  EvaluationError, reference, Resolver, Evaluator, lookup, bool_of, apply_unary, apply_binary,
  is_logical, settles, combine, poll, keep, resolved, resolve, evaluate_reference, logical, eval,
  evaluate,
}

-- Every entry of a cache is what the resolver returns for its id.
module _ (a : Arithmetic) (cancelled_at : ℕ → Bool) (r : Resolver) where
  -- The value of a reference, asked for afresh.
  abbrev pub reference_value : Result EvaluationError Value → Result EvaluationError Value
  reference_value (ok v) = ok v
  reference_value (err e) = err reference

  abbrev pub fresh : ℕ → Result EvaluationError Value
  fresh id = reference_value (resolved a cancelled_at (some r) (r id))

  -- What a tree stands for: every reference is resolved where it stands.
  pub meaning : Node → Result EvaluationError Value
  meaning (literal v) = ok v
  meaning (Node.reference id) = fresh id
  meaning (unary o n) = meaning n >>= apply_unary a o
  meaning (binary o l m) = meaning l >>= λ left.
      let right = meaning m in
      if is_logical a o
      then (bool_of a left >>= λ x.
          if settles a o x
          then ok (Value.bool x)
          else (right >>= λ v. bool_of a v >>= λ y. ok (Value.bool (combine a o x y))))
      else (right >>= apply_binary a o left)

  Consistent : List (ℕ × Value) → Type 0
  Consistent [] = Unit {0}
  Consistent ((id, v) ∷ m) = (fresh id ≡ ok v) × Consistent m

  -- A run agrees with a meaning: the same value with a consistent cache, or the same error.
  abbrev Agrees : Result EvaluationError Value → Result EvaluationError (Value × Evaluator) → Type 0
  Agrees m (ok (v, s)) = (m ≡ ok v) × Consistent s.cache
  Agrees m (err e) = m ≡ err e

  lookup-fresh :
      (id : ℕ) (m : List (ℕ × Value)) {v : Value}
      → Consistent m
      → lookup id m ≡ some v
      → fresh id ≡ ok v
  unfolding Consistent
  lookup-fresh id [] c e = cc
  lookup-fresh id ((k, w) ∷ m) {v} c e = elim (Bool-cases (k == id)) [
    | inl here ↦
        let same : w ≡ v = cc (rw here at e) in
        subst (λ j. fresh j ≡ ok v) ((==_iff k id).0 here) (c.0 ∙ ap ok same)
    | inr there ↦ lookup-fresh id m c.1 (rw there at e)
  ]

  module _ (live : (n : ℕ) → cancelled_at n ≡ false) where
    poll-Agrees :
        (m : Result EvaluationError Value) (s : Evaluator)
        (f : Evaluator → Result EvaluationError (Value × Evaluator))
        → ((s1 : Evaluator) → s1.cache ≡ s.cache → Agrees m (f s1))
        → Agrees m (poll a cancelled_at (some r) s >>= f)
    unfolding poll
    poll-Agrees m s f h = rw (live s.polls) (h (record s { polls = s.polls + 1 }) refl)

    keep-Agrees :
        (id : ℕ) (s : Evaluator) (m : Result EvaluationError Value)
        → fresh id ≡ reference_value m
        → Consistent s.cache
        → Agrees (fresh id) (keep a cancelled_at (some r) id s m)
    unfolding keep Consistent
    keep-Agrees id s (ok v) e c = (e, (e, c))
    keep-Agrees id s (err x) e c = e

    reference-Agrees :
        (id : ℕ) (s : Evaluator)
        → Consistent s.cache
        → Agrees (fresh id) (evaluate_reference a cancelled_at (some r) id s)
    unfolding evaluate_reference
    reference-Agrees id s c = go (lookup id s.cache) refl
      where
        go :
            (o : Option Value)
            → lookup id s.cache ≡ o
            → Agrees (fresh id) (elim o [
              | some v ↦ ok (v, s)
              | none ↦ resolve a cancelled_at (some r) id (some r) s
            ])
        go none e = keep-Agrees id s (resolved a cancelled_at (some r) (r id)) refl c
        go (some v) e = (lookup-fresh id s.cache c e, c)

    -- Running one after the other agrees with the meanings one after the other.
    then-Agrees :
        (m : Result EvaluationError Value) (run : Result EvaluationError (Value × Evaluator))
        (k : Value → Result EvaluationError Value)
        (f : Value × Evaluator → Result EvaluationError (Value × Evaluator))
        → Agrees m run
        → ((v : Value) (s : Evaluator) → Consistent s.cache → Agrees (k v) (f (v, s)))
        → Agrees (m >>= k) (run >>= f)
    then-Agrees m (ok (v, s)) k f h g = rw h.0 (g v s h.1)
    then-Agrees m (err e) k f h g = rw h refl

    give-Agrees :
        (m : Result EvaluationError Value) (s : Evaluator)
        → Consistent s.cache
        → Agrees m (m >>= λ v. ok (v, s))
    give-Agrees (ok v) s c = (refl, c)
    give-Agrees (err e) s c = refl

    bool-Agrees :
        (b : Result EvaluationError Bool) (k : Bool → Result EvaluationError Value)
        (f : Bool → Result EvaluationError (Value × Evaluator))
        → ((x : Bool) → Agrees (k x) (f x))
        → Agrees (b >>= k) (b >>= f)
    bool-Agrees (ok x) k f h = h x
    bool-Agrees (err e) k f h = refl

    logical-Agrees :
        (o : Operator) (x : Bool) (s : Evaluator) (m : Result EvaluationError Value)
        (run : Result EvaluationError (Value × Evaluator))
        → Consistent s.cache
        → Agrees m run
        → Agrees
            (if settles a o x
              then ok (Value.bool x)
              else (m >>= λ v. bool_of a v >>= λ y. ok (Value.bool (combine a o x y))))
            (logical a cancelled_at (some r) o x s run)
    unfolding logical
    logical-Agrees o x s m run c h = elim (Bool-cases (settles a o x)) [
      | inl settled ↦ rw settled (refl, c)
      | inr both ↦ rw both (then-Agrees m run _ _ h (λ v s' c'. both_sides (bool_of a v) s' c'))
    ]
      where
        both_sides :
            (b : Result EvaluationError Bool) (s' : Evaluator)
            → Consistent s'.cache
            → Agrees
                (b >>= λ y. ok (Value.bool (combine a o x y)))
                (b >>= λ y. ok (Value.bool (combine a o x y), s'))
        both_sides (ok y) s' c' = (refl, c')
        both_sides (err e) s' c' = refl

    eval-Agrees :
        (n : Node) (s : Evaluator)
        → Consistent s.cache
        → Agrees (meaning n) (eval a cancelled_at (some r) n s)
    unfolding eval meaning
    eval-Agrees (literal v) s c = poll-Agrees (ok v) s _ (λ s1 e. (refl, rw e c))
    eval-Agrees (Node.reference id) s c =
        poll-Agrees (fresh id) s _ (λ s1 e. reference-Agrees id s1 (rw e c))
    eval-Agrees (unary o n) s c = poll-Agrees _ s _ (λ s1 e.
        then-Agrees (meaning n) (eval a cancelled_at (some r) n s1) (apply_unary a o) _
          (eval-Agrees n s1 (rw e c)) (λ v s2 c2. give-Agrees (apply_unary a o v) s2 c2))
    eval-Agrees (binary o l m) s c = poll-Agrees _ s _ (λ s1 e.
        then-Agrees (meaning l) (eval a cancelled_at (some r) l s1) _ _ (eval-Agrees l s1 (rw e c))
          (λ left s2 c2. elim (Bool-cases (is_logical a o)) [
            | inl logic ↦ rw logic (
                bool-Agrees (bool_of a left) _ _ (λ x.
                  logical-Agrees o x s2 (meaning m) (eval a cancelled_at (some r) m s2) c2
                    (eval-Agrees m s2 c2)))
            | inr plain ↦ rw plain (
                then-Agrees (meaning m) (eval a cancelled_at (some r) m s2) (apply_binary a o left)
                  _ (eval-Agrees m s2 c2) (λ v s3 c3. give-Agrees (apply_binary a o left v) s3 c3))
          ]))

    -- While the context lives, evaluating an expression gives the value, or the error, of its tree
    -- with every reference resolved afresh: the cache does not show.
    pub evaluate-eq-meaning : (e : Expression) → evaluate a cancelled_at (some r) e ≡ meaning e.root
    unfolding evaluate
    evaluate-eq-meaning e =
        go (eval a cancelled_at (some r) e.root begin)
          (eval-Agrees e.root begin (unfold Consistent in tt))
      where
        begin : Evaluator
        begin = record { cache = []; polls = 0; asked = [] }

        go :
            (run : Result EvaluationError (Value × Evaluator))
            → Agrees (meaning e.root) run
            → (run >>= λ (v, s). ok v) ≡ meaning e.root
        go (ok (v, s)) h = sym h.0
        go (err x) h = sym h
