-- ===== src/Tag/Expression/Asked.antt =====
-- The evaluator asks only for the declared dependencies, and for each at most once.
use iot_edge.Prelude.{
  ℕ, ◌+◌, ◌≡◌, refl, sym, subst, ap, Bool, true, false, Option, none, some, List, [], ◌∷◌, ◌++◌,
  ◌==◌, if-elim, Result, ok, err, ◌>>=◌, >>=-elim, All, Bool-cases, inl, inr, arith,
}
use iot_edge.Value.{Value}
use iot_edge.Value.Float.{Arithmetic}
use iot_edge.Value.Text.{Text}
use iot_edge.Tag.Expression.Token.{Node, literal, unary, binary}
use iot_edge.Tag.Expression.Parser.{Expression, contains, parse_expression}
use iot_edge.Tag.Expression.Progress.{collect}
use iot_edge.Tag.Expression.Whole.{ParseOutcome, parse_expression-ParseOutcome}
use iot_edge.Tag.Expression.Eval.{
  EvaluationError, Resolver, Evaluator, lookup, bool_of, apply_unary, apply_binary, is_logical,
  settles, combine, poll, keep, resolved, resolve, evaluate_reference, eval,
}

-- Every reference of a tree is in a list.
abbrev Within : List ℕ → Node → Type 0
Within known (literal v) = Unit {0}
Within known (Node.reference id) = contains known id ≡ true
Within known (unary o n) = Within known n
Within known (binary o l r) = Within known l × Within known r

contains-append :
    (xs : List ℕ) (y id : ℕ) → contains xs id ≡ true → contains (xs ++ y ∷ []) id ≡ true
contains-append [] y id h = cc
contains-append (x ∷ xs) y id h = ground (arith, contains-append xs y id)

contains-append_self : (xs : List ℕ) (y : ℕ) → contains (xs ++ y ∷ []) y ≡ true
contains-append_self [] y = ground arith
contains-append_self (x ∷ xs) y = ground (arith, contains-append_self xs y)

contains-collect :
    (n : Node) (known : List ℕ) (id : ℕ)
    → contains known id ≡ true
    → contains (collect known n) id ≡ true
contains-collect (literal v) known id h = h
contains-collect (Node.reference j) known id h =
    if-elim (λ xs. contains xs id ≡ true) (contains known j) (λ seen. h)
      (λ new. contains-append known j id h)
contains-collect (unary o n) known id h = contains-collect n known id h
contains-collect (binary o l r) known id h =
    contains-collect r (collect known l) id (contains-collect l known id h)

Within-mono : (n m : Node) (known : List ℕ) → Within known n → Within (collect known m) n
Within-mono (literal v) m known h = tt
Within-mono (Node.reference id) m known h = contains-collect m known id h
Within-mono (unary o n) m known h = Within-mono n m known h
Within-mono (binary o l r) m known h = (Within-mono l m known h.0, Within-mono r m known h.1)

collect-Within : (n : Node) (known : List ℕ) → Within (collect known n) n
collect-Within (literal v) known = tt
collect-Within (Node.reference id) known = elim (Bool-cases (contains known id)) [
  | inl seen ↦ rw seen seen
  | inr new ↦ rw new (contains-append_self known id)
]
collect-Within (unary o n) known = collect-Within n known
collect-Within (binary o l r) known =
    (Within-mono l r (collect known l) (collect-Within l known), collect-Within r (collect known l))

abbrev pub NoRepeat : List ℕ → Type 0
NoRepeat [] = Unit {0}
NoRepeat (x ∷ xs) = (contains xs x ≡ false) × NoRepeat xs

abbrev keys : List (ℕ × Value) → List ℕ
keys [] = []
keys ((id, v) ∷ m) = id ∷ keys m

lookup-none : (id : ℕ) (m : List (ℕ × Value)) → lookup id m ≡ none → contains (keys m) id ≡ false
lookup-none id [] h = refl
lookup-none id ((k, v) ∷ m) h = elim (Bool-cases (k == id)) [
  | inl here ↦ cc (rw here at h)
  | inr there ↦ rw there (lookup-none id m (rw there at h))
]

module _ (deps : List ℕ) where
  record Traced (s : Evaluator) : Type 0 where
    entries : keys s.cache ≡ s.asked
    once : NoRepeat s.asked
    declared : All (λ id. contains deps id ≡ true) s.asked

  abbrev Traces : Result EvaluationError (Value × Evaluator) → Type 0
  Traces (ok (v, s)) = Traced s
  Traces (err e) = Unit {0}

  then-Traces :
      (m : Result EvaluationError (Value × Evaluator))
      (f : Value × Evaluator → Result EvaluationError (Value × Evaluator))
      → Traces m
      → ((v : Value) (s : Evaluator) → Traced s → Traces (f (v, s)))
      → Traces (m >>= f)
  then-Traces (ok (v, s)) f h k = k v s h
  then-Traces (err e) f h k = tt

  give-Traces :
      {A : Type 0} (m : Result EvaluationError A) (g : A → Value) (s : Evaluator)
      → Traced s
      → Traces (m >>= λ r. ok (g r, s))
  give-Traces (ok x) g s h = h
  give-Traces (err e) g s h = tt

  module _ (a : Arithmetic) (cancelled_at : ℕ → Bool) (resolver : Option Resolver) where
    poll-Traces :
        (s : Evaluator) (f : Evaluator → Result EvaluationError (Value × Evaluator))
        → Traced s
        → ((s1 : Evaluator) → Traced s1 → Traces (f s1))
        → Traces (poll a cancelled_at resolver s >>= f)
    unfolding poll
    poll-Traces s f h k = elim (Bool-cases (cancelled_at s.polls)) [
      | inl done ↦ rw done tt
      | inr live ↦ rw live (
          k (record s { polls = s.polls + 1 })
            (record { entries = h.entries; once = h.once; declared = h.declared }))
    ]

    keep-Traces :
        (id : ℕ) (s : Evaluator) (m : Result EvaluationError Value)
        → Traced s
        → contains deps id ≡ true
        → lookup id s.cache ≡ none
        → Traces (keep a cancelled_at resolver id s m)
    unfolding keep
    keep-Traces id s (ok v) h known new = record {
      entries = ap (λ t. id ∷ t) h.entries;
      once = (subst (λ t. contains t id ≡ false) h.entries (lookup-none id s.cache new), h.once);
      declared = (known, h.declared);
    }
    keep-Traces id s (err e) h known new = tt

    reference-Traces :
        (id : ℕ) (s : Evaluator)
        → Traced s
        → contains deps id ≡ true
        → Traces (evaluate_reference a cancelled_at resolver id s)
    unfolding evaluate_reference
    reference-Traces id s h known = go (lookup id s.cache) refl
      where
        ask :
            (r : Option Resolver)
            → lookup id s.cache ≡ none
            → Traces (resolve a cancelled_at resolver id r s)
        ask none e = tt
        ask (some r) e = keep-Traces id s (resolved a cancelled_at resolver (r id)) h known e

        go :
            (o : Option Value)
            → lookup id s.cache ≡ o
            → Traces (elim o [
              | some v ↦ ok (v, s)
              | none ↦ resolve a cancelled_at resolver id resolver s
            ])
        go none e = ask resolver e
        go (some v) e = h

    eval-Traces :
        (n : Node) (s : Evaluator)
        → Within deps n
        → Traced s
        → Traces (eval a cancelled_at resolver n s)
    unfolding eval
    eval-Traces (literal v) s w h = poll-Traces s _ h (λ s1 h1. h1)
    eval-Traces (Node.reference id) s w h = poll-Traces s _ h (λ s1 h1. reference-Traces id s1 h1 w)
    eval-Traces (unary o n) s w h = poll-Traces s _ h (λ s1 h1.
        then-Traces (eval a cancelled_at resolver n s1) _ (eval-Traces n s1 w h1)
          (λ v s2 h2. give-Traces (apply_unary a o v) (λ r. r) s2 h2))
    eval-Traces (binary o l m) s w h = poll-Traces s _ h (λ s1 h1.
        then-Traces (eval a cancelled_at resolver l s1) _ (eval-Traces l s1 w.0 h1) (λ left s2 h2.
          if-elim Traces (is_logical a o)
            (λ logic.
              >>=-elim Traces (bool_of a left) _
                (λ x e.
                  if-elim Traces (settles a o x) (λ settled. h2)
                    (λ both.
                      then-Traces (eval a cancelled_at resolver m s2) _ (eval-Traces m s2 w.1 h2)
                        (λ v s3 h3.
                          give-Traces (bool_of a v) (λ y. Value.bool (combine a o x y)) s3 h3)))
                (λ x e. tt))
            (λ plain.
              then-Traces (eval a cancelled_at resolver m s2) _ (eval-Traces m s2 w.1 h2)
                (λ v s3 h3. give-Traces (apply_binary a o left v) (λ r. r) s3 h3))))

-- Of a text that parses, a successful evaluation has asked the resolver only for dependencies of
-- the expression, and for none of them twice.
pub parse_eval-asked :
    (a : Arithmetic) (parse_uuid : Text → Option ℕ) (cancelled_at : ℕ → Bool)
    (resolver : Option Resolver) (raw : Text) {e : Expression} {v : Value} {s : Evaluator}
    → parse_expression a parse_uuid raw ≡ ok e
    → eval a cancelled_at resolver e.root (record { cache = []; polls = 0; asked = [] }) ≡ ok (v, s)
    → NoRepeat s.asked × All (λ id. contains e.dependencies id ≡ true) s.asked
parse_eval-asked a parse_uuid cancelled_at resolver raw {e} {v} {s} parsed evaluated =
    let known = subst ParseOutcome parsed (parse_expression-ParseOutcome a parse_uuid raw) in
    let within = subst (λ t. Within t e.root) (sym known.collected) (collect-Within e.root []) in
    let traced : Traced e.dependencies s = subst (Traces e.dependencies) evaluated (
      eval-Traces e.dependencies a cancelled_at resolver e.root
        (record { cache = []; polls = 0; asked = [] }) within
        (record { entries = refl; once = tt; declared = tt })) in
    (traced.once, traced.declared)
