-- ===== src/Tag/Expression/Scan.antt =====
-- The scanners of the lexer take a byte or more, or fail with an error of the language.
use iot_edge.Prelude.{
  ℕ, suc, ◌+◌, ◌≤◌, ◌<◌, ◌≡◌, refl, Bool, true, false, ◌||◌, Option, none, some, List, [], ◌∷◌,
  ◌++◌, length, drop, length-drop, ◌==◌, Result, ok, err, All, if-elim, >>=-elim, Bool-cases,
  Option-cases, inl, inr, arith, subst,
}
use iot_edge.Value.Float.{Arithmetic, is_finite64}
use iot_edge.Value.Text.{Text, text_eq, codes}
use iot_edge.Tag.Expression.Token.{
  ExpressionError, diverged, out_of_range, invalid_at, Operator, TokenKind, eof, number, operator,
  Token, is_digit, is_alpha,
}
use iot_edge.Tag.Expression.Lexer.{
  consumed, two_byte_operators, one_byte_operators, starts_with, drop_while, match_operator,
  scan_operator, scan_keyword, skip_fraction, skip_sign, skip_exponent, split_brace, accept_number,
  accept_reference, scan_number, scan_braces, scan_reference, starts_number, scan_token,
}

-- An error of the source: neither a panic nor a loop without end.
abbrev pub IsProper : ExpressionError → Type 0
IsProper diverged = ⊥
IsProper out_of_range = ⊥
IsProper _ = Unit {0}

-- A token of the text: not the end, and a number only if it is finite.
abbrev pub IsInner : TokenKind → Type 0
IsInner eof = ⊥
IsInner (number bits) = is_finite64 bits ≡ true
IsInner _ = Unit {0}

abbrev pub StreamFrom : TokenKind → List Token → Type 0 → Type 0
StreamFrom eof r rest = r ≡ []
StreamFrom (number bits) r rest = (is_finite64 bits ≡ true) × rest
StreamFrom _ r rest = rest

-- Tokens of the text with one token for the end of it behind them.
abbrev pub IsStream : List Token → Type 0
IsStream [] = ⊥
IsStream (t ∷ r) = StreamFrom t.kind r (IsStream r)

stream_cons : (k : TokenKind) (r : List Token) {S : Type 0} → IsInner k → S → StreamFrom k r S
stream_cons eof r h s = absurd h
stream_cons (number bits) r h s = (h, s)
stream_cons _ r h s = s

pub IsStream-append :
    (tokens : List Token) (size : ℕ)
    → All (λ t. IsInner t.kind) tokens
    → IsStream (tokens ++ (record { kind = eof; position = size }) ∷ [])
IsStream-append [] size h = refl
IsStream-append (t ∷ r) size h = stream_cons t.kind _ h.0 (IsStream-append r size h.1)

length-drop_while : (p : ℕ → Bool) (s : Text) → length (drop_while p s) ≤ length s
unfolding drop_while
length-drop_while p [] = omega arith
length-drop_while p (c ∷ r) = ground (arith, length-drop_while p r)

length-skip_fraction : (s : Text) → length (skip_fraction s) ≤ length s
unfolding skip_fraction
length-skip_fraction [] = omega arith
length-skip_fraction (c ∷ r) = ground (arith, length-drop_while is_digit r)

length-skip_sign : (s : Text) → length (skip_sign s) ≤ length s
unfolding skip_sign
length-skip_sign [] = omega arith
length-skip_sign (c ∷ r) = ground arith

-- What a scanner at a text of `n + 1` bytes gives: an inner token and at most `n` bytes, or an error.
abbrev pub Scans : ℕ → Result ExpressionError (TokenKind × Text) → Type 0
Scans n (ok (k, rest)) = IsInner k × (length rest ≤ n)
Scans n (err e) = IsProper e

abbrev Leaves : ℕ → Result ExpressionError Text → Type 0
Leaves n (ok rest) = length rest ≤ n
Leaves n (err e) = IsProper e

skip_exponent-Leaves : (position : ℕ) (s : Text) → Leaves (length s) (skip_exponent position s)
unfolding skip_exponent
skip_exponent-Leaves position [] = omega arith
skip_exponent-Leaves position (c ∷ r) =
    if-elim (Leaves (suc (length r))) ((c == b'e') || (c == b'E'))
      (λ marked.
        if-elim (Leaves (suc (length r)))
          (length (drop_while is_digit (skip_sign r)) == length (skip_sign r)) (λ none_left. tt)
          (λ some_left.
            omega (arith, length-drop_while is_digit (skip_sign r), length-skip_sign r)))
      (λ plain. omega arith)

accept_number-Scans :
    (position n : ℕ) (rest : Text) (o : Option ℕ)
    → length rest ≤ n
    → Scans n (accept_number position rest o)
accept_number-Scans position n rest none h = tt
accept_number-Scans position n rest (some bits) h =
    if-elim (Scans n) (is_finite64 bits) (λ finite. (finite, h)) (λ odd. tt)

accept_reference-Scans :
    (position n : ℕ) (rest : Text) (o : Option ℕ)
    → length rest ≤ n
    → Scans n (accept_reference position rest o)
accept_reference-Scans position n rest none h = tt
accept_reference-Scans position n rest (some id) h =
    if-elim (Scans n) (id == 0) (λ zero_id. tt) (λ set_id. (tt, h))

Leaves-ok :
    (n m : ℕ) {m' : Result ExpressionError Text} {rest : Text}
    → Leaves n m'
    → m' ≡ ok rest
    → n ≤ m
    → length rest ≤ m
Leaves-ok n m l e h = omega (arith, subst (Leaves n) e l)

Leaves-err :
    (n : ℕ) {m : Result ExpressionError Text} {x : ExpressionError}
    → Leaves n m
    → m ≡ err x
    → IsProper x
Leaves-err n l e = subst (Leaves n) e l

starts_point :
    (c : ℕ) (r : Text) → is_digit c ≡ false → starts_number c r ≡ true → (c == b'.') ≡ true
starts_point c [] h k = cc
starts_point c (d ∷ r) h k = ground arith

skip_point : (c : ℕ) (r : Text) → (c == b'.') ≡ true → length (skip_fraction (c ∷ r)) ≤ length r
unfolding skip_fraction
skip_point c r h = rw h (length-drop_while is_digit r)

-- A number starts with a digit, or with a point before a digit: at least one byte is taken.
skip_start :
    (c : ℕ) (r : Text)
    → starts_number c r ≡ true
    → length (skip_fraction (drop_while is_digit (c ∷ r))) ≤ length r
unfolding drop_while
skip_start c r h = elim (Bool-cases (is_digit c)) [
  | inl digit ↦
      rw digit
        (omega (arith, length-skip_fraction (drop_while is_digit r), length-drop_while is_digit r))
  | inr point ↦ rw point (skip_point c r (starts_point c r point h))
]

scan_number-Scans :
    (arithmetic : Arithmetic) (parse_uuid : Text → Option ℕ) (position c : ℕ) (r : Text)
    → starts_number c r ≡ true
    → Scans (length r) (scan_number arithmetic parse_uuid position (c ∷ r))
unfolding scan_number
scan_number-Scans arithmetic parse_uuid position c r h =
    let s = skip_fraction (drop_while is_digit (c ∷ r)) in
    >>=-elim (Scans (length r)) (skip_exponent position s) _
      (λ rest e.
        accept_number-Scans position (length r) rest
          (arithmetic.parse_float (consumed (c ∷ r) rest))
          (Leaves-ok (length s) (length r) (skip_exponent-Leaves position s) e (skip_start c r h)))
      (λ x e. Leaves-err (length s) (skip_exponent-Leaves position s) e)

scan_keyword-Scans :
    (position c : ℕ) (r : Text)
    → is_alpha c ≡ true
    → Scans (length r) (scan_keyword position (c ∷ r))
unfolding scan_keyword
scan_keyword-Scans position c r h =
    let short : length (drop_while is_alpha (c ∷ r)) ≤ length r =
      unfold drop_while in rw h (length-drop_while is_alpha r) in
    if-elim (Scans (length r))
      (text_eq (consumed (c ∷ r) (drop_while is_alpha (c ∷ r))) (codes "true")) (λ t. (tt, short))
      (λ t.
        if-elim (Scans (length r))
          (text_eq (consumed (c ∷ r) (drop_while is_alpha (c ∷ r))) (codes "false"))
          (λ f. (tt, short)) (λ f. tt))

split_brace-shorter :
    (s : Text) {before after : Text}
    → split_brace s ≡ some (before, after)
    → length after < length s
unfolding split_brace
split_brace-shorter [] h = cc
split_brace-shorter (c ∷ r) {before} {after} h = elim (Bool-cases (c == b'}')) [
  | inl found ↦ let same : r ≡ after = cc (rw found at h) in rw (← same) (omega arith)
  | inr further ↦ elim (Option-cases (split_brace r)) [
    | inl missing ↦ cc (rw (further, missing) at h)
    | inr ((b, a), e) ↦
        let same : a ≡ after = cc (rw (further, e) at h) in
        rw (← same) (omega (arith, split_brace-shorter r e))
  ]
]

scan_reference-Scans :
    (arithmetic : Arithmetic) (parse_uuid : Text → Option ℕ) (position : ℕ) (s : Text)
    → Scans (length s) (scan_reference arithmetic parse_uuid position s)
unfolding scan_reference
scan_reference-Scans arithmetic parse_uuid position [] = tt
scan_reference-Scans arithmetic parse_uuid position (c ∷ s) =
    if-elim (Scans (suc (length s))) (c == b'{') (λ brace. braces (split_brace s) refl)
      (λ other. tt)
  where
    braces :
        (o : Option (Text × Text))
        → split_brace s ≡ o
        → Scans (suc (length s)) (scan_braces arithmetic parse_uuid position o)
    braces none e = tt
    braces (some (inner, rest)) e =
        accept_reference-Scans position (suc (length s)) rest (parse_uuid inner)
          (omega (arith, split_brace-shorter s e))

starts_with-le : (p s : Text) → starts_with p s ≡ true → length p ≤ length s
unfolding starts_with
starts_with-le [] s h = omega arith
starts_with-le (c ∷ p) [] h = cc
starts_with-le (c ∷ p) (d ∷ s) h = ground (arith, starts_with-le p s)

match_operator-shorter :
    (ops : List (Text × Operator)) (s : Text) {o : Operator} {rest : Text}
    → All (λ (e : Text × Operator). 0 < length e.0) ops
    → match_operator ops s ≡ some (o, rest)
    → length rest < length s
unfolding match_operator
match_operator-shorter [] s h e = cc
match_operator-shorter ((p, o) ∷ ops) s {rest = rest} h e = elim (Bool-cases (starts_with p s)) [
  | inl starts ↦
      let same : drop (length p) s ≡ rest = cc (rw starts at e) in
      rw (← same) (omega (arith, length-drop (length p) s, starts_with-le p s starts, h.0))
  | inr other ↦ match_operator-shorter ops s h.1 (rw other at e)
]

scan_operator-Scans :
    (position c : ℕ) (r : Text) → Scans (length r) (scan_operator position (c ∷ r))
unfolding scan_operator
scan_operator-Scans position c r =
    go (match_operator (two_byte_operators ++ one_byte_operators) (c ∷ r)) refl
  where
    go :
        (o : Option (Operator × Text))
        → match_operator (two_byte_operators ++ one_byte_operators) (c ∷ r) ≡ o
        → Scans (length r) (elim o [
          | some (o, rest) ↦ ok (operator o, rest)
          | none ↦ err (invalid_at (position + 1))
        ])
    go none e = tt
    go (some (o, rest)) e = (
      tt,
      omega (
        arith,
        match_operator-shorter (two_byte_operators ++ one_byte_operators) (c ∷ r) (omega arith) e,
      ),
    )

-- Every round takes at least the byte that it looks at.
pub scan_token-Scans :
    (arithmetic : Arithmetic) (parse_uuid : Text → Option ℕ) (position c : ℕ) (r : Text)
    → Scans (length r) (scan_token arithmetic parse_uuid position c r)
unfolding scan_token
scan_token-Scans arithmetic parse_uuid position c r =
    if-elim (Scans (length r)) (starts_number c r)
      (λ h. scan_number-Scans arithmetic parse_uuid position c r h)
      λ h1.
        if-elim (Scans (length r)) (is_alpha c) (λ h. scan_keyword-Scans position c r h)
          λ h2.
            if-elim (Scans (length r)) (c == b'$')
              (λ h. scan_reference-Scans arithmetic parse_uuid position r)
              λ h3.
                if-elim (Scans (length r)) (c == b'(') (λ h. (tt, omega arith))
                  λ h4.
                    if-elim (Scans (length r)) (c == b')') (λ h. (tt, omega arith))
                      λ h5. scan_operator-Scans position c r
