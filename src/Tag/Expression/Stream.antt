-- ===== src/Tag/Expression/Stream.antt =====
-- `lexExpression` always ends, and its tokens form a stream that the parser cannot overrun.
use iot_edge.Prelude.{
  ℕ, zero, suc, ◌-◌, ◌≤◌, ◌<◌, ◌≡◌, Option, List, [], ◌∷◌, ◌++◌, length, length-append, leb, Result,
  ok, err, All, All-append, if-elim, >>=-elim, Bool-cases, inl, inr, arith, subst,
}
use iot_edge.Value.Float.{Arithmetic}
use iot_edge.Value.Text.{Text, is_space}
use iot_edge.Tag.Expression.Token.{ExpressionError, too_complex, TokenKind, eof, Token}
use iot_edge.Tag.Expression.Lexer.{scan_token, append_token, lex_loop, lex_expression}
use iot_edge.Tag.Expression.Scan.{
  IsProper, IsInner, IsStream, IsStream-append, Scans, scan_token-Scans,
}

append_token-ok :
    (tokens : List Token) (t : Token) {tokens' : List Token}
    → append_token tokens t ≡ ok tokens'
    → (tokens' ≡ tokens ++ t ∷ []) × (length tokens < 256)
unfolding append_token
append_token-ok tokens t h = ground arith

append_token-err :
    (tokens : List Token) (t : Token) {x : ExpressionError}
    → append_token tokens t ≡ err x
    → IsProper x
unfolding append_token
append_token-err tokens t h = elim (Bool-cases (leb 256 (length tokens))) [
  | inl full ↦ let same : too_complex ≡ _ = cc (rw full at h) in subst IsProper same tt
  | inr room ↦ cc (rw room at h)
]

abbrev pub LexOutcome : Result ExpressionError (List Token) → Type 0
LexOutcome (ok tokens) = IsStream tokens × (length tokens ≤ 257)
LexOutcome (err e) = IsProper e

module _ (arithmetic : Arithmetic) (parse_uuid : Text → Option ℕ) where
  lex_loop-LexOutcome :
      (fuel size : ℕ) (tokens : List Token) (s : Text)
      → length s < fuel
      → All (λ t. IsInner t.kind) tokens
      → length tokens ≤ 256
      → LexOutcome (lex_loop arithmetic parse_uuid fuel size tokens s)
  unfolding lex_loop
  lex_loop-LexOutcome zero size tokens s f inner few = absurd (omega arith)
  lex_loop-LexOutcome (suc fuel) size tokens [] f inner few = (
    IsStream-append tokens size inner,
    omega (arith, length-append tokens ((record { kind = eof; position = size }) ∷ [])),
  )
  lex_loop-LexOutcome (suc fuel) size tokens (c ∷ r) f inner few =
      if-elim LexOutcome (is_space c)
        (λ space. lex_loop-LexOutcome fuel size tokens r (omega arith) inner few)
        (λ byte.
          >>=-elim LexOutcome (scan_token arithmetic parse_uuid (size - suc (length r)) c r) _
            (λ (scanned : TokenKind × Text) e.
              let scans : Scans (length r) (ok scanned) =
                subst (Scans (length r)) e
                  (scan_token-Scans arithmetic parse_uuid (size - suc (length r)) c r) in
              >>=-elim LexOutcome
                (append_token tokens
                  (record { kind = scanned.0; position = size - suc (length r) }))
                _
                (λ tokens' e'.
                  let (appended, room) = append_token-ok tokens _ e' in
                  lex_loop-LexOutcome fuel size tokens' scanned.1 (omega arith)
                    (rw appended (All-append (λ t. IsInner t.kind) tokens _ inner (scans.0, tt)))
                    (rw appended (
                      omega (
                        arith,
                        length-append tokens
                            ((record { kind = scanned.0; position = size - suc (length r) }) ∷ []),
                      ))))
                (λ x e'. append_token-err tokens _ e'))
            (λ x e.
              subst (Scans (length r)) e
                (scan_token-Scans arithmetic parse_uuid (size - suc (length r)) c r)))

  -- Lexing ends on every text, without a panic: the tokens are a stream with the end marker last and
  -- nowhere else, all numbers in it finite, at most 256 tokens before the marker; or the text is
  -- refused by an error of the language.
  pub lex_expression-LexOutcome :
      (raw : Text) → LexOutcome (lex_expression arithmetic parse_uuid raw)
  unfolding lex_expression
  lex_expression-LexOutcome raw =
      lex_loop-LexOutcome (suc (length raw)) (length raw) [] raw (omega arith) tt (omega arith)
