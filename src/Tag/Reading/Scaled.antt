-- ===== src/Tag/Reading/Scaled.antt =====
-- What the transform of an accepted reading (backend/internal/tag/transform.go) makes of a value.
use iot_edge.Prelude.{
  ℕ, ◌≡◌, ◌⊎◌, inl, inr, refl, sym, subst, false, Option, none, some, Bool-cases, Result, ok, err,
  ok-injective,
}
use iot_edge.Value.{Value}
use iot_edge.Value.Float.{Arithmetic, is_finite64}
use iot_edge.Tag.Dependencies.Transform.{
  TransformError, invalid_transform_config, LinearTransform, normalize_linear_transform,
  transformed, apply_linear_transform,
}
use iot_edge.Tag.Expression.Eval.{expression_number}
use iot_edge.Tag.Reading.{
  ReadingError, transform_failed, server_decoders, TransformEnvelope, canonical_linear,
  or_transform_failed, transform_value,
}
use iot_edge.Tag.Reading.Accepted.{IsLinear}

module _ (arithmetic : Arithmetic) where
  abbrev HasNoNumber : Option ℕ → Type 0
  HasNoNumber none = Unit {0}
  HasNoNumber (some number) = is_finite64 number ≡ false

  -- A value has no finite number that a transform scales to a finite one.
  abbrev pub IsUnscaled : Option TransformEnvelope → Value → Type 0
  IsUnscaled none value = ⊥
  IsUnscaled (some transform) value =
      (l : LinearTransform) × (transform.config ≡ canonical_linear l)
      × (HasNoNumber (expression_number arithmetic value)
          ⊎ ((number : ℕ) × (expression_number arithmetic value ≡ some number)
              × (is_finite64 (arithmetic.add (arithmetic.mul number l.gain) l.offset) ≡ false)))

  -- What the transform of an accepted configuration makes of a decoded value.
  abbrev pub IsScaled : Option TransformEnvelope → (decoded value : Value) → Type 0
  IsScaled none decoded value = value ≡ decoded
  IsScaled (some transform) decoded value =
      (l : LinearTransform) × (number : ℕ) × (transform.config ≡ canonical_linear l)
      × (expression_number arithmetic decoded ≡ some number)
      × (value ≡ Value.float64 (arithmetic.add (arithmetic.mul number l.gain) l.offset))

  apply_linear_transform-IsUnscaled :
      (o : Option ℕ) (value : Value) (l : LinearTransform) {e : TransformError}
      → expression_number arithmetic value ≡ o
      → normalize_linear_transform (canonical_linear l) ≡ ok l
      → apply_linear_transform arithmetic value (canonical_linear l) ≡ err e
      → HasNoNumber (expression_number arithmetic value)
        ⊎ ((number : ℕ) × (expression_number arithmetic value ≡ some number)
            × (is_finite64 (arithmetic.add (arithmetic.mul number l.gain) l.offset) ≡ false))
  unfolding apply_linear_transform transformed
  apply_linear_transform-IsUnscaled none value l at normal h = inl (rw at tt)
  apply_linear_transform-IsUnscaled (some number) value l at normal h =
      elim (Bool-cases (is_finite64 number)) [
        | inr odd ↦ inl (rw at odd)
        | inl finite ↦ inr (
          number,
          at,
          elim (Bool-cases (is_finite64 (arithmetic.add (arithmetic.mul number l.gain) l.offset))) [
            | inr odd ↦ odd
            | inl good ↦ cc (rw (at, finite, normal, good) at h)
          ],
        )
      ]

  apply_linear_transform-IsScaled :
      (o : Option ℕ) (decoded : Value) (l : LinearTransform) {value : Value}
      → expression_number arithmetic decoded ≡ o
      → normalize_linear_transform (canonical_linear l) ≡ ok l
      → apply_linear_transform arithmetic decoded (canonical_linear l) ≡ ok value
      → (number : ℕ) × (expression_number arithmetic decoded ≡ some number)
        × (value ≡ Value.float64 (arithmetic.add (arithmetic.mul number l.gain) l.offset))
  unfolding apply_linear_transform transformed
  apply_linear_transform-IsScaled none decoded l at normal h = cc (rw at at h)
  apply_linear_transform-IsScaled (some number) decoded l at normal h =
      elim (Bool-cases (is_finite64 number)) [
        | inr odd ↦ cc (rw (at, odd) at h)
        | inl finite ↦
            elim (Bool-cases
              (is_finite64 (arithmetic.add (arithmetic.mul number l.gain) l.offset))) [
                | inr odd ↦ cc (rw (at, finite, normal, odd) at h)
                | inl good ↦ (number, at, sym (ok-injective (rw (at, finite, normal, good) at h)))
              ]
      ]

  or_transform_failed-ok :
      (r : Result TransformError Value) {v : Value} → or_transform_failed r ≡ ok v → r ≡ ok v
  or_transform_failed-ok (ok v) h = cc
  or_transform_failed-ok (err e) h = cc

  pub transform_value-IsScaled :
      (transform : Option TransformEnvelope) (decoded value : Value)
      → IsLinear transform
      → transform_value server_decoders arithmetic transform decoded ≡ ok value
      → IsScaled transform decoded value
  unfolding transform_value
  transform_value-IsScaled none decoded value linear h = sym (ok-injective h)
  transform_value-IsScaled (some transform) decoded value (named, l, at, normal) h =
      let made =
        or_transform_failed-ok (apply_linear_transform arithmetic decoded transform.config)
          (rw named at h) in
      let (number, is_number, scaled) =
        apply_linear_transform-IsScaled (expression_number arithmetic decoded) decoded l refl normal
          (subst (λ c. apply_linear_transform arithmetic decoded c ≡ ok value) at made) in
      (l, number, at, is_number, scaled)

  or_transform_failed-err :
      (r : Result TransformError Value) {e : ReadingError}
      → or_transform_failed r ≡ err e
      → (r ≡ err invalid_transform_config) × (e ≡ transform_failed invalid_transform_config)
  or_transform_failed-err (ok v) h = cc
  or_transform_failed-err (err invalid_transform_config) h = (refl, cc)

  pub transform_value-IsUnscaled :
      (transform : Option TransformEnvelope) (value : Value) {e : ReadingError}
      → IsLinear transform
      → transform_value server_decoders arithmetic transform value ≡ err e
      → IsUnscaled transform value × (e ≡ transform_failed invalid_transform_config)
  unfolding transform_value
  transform_value-IsUnscaled none value linear h = cc
  transform_value-IsUnscaled (some transform) value (named, l, at, normal) h =
      let (failed, eq) =
        or_transform_failed-err (apply_linear_transform arithmetic value transform.config)
          (rw named at h) in
      (
        (
          l,
          at,
          apply_linear_transform-IsUnscaled (expression_number arithmetic value) value l refl normal
              (subst (λ c. apply_linear_transform arithmetic value c ≡ err invalid_transform_config)
                at failed),
        ),
        eq,
      )
