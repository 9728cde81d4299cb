-- ===== src/Tag/Dependencies/Transform.antt =====
-- backend/internal/tag/transform.go: the linear transform. A configuration is what the strict decoder
-- makes of its text.
use iot_edge.Prelude.{
  ℕ, not, ◌||◌, Option, none, some, Result, ok, err, ◌>>=◌, ◌>>◌, fail_if, if◌then◌else◌,
}
use iot_edge.Value.{Value}
use iot_edge.Value.Float.{Arithmetic, is_finite64}
use iot_edge.Tag.Expression.Eval.{expression_number}

pub data TransformError : Type 0 where
  invalid_transform_config : TransformError

-- `linearTransformConfigInput`, or a text that the strict decoder refuses.
pub data LinearInput : Type 0 where
  malformed : LinearInput
  object : (gain offset : Option ℕ) → LinearInput

pub record LinearTransform : Type 0 where
  pub gain : ℕ
  pub offset : ℕ

abbrev or_offset : Option ℕ → ℕ
or_offset none = 0
or_offset (some b) = b

unfoldable pub normalize_linear_transform : LinearInput → Result TransformError LinearTransform
unfolding is_finite64
normalize_linear_transform LinearInput.malformed = err invalid_transform_config
normalize_linear_transform (LinearInput.object none offset) = err invalid_transform_config
normalize_linear_transform (LinearInput.object (some gain) offset) =
    fail_if (not (is_finite64 gain) || not (is_finite64 (or_offset offset)))
      invalid_transform_config
    >> ok (record { gain = gain; offset = or_offset offset })

module _ (arithmetic : Arithmetic) where
  -- `number*config.Gain + config.Offset`, where it is finite.
  unfoldable pub transformed : LinearTransform → ℕ → Result TransformError Value
  unfolding is_finite64
  transformed c number =
      let result = arithmetic.add (arithmetic.mul number c.gain) c.offset in
      if is_finite64 result then ok (Value.float64 result) else err invalid_transform_config

  abbrev numeric : Option ℕ → Result TransformError ℕ
  numeric none = err invalid_transform_config
  numeric (some number) = if is_finite64 number then ok number else err invalid_transform_config

  unfoldable pub apply_linear_transform : Value → LinearInput → Result TransformError Value
  unfolding normalize_linear_transform transformed expression_number
  apply_linear_transform value raw = numeric (expression_number arithmetic value) >>= λ number.
      normalize_linear_transform raw >>= λ c. transformed c number
