-- ===== src/Tag/Reading.antt =====
-- backend/internal/tag/service.go: the reading branch of `normalizeConfig` and `ProcessReadingSample`.
-- A configuration is what its text decodes to; the texts of errors are left out.
pub mod Accepted
mod Scaled
pub mod Outcome
mod Tests
use iot_edge.Prelude.{
  ℕ, Bool, true, false, ◌||◌, not, Option, none, some, List, [], ◌∷◌, if◌then◌else◌, Result, ok,
  err, ◌>>=◌, ◌>>◌, fail_if,
}
use iot_edge.Value.{DataType, data_type_eq, Value}
use iot_edge.Value.Float.{Arithmetic}
use iot_edge.Value.Text.{Text, text_eq, trim_space, is_empty, codes}
use iot_edge.Tag.Coerce.{CoerceError, coerce_tag_value}
use iot_edge.Tag.Decoder.{DecodeError, RawConfig, Config, normalize_config, canonical, decode}
use iot_edge.Tag.Dependencies.Transform.{
  TransformError, LinearInput, LinearTransform, normalize_linear_transform, apply_linear_transform,
}
use iot_edge.Tag.Store.{valid_tag_data_type}

pub data ReadingError : Type 0 where
  invalid_tag_input unsupported_decoder unsupported_tag_data_type invalid_transform_config
        unsupported_transform source_failed panics :
      ReadingError
  invalid_decoder decode_failed : DecodeError → ReadingError
  transform_failed : TransformError → ReadingError
  coerce_failed : CoerceError → ReadingError

-- `ReadingDecoder`, and the decoders of a service by their types.
pub record ReadingDecoder : Type 0 where
  pub normalize : DataType → RawConfig → Result DecodeError RawConfig
  pub decode_sample : List ℕ → DataType → RawConfig → Result DecodeError Value

abbrev pub Registry : Type 0
Registry = Text → Option ReadingDecoder

-- `binaryNumericDecoder`, and the registry that the server sets up.
abbrev pub binary_numeric : ReadingDecoder
unfolding normalize_config decode
binary_numeric = record {
  normalize = λ t raw. normalize_config t raw >>= λ c. ok (canonical c);
  decode_sample = decode;
}

abbrev pub binary_numeric_type : Text
binary_numeric_type = codes "binary_numeric"

unfoldable pub server_decoders : Registry
unfolding binary_numeric
server_decoders name = if text_eq name binary_numeric_type then some binary_numeric else none

-- The quality of a sample: "" or "good", or another.
pub data SampleQuality : Type 0 where
  unset good other : SampleQuality

pub record DatasourceSample : Type 0 where
  pub quality : SampleQuality
  pub raw : List ℕ

pub record DecoderEnvelope : Type 0 where
  pub type : Text
  pub data_type : Option DataType
  pub config : RawConfig

pub record TransformEnvelope : Type 0 where
  pub type : Text
  pub config : LinearInput

-- `readingConfigInput`, or a text that the strict decoder refuses.
pub data ReadingInput : Type 0 where
  malformed : ReadingInput
  object : Option DecoderEnvelope → Option TransformEnvelope → ReadingInput

pub record ReadingConfig : Type 0 where
  pub decoder : DecoderEnvelope
  pub transform : Option TransformEnvelope

abbrev pub linear_type : Text
linear_type = codes "linear"

-- `sourceDataType`
abbrev pub source_type : DataType → Option DataType → DataType
source_type t none = t
source_type t (some source) = source

-- `json.Marshal` of a transform's configuration, as it is read back.
abbrev pub canonical_linear : LinearTransform → LinearInput
canonical_linear c = LinearInput.object (some c.gain) (some c.offset)

abbrev pub or_transform_error :
    Result TransformError LinearTransform → Result ReadingError LinearTransform
or_transform_error (ok c) = ok c
or_transform_error (err e) = err (transform_failed e)

unfoldable pub normalize_transform :
    (source t : DataType)
    → Option TransformEnvelope
    → Result ReadingError (Option TransformEnvelope)
unfolding data_type_eq trim_space normalize_linear_transform
normalize_transform source t none = ok none
normalize_transform source t (some input) =
    fail_if (data_type_eq source DataType.bool || data_type_eq t DataType.bool)
      invalid_transform_config
    >> fail_if (not (text_eq (trim_space input.type) linear_type)) unsupported_transform
    >> (or_transform_error (normalize_linear_transform input.config) >>= λ c.
        ok (some (record { type = trim_space input.type; config = canonical_linear c })))

abbrev pub or_decoder_error : Result DecodeError RawConfig → Result ReadingError RawConfig
or_decoder_error (ok c) = ok c
or_decoder_error (err e) = err (invalid_decoder e)

abbrev pub or_unsupported : Option ReadingDecoder → Result ReadingError ReadingDecoder
or_unsupported none = err unsupported_decoder
or_unsupported (some decoder) = ok decoder

module _ (decoders : Registry) where
  -- The branch from the name of the decoder on.
  unfoldable pub normalize_with :
      DataType → DecoderEnvelope → Option TransformEnvelope → Result ReadingError ReadingConfig
  unfolding valid_tag_data_type normalize_transform data_type_eq trim_space
  normalize_with t input transform =
      let name = trim_space input.type in
      let source = source_type t input.data_type in
      fail_if (is_empty name) invalid_tag_input
      >> (or_unsupported (decoders name) >>= λ decoder.
          fail_if (not (valid_tag_data_type source)) unsupported_tag_data_type
          >> (or_decoder_error (decoder.normalize source input.config) >>= λ config.
              normalize_transform source t transform >>= λ normalized. ok (record {
                decoder = record {
                  type = name;
                  data_type = if data_type_eq source t then none else some source;
                  config = config;
                };
                transform = normalized;
              })))

  unfoldable pub normalize_reading : DataType → ReadingInput → Result ReadingError ReadingConfig
  unfolding normalize_with
  normalize_reading t ReadingInput.malformed = err invalid_tag_input
  normalize_reading t (ReadingInput.object none transform) = err invalid_tag_input
  normalize_reading t (ReadingInput.object (some input) transform) =
      normalize_with t input transform

abbrev is_bad : SampleQuality → Bool
is_bad SampleQuality.other = true
is_bad _ = false

abbrev pub or_decode_failed : Result DecodeError Value → Result ReadingError Value
or_decode_failed (ok v) = ok v
or_decode_failed (err e) = err (decode_failed e)

abbrev pub or_transform_failed : Result TransformError Value → Result ReadingError Value
or_transform_failed (ok v) = ok v
or_transform_failed (err e) = err (transform_failed e)

abbrev pub or_coerce_failed : Result CoerceError Value → Result ReadingError Value
or_coerce_failed (ok v) = ok v
or_coerce_failed (err e) = err (coerce_failed e)

-- `s.decoders[type].Decode`: a missing decoder is a nil interface, whose call panics.
unfoldable pub decode_with :
    Option ReadingDecoder → List ℕ → DataType → RawConfig → Result ReadingError Value
decode_with none raw t config = err panics
decode_with (some decoder) raw t config = or_decode_failed (decoder.decode_sample raw t config)

module _ (decoders : Registry) (arithmetic : Arithmetic) where
  unfoldable pub transform_value : Option TransformEnvelope → Value → Result ReadingError Value
  unfolding apply_linear_transform
  transform_value none value = ok value
  transform_value (some transform) value =
      if text_eq transform.type linear_type
      then or_transform_failed (apply_linear_transform arithmetic value transform.config)
      else err unsupported_transform

  unfoldable pub process_normalized_reading_sample :
      DataType → ReadingConfig → DatasourceSample → Result ReadingError Value
  unfolding decode_with transform_value coerce_tag_value
  process_normalized_reading_sample t reading sample =
      fail_if (is_bad sample.quality) source_failed
      >> (decode_with (decoders reading.decoder.type) sample.raw
            (source_type t reading.decoder.data_type) reading.decoder.config
          >>= λ decoded. transform_value reading.transform decoded >>= λ value.
              or_coerce_failed (coerce_tag_value arithmetic t value))

  unfoldable pub process_reading_sample :
      DataType → ReadingInput → DatasourceSample → Result ReadingError Value
  unfolding normalize_reading process_normalized_reading_sample
  process_reading_sample t input sample = normalize_reading decoders t input >>= λ reading.
      process_normalized_reading_sample t reading sample
