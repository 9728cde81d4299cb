-- ===== src/Tag/Reading/Accepted.antt =====
-- What a reading configuration has passed when `normalizeConfig` (backend/internal/tag/service.go) of
-- the server's service accepts it.
use iot_edge.Prelude.{
  ◌≡◌, refl, sym, subst, Bool, true, false, ◌||◌, not, Option, none, some, if◌then◌else◌, if-elim,
  Result, ok, err, >>=-eq-ok, fail_if-eq-ok, ok-injective, arith,
}
use iot_edge.Value.{DataType, data_type_eq}
use iot_edge.Value.Text.{Text, text_eq, trim_space, is_empty}
use iot_edge.Tag.Decoder.{DecodeError, RawConfig, Config, normalize_config, canonical}
use iot_edge.Tag.Decoder.Errors.{normalize_config_idem}
use iot_edge.Tag.Dependencies.Transform.{
  TransformError, LinearInput, LinearTransform, normalize_linear_transform,
}
use iot_edge.Tag.Store.{valid_tag_data_type}
use iot_edge.Tag.Reading.{
  invalid_tag_input, unsupported_tag_data_type, invalid_transform_config, unsupported_transform,
  ReadingDecoder, binary_numeric, binary_numeric_type, server_decoders, DecoderEnvelope,
  TransformEnvelope, ReadingInput, ReadingConfig, linear_type, source_type, canonical_linear,
  or_transform_error, normalize_transform, or_decoder_error, or_unsupported, normalize_with,
  normalize_reading,
}

-- A transform that is there is linear, and its configuration is in canonical form.
abbrev pub IsLinear : Option TransformEnvelope → Type 0
IsLinear none = Unit {0}
IsLinear (some transform) =
    (text_eq transform.type linear_type ≡ true)
    × (l : LinearTransform) × (transform.config ≡ canonical_linear l)
    × (normalize_linear_transform (canonical_linear l) ≡ ok l)

abbrev pub IsAccepted : DataType → ReadingConfig → Type 0
IsAccepted t reading =
    (c : Config) × (server_decoders reading.decoder.type ≡ some binary_numeric)
    × (reading.decoder.config ≡ canonical c)
    × (normalize_config (source_type t reading.decoder.data_type) (canonical c) ≡ ok c)
    × IsLinear reading.transform

data_type_eq-eq : (s t : DataType) → data_type_eq s t ≡ true → t ≡ s
unfolding data_type_eq
data_type_eq-eq DataType.bool DataType.bool h = refl
data_type_eq-eq DataType.int16 DataType.int16 h = refl
data_type_eq-eq DataType.uint16 DataType.uint16 h = refl
data_type_eq-eq DataType.int32 DataType.int32 h = refl
data_type_eq-eq DataType.uint32 DataType.uint32 h = refl
data_type_eq-eq DataType.float32 DataType.float32 h = refl
data_type_eq-eq DataType.float64 DataType.float64 h = refl
data_type_eq-eq DataType.other DataType.other h = refl
data_type_eq-eq _ _ h = cc

source_type-kept : (s t : DataType) → source_type t (if data_type_eq s t then none else some s) ≡ s
source_type-kept s t =
    if-elim (λ o. source_type t o ≡ s) (data_type_eq s t) (data_type_eq-eq s t) (λ _. refl)

normalize_linear_transform_idem :
    (input : LinearInput) (l : LinearTransform)
    → normalize_linear_transform input ≡ ok l
    → normalize_linear_transform (canonical_linear l) ≡ ok l
unfolding normalize_linear_transform
normalize_linear_transform_idem input l h = ground (arith, h)

or_transform_error-ok :
    (r : Result TransformError LinearTransform) {l : LinearTransform}
    → or_transform_error r ≡ ok l
    → r ≡ ok l
or_transform_error-ok (ok c) h = cc
or_transform_error-ok (err e) h = cc

normalize_transform-IsLinear :
    (source t : DataType) (input : Option TransformEnvelope) {o : Option TransformEnvelope}
    → normalize_transform source t input ≡ ok o
    → IsLinear o
unfolding normalize_transform
normalize_transform-IsLinear source t none h = subst IsLinear (ok-injective h) tt
normalize_transform-IsLinear source t (some input) h =
    let (_, h1) =
      fail_if-eq-ok (data_type_eq source DataType.bool || data_type_eq t DataType.bool)
        invalid_transform_config _ h in
    let (linear, h2) =
      fail_if-eq-ok (not (text_eq (trim_space input.type) linear_type)) unsupported_transform _
        h1 in
    let (l, normal, made) =
      >>=-eq-ok (or_transform_error (normalize_linear_transform input.config)) _ h2 in
    subst IsLinear (ok-injective made) (
      not-false (text_eq (trim_space input.type) linear_type) linear,
      l,
      refl,
      normalize_linear_transform_idem input.config l
          (or_transform_error-ok (normalize_linear_transform input.config) normal),
    )
  where
    not-false : (b : Bool) → not b ≡ false → b ≡ true
    not-false true e = refl
    not-false false e = cc

server_decoders-found :
    (name : Text) (decoder : ReadingDecoder)
    → or_unsupported (server_decoders name) ≡ ok decoder
    → (server_decoders name ≡ some binary_numeric) × (binary_numeric ≡ decoder)
unfolding server_decoders
server_decoders-found name decoder h = found (text_eq name binary_numeric_type) h
  where
    found :
        (b : Bool)
        → or_unsupported (if b then some binary_numeric else none) ≡ ok decoder
        → ((if b then some binary_numeric else none) ≡ some binary_numeric)
          × (binary_numeric ≡ decoder)
    found true e = (refl, ok-injective e)
    found false e = cc

or_decoder_error-ok :
    (r : Result DecodeError RawConfig) {c : RawConfig} → or_decoder_error r ≡ ok c → r ≡ ok c
or_decoder_error-ok (ok c) h = cc
or_decoder_error-ok (err e) h = cc

normalized_by-binary_numeric :
    (s : DataType) (raw config : RawConfig)
    → binary_numeric.normalize s raw ≡ ok config
    → (c : Config) × (config ≡ canonical c) × (normalize_config s (canonical c) ≡ ok c)
unfolding binary_numeric
normalized_by-binary_numeric s raw config h =
    let (c, accepted, made) = >>=-eq-ok (normalize_config s raw) _ h in
    (c, sym (ok-injective made), normalize_config_idem s raw accepted)

normalize_with-IsAccepted :
    (t : DataType) (input : DecoderEnvelope) (transform : Option TransformEnvelope)
    {reading : ReadingConfig}
    → normalize_with server_decoders t input transform ≡ ok reading
    → IsAccepted t reading
unfolding normalize_with
normalize_with-IsAccepted t input transform {reading} h =
    let name = trim_space input.type in
    let source = source_type t input.data_type in
    let (_, h1) = fail_if-eq-ok (is_empty name) invalid_tag_input _ h in
    let (decoder, known, h2) = >>=-eq-ok (or_unsupported (server_decoders name)) _ h1 in
    let (_, h3) = fail_if-eq-ok (not (valid_tag_data_type source)) unsupported_tag_data_type _ h2 in
    let (config, normal, h4) =
      >>=-eq-ok (or_decoder_error (decoder.normalize source input.config)) _ h3 in
    let (normalized, linear, made) = >>=-eq-ok (normalize_transform source t transform) _ h4 in
    let (at, same) = server_decoders-found name decoder known in
    let (c, canonical_, again) = normalized_by-binary_numeric source input.config config (
      subst (λ (d : ReadingDecoder). d.normalize source input.config ≡ ok config) (sym same)
        (or_decoder_error-ok (decoder.normalize source input.config) normal)) in
    subst (IsAccepted t) (ok-injective made) (
      c,
      at,
      canonical_,
      subst (λ s. normalize_config s (canonical c) ≡ ok c) (sym (source_type-kept source t)) again,
      normalize_transform-IsLinear source t transform linear,
    )

pub normalize_reading-IsAccepted :
    (t : DataType) (input : ReadingInput) {reading : ReadingConfig}
    → normalize_reading server_decoders t input ≡ ok reading
    → IsAccepted t reading
unfolding normalize_reading
normalize_reading-IsAccepted t ReadingInput.malformed h = cc
normalize_reading-IsAccepted t (ReadingInput.object none transform) h = cc
normalize_reading-IsAccepted t (ReadingInput.object (some input) transform) h =
    normalize_with-IsAccepted t input transform h
