-- ===== src/Tag/Reading/Outcome.antt =====
-- What `ProcessReadingSample` (backend/internal/tag/service.go) answers for an accepted configuration.
use iot_edge.Prelude.{◌≡◌, ◌≢◌, ◌⊎◌, Result, ok, err}
use iot_edge.Value.{DataType, Value, HasType}
use iot_edge.Value.Float.{Arithmetic}
use iot_edge.Tag.Coerce.{CoerceError, coerce_tag_value}
use iot_edge.Tag.Converter.{insufficient_data, non_finite}
use iot_edge.Tag.Decoder.{conversion, decode}
use iot_edge.Tag.Dependencies.Transform.{invalid_transform_config}
use iot_edge.Tag.Reading.{
  ReadingError, source_failed, decode_failed, transform_failed, coerce_failed, SampleQuality,
  DatasourceSample, ReadingConfig, source_type,
}
use iot_edge.Tag.Reading.Scaled.{IsUnscaled, IsScaled}

module _ (arithmetic : Arithmetic) where
  -- What an answer says: a value has the type of the tag, and an error has its cause in the sample.
  abbrev pub IsReading :
      DataType → ReadingConfig → DatasourceSample → Result ReadingError Value → Type 0
  IsReading t reading sample (ok v) =
      HasType t v
      × (sample.quality ≢ SampleQuality.other)
      × (decoded value : Value) × (decode sample.raw (source_type t reading.decoder.data_type)
            reading.decoder.config
          ≡ ok decoded)
      × IsScaled arithmetic reading.transform decoded value
      × (coerce_tag_value arithmetic t value ≡ ok v)
  IsReading t reading sample (err e) =
      ((sample.quality ≡ SampleQuality.other) × (e ≡ source_failed))
      ⊎ (e ≡ decode_failed (conversion insufficient_data))
      ⊎ (e ≡ decode_failed (conversion non_finite))
      ⊎ ((decoded : Value) × (decode sample.raw (source_type t reading.decoder.data_type)
              reading.decoder.config
            ≡ ok decoded)
          × IsUnscaled arithmetic reading.transform decoded
          × (e ≡ transform_failed invalid_transform_config))
      ⊎ ((value : Value) × (refused : CoerceError) × (coerce_tag_value arithmetic t value
            ≡ err refused)
          × (e ≡ coerce_failed refused))
