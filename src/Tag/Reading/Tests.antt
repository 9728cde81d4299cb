-- ===== src/Tag/Reading/Tests.antt =====
-- Samples of `ProcessReadingSample` (backend/internal/tag/service.go), with an arithmetic that leaves the
-- first operand.
use iot_edge.Prelude.{ℕ, ◌≡◌, refl, none, some, List, [], ◌∷◌, pos, ok, err}
use iot_edge.Value.{DataType, Value}
use iot_edge.Value.Float.{Arithmetic}
use iot_edge.Value.Text.{codes}
use iot_edge.Tag.Converter.{ByteOrder, insufficient_data, convert_binary}
use iot_edge.Tag.Decoder.{conversion, RawConfig}
use iot_edge.Tag.Dependencies.Transform.{LinearInput}
use iot_edge.Tag.Reading.{
  source_failed, decode_failed, server_decoders, SampleQuality, DatasourceSample, ReadingInput,
  ReadingConfig, process_reading_sample,
}

abbrev firsts : Arithmetic
firsts = record {
  add = λ a b. a;
  sub = λ a b. a;
  mul = λ a b. a;
  div = λ a b. a;
  fmod = λ a b. a;
  of_int = λ z. 0;
  widen = λ a. a;
  narrow = λ a. 0;
  trunc = λ a. a;
  to_int = λ a. pos 0;
  parse_float = λ t. none;
}

-- A float32 of the device for a float64 tag, with a gain.
abbrev input : ReadingInput
input =
    ReadingInput.object
      (some (record {
        type = codes " binary_numeric";
        data_type = some DataType.float32;
        config = RawConfig.empty;
      }))
      (some (record { type = codes "linear "; config = LinearInput.object (some 5) none }))

abbrev stored_config : ReadingConfig
stored_config = record {
  decoder = record {
    type = codes "binary_numeric";
    data_type = some DataType.float32;
    config = RawConfig.object (record {
      byte_offset = some (pos 0);
      byte_order = some ByteOrder.big_endian;
      bit_offset = some 0;
    });
  };
  transform =
      some (record { type = codes "linear"; config = LinearInput.object (some 5) (some 0) });
}

abbrev sample_of : SampleQuality → List ℕ → DatasourceSample
sample_of quality raw = record { quality = quality; raw = raw }

abbrev one : DatasourceSample
one = sample_of SampleQuality.good (63 ∷ 128 ∷ 0 ∷ 0 ∷ [])

reads_one :
    process_reading_sample server_decoders firsts DataType.float64 input one
    ≡ ok (Value.float64 1065353216)
unfolding process_reading_sample server_decoders convert_binary
reads_one = refl

refuses_short :
    process_reading_sample server_decoders firsts DataType.float64 input
      (sample_of SampleQuality.unset (63 ∷ 128 ∷ []))
    ≡ err (decode_failed (conversion insufficient_data))
unfolding process_reading_sample server_decoders convert_binary
refuses_short = refl

refuses_bad :
    process_reading_sample server_decoders firsts DataType.float64 input
      (sample_of SampleQuality.other (63 ∷ 128 ∷ 0 ∷ 0 ∷ []))
    ≡ err source_failed
unfolding process_reading_sample server_decoders
refuses_bad = refl
