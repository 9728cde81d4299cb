-- ===== src/Tag/Decoder/Tests.antt =====
-- The decoder with a concrete configuration, and the theorems about it there.
use iot_edge.Prelude.{◌≡◌, refl, pos, ok, err, some, none, ◌⊎◌, [], ◌∷◌}
use iot_edge.Value.{DataType}
use iot_edge.Tag.Converter.{ByteOrder, insufficient_data, non_finite, convert_binary}
use iot_edge.Tag.Decoder.{conversion, RawConfig, Config, normalize_config, canonical, decode}
use iot_edge.Tag.Decoder.Errors.{normalize_config_idem, decode-fault}

abbrev raw : RawConfig
raw = RawConfig.object (record { byte_offset = some (pos 2); byte_order = none; bit_offset = none })

abbrev config : Config
config = record { byte_offset = pos 2; byte_order = ByteOrder.big_endian; bit_offset = 0 }

raw_accepted : normalize_config DataType.uint16 raw ≡ ok config
unfolding normalize_config
raw_accepted = refl

short : decode (1 ∷ 2 ∷ 3 ∷ []) DataType.uint16 raw ≡ err (conversion insufficient_data)
unfolding decode normalize_config convert_binary
short = refl

normalize_config_idem_example : normalize_config DataType.uint16 (canonical config) ≡ ok config
normalize_config_idem_example = normalize_config_idem DataType.uint16 raw raw_accepted

decode-fault_example :
    (conversion insufficient_data ≡ conversion insufficient_data)
    ⊎ (conversion insufficient_data ≡ conversion non_finite)
decode-fault_example = decode-fault (1 ∷ 2 ∷ 3 ∷ []) DataType.uint16 raw raw_accepted short
