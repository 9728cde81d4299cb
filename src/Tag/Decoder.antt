-- ===== src/Tag/Decoder.antt =====
-- backend/internal/tag/decoder.go: the strict configuration of a reading decoder, and the decoding
-- of a sample's bytes. encoding/json is not modelled: a configuration is what it decodes to, and
-- the canonical text of a configuration decodes to its three members.
pub mod Errors
mod Tests
use iot_edge.Prelude.{
  ℕ, ◌<◌, ◌≤◌, ◌≡◌, refl, ap, Bool, true, false, ◌&&◌, not, Option, none, some, List, ltb, ◌==◌, ℤ,
  pos, negsuc, if◌then◌else◌, Result, ok, err, ◌>>=◌, ◌>>◌, fail_if, ◌⊎◌, inl, inr, arith,
  >>=-eq-ok, Bool-cases, All, ok-injective, ◌≢◌,
}
use iot_edge.Value.{DataType, data_type_eq, Value, HasType}
use iot_edge.Tag.Converter.{
  ConvertError, invalid_conversion, insufficient_data, non_finite, ByteOrder, BinaryConversion,
  binary_data_size, convert_binary,
}
use iot_edge.Tag.Converter.Words.{IsByte}
use iot_edge.Tag.Converter.Convert.{convert_binary-HasType}

pub data DecodeError : Type 0 where
  invalid_decoder_config : DecodeError
  conversion : ConvertError → DecodeError

-- `binaryNumericConfigInput`: members that the text may leave out.
pub record ConfigInput : Type 0 where
  pub byte_offset : Option ℤ
  pub byte_order : Option ByteOrder
  pub bit_offset : Option ℕ

-- A raw configuration: no text, a text that the strict decoder refuses, or an object.
pub data RawConfig : Type 0 where
  empty malformed : RawConfig
  object : ConfigInput → RawConfig

pub record Config : Type 0 where
  pub byte_offset : ℤ
  pub byte_order : ByteOrder
  pub bit_offset : ℕ

abbrev or_default {ℓ} : {A : Type ℓ} → Option A → A → A
or_default none d = d
or_default (some a) d = a

unfoldable pub decode_strict : RawConfig → Result DecodeError ConfigInput
decode_strict RawConfig.empty =
    ok (record { byte_offset = none; byte_order = none; bit_offset = none })
decode_strict RawConfig.malformed = err invalid_decoder_config
decode_strict (RawConfig.object input) = ok input

unfoldable pub valid_byte_order : ByteOrder → Bool
valid_byte_order ByteOrder.big_endian = true
valid_byte_order ByteOrder.little_endian = true
valid_byte_order ByteOrder.word_swap = true
valid_byte_order ByteOrder.byte_swap = true
valid_byte_order _ = false

abbrev is_negative : ℤ → Bool
is_negative (pos n) = false
is_negative (negsuc n) = true

-- `binaryDataSize`, of which only the error counts here.
unfoldable pub check_size : DataType → Result DecodeError (Unit {0})
unfolding binary_data_size
check_size t = elim (binary_data_size t) [ ok size ↦ ok tt | err e ↦ err invalid_decoder_config ]

-- The checks on the configuration with its defaults filled in.
unfoldable pub check_config : DataType → Config → Result DecodeError Config
unfolding valid_byte_order data_type_eq
check_config t c =
    fail_if (is_negative c.byte_offset) invalid_decoder_config
    >> fail_if (not (valid_byte_order c.byte_order)) invalid_decoder_config
    >> fail_if
        (if data_type_eq t DataType.bool then ltb 7 c.bit_offset else not (c.bit_offset == 0))
        invalid_decoder_config
    >> ok c

unfoldable pub normalize_config : DataType → RawConfig → Result DecodeError Config
unfolding check_size decode_strict check_config
normalize_config t raw =
    check_size t
    >> (decode_strict raw >>= λ input. check_config t (record {
      byte_offset = or_default input.byte_offset (pos 0);
      byte_order = or_default input.byte_order ByteOrder.big_endian;
      bit_offset = or_default input.bit_offset 0;
    }))

-- `json.Marshal` of a configuration, as the decoder reads it back.
abbrev pub canonical : Config → RawConfig
canonical c = RawConfig.object (record {
  byte_offset = some c.byte_offset;
  byte_order = some c.byte_order;
  bit_offset = some c.bit_offset;
})

unfoldable pub lift : Result ConvertError Value → Result DecodeError Value
lift (ok v) = ok v
lift (err e) = err (conversion e)

abbrev conversion_of : DataType → Config → BinaryConversion
conversion_of t c = record {
  data_type = t;
  byte_order = c.byte_order;
  byte_offset = c.byte_offset;
  bit_offset = c.bit_offset;
}

unfoldable pub decode : List ℕ → DataType → RawConfig → Result DecodeError Value
unfolding lift
decode bytes t raw = normalize_config t raw >>= λ c. lift (convert_binary bytes (conversion_of t c))
