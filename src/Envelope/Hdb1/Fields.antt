-- ===== src/Envelope/Hdb1/Fields.antt =====
-- src/bootstrap_wire.rs, lines 861 to 950 and 979 to 998: the fields of HDB1 payloads, by the code of
-- src/enrollment_v3_wire.rs with the errors of HDB1.
use herdr_dog_relay.Prelude.{ℕ, List, Bytes, Result}
use herdr_dog_relay.Envelope.Hdb1.{Hdb1Error, invalid_field, frame_too_large}
use herdr_dog_relay.Envelope.Fields.{Base64}
use herdr_dog_relay.Envelope.Fields

abbrev pub encode_hex : Bytes → Bytes
encode_hex = Fields.encode_hex

abbrev pub hex_nibble : ℕ → Result Hdb1Error ℕ
hex_nibble = Fields.hex_nibble invalid_field frame_too_large

abbrev pub decode_hex_exact : ℕ → Bytes → Result Hdb1Error Bytes
decode_hex_exact = Fields.decode_hex_exact invalid_field frame_too_large

abbrev pub validate_code : Bytes → Result Hdb1Error (Unit {0})
validate_code = Fields.validate_code invalid_field frame_too_large

abbrev pub decode_base64_exact : Base64 → ℕ → Bytes → Result Hdb1Error Bytes
decode_base64_exact = Fields.decode_base64_exact invalid_field frame_too_large

abbrev pub decode_base64_bounded : Base64 → Bytes → ℕ → Result Hdb1Error Bytes
decode_base64_bounded = Fields.decode_base64_bounded invalid_field frame_too_large

abbrev pub decode_certificate_chain : Base64 → List Bytes → Result Hdb1Error (List Bytes)
decode_certificate_chain = Fields.decode_certificate_chain invalid_field frame_too_large
