-- ===== src/Envelope/Fields.antt =====
-- src/enrollment_v3_wire.rs, lines 814 to 953, and src/bootstrap_wire.rs, lines 861 to 998: the fields
-- of the JSON payloads, which the two files write alike. A text is its UTF-8 bytes, and base64 is a
-- package's.
pub mod Hex
pub mod Chains
use herdr_dog_relay.Prelude.{
  ℕ, ◌+◌, ◌-◌, ◌*◌, ◌/◌, ◌%◌, ◌≡◌, List, [], ◌∷◌, Bool, true, false, not, ◌||◌, ◌&&◌, Option, none,
  some, Result, ok, err, ◌>>=◌, ◌>>◌, fail_if, ok_or, Bytes, length, all, any, replicate, get_or,
  ltb, leb, ◌==◌, ◌!=◌, nat_ord, bytes_ord, if◌then◌else◌,
}

abbrev pub max_chain_bytes : ℕ
max_chain_bytes = 46 * 1024

abbrev pub max_chain_certificates : ℕ
max_chain_certificates = 8

abbrev pub max_session_bytes : ℕ
max_session_bytes = 64

abbrev pub is_digit : ℕ → Bool
is_digit byte = leb b'0' byte && leb byte b'9'

abbrev pub is_lower : ℕ → Bool
is_lower byte = leb b'a' byte && leb byte b'z'

abbrev pub is_upper : ℕ → Bool
is_upper byte = leb b'A' byte && leb byte b'Z'

-- `is_ascii_hexdigit`
abbrev pub is_hexdigit : ℕ → Bool
is_hexdigit byte =
    is_digit byte || (leb b'a' byte && leb byte b'f') || (leb b'A' byte && leb byte b'F')

abbrev pub hex_digits : Bytes
hex_digits =
    b'0' ∷ b'1' ∷ b'2' ∷ b'3' ∷ b'4' ∷ b'5' ∷ b'6' ∷ b'7' ∷ b'8' ∷ b'9' ∷ b'a' ∷ b'b' ∷ b'c' ∷ b'd'
    ∷ b'e' ∷ b'f' ∷ []

unfoldable pub encode_hex : Bytes → Bytes
encode_hex [] = []
encode_hex (byte ∷ bytes) =
    get_or hex_digits (byte / 16) 0 ∷ get_or hex_digits (byte % 16) 0 ∷ encode_hex bytes

-- URL-safe base64 without padding: decoding gives back what was encoded.
pub record Base64 : Type 0 where
  pub encode : Bytes → Bytes
  pub decode : Bytes → Option Bytes
  pub decode-encode : (bytes : Bytes) → decode (encode bytes) ≡ some bytes

-- The functions that fail, from the errors of their file.
module _ {E : Type 0} (invalid_field frame_too_large : E) where
  unfoldable pub hex_nibble : ℕ → Result E ℕ
  hex_nibble byte =
      if is_digit byte
      then ok (byte - b'0')
      else if leb b'a' byte && leb byte b'f'
      then ok (byte - b'a' + 10)
      else err invalid_field

  -- The loop of `decode_hex_exact`.
  unfoldable pub decode_pairs : Bytes → Result E Bytes
  decode_pairs [] = ok []
  decode_pairs (a ∷ []) = ok []
  decode_pairs (a ∷ b ∷ value) = do
    high ← hex_nibble a
    low ← hex_nibble b
    output ← decode_pairs value
    ok ((high * 16 + low) ∷ output)

  unfoldable pub decode_hex_exact : ℕ → Bytes → Result E Bytes
  decode_hex_exact n value = do
    fail_if ((length value != n * 2) || not (all is_hexdigit value)) invalid_field
    fail_if (any is_upper value) invalid_field
    output ← decode_pairs value
    fail_if (output == replicate n 0) invalid_field
    ok output

  unfoldable pub validate_session : Bytes → Result E (Unit {0})
  validate_session value =
      fail_if
        ((length value == 0)
          || ltb max_session_bytes (length value)
          || (value == b'.' ∷ [])
          || (value == b'.' ∷ b'.' ∷ [])
          || not (
              all
                (λ byte.
                  is_digit byte
                  || is_lower byte
                  || is_upper byte
                  || (byte == b'.')
                  || (byte == b'_')
                  || (byte == b'-'))
                value))
        invalid_field

  unfoldable pub validate_code : Bytes → Result E (Unit {0})
  validate_code value = fail_if ((length value != 6) || not (all is_digit value)) invalid_field

  module _ (base64 : Base64) where
    unfoldable pub decode_base64_exact : ℕ → Bytes → Result E Bytes
    decode_base64_exact n value = do
      bytes ← ok_or (base64.decode value) invalid_field
      fail_if ((length bytes != n) || (base64.encode bytes != value)) invalid_field
      fail_if (bytes == replicate n 0) invalid_field
      ok bytes

    unfoldable pub decode_base64_bounded : Bytes → ℕ → Result E Bytes
    decode_base64_bounded value max_bytes = do
      bytes ← ok_or (base64.decode value) invalid_field
      fail_if (ltb max_bytes (length bytes)) frame_too_large
      fail_if ((length bytes == 0) || (base64.encode bytes != value)) invalid_field
      ok bytes

    -- The loop of `encode_certificate_chain`. The sum of the lengths of vectors in memory does not
    -- overflow.
    unfoldable pub encode_each : ℕ → List Bytes → Result E (List Bytes)
    encode_each total [] = ok []
    encode_each total (value ∷ values) = do
      fail_if (length value == 0) invalid_field
      fail_if (ltb max_chain_bytes (total + length value)) frame_too_large
      output ← encode_each (total + length value) values
      ok (base64.encode value ∷ output)

    unfoldable pub encode_certificate_chain : List Bytes → Result E (List Bytes)
    encode_certificate_chain values = do
      fail_if ((length values == 0) || ltb max_chain_certificates (length values)) invalid_field
      encode_each 0 values

    -- The loop of `decode_certificate_chain`.
    unfoldable pub decode_each : ℕ → List Bytes → Result E (List Bytes)
    decode_each total [] = ok []
    decode_each total (value ∷ values) = do
      certificate ← decode_base64_bounded value max_chain_bytes
      fail_if (ltb max_chain_bytes (total + length certificate)) frame_too_large
      output ← decode_each (total + length certificate) values
      ok (certificate ∷ output)

    unfoldable pub decode_certificate_chain : List Bytes → Result E (List Bytes)
    decode_certificate_chain values = do
      fail_if ((length values == 0) || ltb max_chain_certificates (length values)) invalid_field
      decode_each 0 values
