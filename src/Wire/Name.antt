-- ===== src/Wire/Name.antt =====
-- src/quic_wire.rs, lines 201 to 226 and 601 to 631: the canonical session name, and its encoding
-- with a length byte.
pub mod RoundTrip
pub mod Tests
use herdr_dog_relay.Prelude.{
  ℕ, suc, ◌+◌, ◌≡◌, List, [], ◌∷◌, ◌++◌, Bool, true, false, not, ◌||◌, ◌&&◌, Result, ok, err, ◌>>=◌,
  ◌>>◌, fail_if, Bytes, slice, length, ltb, leb, nat_beq, any, ◌==◌, nat_ord, bytes_ord, is_utf8,
  flatten, if◌then◌else◌, bytes_beq,
}
use herdr_dog_relay.Wire.{
  QuicProtocolError, frame_too_short, invalid_session, qrm_max_session_name_bytes,
}

-- A `String`, by its bytes.
pub record SessionName : Type 0 where
  pub as_str : Bytes

abbrev default_name : Bytes
default_name = b'd' ∷ b'e' ∷ b'f' ∷ b'a' ∷ b'u' ∷ b'l' ∷ b't' ∷ []

is_ascii_alphanumeric : ℕ → Bool
is_ascii_alphanumeric b =
    (leb b'0' b && leb b b'9') || (leb b'A' b && leb b b'Z') || (leb b'a' b && leb b b'z')

name_byte : ℕ → Bool
unfolding is_ascii_alphanumeric
name_byte b = is_ascii_alphanumeric b || (b == b'.') || (b == b'_') || (b == b'-')

is_empty : Bytes → Bool
is_empty [] = true
is_empty (b ∷ bs) = false

bad_name : Bytes → Bool
unfolding name_byte
bad_name value =
    ltb qrm_max_session_name_bytes (length value)
    || (value == b'.' ∷ [])
    || (value == b'.' ∷ b'.' ∷ [])
    || any (λ b. not (name_byte b)) value

-- `SessionName::new`
pub new : Bytes → Result QuicProtocolError SessionName
new value =
    let value' = if is_empty value then default_name else value in
    if bad_name value' then err invalid_session else ok (record { as_str = value' })

-- What `new` accepts unchanged; every `SessionName` of the program is made by `new`.
abbrev pub IsName : SessionName → Type 0
IsName s = new s.as_str ≡ ok s

-- `encode_session_name`, with the slices that `append` adds.
pub encode_session_name : SessionName → List Bytes → Result QuicProtocolError Bytes
encode_session_name session appended = do
  fail_if (is_empty session.as_str || ltb qrm_max_session_name_bytes (length session.as_str))
      invalid_session
  ok (flatten ((length session.as_str ∷ []) ∷ session.as_str ∷ appended))

-- `str::from_utf8(…).map_err(…).and_then(SessionName::new)`
pub name_of_bytes : Bytes → Result QuicProtocolError SessionName
name_of_bytes raw = if is_utf8 raw then new raw else err invalid_session

-- `decode_session_name`
pub decode_session_name : Bytes → Result QuicProtocolError (SessionName × ℕ)
decode_session_name [] = err frame_too_short
decode_session_name (name_len ∷ rest) = do
  fail_if
      ((name_len == 0)
        || ltb qrm_max_session_name_bytes name_len
        || ltb (length (name_len ∷ rest)) (1 + name_len))
      invalid_session
  session ← name_of_bytes (slice 1 (1 + name_len) (name_len ∷ rest))
  ok (session, 1 + name_len)
