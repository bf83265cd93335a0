-- ===== src/Wire/Binding.antt =====
-- src/quic_wire.rs, lines 633 to 731: the preface of a session stream, which names the authority that
-- the stream claims.
pub mod Tests
pub mod RoundTrip
use herdr_dog_relay.Prelude.{
  ℕ, ◌+◌, ◌<◌, ◌≡◌, ◌≢◌, List, [], ◌∷◌, ◌||◌, Result, ok, err, ◌>>=◌, ◌>>◌, fail_if, Bytes, IsArray,
  IsU16, IsU64, to_be, from_be, slice, byte_at, drop, length, flatten, ltb, ◌==◌, ◌!=◌, nat_ord,
  bytes_ord,
}
use herdr_dog_relay.Wire.{
  QuicProtocolError, frame_too_short, invalid_magic, unsupported_version, length_mismatch,
  invalid_field, invalid_session, hdqs_magic, qrm_protocol_version, qrm_max_session_name_bytes,
}
use herdr_dog_relay.Wire.Name.{SessionName, IsName, name_of_bytes}

pub record HdqsBinding : Type 0 where
  pub session_handle : ℕ
  pub configuration_generation : ℕ
  pub relay_generation : ℕ
  pub connection_epoch : ℕ
  pub session : SessionName
  pub fingerprint : Bytes
  pub token : Bytes

-- The fields in the order of the `extend_from_slice` calls.
pub binding_fields : HdqsBinding → List Bytes
binding_fields b =
    hdqs_magic
    ∷ to_be 2 qrm_protocol_version
    ∷ to_be 2 b.session_handle
    ∷ to_be 8 b.configuration_generation
    ∷ to_be 8 b.relay_generation
    ∷ to_be 8 b.connection_epoch
    ∷ (length b.session.as_str ∷ [])
    ∷ b.session.as_str
    ∷ b.fingerprint
    ∷ b.token
    ∷ []

pub encode : HdqsBinding → Result QuicProtocolError Bytes
encode b = do
  fail_if ((b.session_handle == 0) || (length b.session.as_str == 0)) invalid_field
  fail_if (ltb qrm_max_session_name_bytes (length b.session.as_str)) invalid_session
  ok (flatten (binding_fields b))

-- `decode` once the magic and the version are read.
pub decode_fields : Bytes → Result QuicProtocolError HdqsBinding
decode_fields bytes = do
  let handle = from_be (slice 6 8 bytes)
  let name_len = byte_at bytes 32
  fail_if ((handle == 0) || (name_len == 0) || ltb qrm_max_session_name_bytes name_len)
      invalid_field
  fail_if (length bytes != 33 + name_len + 64) length_mismatch
  session ← name_of_bytes (slice 33 (33 + name_len) bytes)
  ok (record {
    session_handle = handle;
    configuration_generation = from_be (slice 8 16 bytes);
    relay_generation = from_be (slice 16 24 bytes);
    connection_epoch = from_be (slice 24 32 bytes);
    session = session;
    fingerprint = slice (33 + name_len) (33 + name_len + 32) bytes;
    token = drop (33 + name_len + 32) bytes;
  })

pub decode : Bytes → Result QuicProtocolError HdqsBinding
decode bytes = do
  fail_if (ltb (length bytes) 97) frame_too_short
  fail_if (slice 0 4 bytes != hdqs_magic) invalid_magic
  fail_if (from_be (slice 4 6 bytes) != qrm_protocol_version) unsupported_version
  decode_fields bytes

-- What the types of the fields allow, with a handle other than 0.
pub record IsBinding (b : HdqsBinding) : Type 0 where
  pub handle : IsU16 b.session_handle
  pub opened : b.session_handle ≢ 0
  pub configuration : IsU64 b.configuration_generation
  pub relay : IsU64 b.relay_generation
  pub epoch : IsU64 b.connection_epoch
  pub name : IsName b.session
  pub print : IsArray 32 b.fingerprint
  pub secret : IsArray 32 b.token
