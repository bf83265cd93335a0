-- ===== src/Wire/Session.antt =====
-- src/quic_wire.rs, lines 292 to 599: the payloads of the session control frames.
pub mod Tests
pub mod Prepare
pub mod Prepared
pub mod Open
use herdr_dog_relay.Prelude.{
  ℕ, ◌+◌, ◌<◌, ◌≡◌, ◌≢◌, List, [], ◌∷◌, ◌||◌, Result, ok, err, ◌>>=◌, ◌>>◌, fail_if, Bytes, IsArray,
  IsU16, IsU32, IsU64, to_be, from_be, slice, byte_at, drop, length, flatten, ltb, ◌==◌, ◌!=◌,
  nat_ord, bytes_ord,
}
use herdr_dog_relay.Wire.{
  QuicProtocolError, frame_too_short, length_mismatch, invalid_field, qrm_authority_bytes,
}
use herdr_dog_relay.Wire.Name.{SessionName, IsName, encode_session_name, decode_session_name}

pub record SessionPrepareRequest : Type 0 where
  pub session : SessionName
  pub expected_fingerprint : Bytes
  pub configuration_generation : ℕ

pub encode_prepare : SessionPrepareRequest → Result QuicProtocolError Bytes
encode_prepare m =
    encode_session_name m.session (m.expected_fingerprint ∷ to_be 8 m.configuration_generation ∷ [])

pub decode_prepare : Bytes → Result QuicProtocolError SessionPrepareRequest
decode_prepare bytes = do
  (session, offset) ← decode_session_name bytes
  fail_if (length bytes != offset + qrm_authority_bytes + 8) length_mismatch
  ok (record {
    session = session;
    expected_fingerprint = slice offset (offset + qrm_authority_bytes) bytes;
    configuration_generation = from_be (drop (offset + qrm_authority_bytes) bytes);
  })

pub record SessionPrepareAck : Type 0 where
  pub session : SessionName
  pub fingerprint : Bytes
  pub configuration_generation : ℕ
  pub relay_generation : ℕ
  pub connection_epoch : ℕ
  pub token : Bytes
  pub token_ttl_secs : ℕ

pub encode_prepare_ack : SessionPrepareAck → Result QuicProtocolError Bytes
encode_prepare_ack m = encode_session_name m.session (
    m.fingerprint
    ∷ to_be 8 m.configuration_generation
    ∷ to_be 8 m.relay_generation
    ∷ to_be 8 m.connection_epoch
    ∷ m.token
    ∷ to_be 4 m.token_ttl_secs
    ∷ [])

pub decode_prepare_ack : Bytes → Result QuicProtocolError SessionPrepareAck
decode_prepare_ack bytes = do
  (session, offset) ← decode_session_name bytes
  fail_if (length bytes != offset + qrm_authority_bytes + 8 + 8 + 8 + qrm_authority_bytes + 4)
      length_mismatch
  let config_start = offset + qrm_authority_bytes
  let relay_start = config_start + 8
  let epoch_start = relay_start + 8
  let token_start = epoch_start + 8
  ok (record {
    session = session;
    fingerprint = slice offset (offset + qrm_authority_bytes) bytes;
    configuration_generation = from_be (slice config_start relay_start bytes);
    relay_generation = from_be (slice relay_start epoch_start bytes);
    connection_epoch = from_be (slice epoch_start token_start bytes);
    token = slice token_start (token_start + qrm_authority_bytes) bytes;
    token_ttl_secs = from_be (drop (token_start + qrm_authority_bytes) bytes);
  })

pub record SessionOpenRequest : Type 0 where
  pub session : SessionName
  pub fingerprint : Bytes
  pub configuration_generation : ℕ
  pub relay_generation : ℕ
  pub connection_epoch : ℕ
  pub token : Bytes

pub encode_open : SessionOpenRequest → Result QuicProtocolError Bytes
encode_open m = encode_session_name m.session (
    m.fingerprint
    ∷ to_be 8 m.configuration_generation
    ∷ to_be 8 m.relay_generation
    ∷ to_be 8 m.connection_epoch
    ∷ m.token
    ∷ [])

pub decode_open : Bytes → Result QuicProtocolError SessionOpenRequest
decode_open bytes = do
  (session, offset) ← decode_session_name bytes
  fail_if (length bytes != offset + qrm_authority_bytes + 8 + 8 + 8 + qrm_authority_bytes)
      length_mismatch
  let config_offset = offset + qrm_authority_bytes
  let token_start = config_offset + 24
  ok (record {
    session = session;
    fingerprint = slice offset config_offset bytes;
    configuration_generation = from_be (slice config_offset (config_offset + 8) bytes);
    relay_generation = from_be (slice (config_offset + 8) (config_offset + 16) bytes);
    connection_epoch = from_be (slice (config_offset + 16) token_start bytes);
    token = drop token_start bytes;
  })

pub record SessionOpenAck : Type 0 where
  pub session_handle : ℕ
  pub session : SessionName
  pub fingerprint : Bytes
  pub configuration_generation : ℕ
  pub relay_generation : ℕ
  pub connection_epoch : ℕ
  pub token : Bytes

pub encode_open_ack : SessionOpenAck → Result QuicProtocolError Bytes
encode_open_ack m = do
  fail_if (m.session_handle == 0) invalid_field
  name ← encode_session_name m.session []
  ok (
      flatten (
        to_be 2 m.session_handle
        ∷ name
        ∷ m.fingerprint
        ∷ to_be 8 m.configuration_generation
        ∷ to_be 8 m.relay_generation
        ∷ to_be 8 m.connection_epoch
        ∷ m.token
        ∷ []))

pub decode_open_ack : Bytes → Result QuicProtocolError SessionOpenAck
decode_open_ack bytes = do
  fail_if (ltb (length bytes) 3) frame_too_short
  let session_handle = from_be (slice 0 2 bytes)
  fail_if (session_handle == 0) invalid_field
  (session, name_offset) ← decode_session_name (drop 2 bytes)
  let offset = 2 + name_offset
  fail_if (length bytes != offset + qrm_authority_bytes + 8 + 8 + 8 + qrm_authority_bytes)
      length_mismatch
  let config_start = offset + qrm_authority_bytes
  let token_start = config_start + 24
  ok (record {
    session_handle = session_handle;
    session = session;
    fingerprint = slice offset (offset + qrm_authority_bytes) bytes;
    configuration_generation = from_be (slice config_start (config_start + 8) bytes);
    relay_generation = from_be (slice (config_start + 8) (config_start + 16) bytes);
    connection_epoch = from_be (slice (config_start + 16) token_start bytes);
    token = drop token_start bytes;
  })
