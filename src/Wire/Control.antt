-- ===== src/Wire/Control.antt =====
-- src/quic_wire.rs, lines 75 to 200: the control frame HDQM.
pub mod Tests
pub mod RoundTrip
use herdr_dog_relay.Prelude.{
  ℕ, ◌+◌, ◌≤◌, ◌<◌, ◌≡◌, List, [], ◌∷◌, Result, ok, err, ◌>>=◌, ◌>>◌, fail_if, Bytes, IsArray, All,
  IsByte, to_be, from_be, slice, byte_at, drop, length, flatten, ltb, ◌!=◌, nat_ord, bytes_ord,
  bytes_beq, get_or,
}
use herdr_dog_relay.Wire.{
  QuicProtocolError, frame_too_short, invalid_magic, unsupported_version, unknown_kind,
  payload_too_large, length_mismatch, hdqm_magic, qrm_protocol_version, hdqm_header_bytes,
  qrm_max_control_payload_bytes,
}

pub data HdqmKind : Type 0 where
  device_hello device_hello_ack session_prepare session_prepare_ack session_open : HdqmKind
  session_opened session_close session_closed heartbeat go_away error_response : HdqmKind
  relay_update relay_update_accepted relay_update_rejected relay_update_status : HdqmKind

-- `kind as u8`
pub kind_code : HdqmKind → ℕ
kind_code device_hello = 1
kind_code device_hello_ack = 2
kind_code session_prepare = 3
kind_code session_prepare_ack = 4
kind_code session_open = 5
kind_code session_opened = 6
kind_code session_close = 7
kind_code session_closed = 8
kind_code heartbeat = 9
kind_code go_away = 10
kind_code error_response = 11
kind_code relay_update = 12
kind_code relay_update_accepted = 13
kind_code relay_update_rejected = 14
kind_code relay_update_status = 15

-- `HdqmKind::try_from`
pub kind_of_code : ℕ → Result QuicProtocolError HdqmKind
kind_of_code value = get_or table value (err unknown_kind)
  where
    table : List (Result QuicProtocolError HdqmKind)
    table =
        err unknown_kind
        ∷ ok device_hello
        ∷ ok device_hello_ack
        ∷ ok session_prepare
        ∷ ok session_prepare_ack
        ∷ ok session_open
        ∷ ok session_opened
        ∷ ok session_close
        ∷ ok session_closed
        ∷ ok heartbeat
        ∷ ok go_away
        ∷ ok error_response
        ∷ ok relay_update
        ∷ ok relay_update_accepted
        ∷ ok relay_update_rejected
        ∷ ok relay_update_status
        ∷ []

pub record HdqmFrame : Type 0 where
  pub kind : HdqmKind
  pub request_id : Bytes
  pub payload : Bytes

-- The fields in the order of the `extend_from_slice` calls.
pub frame_fields : HdqmFrame → List Bytes
frame_fields f =
    hdqm_magic
    ∷ to_be 2 qrm_protocol_version
    ∷ (kind_code f.kind ∷ [])
    ∷ f.request_id
    ∷ to_be 4 (length f.payload)
    ∷ f.payload
    ∷ []

pub encode : HdqmFrame → Result QuicProtocolError Bytes
encode f = do
  fail_if (ltb qrm_max_control_payload_bytes (length f.payload)) payload_too_large
  ok (flatten (frame_fields f))

pub decode : Bytes → Result QuicProtocolError HdqmFrame
decode bytes = do
  fail_if (ltb (length bytes) hdqm_header_bytes) frame_too_short
  fail_if (slice 0 4 bytes != hdqm_magic) invalid_magic
  fail_if (from_be (slice 4 6 bytes) != qrm_protocol_version) unsupported_version
  kind ← kind_of_code (byte_at bytes 6)
  let payload_len = from_be (slice 23 27 bytes)
  fail_if (ltb qrm_max_control_payload_bytes payload_len) payload_too_large
  fail_if (length bytes != hdqm_header_bytes + payload_len) length_mismatch
  ok (record { kind = kind; request_id = slice 7 23 bytes; payload = drop hdqm_header_bytes bytes })

-- What the types of the fields and the bound on the payload allow.
pub record IsFrame (f : HdqmFrame) : Type 0 where
  pub id : IsArray 16 f.request_id
  pub bytes : All IsByte f.payload
  pub small : length f.payload ≤ qrm_max_control_payload_bytes
