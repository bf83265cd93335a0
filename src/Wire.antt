-- ===== src/Wire.antt =====
-- src/quic_wire.rs: the frames that Core and Relay exchange. This file has the constants and the
-- errors; each message is a child with its record, `encode` and `decode`.
pub mod Control
pub mod Name
pub mod Response
pub mod Binding
pub mod Session
pub mod Hello
use herdr_dog_relay.Prelude.{ℕ, ◌-◌, ◌∷◌, [], Bytes, Result, ok, err}

abbrev pub hdqm_magic : Bytes
hdqm_magic = b'H' ∷ b'D' ∷ b'Q' ∷ b'M' ∷ []

abbrev pub hdqs_magic : Bytes
hdqs_magic = b'H' ∷ b'D' ∷ b'Q' ∷ b'S' ∷ []

abbrev pub qrm_protocol_version : ℕ
qrm_protocol_version = 1

abbrev pub hdqm_header_bytes : ℕ
hdqm_header_bytes = 27

abbrev pub qrm_max_control_frame_bytes : ℕ
qrm_max_control_frame_bytes = 65536

abbrev pub qrm_max_control_payload_bytes : ℕ
qrm_max_control_payload_bytes = qrm_max_control_frame_bytes - hdqm_header_bytes

abbrev pub qrm_max_session_name_bytes : ℕ
qrm_max_session_name_bytes = 64

abbrev pub qrm_authority_bytes : ℕ
qrm_authority_bytes = 32

abbrev pub hdqs_response_bytes : ℕ
hdqs_response_bytes = 20

abbrev pub qrm_device_hello_ack_bytes : ℕ
qrm_device_hello_ack_bytes = 56

pub data QuicProtocolError : Type 0 where
  frame_too_short invalid_magic unsupported_version unknown_kind : QuicProtocolError
  payload_too_large length_mismatch invalid_field invalid_session : QuicProtocolError
  invalid_status : QuicProtocolError
