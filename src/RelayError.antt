-- ===== src/RelayError.antt =====
-- src/error.rs: the error categories of the Relay. The kind of an I/O error, an enum of the standard
-- library, is its name.
use Prim.Native.String.{String}

pub data RelayError : Type 0 where
  invalid_configuration : String → String → RelayError
  configuration_read configuration_syntax : RelayError
  io socket_identity : String → String → RelayError
  listener_startup iroh_endpoint tls_configuration quic_handshake : String → RelayError
  quic_authentication : RelayError
  quic_protocol : String → RelayError
  update : String → String → RelayError
  session_authority upstream_unavailable bridge_idle_timeout resource_limit : RelayError
