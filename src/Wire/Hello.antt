-- ===== src/Wire/Hello.antt =====
-- src/quic_wire.rs, lines 228 to 290: the acknowledgement of a device hello.
pub mod RoundTrip
pub mod Tests
use herdr_dog_relay.Prelude.{
  ℕ, ◌<◌, ◌≡◌, ◌≢◌, List, [], ◌∷◌, ◌||◌, Bool, Result, ok, err, ◌>>=◌, ◌>>◌, fail_if, Bytes,
  IsArray, IsU64, to_be, from_be, slice, length, flatten, replicate, ◌==◌, ◌!=◌, nat_ord, bytes_ord,
}
use herdr_dog_relay.Wire.{
  QuicProtocolError, length_mismatch, invalid_field, qrm_authority_bytes,
  qrm_device_hello_ack_bytes,
}

pub record DeviceHelloAck : Type 0 where
  pub relay_identity : Bytes
  pub ca_generation : ℕ
  pub relay_generation : ℕ
  pub connection_epoch : ℕ

-- The fields in the order of the `extend_from_slice` calls.
pub hello_fields : DeviceHelloAck → List Bytes
hello_fields h =
    h.relay_identity
    ∷ to_be 8 h.ca_generation
    ∷ to_be 8 h.relay_generation
    ∷ to_be 8 h.connection_epoch
    ∷ []

pub encode : DeviceHelloAck → Bytes
encode h = flatten (hello_fields h)

abbrev pub zero_bytes : Bytes
zero_bytes = replicate qrm_authority_bytes 0

-- The last check of `decode`.
pub is_unset : Bytes → ℕ → ℕ → ℕ → Bool
is_unset identity ca_generation relay_generation connection_epoch =
    (ca_generation == 0)
    || (relay_generation == 0)
    || (connection_epoch == 0)
    || (identity == zero_bytes)

pub decode : Bytes → Result QuicProtocolError DeviceHelloAck
decode bytes = do
  fail_if (length bytes != qrm_device_hello_ack_bytes) length_mismatch
  let identity = slice 0 qrm_authority_bytes bytes
  let ca_generation = from_be (slice 32 40 bytes)
  let relay_generation = from_be (slice 40 48 bytes)
  let connection_epoch = from_be (slice 48 56 bytes)
  fail_if (is_unset identity ca_generation relay_generation connection_epoch) invalid_field
  ok (record {
    relay_identity = identity;
    ca_generation = ca_generation;
    relay_generation = relay_generation;
    connection_epoch = connection_epoch;
  })

-- What the types of the fields allow, with none of the fields 0.
pub record IsHello (h : DeviceHelloAck) : Type 0 where
  pub identity : IsArray 32 h.relay_identity
  pub known : h.relay_identity ≢ zero_bytes
  pub ca : IsU64 h.ca_generation
  pub ca_set : h.ca_generation ≢ 0
  pub relay : IsU64 h.relay_generation
  pub relay_set : h.relay_generation ≢ 0
  pub epoch : IsU64 h.connection_epoch
  pub epoch_set : h.connection_epoch ≢ 0
