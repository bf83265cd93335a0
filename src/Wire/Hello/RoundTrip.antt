-- ===== src/Wire/Hello/RoundTrip.antt =====
-- src/quic_wire.rs, lines 255 to 290: the acknowledgement of a hello read back.
use herdr_dog_relay.Prelude.{
  ℕ, ◌^◌, ◌<◌, ◌≡◌, ◌≢◌, refl, List, [], ◌∷◌, ok, Bytes, IsArray, All, IsByte, to_be, from_be,
  slice, length, flatten, nat_ord, bytes_ord, ap, ◌∙◌, bytes_beq_iff, arith, false, slice-flatten,
  uint-flatten, length-to_be, length-flatten, pieces, flatten-pieces, to_be-slice, slice-IsArray,
  subst, from_be-slice-lt, slice-rest,
}
use herdr_dog_relay.Wire.Hello.{
  DeviceHelloAck, IsHello, hello_fields, encode, decode, zero_bytes, is_unset,
}

set_of_test :
    (identity : Bytes) (ca relay epoch : ℕ)
    → is_unset identity ca relay epoch ≡ false
    → (identity ≢ zero_bytes) × (ca ≢ 0) × (relay ≢ 0) × (epoch ≢ 0)
unfolding is_unset
set_of_test identity ca relay epoch t = ground (arith, bytes_beq_iff identity zero_bytes)

test_of_set :
    (identity : Bytes) (ca relay epoch : ℕ)
    → identity ≢ zero_bytes
    → ca ≢ 0
    → relay ≢ 0
    → epoch ≢ 0
    → is_unset identity ca relay epoch ≡ false
unfolding is_unset
test_of_set identity ca relay epoch i c r e = ground (arith, bytes_beq_iff identity zero_bytes)

module _ (h : DeviceHelloAck) (bytes : Bytes) where
  -- What `decode` reads from each place.
  abbrev Reads : Type 0
  Reads =
      (length bytes ≡ 56)
      × (slice 0 32 bytes ≡ h.relay_identity)
      × (from_be (slice 32 40 bytes) ≡ h.ca_generation)
      × (from_be (slice 40 48 bytes) ≡ h.relay_generation)
      × (from_be (slice 48 56 bytes) ≡ h.connection_epoch)
      × (h.relay_identity ≢ zero_bytes)
      × (h.ca_generation ≢ 0)
      × (h.relay_generation ≢ 0)
      × (h.connection_epoch ≢ 0)

  decode_of_reads : Reads → decode bytes ≡ ok h
  unfolding decode
  decode_of_reads w =
      let set =
        test_of_set h.relay_identity h.ca_generation h.relay_generation h.connection_epoch w.5 w.6
          w.7 w.8 in
      ground (arith, set)

  fields_of_decode :
      decode bytes ≡ ok h
      → (length bytes ≡ 56)
        × (slice 0 32 bytes ≡ h.relay_identity)
        × (from_be (slice 32 40 bytes) ≡ h.ca_generation)
        × (from_be (slice 40 48 bytes) ≡ h.relay_generation)
        × (from_be (slice 48 56 bytes) ≡ h.connection_epoch)
  unfolding decode
  fields_of_decode e = ground arith

  test_of_decode :
      decode bytes ≡ ok h
      → is_unset
          (slice 0 32 bytes)
          (from_be (slice 32 40 bytes))
          (from_be (slice 40 48 bytes))
          (from_be (slice 48 56 bytes))
        ≡ false
  unfolding decode
  test_of_decode e = ground arith

  reads_of_decode : decode bytes ≡ ok h → Reads
  reads_of_decode e =
      let (size, identity, ca, relay, epoch) = fields_of_decode e in
      let (known, ca_set, relay_set, epoch_set) = set_of_test _ _ _ _ (test_of_decode e) in
      (
        size,
        identity,
        ca,
        relay,
        epoch,
        (λ z. known (identity ∙ z)),
        (λ z. ca_set (ca ∙ z)),
        (λ z. relay_set (relay ∙ z)),
        (λ z. epoch_set (epoch ∙ z)),
      )

hello_reads : (h : DeviceHelloAck) → IsHello h → Reads h (flatten (hello_fields h))
unfolding hello_fields
hello_reads h w = (
  length-flatten fs ∙ omega (arith, w.identity.0, sizes),
  slice-flatten fs 0 h.relay_identity 0 32 refl refl (omega (arith, w.identity.0)),
  uint-flatten fs 1 8 h.ca_generation 32 40 refl w.ca (omega (arith, w.identity.0)) refl,
  uint-flatten fs 2 8 h.relay_generation 40 48 refl w.relay (omega (arith, w.identity.0, sizes))
      refl,
  uint-flatten fs 3 8 h.connection_epoch 48 56 refl w.epoch (omega (arith, w.identity.0, sizes))
      refl,
  w.known,
  w.ca_set,
  w.relay_set,
  w.epoch_set,
)
  where
    fs : List Bytes
    fs = hello_fields h

    sizes :
        (length (to_be 8 h.ca_generation) ≡ 8)
        × (length (to_be 8 h.relay_generation) ≡ 8)
        × (length (to_be 8 h.connection_epoch) ≡ 8)
    sizes = (
      length-to_be 8 h.ca_generation,
      length-to_be 8 h.relay_generation,
      length-to_be 8 h.connection_epoch,
    )

-- An acknowledgement in range is read back as it was written.
pub decode-encode_hello : (h : DeviceHelloAck) → IsHello h → decode (encode h) ≡ ok h
unfolding encode
decode-encode_hello h w = decode_of_reads h _ (hello_reads h w)

IsHello-of_reads :
    (h : DeviceHelloAck) (bytes : Bytes)
    → All IsByte bytes
    → Reads h bytes
    → IsHello h × (flatten (hello_fields h) ≡ bytes)
unfolding hello_fields
IsHello-of_reads h bytes b w = (
  record {
    identity = subst (IsArray 32) w.1 (slice-IsArray 32 0 32 bytes b refl (omega (arith, w.0)));
    known = w.5;
    ca = subst (λ i. i < 256 ^ 8) w.2 (from_be-slice-lt 8 32 40 bytes b refl (omega (arith, w.0)));
    ca_set = w.6;
    relay =
        subst (λ i. i < 256 ^ 8) w.3 (from_be-slice-lt 8 40 48 bytes b refl (omega (arith, w.0)));
    relay_set = w.7;
    epoch =
        subst (λ i. i < 256 ^ 8) w.4 (from_be-slice-lt 8 48 56 bytes b refl (omega (arith, w.0)));
    epoch_set = w.8;
  },
  ap flatten fields ∙ flatten-pieces 0 (32 ∷ 40 ∷ 48 ∷ []) bytes (omega arith),
)
  where
    fields : hello_fields h ≡ pieces 0 (32 ∷ 40 ∷ 48 ∷ []) bytes
    fields = cc (
      w.1,
      w.2,
      w.3,
      w.4,
      to_be-slice 8 32 40 bytes b refl (omega (arith, w.0)),
      to_be-slice 8 40 48 bytes b refl (omega (arith, w.0)),
      to_be-slice 8 48 56 bytes b refl (omega (arith, w.0)),
      slice-rest 48 56 bytes (omega arith) w.0,
    )

-- If `decode` accepts some bytes as the acknowledgement of a hello, its fields are within their
-- widths and none is 0, and encoding it gives exactly those bytes.
pub encode-decode-IsHello :
    (h : DeviceHelloAck) (bytes : Bytes)
    → All IsByte bytes
    → decode bytes ≡ ok h
    → IsHello h × (encode h ≡ bytes)
unfolding encode
encode-decode-IsHello h bytes b e = IsHello-of_reads h bytes b (reads_of_decode h bytes e)
