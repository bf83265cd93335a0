-- ===== src/Wire/Binding/RoundTrip.antt =====
-- src/quic_wire.rs, lines 668 to 731: the stream preface read back.
use herdr_dog_relay.Prelude.{
  ℕ, ◌+◌, ◌^◌, ◌≤◌, ◌<◌, ◌≡◌, ◌≢◌, refl, List, [], ◌∷◌, ok, ◌>>=◌, Bytes, IsArray, All, IsByte,
  to_be, from_be, slice, byte_at, drop, length, flatten, ltb, ◌!=◌, ◌==◌, ◌||◌, nat_ord, bytes_ord,
  ap, ◌∙◌, bytes_beq, bytes_beq_iff, arith, false, slice-flatten, byte_at-flatten, uint-flatten,
  last-flatten, length-to_be, length-flatten, pieces, flatten-pieces, slice-byte_at, to_be-slice,
  slice-IsArray, drop-IsByte, subst, length-slice, length-drop, from_be-slice-lt,
}
use herdr_dog_relay.Wire.{hdqs_magic, qrm_protocol_version, qrm_max_session_name_bytes}
use herdr_dog_relay.Wire.Name.{IsName, name_of_bytes}
use herdr_dog_relay.Wire.Name.RoundTrip.{length-name, name_of_bytes-name, name_of_bytes_inv}
use herdr_dog_relay.Wire.Binding.{
  HdqsBinding, IsBinding, binding_fields, encode, decode, decode_fields,
}

size_version : length (to_be 2 qrm_protocol_version) ≡ 2
size_version = length-to_be 2 1

module _ (b : HdqsBinding) (n : ℕ) (bytes : Bytes) where
  -- What `decode` reads from each place, where the name has `n` bytes.
  abbrev Reads : Type 0
  Reads =
      (length bytes ≡ 33 + n + 64)
      × (slice 0 4 bytes ≡ hdqs_magic)
      × (from_be (slice 4 6 bytes) ≡ 1)
      × (from_be (slice 6 8 bytes) ≡ b.session_handle)
      × (b.session_handle ≢ 0)
      × (from_be (slice 8 16 bytes) ≡ b.configuration_generation)
      × (from_be (slice 16 24 bytes) ≡ b.relay_generation)
      × (from_be (slice 24 32 bytes) ≡ b.connection_epoch)
      × (byte_at bytes 32 ≡ n)
      × (1 ≤ n)
      × (n ≤ 64)
      × (name_of_bytes (slice 33 (33 + n) bytes) ≡ ok b.session)
      × (slice (33 + n) (33 + n + 32) bytes ≡ b.fingerprint)
      × (drop (33 + n + 32) bytes ≡ b.token)

  decode_of_reads : Reads → decode bytes ≡ ok b
  unfolding decode decode_fields bytes_beq
  decode_of_reads w =
      let size : ltb (length bytes) 97 ≡ false = ground (arith, w.0, w.9) in
      let magic : (slice 0 4 bytes != hdqs_magic) ≡ false = rw w.1 refl in
      let version : (from_be (slice 4 6 bytes) != qrm_protocol_version) ≡ false = rw w.2 refl in
      let range : ((b.session_handle == 0) || (n == 0) || ltb qrm_max_session_name_bytes n)
          ≡ false =
        ground (arith, w.4, w.9, w.10) in
      let exact : (33 + n + 64 != 33 + n + 64) ≡ false = ground arith in
      rw (size, magic, version, w.3, w.8, range, w.0, exact, w.11, w.5, w.6, w.7, w.12, w.13) refl

head_of_decode :
    (b : HdqsBinding) (bytes : Bytes)
    → decode bytes ≡ ok b
    → (slice 0 4 bytes ≡ hdqs_magic)
      × (from_be (slice 4 6 bytes) ≡ 1)
      × (decode_fields bytes ≡ ok b)
unfolding decode
head_of_decode b bytes h = ground (arith, bytes_beq_iff (slice 0 4 bytes) hdqs_magic)

range_of_decode :
    (b : HdqsBinding) (bytes : Bytes)
    → decode_fields bytes ≡ ok b
    → (from_be (slice 6 8 bytes) ≢ 0)
      × (1 ≤ byte_at bytes 32)
      × (byte_at bytes 32 ≤ 64)
      × (length bytes ≡ 33 + byte_at bytes 32 + 64)
unfolding decode_fields
range_of_decode b bytes h = ground arith

fields_of_decode :
    (b : HdqsBinding) (bytes : Bytes)
    → let n = byte_at bytes 32 in
      decode_fields bytes ≡ ok b
      → (from_be (slice 6 8 bytes) ≡ b.session_handle)
        × (from_be (slice 8 16 bytes) ≡ b.configuration_generation)
        × (from_be (slice 16 24 bytes) ≡ b.relay_generation)
        × (from_be (slice 24 32 bytes) ≡ b.connection_epoch)
        × (name_of_bytes (slice 33 (33 + n) bytes) ≡ ok b.session)
        × (slice (33 + n) (33 + n + 32) bytes ≡ b.fingerprint)
        × (drop (33 + n + 32) bytes ≡ b.token)
unfolding decode_fields
fields_of_decode b bytes h = ground arith

reads_of_decode :
    (b : HdqsBinding) (bytes : Bytes) → decode bytes ≡ ok b → Reads b (byte_at bytes 32) bytes
reads_of_decode b bytes h =
    let (magic, version, k) = head_of_decode b bytes h in
    let (opened, least, most, size) = range_of_decode b bytes k in
    let (handle, configuration, relay, epoch, name, print, secret) = fields_of_decode b bytes k in
    (
      size,
      magic,
      version,
      handle,
      (λ e. opened (handle ∙ e)),
      configuration,
      relay,
      epoch,
      refl,
      least,
      most,
      name,
      print,
      secret,
    )

binding_reads :
    (b : HdqsBinding) → IsBinding b → Reads b (length b.session.as_str) (flatten (binding_fields b))
unfolding binding_fields
binding_reads b w = (
  length-flatten fs ∙ omega (arith, sizes, w.print.0, w.secret.0),
  slice-flatten fs 0 _ _ _ refl refl refl,
  uint-flatten fs 1 2 1 4 6 refl (omega arith) refl refl,
  uint-flatten fs 2 2 b.session_handle 6 8 refl w.handle (omega (arith, sizes)) refl,
  w.opened,
  uint-flatten fs 3 8 b.configuration_generation 8 16 refl w.configuration (omega (arith, sizes))
      refl,
  uint-flatten fs 4 8 b.relay_generation 16 24 refl w.relay (omega (arith, sizes)) refl,
  uint-flatten fs 5 8 b.connection_epoch 24 32 refl w.epoch (omega (arith, sizes)) refl,
  byte_at-flatten fs 6 (length b.session.as_str) 32 refl (omega (arith, sizes)),
  (length-name b.session w.name).0,
  (length-name b.session w.name).1,
  ap name_of_bytes (slice-flatten fs 7 b.session.as_str 33 _ refl (omega (arith, sizes)) refl)
      ∙ name_of_bytes-name b.session w.name,
  slice-flatten fs 8 b.fingerprint _ _ refl (omega (arith, sizes)) (omega (arith, w.print.0)),
  last-flatten fs 9 b.token _ refl (omega (arith, sizes, w.print.0)),
)
  where
    fs : List Bytes
    fs = binding_fields b

    sizes :
        (length (to_be 2 qrm_protocol_version) ≡ 2)
        × (length (to_be 2 b.session_handle) ≡ 2)
        × (length (to_be 8 b.configuration_generation) ≡ 8)
        × (length (to_be 8 b.relay_generation) ≡ 8)
        × (length (to_be 8 b.connection_epoch) ≡ 8)
    sizes = (
      size_version,
      length-to_be 2 b.session_handle,
      length-to_be 8 b.configuration_generation,
      length-to_be 8 b.relay_generation,
      length-to_be 8 b.connection_epoch,
    )

encode_binding : (b : HdqsBinding) → IsBinding b → encode b ≡ ok (flatten (binding_fields b))
unfolding encode
encode_binding b w = ground (arith, w.opened, length-name b.session w.name)

-- A stream preface whose fields are within their widths, with a handle other than 0 and a
-- canonical session name, is encoded, and decoding gives it back.
pub decode-encode_binding : (b : HdqsBinding) → IsBinding b → (encode b >>= decode) ≡ ok b
decode-encode_binding b w = rw (encode_binding b w) (decode_of_reads b _ _ (binding_reads b w))

cuts : ℕ → List ℕ
cuts n = 4 ∷ 6 ∷ 8 ∷ 16 ∷ 24 ∷ 32 ∷ 33 ∷ (33 + n) ∷ (33 + n + 32) ∷ []

IsBinding-of_reads :
    (b : HdqsBinding) (n : ℕ) (bytes : Bytes)
    → All IsByte bytes
    → Reads b n bytes
    → IsBinding b × (flatten (binding_fields b) ≡ bytes)
unfolding binding_fields cuts
IsBinding-of_reads b n bytes k r = (
  record {
    handle =
        subst (λ i. i < 256 ^ 2) r.3 (from_be-slice-lt 2 6 8 bytes k refl (omega (arith, r.0)));
    opened = r.4;
    configuration =
        subst (λ i. i < 256 ^ 8) r.5 (from_be-slice-lt 8 8 16 bytes k refl (omega (arith, r.0)));
    relay =
        subst (λ i. i < 256 ^ 8) r.6 (from_be-slice-lt 8 16 24 bytes k refl (omega (arith, r.0)));
    epoch =
        subst (λ i. i < 256 ^ 8) r.7 (from_be-slice-lt 8 24 32 bytes k refl (omega (arith, r.0)));
    name = inv.0;
    print = subst (IsArray 32) r.12 (slice-IsArray 32 _ _ bytes k refl (omega (arith, r.0)));
    secret =
        subst (IsArray 32) r.13
          (omega (arith, length-drop (33 + n + 32) bytes, r.0), drop-IsByte (33 + n + 32) bytes k);
  },
  ap flatten fields ∙ flatten-pieces 0 (cuts n) bytes (omega arith),
)
  where
    size : length (slice 33 (33 + n) bytes) ≡ n
    size = omega (arith, length-slice 33 (33 + n) bytes, r.0)

    inv : IsName b.session × (b.session.as_str ≡ slice 33 (33 + n) bytes)
    inv = name_of_bytes_inv _ b.session (omega (arith, size, r.9)) r.11

    fields : binding_fields b ≡ pieces 0 (cuts n) bytes
    fields = cc (
      r.1,
      r.2,
      r.3,
      r.5,
      r.6,
      r.7,
      r.8,
      r.12,
      r.13,
      inv.1,
      size,
      to_be-slice 2 4 6 bytes k refl (omega (arith, r.0)),
      to_be-slice 2 6 8 bytes k refl (omega (arith, r.0)),
      to_be-slice 8 8 16 bytes k refl (omega (arith, r.0)),
      to_be-slice 8 16 24 bytes k refl (omega (arith, r.0)),
      to_be-slice 8 24 32 bytes k refl (omega (arith, r.0)),
      slice-byte_at bytes 32 (omega (arith, r.0)),
    )

-- If `decode` accepts some bytes as a stream preface, its fields are in range, its handle is not 0
-- and its name canonical, and encoding it gives exactly those bytes.
pub encode-decode-IsBinding :
    (b : HdqsBinding) (bytes : Bytes)
    → All IsByte bytes
    → decode bytes ≡ ok b
    → IsBinding b × (encode b ≡ ok bytes)
encode-decode-IsBinding b bytes k h =
    let (w, e) = IsBinding-of_reads b _ bytes k (reads_of_decode b bytes h) in
    (w, encode_binding b w ∙ ap ok e)
