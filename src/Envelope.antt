-- ===== src/Envelope.antt =====
-- The envelope that src/enrollment_wire.rs, src/reconciliation_wire.rs, src/enrollment_v3_wire.rs and
-- src/bootstrap_wire.rs share: a magic, a version, a kind and the length of a payload. Each protocol is
-- a child with its kinds, its errors, `encode`, `decode`, `json`, `parse_json` and `read_frame`. A
-- stream is the bytes that are still to come.
pub mod RoundTrip
pub mod Enrollment
pub mod Reconciliation
pub mod Hde3
pub mod Hdb1
pub mod Apart
pub mod Fields
mod Tests
use herdr_dog_relay.Prelude.{
  ℕ, List, [], ◌∷◌, ◌++◌, Option, none, some, Result, ok, err, ◌>>=◌, ◌>>◌, fail_if, ok_or, Bytes,
  to_be, from_be, slice, take, drop, length, flatten, ltb, if◌then◌else◌,
}

abbrev pub header_bytes : ℕ
header_bytes = 11

-- The fields in the order of the `extend_from_slice` calls.
unfoldable pub envelope_fields : Bytes → ℕ → ℕ → Bytes → List Bytes
envelope_fields magic version code payload =
    magic ∷ to_be 2 version ∷ (code ∷ []) ∷ to_be 4 (length payload) ∷ payload ∷ []

abbrev pub envelope : Bytes → ℕ → ℕ → Bytes → Bytes
envelope magic version code payload = flatten (envelope_fields magic version code payload)

-- `read_exact`: the bytes read, and the rest of the stream.
unfoldable pub read_exact : ℕ → Bytes → Option (Bytes × Bytes)
read_exact n stream = if ltb (length stream) n then none else some (take n stream, drop n stream)

-- `read_frame` of each protocol: the frame, and the rest of the stream.
unfoldable pub read_frame_with :
    {E F : Type 0}
    → (max_bytes : ℕ) (invalid_frame frame_too_large : E) → (Bytes → Result E F)
    → Bytes
    → Result E (F × Bytes)
read_frame_with max_bytes invalid_frame frame_too_large decode stream = do
  (header, stream') ← ok_or (read_exact header_bytes stream) invalid_frame
  let payload_len = from_be (slice 7 11 header)
  fail_if (ltb max_bytes payload_len) frame_too_large
  (payload, rest) ← ok_or (read_exact payload_len stream') invalid_frame
  frame ← decode (header ++ payload)
  ok (frame, rest)
