-- ===== src/Wire/Control/RoundTrip.antt =====
-- src/quic_wire.rs, lines 157 to 200: the control frame read back.
use herdr_dog_relay.Prelude.{
  ℕ, ◌+◌, ◌≤◌, ◌≡◌, refl, [], ◌∷◌, ok, ◌>>=◌, Bytes, IsArray, All, IsByte, to_be, from_be, slice,
  byte_at, drop, length, flatten, ltb, nat_ord, bytes_ord, ap, ◌∙◌, bytes_beq_iff, arith, false,
  slice-flatten, byte_at-flatten, uint-flatten, last-flatten, length-to_be, length-flatten, pieces,
  flatten-pieces, slice-byte_at, to_be-slice, slice-IsArray, drop-IsByte, subst, length-drop,
}
use herdr_dog_relay.Wire.{hdqm_magic, qrm_max_control_payload_bytes, qrm_protocol_version}
use herdr_dog_relay.Wire.Control.{
  HdqmKind, HdqmFrame, IsFrame, kind_code, kind_of_code, frame_fields, encode, decode,
}

kind_of_code-kind_code : (k : HdqmKind) → kind_of_code (kind_code k) ≡ ok k
unfolding kind_of_code kind_code
kind_of_code-kind_code HdqmKind.device_hello = refl
kind_of_code-kind_code _ = refl

kind_code-kind_of_code : (b : ℕ) (k : HdqmKind) → kind_of_code b ≡ ok k → kind_code k ≡ b
unfolding kind_of_code kind_code
kind_code-kind_of_code b k h = ground arith

size_version : length (to_be 2 qrm_protocol_version) ≡ 2
size_version = length-to_be 2 1

module _ (f : HdqmFrame) (bytes : Bytes) where
  -- What `decode` reads from each place.
  abbrev pub Reads : Type 0
  Reads =
      (length bytes ≡ 27 + length f.payload)
      × (slice 0 4 bytes ≡ hdqm_magic)
      × (from_be (slice 4 6 bytes) ≡ 1)
      × (kind_of_code (byte_at bytes 6) ≡ ok f.kind)
      × (slice 7 23 bytes ≡ f.request_id)
      × (from_be (slice 23 27 bytes) ≡ length f.payload)
      × (drop 27 bytes ≡ f.payload)

  decode_of_reads : length f.payload ≤ qrm_max_control_payload_bytes → Reads → decode bytes ≡ ok f
  unfolding decode
  decode_of_reads w r = ground (arith, bytes_beq_iff (slice 0 4 bytes) hdqm_magic)

  pub reads_of_decode :
      decode bytes ≡ ok f → (length f.payload ≤ qrm_max_control_payload_bytes) × Reads
  unfolding decode
  reads_of_decode h =
      ground (arith, bytes_beq_iff (slice 0 4 bytes) hdqm_magic, length-drop 27 bytes)

frame_reads : (f : HdqmFrame) → IsFrame f → Reads f (flatten (frame_fields f))
unfolding frame_fields
frame_reads f w = (
  length-flatten (frame_fields f)
      ∙ omega (arith, size_version, length-to_be 4 (length f.payload), w.id.0),
  slice-flatten (frame_fields f) 0 _ _ _ refl refl refl,
  uint-flatten (frame_fields f) 1 2 1 4 6 refl (omega arith) refl refl,
  ap kind_of_code
        (byte_at-flatten (frame_fields f) 2 (kind_code f.kind) 6 refl (omega (arith, size_version)))
      ∙ kind_of_code-kind_code f.kind,
  slice-flatten (frame_fields f) 3 _ 7 23 refl (omega (arith, size_version))
      (omega (arith, w.id.0)),
  uint-flatten (frame_fields f) 4 4 (length f.payload) 23 27 refl (omega (arith, w.small))
      (omega (arith, size_version, w.id.0)) refl,
  last-flatten (frame_fields f) 5 f.payload 27 refl
      (omega (arith, size_version, w.id.0, length-to_be 4 (length f.payload))),
)

-- A control frame with a request id of 16 bytes and a payload of bytes within the limit is
-- encoded, and decoding gives it back.
pub decode-encode_frame : (f : HdqmFrame) → IsFrame f → (encode f >>= decode) ≡ ok f
unfolding encode
decode-encode_frame f w =
    let e : ltb qrm_max_control_payload_bytes (length f.payload) ≡ false =
      ground (arith, w.small) in
    rw e (decode_of_reads f _ w.small (frame_reads f w))

IsFrame-of_reads :
    (f : HdqmFrame) (bytes : Bytes)
    → All IsByte bytes
    → length f.payload ≤ qrm_max_control_payload_bytes
    → Reads f bytes
    → IsFrame f × (flatten (frame_fields f) ≡ bytes)
unfolding frame_fields
IsFrame-of_reads f bytes b small r = (
  record {
    id = subst (IsArray 16) r.4 (slice-IsArray 16 7 23 bytes b refl (omega arith));
    bytes = subst (All IsByte) r.6 (drop-IsByte 27 bytes b);
    small = small;
  },
  ap flatten fields ∙ flatten-pieces 0 (4 ∷ 6 ∷ 7 ∷ 23 ∷ 27 ∷ []) bytes (omega arith),
)
  where
    fields : frame_fields f ≡ pieces 0 (4 ∷ 6 ∷ 7 ∷ 23 ∷ 27 ∷ []) bytes
    fields = cc (
      r.1,
      r.2,
      r.4,
      r.5,
      r.6,
      to_be-slice 2 4 6 bytes b refl (omega arith),
      to_be-slice 4 23 27 bytes b refl (omega arith),
      slice-byte_at bytes 6 (omega arith),
      kind_code-kind_of_code (byte_at bytes 6) f.kind r.3,
    )

-- If `decode` accepts some bytes as a control frame, the frame is in range and encoding it gives
-- exactly those bytes.
pub encode-decode-IsFrame :
    (f : HdqmFrame) (bytes : Bytes)
    → All IsByte bytes
    → decode bytes ≡ ok f
    → IsFrame f × (encode f ≡ ok bytes)
unfolding encode
encode-decode-IsFrame f bytes b h =
    let (small, r) = reads_of_decode f bytes h in
    let (w, e) = IsFrame-of_reads f bytes b small r in (w, rw e (ground (arith, small)))
