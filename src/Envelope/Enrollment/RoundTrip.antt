-- ===== src/Envelope/Enrollment/RoundTrip.antt =====
-- src/enrollment_wire.rs, lines 12 to 210: frames, streams of frames and payloads read back.
use herdr_dog_relay.Prelude.{
  ℕ, ◌^◌, ◌≤◌, ◌<◌, ◌≡◌, refl, ap, ◌∙◌, ◌++◌, Option, some, ok, Bytes, All, IsByte, slice, byte_at,
  length, bytes_beq_iff, arith, nat_ord, length-drop,
}
use herdr_dog_relay.Envelope.{envelope}
use herdr_dog_relay.Envelope.RoundTrip.{
  Reads, envelope-reads, envelope-of_reads, read_frame-envelope,
}
use herdr_dog_relay.Envelope.Enrollment.{
  EnrollmentFrameKind, EnrollmentFrame, kind_code, kind_of_code, encode, decode, read_frame, json,
  parse_json, enrollment_magic, enrollment_version,
}

kind_of_code-kind_code : (k : EnrollmentFrameKind) → kind_of_code (kind_code k) ≡ ok k
unfolding kind_of_code kind_code
kind_of_code-kind_code EnrollmentFrameKind.challenge = refl
kind_of_code-kind_code _ = refl

kind_code-kind_of_code : (b : ℕ) (k : EnrollmentFrameKind) → kind_of_code b ≡ ok k → kind_code k ≡ b
unfolding kind_of_code kind_code
kind_code-kind_of_code b k h = ground arith

decode-of_reads :
    (max_bytes : ℕ) (f : EnrollmentFrame) (bytes : Bytes)
    → length f.payload ≤ max_bytes
    → Reads enrollment_magic enrollment_version (kind_code f.kind) f.payload bytes
    → decode max_bytes bytes ≡ ok f
unfolding decode
decode-of_reads max_bytes f bytes w r =
    let k : kind_of_code (byte_at bytes 6) ≡ ok f.kind =
      ap kind_of_code r.3 ∙ kind_of_code-kind_code f.kind in
    ground (arith, bytes_beq_iff (slice 0 4 bytes) enrollment_magic)

reads-of_decode :
    (max_bytes : ℕ) (f : EnrollmentFrame) (bytes : Bytes)
    → decode max_bytes bytes ≡ ok f
    → (length f.payload ≤ max_bytes)
      × Reads enrollment_magic enrollment_version (kind_code f.kind) f.payload bytes
unfolding decode
reads-of_decode max_bytes f bytes h = ground (
  arith,
  bytes_beq_iff (slice 0 4 bytes) enrollment_magic,
  length-drop 11 bytes,
  kind_code-kind_of_code (byte_at bytes 6) f.kind,
)

encode-ok :
    (max_bytes : ℕ) (f : EnrollmentFrame) (bytes : Bytes)
    → encode max_bytes f ≡ ok bytes
    → (bytes ≡ envelope enrollment_magic enrollment_version (kind_code f.kind) f.payload)
      × (length f.payload ≤ max_bytes)
      × (length f.payload < 256 ^ 4)
unfolding encode
encode-ok max_bytes f bytes h = ground arith

decode-envelope :
    (max_bytes : ℕ) (f : EnrollmentFrame)
    → length f.payload ≤ max_bytes
    → length f.payload < 256 ^ 4
    → decode max_bytes (envelope enrollment_magic enrollment_version (kind_code f.kind) f.payload)
      ≡ ok f
decode-envelope max_bytes f small l = decode-of_reads max_bytes f _ small (
    envelope-reads enrollment_magic enrollment_version (kind_code f.kind) f.payload refl
      (omega arith) l)

pub read_frame-encode_enrollment :
    (max_bytes : ℕ) (f : EnrollmentFrame) (bytes rest : Bytes)
    → encode max_bytes f ≡ ok bytes
    → read_frame max_bytes (bytes ++ rest) ≡ ok (f, rest)
unfolding read_frame
read_frame-encode_enrollment max_bytes f bytes rest h =
    let (e, small, l) = encode-ok max_bytes f bytes h in
    rw e (
      read_frame-envelope max_bytes _ _ (decode max_bytes) enrollment_magic enrollment_version
        (kind_code f.kind) f.payload rest f refl l small (decode-envelope max_bytes f small l))

pub encode-decode_enrollment :
    (max_bytes : ℕ) (f : EnrollmentFrame) (bytes : Bytes)
    → max_bytes < 2 ^ 32
    → All IsByte bytes
    → decode max_bytes bytes ≡ ok f
    → encode max_bytes f ≡ ok bytes
unfolding encode
encode-decode_enrollment max_bytes f bytes m b h =
    let (small, r) = reads-of_decode max_bytes f bytes h in
    let e =
      envelope-of_reads enrollment_magic enrollment_version (kind_code f.kind) f.payload bytes b
        r in
    ground (arith, e)

-- A value that `json` puts in a frame of HDE1 and `encode` turns into bytes is read back:
-- `read_frame` on a stream of these bytes and others returns the frame and leaves the others, and
-- `parse_json` of the frame gives the value, for any JSON that reads back what it writes.
pub read-json_enrollment :
    {T : Type 0} (to_vec : T → Option Bytes) (from_slice : Bytes → Option T)
    (kind : EnrollmentFrameKind) (value : T) (max_bytes : ℕ) (f : EnrollmentFrame)
    (bytes rest : Bytes)
    → ((t : T) (text : Bytes) → to_vec t ≡ some text → from_slice text ≡ some t)
    → json to_vec from_slice kind value max_bytes ≡ ok f
    → encode max_bytes f ≡ ok bytes
    → (read_frame max_bytes (bytes ++ rest) ≡ ok (f, rest))
      × (parse_json to_vec from_slice f kind ≡ ok value)
unfolding json parse_json
read-json_enrollment to_vec from_slice kind value max_bytes f bytes rest law j h =
    (read_frame-encode_enrollment max_bytes f bytes rest h, ground (arith, law value f.payload))
