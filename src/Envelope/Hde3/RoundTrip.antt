-- ===== src/Envelope/Hde3/RoundTrip.antt =====
-- src/enrollment_v3_wire.rs, lines 13 to 256: frames, streams of frames and payloads read back.
use herdr_dog_relay.Prelude.{
  ℕ, ◌^◌, ◌≤◌, ◌<◌, ◌≡◌, refl, ap, ◌∙◌, ◌++◌, Option, some, ok, Bytes, All, IsByte, slice, byte_at,
  length, bytes_beq_iff, arith, nat_ord, length-drop,
}
use herdr_dog_relay.Envelope.{envelope}
use herdr_dog_relay.Envelope.RoundTrip.{
  Reads, envelope-reads, envelope-of_reads, read_frame-envelope,
}
use herdr_dog_relay.Envelope.Hde3.{
  Hde3Kind, Hde3Frame, kind_code, kind_of_code, encode, decode, read_frame, json, parse_json,
  hde3_magic, hde3_version, hde3_max_payload_bytes,
}

kind_of_code-kind_code : (k : Hde3Kind) → kind_of_code (kind_code k) ≡ ok k
unfolding kind_of_code kind_code
kind_of_code-kind_code Hde3Kind.first_app_submit = refl
kind_of_code-kind_code _ = refl

kind_code-kind_of_code : (b : ℕ) (k : Hde3Kind) → kind_of_code b ≡ ok k → kind_code k ≡ b
unfolding kind_of_code kind_code
kind_code-kind_of_code b k h = ground arith

decode-of_reads :
    (f : Hde3Frame) (bytes : Bytes)
    → length f.payload ≤ hde3_max_payload_bytes
    → Reads hde3_magic hde3_version (kind_code f.kind) f.payload bytes
    → decode bytes ≡ ok f
unfolding decode
decode-of_reads f bytes w r =
    let k : kind_of_code (byte_at bytes 6) ≡ ok f.kind =
      ap kind_of_code r.3 ∙ kind_of_code-kind_code f.kind in
    ground (arith, bytes_beq_iff (slice 0 4 bytes) hde3_magic)

reads-of_decode :
    (f : Hde3Frame) (bytes : Bytes)
    → decode bytes ≡ ok f
    → (length f.payload ≤ hde3_max_payload_bytes)
      × Reads hde3_magic hde3_version (kind_code f.kind) f.payload bytes
unfolding decode
reads-of_decode f bytes h = ground (
  arith,
  bytes_beq_iff (slice 0 4 bytes) hde3_magic,
  length-drop 11 bytes,
  kind_code-kind_of_code (byte_at bytes 6) f.kind,
)

encode-ok :
    (f : Hde3Frame) (bytes : Bytes)
    → encode f ≡ ok bytes
    → (bytes ≡ envelope hde3_magic hde3_version (kind_code f.kind) f.payload)
      × (length f.payload ≤ hde3_max_payload_bytes)
      × (length f.payload < 256 ^ 4)
unfolding encode
encode-ok f bytes h = ground arith

decode-envelope :
    (f : Hde3Frame)
    → length f.payload ≤ hde3_max_payload_bytes
    → length f.payload < 256 ^ 4
    → decode (envelope hde3_magic hde3_version (kind_code f.kind) f.payload) ≡ ok f
decode-envelope f small l =
    decode-of_reads f _ small
      (envelope-reads hde3_magic hde3_version (kind_code f.kind) f.payload refl (omega arith) l)

pub read_frame-encode_hde3 :
    (f : Hde3Frame) (bytes rest : Bytes)
    → encode f ≡ ok bytes
    → read_frame (bytes ++ rest) ≡ ok (f, rest)
unfolding read_frame
read_frame-encode_hde3 f bytes rest h =
    let (e, small, l) = encode-ok f bytes h in
    rw e (
      read_frame-envelope hde3_max_payload_bytes _ _ (decode) hde3_magic hde3_version
        (kind_code f.kind) f.payload rest f refl l small (decode-envelope f small l))

pub encode-decode_hde3 :
    (f : Hde3Frame) (bytes : Bytes) → All IsByte bytes → decode bytes ≡ ok f → encode f ≡ ok bytes
unfolding encode
encode-decode_hde3 f bytes b h =
    let (small, r) = reads-of_decode f bytes h in
    let e = envelope-of_reads hde3_magic hde3_version (kind_code f.kind) f.payload bytes b r in
    ground (arith, e)

-- A value that `json` puts in a frame of HDE3 and `encode` turns into bytes is read back:
-- `read_frame` on a stream of these bytes and others returns the frame and leaves the others, and
-- `parse_json` of the frame gives the value, for any JSON that reads back what it writes.
pub read-json_hde3 :
    {T : Type 0} (to_vec : T → Option Bytes) (from_slice : Bytes → Option T) (kind : Hde3Kind)
    (value : T) (f : Hde3Frame) (bytes rest : Bytes)
    → ((t : T) (text : Bytes) → to_vec t ≡ some text → from_slice text ≡ some t)
    → json to_vec from_slice kind value ≡ ok f
    → encode f ≡ ok bytes
    → (read_frame (bytes ++ rest) ≡ ok (f, rest)) × (parse_json to_vec from_slice f kind ≡ ok value)
unfolding json parse_json
read-json_hde3 to_vec from_slice kind value f bytes rest law j h =
    (read_frame-encode_hde3 f bytes rest h, ground (arith, law value f.payload))
