-- ===== src/Envelope/Hdb1/RoundTrip.antt =====
-- src/bootstrap_wire.rs, lines 13 to 293: frames, streams of frames and payloads read back.
use herdr_dog_relay.Prelude.{
  ℕ, ◌^◌, ◌≤◌, ◌<◌, ◌≡◌, refl, ap, ◌∙◌, ◌++◌, Option, some, ok, Bytes, All, IsByte, slice, byte_at,
  length, bytes_beq_iff, arith, nat_ord, length-drop,
}
use herdr_dog_relay.Envelope.{envelope}
use herdr_dog_relay.Envelope.RoundTrip.{
  Reads, envelope-reads, envelope-of_reads, read_frame-envelope,
}
use herdr_dog_relay.Envelope.Hdb1.{
  Hdb1Kind, Hdb1Frame, kind_code, kind_of_code, encode, decode, read_frame, json, parse_json,
  hdb1_magic, hdb1_version, hdb1_max_payload_bytes,
}

kind_of_code-kind_code : (k : Hdb1Kind) → kind_of_code (kind_code k) ≡ ok k
unfolding kind_of_code kind_code
kind_of_code-kind_code Hdb1Kind.start = refl
kind_of_code-kind_code _ = refl

kind_code-kind_of_code : (b : ℕ) (k : Hdb1Kind) → kind_of_code b ≡ ok k → kind_code k ≡ b
unfolding kind_of_code kind_code
kind_code-kind_of_code b k h = ground arith

decode-of_reads :
    (f : Hdb1Frame) (bytes : Bytes)
    → length f.payload ≤ hdb1_max_payload_bytes
    → Reads hdb1_magic hdb1_version (kind_code f.kind) f.payload bytes
    → decode bytes ≡ ok f
unfolding decode
decode-of_reads f bytes w r =
    let k : kind_of_code (byte_at bytes 6) ≡ ok f.kind =
      ap kind_of_code r.3 ∙ kind_of_code-kind_code f.kind in
    ground (arith, bytes_beq_iff (slice 0 4 bytes) hdb1_magic)

reads-of_decode :
    (f : Hdb1Frame) (bytes : Bytes)
    → decode bytes ≡ ok f
    → (length f.payload ≤ hdb1_max_payload_bytes)
      × Reads hdb1_magic hdb1_version (kind_code f.kind) f.payload bytes
unfolding decode
reads-of_decode f bytes h = ground (
  arith,
  bytes_beq_iff (slice 0 4 bytes) hdb1_magic,
  length-drop 11 bytes,
  kind_code-kind_of_code (byte_at bytes 6) f.kind,
)

encode-ok :
    (f : Hdb1Frame) (bytes : Bytes)
    → encode f ≡ ok bytes
    → (bytes ≡ envelope hdb1_magic hdb1_version (kind_code f.kind) f.payload)
      × (length f.payload ≤ hdb1_max_payload_bytes)
      × (length f.payload < 256 ^ 4)
unfolding encode
encode-ok f bytes h = ground arith

decode-envelope :
    (f : Hdb1Frame)
    → length f.payload ≤ hdb1_max_payload_bytes
    → length f.payload < 256 ^ 4
    → decode (envelope hdb1_magic hdb1_version (kind_code f.kind) f.payload) ≡ ok f
decode-envelope f small l =
    decode-of_reads f _ small
      (envelope-reads hdb1_magic hdb1_version (kind_code f.kind) f.payload refl (omega arith) l)

pub read_frame-encode_hdb1 :
    (f : Hdb1Frame) (bytes rest : Bytes)
    → encode f ≡ ok bytes
    → read_frame (bytes ++ rest) ≡ ok (f, rest)
unfolding read_frame
read_frame-encode_hdb1 f bytes rest h =
    let (e, small, l) = encode-ok f bytes h in
    rw e (
      read_frame-envelope hdb1_max_payload_bytes _ _ (decode) hdb1_magic hdb1_version
        (kind_code f.kind) f.payload rest f refl l small (decode-envelope f small l))

pub encode-decode_hdb1 :
    (f : Hdb1Frame) (bytes : Bytes) → All IsByte bytes → decode bytes ≡ ok f → encode f ≡ ok bytes
unfolding encode
encode-decode_hdb1 f bytes b h =
    let (small, r) = reads-of_decode f bytes h in
    let e = envelope-of_reads hdb1_magic hdb1_version (kind_code f.kind) f.payload bytes b r in
    ground (arith, e)

-- A value that `json` puts in a frame of HDB1 and `encode` turns into bytes is read back:
-- `read_frame` on a stream of these bytes and others returns the frame and leaves the others, and
-- `parse_json` of the frame gives the value, for any JSON that reads back what it writes.
pub read-json_hdb1 :
    {T : Type 0} (to_vec : T → Option Bytes) (from_slice : Bytes → Option T) (kind : Hdb1Kind)
    (value : T) (f : Hdb1Frame) (bytes rest : Bytes)
    → ((t : T) (text : Bytes) → to_vec t ≡ some text → from_slice text ≡ some t)
    → json to_vec from_slice kind value ≡ ok f
    → encode f ≡ ok bytes
    → (read_frame (bytes ++ rest) ≡ ok (f, rest)) × (parse_json to_vec from_slice f kind ≡ ok value)
unfolding json parse_json
read-json_hdb1 to_vec from_slice kind value f bytes rest law j h =
    (read_frame-encode_hdb1 f bytes rest h, ground (arith, law value f.payload))
