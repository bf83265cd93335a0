-- ===== src/Wire/Response/RoundTrip.antt =====
-- src/quic_wire.rs, lines 856 to 899: the fixed answer read back.
use herdr_dog_relay.Prelude.{
  ℕ, ◌^◌, ◌<◌, ◌≡◌, refl, List, [], ◌∷◌, ok, ◌>>=◌, Bytes, All, IsByte, to_be, from_be, slice,
  byte_at, length, flatten, nat_ord, bytes_ord, ap, ◌∙◌, bytes_beq_iff, arith, false, slice-flatten,
  byte_at-flatten, uint-flatten, length-to_be, length-flatten, pieces, flatten-pieces,
  slice-byte_at, to_be-slice, subst, from_be-slice-lt, slice-rest,
}
use herdr_dog_relay.Wire.{hdqs_magic, qrm_protocol_version}
use herdr_dog_relay.Wire.Response.{
  HdqsKind, HdqsReason, HdqsResponse, IsResponse, kind_code, kind_of_code, reason_code,
  reason_of_code, response_fields, encode, decode, is_inconsistent,
}

kind_of_code-kind_code : (k : HdqsKind) → kind_of_code (kind_code k) ≡ ok k
unfolding kind_of_code kind_code
kind_of_code-kind_code HdqsKind.accepted = refl
kind_of_code-kind_code _ = refl

kind_code-kind_of_code : (b : ℕ) (k : HdqsKind) → kind_of_code b ≡ ok k → kind_code k ≡ b
unfolding kind_of_code kind_code
kind_code-kind_of_code b k h = ground arith

reason_of_code-reason_code : (k : HdqsReason) → reason_of_code (reason_code k) ≡ ok k
unfolding reason_of_code reason_code
reason_of_code-reason_code HdqsReason.no_reason = refl
reason_of_code-reason_code _ = refl

reason_code-reason_of_code : (b : ℕ) (k : HdqsReason) → reason_of_code b ≡ ok k → reason_code k ≡ b
unfolding reason_of_code reason_code
reason_code-reason_of_code b k h = ground arith

size_version : length (to_be 2 qrm_protocol_version) ≡ 2
size_version = length-to_be 2 1

module _ (r : HdqsResponse) (bytes : Bytes) where
  -- What `decode` reads from each place.
  abbrev Reads : Type 0
  Reads =
      (length bytes ≡ 20)
      × (slice 0 4 bytes ≡ hdqs_magic)
      × (from_be (slice 4 6 bytes) ≡ 1)
      × (kind_of_code (byte_at bytes 6) ≡ ok r.kind)
      × (kind_of_code (byte_at bytes 7) ≡ ok r.status)
      × (from_be (slice 8 10 bytes) ≡ r.session_handle)
      × (reason_of_code (byte_at bytes 10) ≡ ok r.reason)
      × (byte_at bytes 11 ≡ 0)
      × (from_be (slice 12 20 bytes) ≡ r.connection_epoch)
      × (is_inconsistent r ≡ false)

  decode_of_reads : Reads → decode bytes ≡ ok r
  unfolding decode encode
  decode_of_reads w = ground (arith, bytes_beq_iff (slice 0 4 bytes) hdqs_magic)

  reads_of_decode : decode bytes ≡ ok r → Reads
  unfolding decode encode
  reads_of_decode h = ground (arith, bytes_beq_iff (slice 0 4 bytes) hdqs_magic)

response_reads : (r : HdqsResponse) → IsResponse r → Reads r (flatten (response_fields r))
unfolding response_fields
response_reads r w = (
  length-flatten fs ∙ omega (arith, size_version, h2, h8),
  slice-flatten fs 0 _ _ _ refl refl refl,
  uint-flatten fs 1 2 1 4 6 refl (omega arith) refl refl,
  ap kind_of_code (byte_at-flatten fs 2 (kind_code r.kind) 6 refl (omega (arith, size_version)))
      ∙ kind_of_code-kind_code r.kind,
  ap kind_of_code (byte_at-flatten fs 3 (kind_code r.status) 7 refl (omega (arith, size_version)))
      ∙ kind_of_code-kind_code r.status,
  uint-flatten fs 4 2 r.session_handle 8 10 refl w.handle (omega (arith, size_version)) refl,
  ap reason_of_code
        (byte_at-flatten fs 5 (reason_code r.reason) 10 refl (omega (arith, size_version, h2)))
      ∙ reason_of_code-reason_code r.reason,
  byte_at-flatten fs 6 0 11 refl (omega (arith, size_version, h2)),
  uint-flatten fs 7 8 r.connection_epoch 12 20 refl w.epoch (omega (arith, size_version, h2)) refl,
  w.consistent,
)
  where
    fs : List Bytes
    fs = response_fields r

    h2 : length (to_be 2 r.session_handle) ≡ 2
    h2 = length-to_be 2 r.session_handle

    h8 : length (to_be 8 r.connection_epoch) ≡ 8
    h8 = length-to_be 8 r.connection_epoch

-- An answer whose fields are within their widths and consistent is encoded, and decoding gives it
-- back.
pub decode-encode_response : (r : HdqsResponse) → IsResponse r → (encode r >>= decode) ≡ ok r
unfolding encode
decode-encode_response r w = rw w.consistent (decode_of_reads r _ (response_reads r w))

IsResponse-of_reads :
    (r : HdqsResponse) (bytes : Bytes)
    → All IsByte bytes
    → Reads r bytes
    → IsResponse r × (flatten (response_fields r) ≡ bytes)
unfolding response_fields
IsResponse-of_reads r bytes b w = (
  record {
    handle = subst (λ n. n < 256 ^ 2) w.5 (from_be-slice-lt 2 8 10 bytes b refl (omega arith));
    epoch = subst (λ n. n < 256 ^ 8) w.8 (from_be-slice-lt 8 12 20 bytes b refl (omega arith));
    consistent = w.9;
  },
  ap flatten fields ∙ flatten-pieces 0 (4 ∷ 6 ∷ 7 ∷ 8 ∷ 10 ∷ 11 ∷ 12 ∷ []) bytes (omega arith),
)
  where
    fields : response_fields r ≡ pieces 0 (4 ∷ 6 ∷ 7 ∷ 8 ∷ 10 ∷ 11 ∷ 12 ∷ []) bytes
    fields = cc (
      w.1,
      w.2,
      w.5,
      w.7,
      w.8,
      to_be-slice 2 4 6 bytes b refl (omega arith),
      slice-byte_at bytes 6 (omega arith),
      kind_code-kind_of_code (byte_at bytes 6) r.kind w.3,
      slice-byte_at bytes 7 (omega arith),
      kind_code-kind_of_code (byte_at bytes 7) r.status w.4,
      to_be-slice 2 8 10 bytes b refl (omega arith),
      slice-byte_at bytes 10 (omega arith),
      reason_code-reason_of_code (byte_at bytes 10) r.reason w.6,
      slice-byte_at bytes 11 (omega arith),
      to_be-slice 8 12 20 bytes b refl (omega arith),
      slice-rest 12 20 bytes (omega arith) w.0,
    )

-- If `decode` accepts some bytes as an answer, the answer is consistent and in range, and encoding
-- it gives exactly those bytes.
pub encode-decode-IsResponse :
    (r : HdqsResponse) (bytes : Bytes)
    → All IsByte bytes
    → decode bytes ≡ ok r
    → IsResponse r × (encode r ≡ ok bytes)
unfolding encode
encode-decode-IsResponse r bytes b h =
    let (w, e) = IsResponse-of_reads r bytes b (reads_of_decode r bytes h) in
    (w, rw (w.consistent, e))
