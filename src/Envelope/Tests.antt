-- ===== src/Envelope/Tests.antt =====
-- The frames of src/enrollment_wire.rs and its likes, the fields of their payloads and the answer to
-- a question for a lost result, at concrete values.
use herdr_dog_relay.Prelude.{
  ◌*◌, ◌≤◌, length, ◌≡◌, ◌≢◌, refl, List, [], ◌∷◌, ◌++◌, All, IsByte, true, some, ok, Bytes, to_be,
  from_be, flatten, bytes_beq, replicate, arith, sym, Option,
}
use herdr_dog_relay.Issuance.{chain_bytes}
use herdr_dog_relay.Envelope.{envelope_fields}
use herdr_dog_relay.Envelope.Apart.{Protocol, accepts, accepts_unique}
use herdr_dog_relay.Envelope.Fields.{
  Base64, hex_nibble, decode_pairs, decode_hex_exact, encode_certificate_chain, encode_each,
  decode_certificate_chain, decode_each, decode_base64_bounded, encode_hex, validate_session,
}
use herdr_dog_relay.Envelope.Fields.Chains.{decode_chain-bounds}
use herdr_dog_relay.Envelope.Enrollment
use herdr_dog_relay.Envelope.Enrollment.RoundTrip.{read-json_enrollment}
use herdr_dog_relay.Envelope.Reconciliation
use herdr_dog_relay.Envelope.Hde3
use herdr_dog_relay.Envelope.Hde3.Results.{
  Hde3IssuedFields, issued_payload, new_issued, decode_issued_fields,
}
use herdr_dog_relay.Envelope.Hde3.Issued.{HasArrays, decode_issued-new_issued}
use herdr_dog_relay.Envelope.Hde3.RoundTrip.{read-json_hde3}
use herdr_dog_relay.Envelope.Hdb1
use herdr_dog_relay.Envelope.Hdb1.Payloads.{Hdb1StartPayload, start_new, decode_start}
use herdr_dog_relay.Envelope.Hdb1.Started.{decode_start-start_new}
use herdr_dog_relay.Envelope.Hdb1.RoundTrip.{read-json_hdb1}

-- A format whose values are their own text.
law : (t text : Bytes) → some t ≡ some text → some text ≡ some t
law t text h = sym h

abbrev enrollment_frame : Enrollment.EnrollmentFrame
enrollment_frame = record { kind = Enrollment.EnrollmentFrameKind.challenge; payload = 5 ∷ 6 ∷ [] }

abbrev enrollment_bytes : Bytes
enrollment_bytes = b'H' ∷ b'D' ∷ b'E' ∷ b'1' ∷ 0 ∷ 1 ∷ 1 ∷ 0 ∷ 0 ∷ 0 ∷ 2 ∷ 5 ∷ 6 ∷ []

enrollment_made :
    Enrollment.json some some Enrollment.EnrollmentFrameKind.challenge (5 ∷ 6 ∷ []) 100
    ≡ ok enrollment_frame
unfolding Enrollment.json
enrollment_made = refl

enrollment_encoded : Enrollment.encode 100 enrollment_frame ≡ ok enrollment_bytes
unfolding Enrollment.encode Enrollment.kind_code envelope_fields flatten to_be
enrollment_encoded = refl

enrollment_decoded : Enrollment.decode 100 enrollment_bytes ≡ ok enrollment_frame
unfolding Enrollment.decode Enrollment.kind_of_code from_be bytes_beq
enrollment_decoded = refl

enrollment_IsByte : All IsByte enrollment_bytes
enrollment_IsByte = omega arith

read-json_enrollment_example :
    (Enrollment.read_frame 100 (enrollment_bytes ++ 9 ∷ []) ≡ ok (enrollment_frame, 9 ∷ []))
    × (Enrollment.parse_json some some enrollment_frame Enrollment.EnrollmentFrameKind.challenge
        ≡ ok (5 ∷ 6 ∷ []))
read-json_enrollment_example =
    read-json_enrollment some some Enrollment.EnrollmentFrameKind.challenge (5 ∷ 6 ∷ []) 100
      enrollment_frame enrollment_bytes (9 ∷ []) law enrollment_made enrollment_encoded

abbrev reconciliation_frame : Reconciliation.ReconciliationFrame
reconciliation_frame = record {
  kind = Reconciliation.ReconciliationFrameKind.reconcile;
  payload = 5 ∷ 6 ∷ [];
}

abbrev reconciliation_bytes : Bytes
reconciliation_bytes = b'H' ∷ b'D' ∷ b'E' ∷ b'1' ∷ 0 ∷ 2 ∷ 5 ∷ 0 ∷ 0 ∷ 0 ∷ 2 ∷ 5 ∷ 6 ∷ []

reconciliation_made :
    Reconciliation.json some some Reconciliation.ReconciliationFrameKind.reconcile (5 ∷ 6 ∷ []) 100
    ≡ ok reconciliation_frame
unfolding Reconciliation.json
reconciliation_made = refl

reconciliation_encoded : Reconciliation.encode 100 reconciliation_frame ≡ ok reconciliation_bytes
unfolding Reconciliation.encode Reconciliation.kind_code envelope_fields flatten to_be
reconciliation_encoded = refl

reconciliation_decoded : Reconciliation.decode 100 reconciliation_bytes ≡ ok reconciliation_frame
unfolding Reconciliation.decode Reconciliation.kind_of_code from_be bytes_beq
reconciliation_decoded = refl

reconciliation_IsByte : All IsByte reconciliation_bytes
reconciliation_IsByte = omega arith

abbrev hde3_frame : Hde3.Hde3Frame
hde3_frame = record { kind = Hde3.Hde3Kind.renew; payload = 5 ∷ 6 ∷ [] }

abbrev hde3_bytes : Bytes
hde3_bytes = b'H' ∷ b'D' ∷ b'E' ∷ b'3' ∷ 0 ∷ 3 ∷ 7 ∷ 0 ∷ 0 ∷ 0 ∷ 2 ∷ 5 ∷ 6 ∷ []

hde3_made : Hde3.json some some Hde3.Hde3Kind.renew (5 ∷ 6 ∷ []) ≡ ok hde3_frame
unfolding Hde3.json
hde3_made = refl

hde3_encoded : Hde3.encode hde3_frame ≡ ok hde3_bytes
unfolding Hde3.encode Hde3.kind_code envelope_fields flatten to_be
hde3_encoded = refl

hde3_decoded : Hde3.decode hde3_bytes ≡ ok hde3_frame
unfolding Hde3.decode Hde3.kind_of_code from_be bytes_beq
hde3_decoded = refl

hde3_IsByte : All IsByte hde3_bytes
hde3_IsByte = omega arith

read-json_hde3_example :
    (Hde3.read_frame (hde3_bytes ++ 9 ∷ []) ≡ ok (hde3_frame, 9 ∷ []))
    × (Hde3.parse_json some some hde3_frame Hde3.Hde3Kind.renew ≡ ok (5 ∷ 6 ∷ []))
read-json_hde3_example =
    read-json_hde3 some some Hde3.Hde3Kind.renew (5 ∷ 6 ∷ []) hde3_frame hde3_bytes (9 ∷ []) law
      hde3_made hde3_encoded

abbrev hdb1_frame : Hdb1.Hdb1Frame
hdb1_frame = record { kind = Hdb1.Hdb1Kind.submit; payload = 5 ∷ 6 ∷ [] }

abbrev hdb1_bytes : Bytes
hdb1_bytes = b'H' ∷ b'D' ∷ b'B' ∷ b'1' ∷ 0 ∷ 1 ∷ 3 ∷ 0 ∷ 0 ∷ 0 ∷ 2 ∷ 5 ∷ 6 ∷ []

hdb1_made : Hdb1.json some some Hdb1.Hdb1Kind.submit (5 ∷ 6 ∷ []) ≡ ok hdb1_frame
unfolding Hdb1.json
hdb1_made = refl

hdb1_encoded : Hdb1.encode hdb1_frame ≡ ok hdb1_bytes
unfolding Hdb1.encode Hdb1.kind_code envelope_fields flatten to_be
hdb1_encoded = refl

hdb1_decoded : Hdb1.decode hdb1_bytes ≡ ok hdb1_frame
unfolding Hdb1.decode Hdb1.kind_of_code from_be bytes_beq
hdb1_decoded = refl

hdb1_IsByte : All IsByte hdb1_bytes
hdb1_IsByte = omega arith

read-json_hdb1_example :
    (Hdb1.read_frame (hdb1_bytes ++ 9 ∷ []) ≡ ok (hdb1_frame, 9 ∷ []))
    × (Hdb1.parse_json some some hdb1_frame Hdb1.Hdb1Kind.submit ≡ ok (5 ∷ 6 ∷ []))
read-json_hdb1_example =
    read-json_hdb1 some some Hdb1.Hdb1Kind.submit (5 ∷ 6 ∷ []) hdb1_frame hdb1_bytes (9 ∷ []) law
      hdb1_made hdb1_encoded

hde3_accepted : accepts 100 hde3_bytes Protocol.hde3 ≡ true
unfolding accepts Hde3.decode Hde3.kind_of_code from_be bytes_beq
hde3_accepted = refl

accepts_unique_example : Protocol.hde3 ≡ Protocol.hde3
accepts_unique_example =
    accepts_unique 100 hde3_bytes Protocol.hde3 Protocol.hde3 hde3_accepted hde3_accepted

abbrev two : Bytes
two = 1 ∷ 171 ∷ []

not_zero : two ≢ replicate 2 0
not_zero h = ground arith

hex_decoded : decode_hex_exact tt tt 2 (b'0' ∷ b'1' ∷ b'a' ∷ b'b' ∷ []) ≡ ok two
unfolding decode_hex_exact decode_pairs hex_nibble bytes_beq
hex_decoded = refl

-- A code in the place of base64: the bytes themselves.
own_text : (bytes : Bytes) → Option.some bytes ≡ some bytes
own_text bytes = refl

abbrev same : Base64
same = record { encode = λ bytes. bytes; decode = some; decode-encode = own_text }

abbrev chain : List Bytes
chain = (1 ∷ 2 ∷ []) ∷ (3 ∷ []) ∷ []

chain_encoded : encode_certificate_chain tt tt same chain ≡ ok chain
unfolding encode_certificate_chain encode_each
chain_encoded = refl

chain_decoded : decode_certificate_chain tt tt same chain ≡ ok chain
unfolding decode_certificate_chain decode_each decode_base64_bounded bytes_beq
chain_decoded = refl

decode_chain-bounds_example :
    (1 ≤ length chain)
    × (length chain ≤ 8)
    × (chain_bytes chain ≤ 46 * 1024)
    × All (λ (c : Bytes). 1 ≤ length c) chain
    × (encode_certificate_chain tt tt same chain ≡ ok chain)
decode_chain-bounds_example = decode_chain-bounds tt tt same chain chain chain_decoded

abbrev digest : Bytes
digest = replicate 32 7

abbrev certified : Hde3IssuedFields
certified = record {
  approval_id = digest;
  app_identity = digest;
  certificate_chain = chain;
  certificate_fingerprint = digest;
  certificate_chain_digest = digest;
  not_after_epoch_seconds = 2000;
  configuration_generation = 3;
  active = true;
}

certified_made : new_issued same certified ≡ ok (issued_payload same certified chain)
unfolding new_issued encode_certificate_chain encode_each bytes_beq
certified_made = refl

certified-HasArrays : HasArrays certified
certified-HasArrays = record {
  approval_id = omega arith;
  app_identity = omega arith;
  certificate_fingerprint = omega arith;
  certificate_chain_digest = omega arith;
}

decode_issued-new_issued_example :
    decode_issued_fields same (issued_payload same certified chain) ≡ ok (some certified)
decode_issued-new_issued_example =
    decode_issued-new_issued same certified (issued_payload same certified chain)
      certified-HasArrays certified_made

abbrev asked : Bytes
asked = replicate 16 9

abbrev started : Hdb1StartPayload
started = record {
  request_id = asked;
  core_csr = 1 ∷ 2 ∷ [];
  app_csr_digest = encode_hex digest;
  normalized_session = b'm' ∷ b'a' ∷ b'i' ∷ b'n' ∷ [];
  core_binding_digest = encode_hex digest;
  configuration_generation = 3;
}

started_made :
    start_new same asked (1 ∷ 2 ∷ []) digest started.normalized_session digest 3 ≡ ok started
unfolding start_new validate_session bytes_beq
started_made = refl

decode_start-start_new_example :
    decode_start same started
    ≡ ok (asked, 1 ∷ 2 ∷ [], digest, started.normalized_session, digest, 3)
decode_start-start_new_example =
    decode_start-start_new same asked (1 ∷ 2 ∷ []) digest started.normalized_session digest 3
      started (omega arith) (omega arith) (omega arith) started_made
