-- ===== src/Envelope/Hde3/Issued.antt =====
-- src/enrollment_v3_wire.rs, lines 593 to 771: a result with a certificate read back.
use herdr_dog_relay.Prelude.{
  ◌≡◌, ◌≢◌, refl, false, some, ok, Bytes, IsArray, beq_refl, bytes_ord, nat_ord, bytes_beq_iff,
  arith, Result-cases, Bool-cases, List, ◌==◌, inl, inr,
}
use herdr_dog_relay.Envelope.Hde3.{invalid_field, frame_too_large}
use herdr_dog_relay.Envelope.Hde3.Payloads.{decode_digest, decode_id, zero_digest}
use herdr_dog_relay.Envelope.Hde3.Results.{
  Hde3ResultPayload, Hde3IssuedFields, new_issued, issued_payload, decode_chain, check_issued,
  validate_result, issued_fields, decode_issued_fields,
}
use herdr_dog_relay.Envelope.Fields.{
  Base64, encode_hex, encode_certificate_chain, decode_base64_exact,
}
use herdr_dog_relay.Envelope.Fields.Hex.{decode-encode_hex}
use herdr_dog_relay.Envelope.Fields.Chains.{decode-encode_chain}

-- The identity, the fingerprint and the digests are 32 bytes.
pub record HasArrays (f : Hde3IssuedFields) : Type 0 where
  pub approval_id : IsArray 32 f.approval_id
  pub app_identity : IsArray 32 f.app_identity
  pub certificate_fingerprint : IsArray 32 f.certificate_fingerprint
  pub certificate_chain_digest : IsArray 32 f.certificate_chain_digest

digest-encode :
    (bytes : Bytes)
    → IsArray 32 bytes
    → bytes ≢ zero_digest
    → decode_digest (encode_hex bytes) ≡ ok bytes
digest-encode bytes a z = decode-encode_hex invalid_field frame_too_large 32 bytes a z

module _ (base64 : Base64) where
  id-encode :
      (bytes : Bytes)
      → IsArray 32 bytes
      → bytes ≢ zero_digest
      → decode_id base64 (base64.encode bytes) ≡ ok bytes
  unfolding decode_base64_exact
  id-encode bytes (l, h) z = ground (
    arith,
    base64.decode-encode bytes,
    beq_refl (base64.encode bytes),
    bytes_beq_iff bytes zero_digest,
  )

  new_issued-ok :
      (f : Hde3IssuedFields) (p : Hde3ResultPayload)
      → new_issued base64 f ≡ ok p
      → (f.approval_id ≢ zero_digest)
        × (f.app_identity ≢ zero_digest)
        × (f.certificate_fingerprint ≢ zero_digest)
        × (f.certificate_chain_digest ≢ zero_digest)
        × ((f.not_after_epoch_seconds == 0) ≡ false)
        × ((f.configuration_generation == 0) ≡ false)
        × ((texts : List Bytes) × (encode_certificate_chain invalid_field frame_too_large base64
                f.certificate_chain
              ≡ ok texts)
            × (p ≡ issued_payload base64 f texts))
  unfolding new_issued
  new_issued-ok f p h =
      elim (Result-cases
        (encode_certificate_chain invalid_field frame_too_large base64 f.certificate_chain)) [
          | inr (e, c) ↦ ground (arith, c)
          | inl (texts, c) ↦ (
            ground (arith, bytes_beq_iff f.approval_id zero_digest),
            ground (arith, bytes_beq_iff f.app_identity zero_digest),
            ground (arith, bytes_beq_iff f.certificate_fingerprint zero_digest),
            ground (arith, bytes_beq_iff f.certificate_chain_digest zero_digest),
            ground arith,
            ground arith,
            (texts, c, ground (arith, c)),
          )
        ]

  payload-fields :
      (f : Hde3IssuedFields) (texts : List Bytes)
      → decode_id base64 (base64.encode f.approval_id) ≡ ok f.approval_id
      → decode_digest (encode_hex f.app_identity) ≡ ok f.app_identity
      → decode_digest (encode_hex f.certificate_fingerprint) ≡ ok f.certificate_fingerprint
      → decode_digest (encode_hex f.certificate_chain_digest) ≡ ok f.certificate_chain_digest
      → decode_chain base64 texts ≡ ok f.certificate_chain
      → (f.not_after_epoch_seconds == 0) ≡ false
      → (f.configuration_generation == 0) ≡ false
      → decode_issued_fields base64 (issued_payload base64 f texts) ≡ ok (some f)
  unfolding check_issued validate_result issued_fields decode_issued_fields
  payload-fields f texts i a b c d n g = elim (Bool-cases f.active) [
    | inl t ↦ rw (t, i, a, b, c, d, n, g) refl
    | inr t ↦ rw (t, i, a, b, c, d, n, g) refl
  ]

  -- For any Base64 that decodes what it encodes and fields whose identities and digests are 32
  -- bytes, `decode_issued_fields` reads from a result that `new_issued` has made exactly the
  -- fields it was made of.
  pub decode_issued-new_issued :
      (f : Hde3IssuedFields) (p : Hde3ResultPayload)
      → HasArrays f
      → new_issued base64 f ≡ ok p
      → decode_issued_fields base64 p ≡ ok (some f)
  decode_issued-new_issued f p a h =
      let (i, b, c, d, n, g, (texts, k, e)) = new_issued-ok f p h in
      rw e (
        payload-fields f texts (id-encode f.approval_id a.approval_id i)
          (digest-encode f.app_identity a.app_identity b)
          (digest-encode f.certificate_fingerprint a.certificate_fingerprint c)
          (digest-encode f.certificate_chain_digest a.certificate_chain_digest d)
          (decode-encode_chain invalid_field frame_too_large base64 f.certificate_chain texts k) n
          g)
