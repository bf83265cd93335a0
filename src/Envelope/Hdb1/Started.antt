-- ===== src/Envelope/Hdb1/Started.antt =====
-- src/bootstrap_wire.rs, lines 327 to 387: a request to start read back.
use herdr_dog_relay.Prelude.{
  ℕ, ◌≡◌, ok, Bytes, IsArray, beq_refl, bytes_ord, nat_ord, bytes_beq_iff, arith,
}
use herdr_dog_relay.Envelope.Hdb1.{invalid_field, frame_too_large}
use herdr_dog_relay.Envelope.Hdb1.Payloads.{
  Hdb1StartPayload, start_new, decode_start, zero_digest, zero_request,
}
use herdr_dog_relay.Envelope.Fields.{Base64, decode_base64_exact, decode_base64_bounded}
use herdr_dog_relay.Envelope.Fields.Hex.{decode-encode_hex}

module _ (base64 : Base64) where
  -- For any Base64 that decodes what it encodes and an id of 16 bytes and digests of 32 bytes,
  -- `decode_fields` reads from a start payload that `Hdb1StartPayload::new` has made exactly what
  -- it was made of.
  pub decode_start-start_new :
      (request_id core_csr app_csr_digest session core_binding_digest : Bytes) (generation : ℕ)
      (p : Hdb1StartPayload)
      → IsArray 16 request_id
      → IsArray 32 app_csr_digest
      → IsArray 32 core_binding_digest
      → start_new base64 request_id core_csr app_csr_digest session core_binding_digest generation
        ≡ ok p
      → decode_start base64 p
        ≡ ok (request_id, core_csr, app_csr_digest, session, core_binding_digest, generation)
  unfolding start_new decode_start decode_base64_exact decode_base64_bounded
  decode_start-start_new request_id core_csr app_csr_digest session core_binding_digest generation p
        r a b h =
      ground (
        arith,
        bytes_beq_iff request_id zero_request,
        bytes_beq_iff app_csr_digest zero_digest,
        bytes_beq_iff core_binding_digest zero_digest,
        beq_refl (base64.encode request_id),
        beq_refl (base64.encode core_csr),
        base64.decode-encode request_id,
        base64.decode-encode core_csr,
        decode-encode_hex invalid_field frame_too_large 32 app_csr_digest a,
        decode-encode_hex invalid_field frame_too_large 32 core_binding_digest b,
      )
