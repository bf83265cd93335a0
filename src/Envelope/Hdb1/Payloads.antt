-- ===== src/Envelope/Hdb1/Payloads.antt =====
-- src/bootstrap_wire.rs, lines 22 to 30, 294 to 638 and 830 to 859: the payloads with which a Core is
-- bootstrapped, less the result. A text is its UTF-8 bytes, and base64 is a package's.
use herdr_dog_relay.Prelude.{
  ℕ, ◌*◌, ◌||◌, List, Result, ok, ◌>>=◌, ◌>>◌, fail_if, Bytes, length, ltb, replicate, ◌==◌,
  nat_ord, bytes_ord,
}
use herdr_dog_relay.Envelope.Hdb1.{Hdb1Error, invalid_field, frame_too_large}
use herdr_dog_relay.Envelope.Hdb1.Fields.{
  encode_hex, decode_hex_exact, decode_base64_exact, decode_base64_bounded,
  decode_certificate_chain, validate_code,
}
use herdr_dog_relay.Envelope.Fields.{Base64, encode_certificate_chain, validate_session}

abbrev pub hdb1_max_csr_bytes : ℕ
hdb1_max_csr_bytes = 16 * 1024

abbrev pub hdb1_digest_bytes : ℕ
hdb1_digest_bytes = 32

-- `HDB1_ID_BYTES` is the same number.
abbrev pub hdb1_request_id_bytes : ℕ
hdb1_request_id_bytes = 16

-- An array of zeros.
abbrev pub zero_request : Bytes
zero_request = replicate hdb1_request_id_bytes 0

abbrev pub zero_digest : Bytes
zero_digest = replicate hdb1_digest_bytes 0

-- `validate_session` with the errors of HDB1.
abbrev pub check_session : Bytes → Result Hdb1Error (Unit {0})
check_session value = validate_session invalid_field frame_too_large value

-- `Hdb1ChallengeStatus` and `Hdb1CoreState` have one value each, which every payload has.
pub record Hdb1StartPayload : Type 0 where
  pub request_id : Bytes
  pub core_csr : Bytes
  pub app_csr_digest : Bytes
  pub normalized_session : Bytes
  pub core_binding_digest : Bytes
  pub configuration_generation : ℕ

pub record Hdb1ChallengePayload : Type 0 where
  pub bootstrap_id : Bytes
  pub challenge : Bytes
  pub expires_at_epoch_seconds : ℕ

pub record Hdb1SubmitPayload : Type 0 where
  pub bootstrap_id : Bytes
  pub challenge : Bytes
  pub code : Bytes

pub record Hdb1CoreIssuedPayload : Type 0 where
  pub approval_id : Bytes
  pub core_identity : Bytes
  pub certificate_chain : List Bytes
  pub not_after_epoch_seconds : ℕ

pub record Hdb1ReconcilePayload : Type 0 where
  pub approval_id : Bytes
  pub core_binding_digest : Bytes
  pub normalized_session : Bytes

module _ (base64 : Base64) where
  -- `decode_base64_exact::<HDB1_ID_BYTES>`, and with `HDB1_DIGEST_BYTES`.
  abbrev pub decode_id : Bytes → Result Hdb1Error Bytes
  decode_id value = decode_base64_exact base64 hdb1_digest_bytes value

  -- `Hdb1StartPayload::new`
  unfoldable pub start_new :
      Bytes → Bytes → Bytes → Bytes → Bytes → ℕ → Result Hdb1Error Hdb1StartPayload
  start_new request_id core_csr app_csr_digest session core_binding_digest generation = do
    check_session session
    fail_if
        ((request_id == zero_request)
          || (length core_csr == 0)
          || ltb hdb1_max_csr_bytes (length core_csr)
          || (app_csr_digest == zero_digest)
          || (core_binding_digest == zero_digest)
          || (generation == 0))
        invalid_field
    ok (record {
      request_id = base64.encode request_id;
      core_csr = base64.encode core_csr;
      app_csr_digest = encode_hex app_csr_digest;
      normalized_session = session;
      core_binding_digest = encode_hex core_binding_digest;
      configuration_generation = generation;
    })

  -- `Hdb1StartPayload::decode_fields`
  unfoldable pub decode_start :
      Hdb1StartPayload → Result Hdb1Error (Bytes × Bytes × Bytes × Bytes × Bytes × ℕ)
  decode_start p = do
    request_id ← decode_base64_exact base64 hdb1_request_id_bytes p.request_id
    core_csr ← decode_base64_bounded base64 p.core_csr hdb1_max_csr_bytes
    app_csr_digest ← decode_hex_exact hdb1_digest_bytes p.app_csr_digest
    core_binding_digest ← decode_hex_exact hdb1_digest_bytes p.core_binding_digest
    fail_if (p.configuration_generation == 0) invalid_field
    check_session p.normalized_session
    ok (
      request_id, core_csr, app_csr_digest, p.normalized_session, core_binding_digest,
      p.configuration_generation,
    )

  -- `Hdb1ChallengePayload::new`
  unfoldable pub challenge_new : Bytes → Bytes → ℕ → Result Hdb1Error Hdb1ChallengePayload
  challenge_new bootstrap_id challenge expires_at = do
    fail_if ((bootstrap_id == zero_digest) || (challenge == zero_digest) || (expires_at == 0))
        invalid_field
    ok (record {
      bootstrap_id = base64.encode bootstrap_id;
      challenge = base64.encode challenge;
      expires_at_epoch_seconds = expires_at;
    })

  -- `Hdb1ChallengePayload::decode_fields`
  unfoldable pub decode_challenge : Hdb1ChallengePayload → Result Hdb1Error (Bytes × Bytes × ℕ)
  decode_challenge p = do
    bootstrap_id ← decode_id p.bootstrap_id
    challenge ← decode_id p.challenge
    fail_if (p.expires_at_epoch_seconds == 0) invalid_field
    ok (bootstrap_id, challenge, p.expires_at_epoch_seconds)

  -- `Hdb1SubmitPayload::new`
  unfoldable pub submit_new : Bytes → Bytes → Bytes → Result Hdb1Error Hdb1SubmitPayload
  submit_new bootstrap_id challenge code = do
    validate_code code
    fail_if ((bootstrap_id == zero_digest) || (challenge == zero_digest)) invalid_field
    ok (record {
      bootstrap_id = base64.encode bootstrap_id;
      challenge = base64.encode challenge;
      code = code;
    })

  -- `Hdb1SubmitPayload::decode_fields`
  unfoldable pub decode_submit : Hdb1SubmitPayload → Result Hdb1Error (Bytes × Bytes × Bytes)
  decode_submit p = do
    bootstrap_id ← decode_id p.bootstrap_id
    challenge ← decode_id p.challenge
    validate_code p.code
    ok (bootstrap_id, challenge, p.code)

  -- `Hdb1CoreIssuedPayload::decode_fields`
  unfoldable pub decode_core_issued :
      Hdb1CoreIssuedPayload → Result Hdb1Error (Bytes × Bytes × List Bytes × ℕ)
  decode_core_issued p = do
    approval_id ← decode_id p.approval_id
    core_identity ← decode_hex_exact hdb1_digest_bytes p.core_identity
    chain ← decode_certificate_chain base64 p.certificate_chain
    fail_if (p.not_after_epoch_seconds == 0) invalid_field
    ok (approval_id, core_identity, chain, p.not_after_epoch_seconds)

  -- `Hdb1CoreIssuedPayload::new`
  unfoldable pub core_issued_new :
      Bytes → Bytes → List Bytes → ℕ → Result Hdb1Error Hdb1CoreIssuedPayload
  core_issued_new approval_id core_identity chain not_after = do
    fail_if ((approval_id == zero_digest) || (core_identity == zero_digest) || (not_after == 0))
        invalid_field
    texts ← encode_certificate_chain invalid_field frame_too_large base64 chain
    let payload : Hdb1CoreIssuedPayload = record {
      approval_id = base64.encode approval_id;
      core_identity = encode_hex core_identity;
      certificate_chain = texts;
      not_after_epoch_seconds = not_after;
    }
    _ ← decode_core_issued payload
    ok payload

  -- `Hdb1ReconcilePayload::new`
  unfoldable pub reconcile_new : Bytes → Bytes → Bytes → Result Hdb1Error Hdb1ReconcilePayload
  reconcile_new approval_id core_binding_digest session = do
    check_session session
    fail_if ((approval_id == zero_digest) || (core_binding_digest == zero_digest)) invalid_field
    ok (record {
      approval_id = base64.encode approval_id;
      core_binding_digest = encode_hex core_binding_digest;
      normalized_session = session;
    })

  -- `Hdb1ReconcilePayload::decode_fields`
  unfoldable pub decode_reconcile : Hdb1ReconcilePayload → Result Hdb1Error (Bytes × Bytes × Bytes)
  decode_reconcile p = do
    approval_id ← decode_id p.approval_id
    core_binding_digest ← decode_hex_exact hdb1_digest_bytes p.core_binding_digest
    check_session p.normalized_session
    ok (approval_id, core_binding_digest, p.normalized_session)
