-- ===== src/Envelope/Hde3/Payloads.antt =====
-- src/enrollment_v3_wire.rs, lines 25 to 28, 258 to 495 and 773 to 812: the payloads that a Core and a
-- Relay send in HDE3 frames, less the result. A text is its UTF-8 bytes; base64 and SHA-256 are a
-- package's.
use herdr_dog_relay.Prelude.{
  ℕ, ◌*◌, ◌||◌, Result, ok, ◌>>=◌, ◌>>◌, fail_if, Bytes, replicate, ◌==◌, ◌!=◌, nat_ord, bytes_ord,
}
use herdr_dog_relay.Envelope.Hde3.{Hde3Error, invalid_field, frame_too_large}
use herdr_dog_relay.Envelope.Fields.{Base64, validate_session, validate_code}
use herdr_dog_relay.Envelope.Fields

abbrev pub hde3_max_csr_bytes : ℕ
hde3_max_csr_bytes = 16 * 1024

-- `HDE3_DIGEST_BYTES` and `HDE3_ID_BYTES`
abbrev pub hde3_digest_bytes : ℕ
hde3_digest_bytes = 32

abbrev pub hde3_id_bytes : ℕ
hde3_id_bytes = 32

-- `decode_hex_exact::<HDE3_DIGEST_BYTES>`
abbrev pub decode_digest : Bytes → Result Hde3Error Bytes
decode_digest value = Fields.decode_hex_exact invalid_field frame_too_large hde3_digest_bytes value

-- `decode_base64_exact::<HDE3_ID_BYTES>`, and with `HDE3_DIGEST_BYTES`, which is the same number.
abbrev pub decode_id : Base64 → Bytes → Result Hde3Error Bytes
decode_id base64 value =
    Fields.decode_base64_exact invalid_field frame_too_large base64 hde3_id_bytes value

-- The test of a field that must not be zero.
abbrev pub zero_digest : Bytes
zero_digest = replicate hde3_digest_bytes 0

-- `validate_session` with the errors of HDE3.
abbrev pub check_session : Bytes → Result Hde3Error (Unit {0})
check_session value = validate_session invalid_field frame_too_large value

-- The generation test of the payloads.
abbrev pub check_generation : ℕ → Result Hde3Error (Unit {0})
check_generation generation = fail_if (generation == 0) invalid_field

pub record Hde3FirstAppSubmitPayload : Type 0 where
  pub approval_id : Bytes
  pub app_csr : Bytes
  pub app_csr_digest : Bytes

pub record Hde3ApprovalStartPayload : Type 0 where
  pub app_csr_digest : Bytes
  pub normalized_session : Bytes
  pub core_binding_digest : Bytes
  pub configuration_generation : ℕ

pub record Hde3ApprovalChallengePayload : Type 0 where
  pub approval_id : Bytes
  pub challenge : Bytes
  pub expires_at_epoch_seconds : ℕ

pub record Hde3ApprovalSubmitPayload : Type 0 where
  pub approval_id : Bytes
  pub challenge : Bytes
  pub code : Bytes
  pub app_csr : Bytes
  pub app_csr_digest : Bytes

pub record Hde3ConfirmPersistedPayload : Type 0 where
  pub approval_id : Bytes
  pub app_identity : Bytes
  pub issued_certificate_fingerprint : Bytes
  pub issued_certificate_chain_digest : Bytes
  pub configuration_generation : ℕ

pub record Hde3ReconcilePayload : Type 0 where
  pub approval_id : Bytes
  pub app_csr_digest : Bytes
  pub normalized_session : Bytes
  pub core_binding_digest : Bytes
  pub configuration_generation : ℕ

pub record Hde3RenewPayload : Type 0 where
  pub existing_app_identity : Bytes
  pub app_csr : Bytes
  pub app_csr_digest : Bytes
  pub normalized_session : Bytes
  pub core_binding_digest : Bytes
  pub configuration_generation : ℕ

-- `Hde3ApprovalStartPayload::validate`
unfoldable pub validate_start : Hde3ApprovalStartPayload → Result Hde3Error (Unit {0})
validate_start p = do
  _ ← decode_digest p.app_csr_digest
  _ ← decode_digest p.core_binding_digest
  check_session p.normalized_session
  check_generation p.configuration_generation

-- The methods that read a CSR, over SHA-256 and base64.
module _ (sha256 : Bytes → Bytes) (base64 : Base64) where
  unfoldable pub validate_csr_digest : Bytes → Bytes → Result Hde3Error (Unit {0})
  validate_csr_digest csr expected = fail_if (sha256 csr != expected) invalid_field

  -- How each payload with a CSR reads it and its digest.
  unfoldable pub decode_csr : Bytes → Bytes → Result Hde3Error (Bytes × Bytes)
  decode_csr app_csr app_csr_digest = do
    csr ←
        Fields.decode_base64_bounded invalid_field frame_too_large base64 app_csr hde3_max_csr_bytes
    digest ← decode_digest app_csr_digest
    validate_csr_digest csr digest
    ok (csr, digest)

  -- `Hde3FirstAppSubmitPayload::decode_fields`
  unfoldable pub decode_first_submit :
      Hde3FirstAppSubmitPayload → Result Hde3Error (Bytes × Bytes × Bytes)
  decode_first_submit p = do
    approval_id ← decode_id base64 p.approval_id
    (csr, digest) ← decode_csr p.app_csr p.app_csr_digest
    ok (approval_id, csr, digest)

  -- `Hde3ApprovalSubmitPayload::decode_fields`
  unfoldable pub decode_submit :
      Hde3ApprovalSubmitPayload → Result Hde3Error (Bytes × Bytes × Bytes × Bytes × Bytes)
  decode_submit p = do
    approval_id ← decode_id base64 p.approval_id
    challenge ← decode_id base64 p.challenge
    validate_code invalid_field frame_too_large p.code
    (csr, digest) ← decode_csr p.app_csr p.app_csr_digest
    ok (approval_id, challenge, p.code, csr, digest)

  -- `Hde3RenewPayload::validate`
  unfoldable pub validate_renew : Hde3RenewPayload → Result Hde3Error (Unit {0})
  validate_renew p = do
    _ ← decode_digest p.existing_app_identity
    _ ← decode_csr p.app_csr p.app_csr_digest
    _ ← decode_digest p.core_binding_digest
    check_session p.normalized_session
    check_generation p.configuration_generation

-- The methods that read base64 only.
module _ (base64 : Base64) where
  -- `Hde3ApprovalChallengePayload::new`
  unfoldable pub challenge_new : Bytes → Bytes → ℕ → Result Hde3Error Hde3ApprovalChallengePayload
  challenge_new approval_id challenge expires_at = do
    fail_if ((approval_id == zero_digest) || (challenge == zero_digest) || (expires_at == 0))
        invalid_field
    ok (record {
      approval_id = base64.encode approval_id;
      challenge = base64.encode challenge;
      expires_at_epoch_seconds = expires_at;
    })

  -- `Hde3ApprovalChallengePayload::decode_fields`
  unfoldable pub decode_challenge :
      Hde3ApprovalChallengePayload → Result Hde3Error (Bytes × Bytes × ℕ)
  decode_challenge p = do
    approval_id ← decode_id base64 p.approval_id
    challenge ← decode_id base64 p.challenge
    fail_if (p.expires_at_epoch_seconds == 0) invalid_field
    ok (approval_id, challenge, p.expires_at_epoch_seconds)

  -- `Hde3ConfirmPersistedPayload::validate`
  unfoldable pub validate_confirm : Hde3ConfirmPersistedPayload → Result Hde3Error (Unit {0})
  validate_confirm p = do
    _ ← decode_id base64 p.approval_id
    _ ← decode_digest p.app_identity
    _ ← decode_digest p.issued_certificate_fingerprint
    _ ← decode_digest p.issued_certificate_chain_digest
    check_generation p.configuration_generation

  -- `Hde3ReconcilePayload::validate`
  unfoldable pub validate_reconcile : Hde3ReconcilePayload → Result Hde3Error (Unit {0})
  validate_reconcile p = do
    _ ← decode_id base64 p.approval_id
    _ ← decode_digest p.app_csr_digest
    _ ← decode_digest p.core_binding_digest
    check_session p.normalized_session
    check_generation p.configuration_generation
