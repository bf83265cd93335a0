-- ===== src/Envelope/Hdb1/Results.antt =====
-- src/bootstrap_wire.rs, lines 639 to 828: the result that a Relay sends in an HDB1 frame.
use herdr_dog_relay.Prelude.{
  ℕ, Bool, ◌||◌, List, Option, none, some, Result, ok, ◌>>=◌, ◌>>◌, fail_if, ok_or, Bytes, ◌==◌,
  nat_ord, bytes_ord,
}
use herdr_dog_relay.Issuance.{is_some}
use herdr_dog_relay.Envelope.Hdb1.{Hdb1Error, invalid_field, frame_too_large}
use herdr_dog_relay.Envelope.Hdb1.Fields.{encode_hex, decode_hex_exact, decode_certificate_chain}
use herdr_dog_relay.Envelope.Hdb1.Payloads.{decode_id, hdb1_digest_bytes, zero_digest}
use herdr_dog_relay.Envelope.Fields.{Base64, encode_certificate_chain}
use herdr_dog_relay.Envelope.Hde3.Results.{is_unset}

pub data Hdb1ResultStatus : Type 0 where
  pending issued rejected : Hdb1ResultStatus

pub record Hdb1ResultPayload : Type 0 where
  pub approval_id : Bytes
  pub status : Hdb1ResultStatus
  pub core_identity : Option Bytes
  pub certificate_chain : Option (List Bytes)
  pub not_after_epoch_seconds : Option ℕ
  pub rejection_code : Option ℕ

-- `Hdb1ResultFields`
pub record Hdb1ResultFields : Type 0 where
  pub approval_id : Bytes
  pub status : Hdb1ResultStatus
  pub core_identity : Option Bytes
  pub certificate_chain : Option (List Bytes)
  pub not_after_epoch_seconds : Option ℕ
  pub rejection_code : Option ℕ

-- `transpose`
abbrev transpose : {A B E : Type 0} → (A → Result E B) → Option A → Result E (Option B)
transpose f none = ok none
transpose f (some x) = do y ← f x; ok (some y)

abbrev payload_without : Bytes → Hdb1ResultStatus → Option ℕ → Hdb1ResultPayload
payload_without approval_id status rejection_code = record {
  approval_id = approval_id;
  status = status;
  core_identity = none;
  certificate_chain = none;
  not_after_epoch_seconds = none;
  rejection_code = rejection_code;
}

-- Any field of an issued certificate is present.
unfoldable pub has_issued : Hdb1ResultPayload → Bool
has_issued p =
    is_some p.core_identity || is_some p.certificate_chain || is_some p.not_after_epoch_seconds

module _ (base64 : Base64) where
  -- The branch of `validate` for a result with a certificate.
  unfoldable pub check_issued : Hdb1ResultPayload → Result Hdb1Error (Unit {0})
  check_issued p = do
    core_identity ← ok_or p.core_identity invalid_field
    _ ← decode_hex_exact hdb1_digest_bytes core_identity
    chain ← ok_or p.certificate_chain invalid_field
    _ ← decode_certificate_chain base64 chain
    fail_if (is_unset p.not_after_epoch_seconds || is_some p.rejection_code) invalid_field

  abbrev pub check_status : Hdb1ResultPayload → Hdb1ResultStatus → Result Hdb1Error (Unit {0})
  check_status p pending = fail_if (has_issued p || is_some p.rejection_code) invalid_field
  check_status p issued = check_issued p
  check_status p rejected = fail_if (is_unset p.rejection_code || has_issued p) invalid_field

  -- `Hdb1ResultPayload::validate`
  unfoldable pub validate_result : Hdb1ResultPayload → Result Hdb1Error (Unit {0})
  validate_result p = do _ ← decode_id base64 p.approval_id; check_status p p.status

  -- `Hdb1ResultPayload::decode_fields`
  unfoldable pub decode_result : Hdb1ResultPayload → Result Hdb1Error Hdb1ResultFields
  decode_result p = do
    validate_result p
    approval_id ← decode_id base64 p.approval_id
    core_identity ← transpose (decode_hex_exact hdb1_digest_bytes) p.core_identity
    chain ← transpose (decode_certificate_chain base64) p.certificate_chain
    ok (record {
      approval_id = approval_id;
      status = p.status;
      core_identity = core_identity;
      certificate_chain = chain;
      not_after_epoch_seconds = p.not_after_epoch_seconds;
      rejection_code = p.rejection_code;
    })

  -- `Hdb1ResultPayload::new_pending`
  unfoldable pub new_pending : Bytes → Result Hdb1Error Hdb1ResultPayload
  new_pending approval_id = do
    fail_if (approval_id == zero_digest) invalid_field
    ok (payload_without (base64.encode approval_id) pending none)

  -- `Hdb1ResultPayload::new_issued`
  unfoldable pub new_issued : Bytes → Bytes → List Bytes → ℕ → Result Hdb1Error Hdb1ResultPayload
  new_issued approval_id core_identity chain not_after = do
    fail_if ((approval_id == zero_digest) || (core_identity == zero_digest) || (not_after == 0))
        invalid_field
    texts ← encode_certificate_chain invalid_field frame_too_large base64 chain
    let payload : Hdb1ResultPayload = record {
      approval_id = base64.encode approval_id;
      status = issued;
      core_identity = some (encode_hex core_identity);
      certificate_chain = some texts;
      not_after_epoch_seconds = some not_after;
      rejection_code = none;
    }
    validate_result payload
    ok payload

  -- `Hdb1ResultPayload::new_rejected`
  unfoldable pub new_rejected : Bytes → ℕ → Result Hdb1Error Hdb1ResultPayload
  new_rejected approval_id rejection_code = do
    fail_if ((approval_id == zero_digest) || (rejection_code == 0)) invalid_field
    ok (payload_without (base64.encode approval_id) rejected (some rejection_code))
