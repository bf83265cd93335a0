-- ===== src/Envelope/Hde3/Results.antt =====
-- src/enrollment_v3_wire.rs, lines 497 to 771: the result that the Relay sends in an HDE3 frame.
use herdr_dog_relay.Prelude.{
  ℕ, List, Bool, true, false, ◌||◌, Option, none, some, Result, ok, ◌>>=◌, ◌>>◌, fail_if, ok_or,
  Bytes, ◌==◌, nat_ord, bytes_ord, if◌then◌else◌,
}
use herdr_dog_relay.Issuance.{is_some, option_or}
use herdr_dog_relay.Envelope.Hde3.{Hde3Error, invalid_field, frame_too_large}
use herdr_dog_relay.Envelope.Hde3.Payloads.{decode_digest, decode_id, zero_digest}
use herdr_dog_relay.Envelope.Fields.{Base64, encode_hex}
use herdr_dog_relay.Envelope.Fields

pub data Hde3ResultStatus : Type 0 where
  pending issued active rejected : Hde3ResultStatus

pub record Hde3ResultPayload : Type 0 where
  pub approval_id : Bytes
  pub status : Hde3ResultStatus
  pub app_identity : Option Bytes
  pub certificate_chain : Option (List Bytes)
  pub certificate_fingerprint : Option Bytes
  pub certificate_chain_digest : Option Bytes
  pub not_after_epoch_seconds : Option ℕ
  pub configuration_generation : Option ℕ
  pub rejection_code : Option ℕ

-- `Hde3IssuedInput` and `Hde3IssuedFields`, whose fields are the same.
pub record Hde3IssuedFields : Type 0 where
  pub approval_id : Bytes
  pub app_identity : Bytes
  pub certificate_chain : List Bytes
  pub certificate_fingerprint : Bytes
  pub certificate_chain_digest : Bytes
  pub not_after_epoch_seconds : ℕ
  pub configuration_generation : ℕ
  pub active : Bool

abbrev payload_without : Bytes → Hde3ResultStatus → Option ℕ → Hde3ResultPayload
payload_without approval_id status rejection_code = record {
  approval_id = approval_id;
  status = status;
  app_identity = none;
  certificate_chain = none;
  certificate_fingerprint = none;
  certificate_chain_digest = none;
  not_after_epoch_seconds = none;
  configuration_generation = none;
  rejection_code = rejection_code;
}

-- `unwrap_or(0) == 0`
abbrev pub is_unset : Option ℕ → Bool
is_unset number = option_or true (λ n. n == 0) number

-- Any field of an issued certificate is present.
unfoldable pub has_issued : Hde3ResultPayload → Bool
has_issued p =
    is_some p.app_identity
    || is_some p.certificate_chain
    || is_some p.certificate_fingerprint
    || is_some p.certificate_chain_digest
    || is_some p.not_after_epoch_seconds
    || is_some p.configuration_generation

-- A field that must be there, read as a digest.
abbrev pub required_digest : Option Bytes → Result Hde3Error Bytes
required_digest field = do value ← ok_or field invalid_field; decode_digest value

module _ (base64 : Base64) where
  abbrev pub decode_chain : List Bytes → Result Hde3Error (List Bytes)
  decode_chain values = Fields.decode_certificate_chain invalid_field frame_too_large base64 values

  -- `Hde3ResultPayload::new_pending`
  unfoldable pub new_pending : Bytes → Result Hde3Error Hde3ResultPayload
  new_pending approval_id = do
    fail_if (approval_id == zero_digest) invalid_field
    ok (payload_without (base64.encode approval_id) pending none)

  -- The payload that `new_issued` returns.
  abbrev pub issued_payload : Hde3IssuedFields → List Bytes → Hde3ResultPayload
  issued_payload input encoded_chain = record {
    approval_id = base64.encode input.approval_id;
    status = if input.active then active else issued;
    app_identity = some (encode_hex input.app_identity);
    certificate_chain = some encoded_chain;
    certificate_fingerprint = some (encode_hex input.certificate_fingerprint);
    certificate_chain_digest = some (encode_hex input.certificate_chain_digest);
    not_after_epoch_seconds = some input.not_after_epoch_seconds;
    configuration_generation = some input.configuration_generation;
    rejection_code = none;
  }

  -- `Hde3ResultPayload::new_issued`
  unfoldable pub new_issued : Hde3IssuedFields → Result Hde3Error Hde3ResultPayload
  new_issued input = do
    fail_if
        ((input.approval_id == zero_digest)
          || (input.app_identity == zero_digest)
          || (input.certificate_fingerprint == zero_digest)
          || (input.certificate_chain_digest == zero_digest)
          || (input.not_after_epoch_seconds == 0)
          || (input.configuration_generation == 0))
        invalid_field
    encoded_chain ←
        Fields.encode_certificate_chain invalid_field frame_too_large base64 input.certificate_chain
    ok (issued_payload input encoded_chain)

  -- `Hde3ResultPayload::new_rejected`
  unfoldable pub new_rejected : Bytes → ℕ → Result Hde3Error Hde3ResultPayload
  new_rejected approval_id rejection_code = do
    fail_if ((approval_id == zero_digest) || (rejection_code == 0)) invalid_field
    ok (payload_without (base64.encode approval_id) rejected (some rejection_code))

  -- The branch of `validate` for a result with a certificate.
  unfoldable pub check_issued : Hde3ResultPayload → Result Hde3Error (Unit {0})
  check_issued p = do
    _ ← required_digest p.app_identity
    _ ← required_digest p.certificate_fingerprint
    _ ← required_digest p.certificate_chain_digest
    chain ← ok_or p.certificate_chain invalid_field
    _ ← decode_chain chain
    fail_if
        (is_unset p.not_after_epoch_seconds
          || is_unset p.configuration_generation
          || is_some p.rejection_code)
        invalid_field

  abbrev pub check_status : Hde3ResultPayload → Hde3ResultStatus → Result Hde3Error (Unit {0})
  check_status p pending = fail_if (has_issued p || is_some p.rejection_code) invalid_field
  check_status p issued = check_issued p
  check_status p active = check_issued p
  check_status p rejected = fail_if (is_unset p.rejection_code || has_issued p) invalid_field

  -- `Hde3ResultPayload::validate`
  unfoldable pub validate_result : Hde3ResultPayload → Result Hde3Error (Unit {0})
  validate_result p = do _ ← decode_id base64 p.approval_id; check_status p p.status

  -- The fields of a result with a certificate.
  unfoldable pub issued_fields :
      Bytes → Hde3ResultPayload → Bool → Result Hde3Error (Option Hde3IssuedFields)
  issued_fields approval_id p is_active = do
    app_identity ← required_digest p.app_identity
    chain ← ok_or p.certificate_chain invalid_field
    certificate_chain ← decode_chain chain
    certificate_fingerprint ← required_digest p.certificate_fingerprint
    certificate_chain_digest ← required_digest p.certificate_chain_digest
    not_after_epoch_seconds ← ok_or p.not_after_epoch_seconds invalid_field
    configuration_generation ← ok_or p.configuration_generation invalid_field
    ok (
        some (record {
          approval_id = approval_id;
          app_identity = app_identity;
          certificate_chain = certificate_chain;
          certificate_fingerprint = certificate_fingerprint;
          certificate_chain_digest = certificate_chain_digest;
          not_after_epoch_seconds = not_after_epoch_seconds;
          configuration_generation = configuration_generation;
          active = is_active;
        }))

  abbrev pub fields_by_status :
      Bytes → Hde3ResultPayload → Hde3ResultStatus → Result Hde3Error (Option Hde3IssuedFields)
  fields_by_status approval_id p pending = ok none
  fields_by_status approval_id p rejected = ok none
  fields_by_status approval_id p issued = issued_fields approval_id p false
  fields_by_status approval_id p active = issued_fields approval_id p true

  -- `Hde3ResultPayload::decode_issued_fields`
  unfoldable pub decode_issued_fields :
      Hde3ResultPayload → Result Hde3Error (Option Hde3IssuedFields)
  decode_issued_fields p = do
    validate_result p
    approval_id ← decode_id base64 p.approval_id
    fields_by_status approval_id p p.status
