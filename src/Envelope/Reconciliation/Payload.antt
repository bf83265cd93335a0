-- ===== src/Envelope/Reconciliation/Payload.antt =====
-- src/reconciliation_wire.rs, lines 226 to 316: the result that an HDE2 frame carries, and its checks.
use herdr_dog_relay.Prelude.{
  ℕ, ◌*◌, List, Bool, false, not, ◌||◌, ◌&&◌, Option, Result, ◌>>◌, fail_if, Bytes, any, ltb, ◌!=◌,
  nat_ord, bytes_ord,
}
use herdr_dog_relay.Enrollment.{zero_identity}
use herdr_dog_relay.Issuance.{is_empty, is_none, option_or, chain_bytes}
use herdr_dog_relay.Envelope.Reconciliation.{
  ReconciliationWireError, frame_too_large, invalid_result,
}

abbrev pub max_reconciliation_chain_bytes : ℕ
max_reconciliation_chain_bytes = 48 * 1024

pub data ReconciliationStatus : Type 0 where
  is_pending is_issued is_rejected : ReconciliationStatus

pub record ReconciliationResultPayload : Type 0 where
  pub status : ReconciliationStatus
  pub certificate_chain : List Bytes
  pub fingerprint : Option Bytes
  pub allowlist_generation : Option ℕ
  pub not_after_epoch_seconds : Option ℕ
  pub rejection_code : Option ℕ

-- The status-specific fields of `validate`.
unfoldable pub has_valid_fields : ReconciliationResultPayload → Bool
has_valid_fields p = elim p.status [
  | is_pending ↦
      is_empty p.certificate_chain
      && is_none p.fingerprint
      && is_none p.allowlist_generation
      && is_none p.not_after_epoch_seconds
      && is_none p.rejection_code
  | is_issued ↦
      not (is_empty p.certificate_chain)
      && option_or false (λ fingerprint. fingerprint != zero_identity) p.fingerprint
      && option_or false (λ generation. ltb 0 generation) p.allowlist_generation
      && option_or false (λ expiry. ltb 0 expiry) p.not_after_epoch_seconds
      && is_none p.rejection_code
  | is_rejected ↦
      is_empty p.certificate_chain
      && is_none p.fingerprint
      && is_none p.allowlist_generation
      && is_none p.not_after_epoch_seconds
      && option_or false (λ code. ltb 0 code) p.rejection_code
]

-- `ReconciliationResultPayload::validate`
unfoldable pub validate : ReconciliationResultPayload → Result ReconciliationWireError (Unit {0})
validate p = do
  fail_if
      (ltb max_reconciliation_chain_bytes (chain_bytes p.certificate_chain)
        || any is_empty p.certificate_chain)
      frame_too_large
  fail_if (not (has_valid_fields p)) invalid_result
