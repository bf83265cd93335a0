-- ===== src/Issuance/Records.antt =====
-- src/issuance.rs, lines 369 to 634: what the operations of the ledger decide from one record, and
-- the records they make.
use herdr_dog_relay.Prelude.{
  ℕ, ◌-◌, List, [], ◌∷◌, Bool, true, false, ◌||◌, ◌&&◌, Option, none, some, Result, ok, err, ◌>>=◌,
  ◌>>◌, fail_if, ok_or, is_err, Bytes, find, any, ltb, leb, ◌==◌, ◌!=◌, not, nat_ord, bytes_ord,
  if◌then◌else◌,
}
use herdr_dog_relay.RelayError.{RelayError, quic_protocol}
use herdr_dog_relay.Enrollment.{app_id_new, zero_identity, checked_add}
use herdr_dog_relay.Issuance.{
  IssuanceResultKey, IssuanceResultRecord, IssuanceResultStatus, pending, issued, rejected,
  same_key, is_empty, validate_chain, issuance_result_ttl_secs, max_authorization_ttl_secs,
}

-- The material that an issued certificate adds to a record.
pub record IssuedMaterial : Type 0 where
  pub certificate_chain : List Bytes
  pub fingerprint : Bytes
  pub allowlist_generation : ℕ
  pub not_after_epoch_seconds : ℕ

unfoldable pub bytes_lists_beq : List Bytes → List Bytes → Bool
bytes_lists_beq [] [] = true
bytes_lists_beq [] (y ∷ ys) = false
bytes_lists_beq (x ∷ xs) [] = false
bytes_lists_beq (x ∷ xs) (y ∷ ys) = (x == y) && bytes_lists_beq xs ys

-- `option == Some(value)`
abbrev pub is_the_number : Option ℕ → ℕ → Bool
is_the_number none n = false
is_the_number (some m) n = m == n

abbrev pub is_the_bytes : Option Bytes → Bytes → Bool
is_the_bytes none n = false
is_the_bytes (some m) n = m == n

-- The comparison `same` of `attach_certificate` and `mark_issued`.
unfoldable pub has_material : IssuanceResultRecord → IssuedMaterial → Bool
has_material r m =
    bytes_lists_beq r.certificate_chain m.certificate_chain
    && is_the_bytes r.fingerprint m.fingerprint
    && is_the_number r.allowlist_generation m.allowlist_generation
    && is_the_number r.not_after_epoch_seconds m.not_after_epoch_seconds

abbrev pub is_rejected : IssuanceResultStatus → Bool
is_rejected rejected = true
is_rejected _ = false

-- `iter().find(|record| record.key == key)`
unfoldable pub find_key :
    IssuanceResultKey → List IssuanceResultRecord → Option IssuanceResultRecord
find_key key records = find (λ (r : IssuanceResultRecord). same_key r.key key) records

-- `records.iter().any(|record| record.key.authorization_id() == id)`
unfoldable pub has_authorization : Bytes → List IssuanceResultRecord → Bool
has_authorization id records =
    any (λ (r : IssuanceResultRecord). r.key.authorization_id == id) records

-- A write through `iter_mut().find(|record| record.key == key)`.
unfoldable pub put_key :
    IssuanceResultKey → IssuanceResultRecord → List IssuanceResultRecord → List IssuanceResultRecord
put_key key r [] = []
put_key key r (s ∷ ss) =
    let rest = put_key key r ss in if same_key s.key key then r ∷ ss else s ∷ rest

-- The fields that `attach_certificate` sets.
unfoldable pub attached : IssuanceResultRecord → IssuedMaterial → IssuanceResultRecord
attached r m = record r {
  certificate_chain = m.certificate_chain;
  fingerprint = some m.fingerprint;
  allowlist_generation = some m.allowlist_generation;
  not_after_epoch_seconds = some m.not_after_epoch_seconds;
  rejection_code = none;
}

-- The fields that `mark_issued` sets.
unfoldable pub finalized : IssuanceResultRecord → IssuedMaterial → ℕ → IssuanceResultRecord
unfolding attached
finalized r m until = record (attached r m) {
  status = issued;
  retained_until_epoch_seconds = until;
}

-- The fields that `mark_rejected` sets.
unfoldable pub refused : IssuanceResultRecord → ℕ → ℕ → IssuanceResultRecord
refused r code until = record r {
  status = rejected;
  certificate_chain = [];
  fingerprint = none;
  allowlist_generation = none;
  not_after_epoch_seconds = none;
  rejection_code = some code;
  retained_until_epoch_seconds = until;
}

-- The record that `begin_pending` pushes.
unfoldable pub pending_of : IssuanceResultKey → Bytes → ℕ → ℕ → ℕ → IssuanceResultRecord
pending_of key app_id configuration_generation expires_at until = record {
  key = key;
  app_id = app_id;
  status = pending;
  authorization_expires_at_epoch_seconds = expires_at;
  retained_until_epoch_seconds = until;
  certificate_chain = [];
  fingerprint = none;
  configuration_generation = some configuration_generation;
  allowlist_generation = none;
  not_after_epoch_seconds = none;
  rejection_code = none;
}

-- The first checks of `attach_certificate` and `mark_issued`.
unfoldable pub check_material : IssuedMaterial → Result RelayError (Unit {0})
check_material m = do
  fail_if
      ((m.fingerprint == zero_identity)
        || (m.allowlist_generation == 0)
        || (m.not_after_epoch_seconds == 0))
      (quic_protocol "issued metadata is invalid")
  validate_chain m.certificate_chain

-- A retention deadline from a time.
abbrev retention : ℕ → Result RelayError ℕ
retention from =
    ok_or (checked_add from issuance_result_ttl_secs) (quic_protocol "issuance retention overflows")

-- The checks of `begin_pending` before it takes the lock, with the retention deadline.
unfoldable pub check_begin : Bytes → ℕ → ℕ → ℕ → Result RelayError ℕ
check_begin app_id configuration_generation expires_at now = do
  fail_if (is_err (app_id_new app_id)) (quic_protocol "issuance App identity is invalid")
  fail_if (configuration_generation == 0)
      (quic_protocol "issuance configuration generation is empty")
  fail_if (leb expires_at now || ltb max_authorization_ttl_secs (expires_at - now))
      (quic_protocol "issuance authorization is expired")
  retention expires_at

-- What `begin_pending` checks of a record with the same key.
unfoldable pub check_existing : IssuanceResultRecord → Bytes → ℕ → Result RelayError (Unit {0})
check_existing r app_id configuration_generation = do
  fail_if (r.app_id != app_id) (quic_protocol "issuance binding App identity mismatch")
  fail_if (not (is_the_number r.configuration_generation configuration_generation))
      (quic_protocol "issuance binding configuration generation mismatch")

-- `attach_certificate` from the record of the key: `none` where the record stays as it is.
unfoldable pub attach_record :
    IssuedMaterial → IssuanceResultRecord → Result RelayError (Option IssuanceResultRecord)
attach_record m r =
    if is_rejected r.status
    then err (quic_protocol "issuance result is terminally rejected")
    else if not (is_empty r.certificate_chain)
    then (if has_material r m
        then ok none
        else err (quic_protocol "issuance candidate was already attached"))
    else ok (some (attached r m))

-- `mark_issued` from the record of the key.
unfoldable pub issue_record :
    IssuedMaterial → ℕ → IssuanceResultRecord → Result RelayError (Option IssuanceResultRecord)
issue_record m now r = elim r.status [
  | rejected ↦ err (quic_protocol "issuance result is terminally rejected")
  | issued ↦
      if has_material r m
      then ok none
      else err (quic_protocol "issuance result was already finalized")
  | pending ↦ do until ← retention now; ok (some (finalized r m until))
]

-- `mark_rejected` from the record of the key.
unfoldable pub reject_record :
    ℕ → ℕ → IssuanceResultRecord → Result RelayError (Option IssuanceResultRecord)
reject_record code now r = elim r.status [
  | issued ↦ ok none
  | rejected ↦
      if is_the_number r.rejection_code code
      then ok none
      else err (quic_protocol "issuance result has another rejection code")
  | pending ↦ do until ← retention now; ok (some (refused r code until))
]
