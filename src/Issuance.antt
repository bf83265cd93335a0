-- ===== src/Issuance.antt =====
-- src/issuance.rs, lines 24 to 142 and 708 to 795: the records of the issuance ledger, one for each
-- authorization of the Core and CSR, and what the ledger accepts of a file.
pub mod Records
pub mod Ledger
pub mod Decisions
pub mod Events
pub mod Invariant
pub mod Steps
pub mod Kept
pub mod History
pub mod Legacy
pub mod Phases
pub mod Tests
pub mod Store
pub mod Outcomes
use herdr_dog_relay.Prelude.{
  ℕ, ◌+◌, ◌*◌, List, [], ◌∷◌, Bool, true, false, not, ◌||◌, ◌&&◌, Option, none, some, Result, ok,
  err, ◌>>=◌, ◌>>◌, fail_if, is_err, Bytes, length, replicate, retain, any, ltb, ◌==◌, ◌!=◌,
  nat_ord, bytes_ord,
}
use herdr_dog_relay.RelayError.{RelayError, configuration_read, quic_protocol, resource_limit}
use herdr_dog_relay.Enrollment.{app_id_new, zero_identity, authorization_id_bytes}
use herdr_dog_relay.Material.{max_allowlist_bytes}

abbrev pub issuance_result_ttl_secs : ℕ
issuance_result_ttl_secs = 24 * 60 * 60

abbrev pub max_issuance_result_records : ℕ
max_issuance_result_records = 256

abbrev pub max_issuance_result_bytes : ℕ
max_issuance_result_bytes = max_allowlist_bytes

abbrev pub max_issuance_chain_bytes : ℕ
max_issuance_chain_bytes = 48 * 1024

abbrev pub max_authorization_ttl_secs : ℕ
max_authorization_ttl_secs = 300

abbrev pub issuance_result_store_version : ℕ
issuance_result_store_version = 1

pub record IssuanceResultKey : Type 0 where
  pub authorization_id : Bytes
  pub csr_digest : Bytes

-- `==` on keys.
abbrev pub same_key : IssuanceResultKey → IssuanceResultKey → Bool
same_key a b = (a.authorization_id == b.authorization_id) && (a.csr_digest == b.csr_digest)

abbrev pub zero_authorization : Bytes
zero_authorization = replicate authorization_id_bytes 0

-- The two tests that `IssuanceResultKey::new` and `validate_records` share.
abbrev pub is_empty_binding : IssuanceResultKey → Bool
is_empty_binding k = (k.authorization_id == zero_authorization) || (k.csr_digest == zero_identity)

-- `IssuanceResultKey::new`
unfoldable pub key_new : Bytes → Bytes → Result RelayError IssuanceResultKey
key_new authorization_id csr_digest =
    let key : IssuanceResultKey = record {
      authorization_id = authorization_id;
      csr_digest = csr_digest;
    } in
    do fail_if (is_empty_binding key) (quic_protocol "issuance binding is empty"); ok key

pub data IssuanceResultStatus : Type 0 where
  pending issued rejected : IssuanceResultStatus

pub record IssuanceResultRecord : Type 0 where
  pub key : IssuanceResultKey
  pub app_id : Bytes
  pub status : IssuanceResultStatus
  pub authorization_expires_at_epoch_seconds : ℕ
  pub retained_until_epoch_seconds : ℕ
  pub certificate_chain : List Bytes
  pub fingerprint : Option Bytes
  pub configuration_generation : Option ℕ
  pub allowlist_generation : Option ℕ
  pub not_after_epoch_seconds : Option ℕ
  pub rejection_code : Option ℕ

pub data IssuanceBeginResult : Type 0 where
  created existing : IssuanceResultRecord → IssuanceBeginResult

pub record PersistedIssuanceResults : Type 0 where
  pub version : ℕ
  pub records : List IssuanceResultRecord

-- `is_empty`
abbrev pub is_empty {ℓ} : {A : Type ℓ} → List A → Bool
is_empty [] = true
is_empty (x ∷ xs) = false

-- `is_some`, `is_none`, and `is_some_and` or `is_none_or` by what `none` gives.
abbrev pub is_some {ℓ} : {A : Type ℓ} → Option A → Bool
is_some none = false
is_some (some x) = true

abbrev pub is_none {ℓ} : {A : Type ℓ} → Option A → Bool
is_none o = not (is_some o)

abbrev pub option_or {ℓ} : {A : Type ℓ} → Bool → (A → Bool) → Option A → Bool
option_or missing p none = missing
option_or missing p (some x) = p x

-- The records that `prune_records` keeps; it reports whether their number changed.
unfoldable pub prune_records : List IssuanceResultRecord → ℕ → List IssuanceResultRecord
prune_records records now =
    retain (λ (r : IssuanceResultRecord). ltb now r.retained_until_epoch_seconds) records

abbrev pub is_pruned : List IssuanceResultRecord → ℕ → Bool
is_pruned records now = length records != length (prune_records records now)

-- The total of `validate_chain`. The sum of the lengths of vectors in memory does not overflow.
abbrev pub chain_bytes : List Bytes → ℕ
chain_bytes [] = 0
chain_bytes (certificate ∷ chain) = length certificate + chain_bytes chain

unfoldable pub validate_chain : List Bytes → Result RelayError (Unit {0})
validate_chain chain = do
  fail_if (is_empty chain) (quic_protocol "issued certificate chain is empty")
  fail_if (any is_empty chain) (quic_protocol "issued certificate is empty")
  fail_if (ltb max_issuance_chain_bytes (chain_bytes chain)) resource_limit

-- What `validate_records` demands of a record whatever its status.
unfoldable pub is_malformed : IssuanceResultRecord → Bool
is_malformed r =
    is_empty_binding r.key
    || is_err (app_id_new r.app_id)
    || option_or false (λ generation. generation == 0) r.configuration_generation
    || (r.authorization_expires_at_epoch_seconds == 0)
    || (r.retained_until_epoch_seconds == 0)

-- The `match record.status` of `validate_records`.
unfoldable pub validate_status : IssuanceResultRecord → Result RelayError (Unit {0})
validate_status r = elim r.status [
  | pending ↦ do
    fail_if (is_some r.rejection_code) configuration_read
    elim (is_empty r.certificate_chain) [
      | true ↦ ok tt
      | false ↦ validate_chain r.certificate_chain
    ]
  | issued ↦ do
    validate_chain r.certificate_chain
    fail_if
        (is_none r.fingerprint
          || is_none r.configuration_generation
          || is_none r.allowlist_generation
          || is_none r.not_after_epoch_seconds
          || is_some r.rejection_code)
        configuration_read
  | rejected ↦
      fail_if
        (not (is_empty r.certificate_chain)
          || is_some r.fingerprint
          || is_some r.allowlist_generation
          || is_some r.not_after_epoch_seconds
          || option_or true (λ code. code == 0) r.rejection_code)
        configuration_read
]

-- The loop of `validate_records`, with the keys it has seen.
unfoldable pub validate_each :
    List IssuanceResultKey → List IssuanceResultRecord → Result RelayError (Unit {0})
validate_each keys [] = ok tt
validate_each keys (r ∷ rs) = do
  fail_if (any (same_key r.key) keys || is_malformed r) configuration_read
  validate_status r
  validate_each (r.key ∷ keys) rs

unfoldable pub validate_records : PersistedIssuanceResults → Result RelayError (Unit {0})
validate_records persisted = do
  fail_if
      ((persisted.version != issuance_result_store_version)
        || ltb max_issuance_result_records (length persisted.records))
      configuration_read
  validate_each [] persisted.records
