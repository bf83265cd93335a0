-- ===== src/Enrollment/Allowlist.antt =====
-- src/enrollment.rs, lines 514 to 611 and 650 to 871: the allowlist, which decides who may enter a
-- normal connection and who may ask for an update.
pub mod Invariant
pub mod Revocation
pub mod Admission
use herdr_dog_relay.Prelude.{
  ℕ, ◌+◌, ◌≤◌, ◌≡◌, List, [], ◌∷◌, Bool, true, false, not, ◌||◌, ◌&&◌, Option, none, some, Result,
  ok, err, ◌>>=◌, ◌>>◌, fail_if, ok_or, Bytes, any, ltb, leb, ◌==◌, ◌!=◌, nat_ord, bytes_ord,
  if◌then◌else◌,
}
use herdr_dog_relay.Map.{Map, get, insert, modify, contains_key, values}
use herdr_dog_relay.Enrollment.{
  EnrollmentError, duplicate_enrollment, allowlist_persistence, allowlist_not_found,
  already_revoked, update_unauthorized, AppId, Fingerprint, CertificateMetadata, checked_add,
}

pub data AllowlistRole : Type 0 where
  relay_update_admin : AllowlistRole

pub data AllowlistState : Type 0 where
  pending active revoked : AllowlistState

-- `==` on the states, against each of them.
abbrev pub is_pending : AllowlistState → Bool
is_pending pending = true
is_pending _ = false

abbrev pub is_active : AllowlistState → Bool
is_active active = true
is_active _ = false

abbrev pub is_revoked : AllowlistState → Bool
is_revoked revoked = true
is_revoked _ = false

abbrev pub is_update_admin : AllowlistRole → Bool
is_update_admin relay_update_admin = true

pub record AllowlistEntry : Type 0 where
  pub app_id : AppId
  pub fingerprint : Fingerprint
  pub role : AllowlistRole
  pub state : AllowlistState
  pub generation : ℕ
  pub not_after_epoch_seconds : ℕ

pub record AllowlistRegistry : Type 0 where
  pub generation : ℕ
  pub entries : Map AppId AllowlistEntry

-- `AllowlistRegistry::new`
abbrev pub create : AllowlistRegistry
create = record { generation = 1; entries = [] }

-- The first test of `enroll_with_state`.
unfoldable pub is_duplicate : AllowlistRegistry → CertificateMetadata → Bool
is_duplicate r c =
    contains_key c.app_id r.entries
    || any (λ (e : AllowlistEntry). (e.fingerprint == c.fingerprint) && is_active e.state)
        (values r.entries)

abbrev pub entry_of : CertificateMetadata → AllowlistState → ℕ → AllowlistEntry
entry_of c state generation = record {
  app_id = c.app_id;
  fingerprint = c.fingerprint;
  role = relay_update_admin;
  state = state;
  generation = generation;
  not_after_epoch_seconds = c.not_after_epoch_seconds;
}

unfoldable pub enroll_with_state :
    AllowlistRegistry
    → CertificateMetadata
    → AllowlistState
    → AllowlistRegistry × Result EnrollmentError AllowlistEntry
enroll_with_state r c state =
    if is_duplicate r c then (r, err duplicate_enrollment) else elim (checked_add r.generation 1) [
      | none ↦ (r, err allowlist_persistence)
      | some generation ↦ (
        record {
          generation = generation;
          entries = insert c.app_id (entry_of c state generation) r.entries;
        },
        ok (entry_of c state generation),
      )
    ]

abbrev pub enroll_pending :
    AllowlistRegistry
    → CertificateMetadata
    → AllowlistRegistry × Result EnrollmentError AllowlistEntry
enroll_pending r c = enroll_with_state r c pending

abbrev pub enroll :
    AllowlistRegistry
    → CertificateMetadata
    → AllowlistRegistry × Result EnrollmentError AllowlistEntry
enroll r c = enroll_with_state r c active

abbrev pub set_active : AllowlistEntry → AllowlistEntry
set_active e = record e { state = active }

unfoldable pub activate :
    AllowlistRegistry
    → AppId
    → Fingerprint
    → AllowlistRegistry × Result EnrollmentError AllowlistEntry
activate r app_id fingerprint = elim (get app_id r.entries) [
  | none ↦ (r, err allowlist_not_found)
  | some e ↦
      if not (is_pending e.state) || (e.fingerprint != fingerprint)
      then (r, err update_unauthorized)
      else (record r { entries = modify app_id set_active r.entries }, ok (set_active e))
]

-- What the loop of `revoke` writes into one entry.
abbrev pub revise : AppId → ℕ → AllowlistEntry → AllowlistEntry
revise app_id generation e =
    let e' : AllowlistEntry = record e { generation = generation } in
    if e.app_id == app_id then record e' { state = revoked } else e'

-- `for value in self.entries.values_mut()`
unfoldable pub revise_all : AppId → ℕ → Map AppId AllowlistEntry → Map AppId AllowlistEntry
revise_all app_id generation [] = []
revise_all app_id generation ((k, e) ∷ m) =
    (k, revise app_id generation e) ∷ revise_all app_id generation m

unfoldable pub revoke : AllowlistRegistry → AppId → AllowlistRegistry × Result EnrollmentError ℕ
revoke r app_id = elim (get app_id r.entries) [
  | none ↦ (r, err allowlist_not_found)
  | some e ↦
      if is_revoked e.state then (r, err already_revoked) else elim (checked_add r.generation 1) [
        | none ↦ (r, err allowlist_persistence)
        | some generation ↦ (
          record { generation = generation; entries = revise_all app_id generation r.entries },
          ok generation,
        )
      ]
]

unfoldable pub allows_qrm_at : AllowlistRegistry → Fingerprint → ℕ → Bool
allows_qrm_at r fingerprint now =
    any
      (λ (e : AllowlistEntry).
        (e.fingerprint == fingerprint) && is_active e.state && ltb now e.not_after_epoch_seconds)
      (values r.entries)

unfoldable pub authorize_update_at :
    AllowlistRegistry → Fingerprint → ℕ → Result EnrollmentError (Unit {0})
authorize_update_at r fingerprint now =
    if any
      (λ (e : AllowlistEntry).
        (e.fingerprint == fingerprint)
        && is_active e.state
        && is_update_admin e.role
        && ltb now e.not_after_epoch_seconds)
      (values r.entries)
    then ok tt
    else err update_unauthorized

-- `entry`
abbrev pub entry : AllowlistRegistry → AppId → Option AllowlistEntry
entry r app_id = get app_id r.entries

unfoldable pub validate_persisted : AllowlistRegistry → Result EnrollmentError (Unit {0})
validate_persisted r =
    fail_if
      ((r.generation == 0)
        || any (λ (e : AllowlistEntry). (e.generation == 0) || (e.not_after_epoch_seconds == 0))
            (values r.entries))
      allowlist_persistence
