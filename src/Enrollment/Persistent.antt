-- ===== src/Enrollment/Persistent.antt =====
-- src/allowlist.rs, lines 35 to 267: the allowlist in a protected file that processes share.
pub mod Outcomes
pub mod Shared
mod Tests
use herdr_dog_relay.Prelude.{
  ℕ, Bool, Option, none, some, Result, ok, err, map_err, is_err, fail_if, Bytes,
}
use herdr_dog_relay.Prelude.Actions.{Action, ◌>>=◌, ◌>>◌, read, write, returns}
use herdr_dog_relay.RelayError.{RelayError, configuration_read}
use herdr_dog_relay.Material.{
  Access, Json, allowlist, max_allowlist_bytes, lock_file, read_protected_file,
  write_protected_file,
}
use herdr_dog_relay.Enrollment.{
  EnrollmentError, allowlist_persistence, AppId, Fingerprint, CertificateMetadata,
}
use herdr_dog_relay.Enrollment.Allowlist.{AllowlistRegistry, AllowlistEntry, validate_persisted}
use herdr_dog_relay.Enrollment.Allowlist

-- `PersistentAllowlist`, less the path of its file.
pub record PersistentAllowlist : Type 0 where
  pub expected_uid : ℕ
  pub registry : AllowlistRegistry

-- The file and the allowlist of one process.
pub record World (C : Type 0) : Type 0 where
  pub file : Option C
  pub store : PersistentAllowlist

-- `generation`, `allows_qrm_at`, `authorize_update_at`, `entry` and `snapshot`.
abbrev pub generation : PersistentAllowlist → ℕ
generation s = s.registry.generation

abbrev pub allows_qrm_at : PersistentAllowlist → Fingerprint → ℕ → Bool
allows_qrm_at s fingerprint now = Allowlist.allows_qrm_at s.registry fingerprint now

abbrev pub authorize_update_at :
    PersistentAllowlist → Fingerprint → ℕ → Result EnrollmentError (Unit {0})
authorize_update_at s fingerprint now = Allowlist.authorize_update_at s.registry fingerprint now

abbrev pub entry : PersistentAllowlist → AppId → Option AllowlistEntry
entry s app_id = Allowlist.entry s.registry app_id

abbrev pub snapshot : PersistentAllowlist → AllowlistRegistry
snapshot s = s.registry

module _ (json : Json AllowlistRegistry) where
  unfoldable pub load_registry : Access → World json.Text → Result RelayError AllowlistRegistry
  load_registry a w =
      elim (read_protected_file json.size a w.file w.store.expected_uid allowlist
        max_allowlist_bytes) [
          | err e ↦ err e
          | ok text ↦ elim (json.from_slice text) [
            | none ↦ err configuration_read
            | some r ↦ elim (validate_persisted r) [ err e ↦ err configuration_read | ok _ ↦ ok r ]
          ]
        ]

  -- What the file holds after `persist_registry`.
  unfoldable pub persisted_text :
      Access → AllowlistRegistry → World json.Text → Result RelayError json.Text
  persisted_text a r w = elim (json.to_vec r) [
    | none ↦ err configuration_read
    | some text ↦ write_protected_file json.size a w.store.expected_uid text max_allowlist_bytes
  ]

  -- The file is written, and the allowlist of the process is its content.
  abbrev pub publish : json.Text → AllowlistRegistry → World json.Text → World json.Text
  publish text r w = record w { file = some text; store = record w.store { registry = r } }

  -- How `enroll_pending`, `activate`, `enroll` and `revoke` change the file.
  unfoldable pub transact :
      {A : Type 0}
      → Access
      → (AllowlistRegistry → AllowlistRegistry × Result EnrollmentError A)
      → Action (World json.Text) EnrollmentError A
  transact a op = do
    read (λ _. map_err (lock_file a) allowlist_persistence)
    r ← read (λ w. map_err (load_registry a w) allowlist_persistence)
    x ← read (λ _. (op r).1)
    text ← read (λ w. map_err (persisted_text a (op r).0 w) allowlist_persistence)
    write (publish text (op r).0)
    returns x

  abbrev pub enroll_pending :
      Access → CertificateMetadata → Action (World json.Text) EnrollmentError AllowlistEntry
  enroll_pending a c = transact a (λ r. Allowlist.enroll_pending r c)

  abbrev pub activate :
      Access → AppId → Fingerprint → Action (World json.Text) EnrollmentError AllowlistEntry
  activate a app_id fingerprint = transact a (λ r. Allowlist.activate r app_id fingerprint)

  abbrev pub enroll :
      Access → CertificateMetadata → Action (World json.Text) EnrollmentError AllowlistEntry
  enroll a c = transact a (λ r. Allowlist.enroll r c)

  abbrev pub revoke : Access → AppId → Action (World json.Text) EnrollmentError ℕ
  revoke a app_id = transact a (λ r. Allowlist.revoke r app_id)

  unfoldable pub reload : Access → Action (World json.Text) RelayError (Unit {0})
  reload a = do
    read (λ _. lock_file a)
    r ← read (load_registry a)
    write (λ w. record w { store = record w.store { registry = r } })

  unfoldable pub replace :
      Access → AllowlistRegistry → Action (World json.Text) RelayError (Unit {0})
  replace a r = do
    read (λ _. map_err (validate_persisted r) configuration_read)
    read (λ _. lock_file a)
    text ← read (persisted_text a r)
    write (publish text r)

  -- `open` once the lock is taken: the file is there or not, as `exists` is taken to tell.
  unfoldable pub open_locked :
      Access → Option json.Text → Action (World json.Text) RelayError (Unit {0})
  open_locked a none = do
    text ← read (persisted_text a Allowlist.create)
    write (publish text Allowlist.create)
  open_locked a (some _) = do
    r ← read (load_registry a)
    write (λ w. record w { store = record w.store { registry = r } })

  -- `PersistentAllowlist::open`
  unfoldable pub open_store : Access → Action (World json.Text) RelayError (Unit {0})
  open_store a = do
    read (λ _. a.path)
    read (λ _. lock_file a)
    there ← read (λ w. ok w.file)
    open_locked a there
