-- ===== src/Enrollment/Persistent/Tests.antt =====
-- src/allowlist.rs: two processes that share a file.
use herdr_dog_relay.Prelude.{ℕ, ◌≡◌, refl, List, [], ◌∷◌, All, true, some, replicate, bytes_beq}
use herdr_dog_relay.Prelude.Actions.{read, ◌>>=◌}
use herdr_dog_relay.Material.{
  lock_file, read_protected_file, write_protected_file, validate_file_metadata, same_file_identity,
  validate_directory,
}
use herdr_dog_relay.Material.Tests.{plain, works}
use herdr_dog_relay.Map.{get, insert}
use herdr_dog_relay.Enrollment.{CertificateMetadata, checked_add}
use herdr_dog_relay.Enrollment.Allowlist.{
  AllowlistRegistry, AllowlistState, create, validate_persisted, entry_of, revoke, revise_all,
  enroll_with_state, is_duplicate,
}
use herdr_dog_relay.Enrollment.Allowlist.Invariant.{enrolls, revokes}
use herdr_dog_relay.Enrollment.Allowlist.Revocation.{IsRevoked}
use herdr_dog_relay.Enrollment.Persistent.{transact, load_registry, persisted_text, reload, replace}
use herdr_dog_relay.Enrollment.Persistent.Outcomes.{Holds}
use herdr_dog_relay.Enrollment.Persistent.Shared.{
  Event, changes, reloads, replaces, makes, puts, effect_all, KeepsRevoked, System, act, act_all,
  view, perform, effects_of, effect_of, act_all-refines, reload-IsRevoked,
}

abbrev certificate : CertificateMetadata
certificate = record {
  app_id = b'a' ∷ [];
  fingerprint = replicate 32 4;
  serial = 1;
  allowlist_generation = 1;
  not_before_epoch_seconds = 10;
  not_after_epoch_seconds = 900;
}

abbrev system_of : AllowlistRegistry → System AllowlistRegistry
system_of r = record {
  file = some r;
  stores = λ i. record { expected_uid = 501; registry = create };
}

create-Holds : Holds (plain AllowlistRegistry) (system_of create).file create
create-Holds = record { text = create; there = refl; printed = refl }

abbrev revoked_registry : AllowlistRegistry
revoked_registry = record {
  generation = 3;
  entries = (certificate.app_id, entry_of certificate AllowlistState.revoked 3) ∷ [];
}

-- Process 0 enrolls an App, process 1 revokes it, and process 0 replaces the allowlist.
abbrev history : List (ℕ × Event)
history =
    (0, changes works (enrolls certificate))
    ∷ (1, changes works (revokes certificate.app_id))
    ∷ (0, replaces works revoked_registry)
    ∷ []

all_succeed :
    effects_of (plain AllowlistRegistry) history (system_of create)
    ≡ makes (enrolls certificate) ∷ makes (revokes certificate.app_id) ∷ puts revoked_registry ∷ []
unfolding effects_of effect_of act perform transact load_registry persisted_text read ◌>>=◌
    lock_file read_protected_file write_protected_file validate_file_metadata validate_directory
    same_file_identity replace validate_persisted enroll_with_state is_duplicate revoke revise_all
    checked_add get insert bytes_beq
all_succeed = refl

act_all-refines_example :
    Holds
      (plain AllowlistRegistry)
      (act_all (plain AllowlistRegistry) history (system_of create)).file
      (effect_all create (effects_of (plain AllowlistRegistry) history (system_of create)))
act_all-refines_example =
    act_all-refines (plain AllowlistRegistry) history (system_of create) create create-Holds

revoked-Holds : Holds (plain AllowlistRegistry) (system_of revoked_registry).file revoked_registry
revoked-Holds = record { text = revoked_registry; there = refl; printed = refl }

IsRevoked-there : IsRevoked revoked_registry certificate.app_id certificate.fingerprint
unfolding get bytes_beq
IsRevoked-there = record {
  entry = entry_of certificate AllowlistState.revoked 3;
  found = refl;
  fingerprint = refl;
  state = refl;
}

kept_revoked :
    All (λ (e : ℕ × Event). KeepsRevoked certificate.app_id certificate.fingerprint e.1) history
kept_revoked = (tt, (tt, (IsRevoked-there, tt)))

reloaded :
    (perform (plain AllowlistRegistry) (reloads works) (
      view
        (plain AllowlistRegistry)
        2
        (act_all (plain AllowlistRegistry) history (system_of revoked_registry)))).1
    ≡ true
unfolding act_all act perform transact load_registry persisted_text read ◌>>=◌ reload replace
    lock_file read_protected_file write_protected_file validate_file_metadata validate_directory
    same_file_identity validate_persisted enroll_with_state is_duplicate revoke revise_all
    checked_add get insert bytes_beq
reloaded = refl

reload-IsRevoked_example :
    IsRevoked
      ((act
          (plain AllowlistRegistry)
          2
          (reloads works)
          (act_all (plain AllowlistRegistry) history (system_of revoked_registry))).stores
        2).registry
      certificate.app_id
      certificate.fingerprint
reload-IsRevoked_example =
    reload-IsRevoked (plain AllowlistRegistry) history (system_of revoked_registry) revoked_registry
      certificate.app_id certificate.fingerprint 2 works revoked-Holds IsRevoked-there kept_revoked
      reloaded
