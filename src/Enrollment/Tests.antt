-- ===== src/Enrollment/Tests.antt =====
-- The allowlist, the certificate authority and the update worker at concrete inputs, with a toy
-- hash in the place of SHA-256.
use mathlib.Core.Option
use herdr_dog_relay.Prelude.{
  ◌≡◌, ◌≢◌, ◌↔◌, refl, List, [], ◌∷◌, true, false, some, ok, err, Bytes, replicate, bytes_beq,
  bytes_lt, if◌then◌else◌, bytes_ord, arith,
}
use herdr_dog_relay.Map.{get}
use herdr_dog_relay.Enrollment.{
  CertificateMetadata, CsrMetadata, update_unauthorized, fingerprint_from_bytes, checked_add,
}
use herdr_dog_relay.Enrollment.Allowlist.{
  AllowlistEntry, AllowlistRegistry, AllowlistState, create, revoke, allows_qrm_at,
  authorize_update_at, entry_of,
}
use herdr_dog_relay.Enrollment.Allowlist.Invariant.{
  IsValid, Change, change_all, changes_of_create-IsValid,
}
use herdr_dog_relay.Enrollment.Allowlist.Revocation.{
  revised, revoke-revokes, IsRevoked, change_all-IsRevoked,
}
use herdr_dog_relay.Enrollment.Allowlist.Admission.{
  IsAdmitted, allows_qrm_at_iff, authorize_update_at-allows_qrm_at,
}
use herdr_dog_relay.Enrollment.Authority.{FakeCertificateAuthority, issue, certificate_of}
use herdr_dog_relay.Enrollment.Worker.{
  FakeUpdateWorker, UpdateRequest, UpdateSelector, UpdateStatus, start_at, complete,
  start_at-exclusive,
}

abbrev fingerprint_a : Bytes
fingerprint_a = replicate 32 1

abbrev fingerprint_b : Bytes
fingerprint_b = replicate 32 2

abbrev certificate : Bytes → Bytes → CertificateMetadata
certificate app fingerprint = record {
  app_id = app;
  fingerprint = fingerprint;
  serial = 1;
  allowlist_generation = 1;
  not_before_epoch_seconds = 10;
  not_after_epoch_seconds = 100;
}

abbrev app_a : Bytes
app_a = b'a' ∷ []

abbrev app_b : Bytes
app_b = b'b' ∷ []

abbrev entry_a : AllowlistEntry
entry_a = entry_of (certificate app_a fingerprint_a) AllowlistState.active 2

abbrev entry_b : AllowlistEntry
entry_b = entry_of (certificate app_b fingerprint_b) AllowlistState.revoked 3

abbrev list : AllowlistRegistry
list = record { generation = 3; entries = (app_a, entry_a) ∷ (app_b, entry_b) ∷ [] }

list-IsValid : IsValid list
unfolding bytes_lt
list-IsValid = record {
  started = omega arith;
  width = omega arith;
  sorted = ((refl, tt), (tt, tt));
  entries = (
    record { own = refl; least = omega arith; most = omega arith },
    (record { own = refl; least = omega arith; most = omega arith }, tt),
  );
}

abbrev changes : List Change
changes =
    Change.enrolls_pending (certificate app_a fingerprint_a)
    ∷ Change.enrolls (certificate app_b fingerprint_b)
    ∷ Change.activates app_a fingerprint_a
    ∷ Change.revokes app_b
    ∷ []

changes_of_create-IsValid_example : IsValid (change_all create changes)
changes_of_create-IsValid_example = changes_of_create-IsValid changes

found_a : get app_a list.entries ≡ some entry_a
unfolding get bytes_beq
found_a = refl

revoke-revokes_example :
    ((revoke list app_a).1 ≡ ok 4)
    × ((revoke list app_a).0.generation ≡ 4)
    × (get app_b (revoke list app_a).0.entries
        ≡ Option.map (revised app_a app_b 4) (get app_b list.entries))
revoke-revokes_example =
    revoke-revokes list app_a app_b entry_a list-IsValid found_a (λ e. cc e) (omega arith)

list-IsRevoked : IsRevoked list app_b fingerprint_b
unfolding get bytes_beq
list-IsRevoked = record { entry = entry_b; found = refl; fingerprint = refl; state = refl }

abbrev attempts : List Change
attempts =
    Change.activates app_b fingerprint_b ∷ Change.enrolls (certificate app_b fingerprint_b) ∷ []

change_all-IsRevoked_example : IsRevoked (change_all list attempts) app_b fingerprint_b
change_all-IsRevoked_example = change_all-IsRevoked list attempts app_b fingerprint_b list-IsRevoked

allows_qrm_at_iff_example :
    (allows_qrm_at list fingerprint_a 50 ≡ true) ↔ IsAdmitted list fingerprint_a 50
allows_qrm_at_iff_example = allows_qrm_at_iff list fingerprint_a 50 list-IsValid

authorize_update_at-allows_qrm_at_example :
    authorize_update_at list fingerprint_b 50
    ≡ (if allows_qrm_at list fingerprint_b 50 then ok tt else err update_unauthorized)
authorize_update_at-allows_qrm_at_example = authorize_update_at-allows_qrm_at list fingerprint_b 50

-- A toy hash, with the width of the real one.
hash : Bytes → Bytes
hash bytes = replicate 32 7

abbrev authority : FakeCertificateAuthority
authority = record { root_generation = 1; intermediate_seed = fingerprint_a; next_serial = 4 }

abbrev csr : CsrMetadata
csr = record { app_id = app_a; digest = fingerprint_b; byte_len = 200 }

abbrev issued_certificate : CertificateMetadata
issued_certificate = record {
  app_id = app_a;
  fingerprint = replicate 32 7;
  serial = 4;
  allowlist_generation = 3;
  not_before_epoch_seconds = 20;
  not_after_epoch_seconds = 7_776_020;
}

issue_run : (issue hash authority csr 3 20).1 ≡ ok issued_certificate
unfolding issue certificate_of bytes_beq hash fingerprint_from_bytes checked_add
issue_run = refl

abbrev worker : FakeUpdateWorker
worker = record { is_running = false; next = UpdateStatus.failed }

abbrev update : UpdateRequest
update = record {
  request_id = replicate 16 1;
  selector = UpdateSelector.stable_latest;
  caller = fingerprint_a;
}

started : (start_at worker update list 50).1 ≡ ok UpdateStatus.running
unfolding start_at authorize_update_at bytes_beq
started = refl

start_at-exclusive_example :
    let w' = (start_at worker update list 50).0 in
    ((start_at w' update list 60).0 ≡ w')
    × ((start_at w' update list 60).1 ≢ ok UpdateStatus.running)
    × (complete w' ≡ (worker, ok UpdateStatus.failed))
start_at-exclusive_example = start_at-exclusive worker update update list list 50 60 started
