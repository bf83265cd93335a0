-- ===== src/Enrollment/Exchange/Tests.antt =====
-- The exchange at a concrete submission, with a toy hash in the place of SHA-256.
use herdr_dog_relay.Prelude.{◌≡◌, refl, List, [], ◌∷◌, Bytes, replicate, bytes_beq, bytes_ord}
use herdr_dog_relay.Map.{get}
use herdr_dog_relay.Enrollment.{
  CertificateMetadata, invalid_challenge, fingerprint_from_bytes, checked_add,
}
use herdr_dog_relay.Enrollment.Allowlist.{
  AllowlistEntry, AllowlistState, entry_of, enroll_with_state, is_duplicate,
}
use herdr_dog_relay.Enrollment.Authority.{issue, certificate_of}
use herdr_dog_relay.Enrollment.Exchange.{
  EnrollmentSubmission, issued, rejected, PendingChallenge, FakeRelayEnrollment, accept,
  accept_pending, accept_consumed, is_mismatch,
}
use herdr_dog_relay.Enrollment.Exchange.Challenges.{accept-replay}
use herdr_dog_relay.Enrollment.Exchange.Issued.{IsEnrolled, accept-issued}
use herdr_dog_relay.Enrollment.Exchange.SingleUse.{Event, after, accept-single_use}

hash : Bytes → Bytes
hash bytes = replicate 32 7

abbrev core : Bytes
core = replicate 32 1

abbrev challenge : Bytes
challenge = replicate 32 2

abbrev digest : Bytes
digest = replicate 32 3

abbrev waiting : PendingChallenge
waiting = record {
  core_identity = core;
  pairing_id = b'p' ∷ [];
  target_id = b't' ∷ [];
  app_id = b'a' ∷ [];
  configuration_generation = 5;
  created_at_epoch_seconds = 10;
}

abbrev exchange : FakeRelayEnrollment
exchange = record {
  seed = core;
  next_counter = 2;
  pending = (challenge, waiting) ∷ [];
  consumed = [];
  authority = record { root_generation = 1; intermediate_seed = core; next_serial = 1 };
  allowlist = record { generation = 1; entries = [] };
}

abbrev submission : EnrollmentSubmission
submission = record {
  authorization = record {
    core_identity = core;
    authorization_id = replicate 16 4;
    pairing_id = b'p' ∷ [];
    target_id = b't' ∷ [];
    app_id = b'a' ∷ [];
    challenge = challenge;
    csr_digest = digest;
    code_proof = digest;
    configuration_generation = 5;
    expires_at_epoch_seconds = 400;
  };
  csr = record { app_id = b'a' ∷ []; digest = digest; byte_len = 200 };
}

abbrev certificate : CertificateMetadata
certificate = record {
  app_id = b'a' ∷ [];
  fingerprint = replicate 32 7;
  serial = 1;
  allowlist_generation = 1;
  not_before_epoch_seconds = 20;
  not_after_epoch_seconds = 7_776_020;
}

abbrev entry : AllowlistEntry
entry = entry_of certificate AllowlistState.active 2

accepted : (accept hash exchange submission 20).1 ≡ issued certificate entry
unfolding accept accept_pending accept_consumed is_mismatch issue certificate_of enroll_with_state
    is_duplicate checked_add fingerprint_from_bytes hash get bytes_beq
accepted = refl

accept-replay_example :
    let f' = (accept hash exchange submission 20).0 in
    accept hash f' submission 21 ≡ (f', rejected invalid_challenge)
accept-replay_example = accept-replay hash exchange submission submission 20 21 refl

accept-issued_example : IsEnrolled hash exchange submission 20 certificate entry
accept-issued_example = accept-issued hash exchange submission 20 certificate entry accepted

abbrev between : List Event
between = Event.begins waiting ∷ []

accept-single_use_example : ¬ (
    (accept hash (after hash (accept hash exchange submission 20).0 between) submission 30).1
    ≡ issued certificate entry)
accept-single_use_example =
    accept-single_use hash exchange submission submission 20 30 between certificate certificate
      entry entry accepted refl
