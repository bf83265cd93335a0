-- ===== src/Enrollment/Exchange.antt =====
-- src/enrollment.rs, lines 241 to 423 and 964 to 1150: the enrollment exchange, with challenges
-- minted for an App and the submissions of the Core that answer them. Identities come from the
-- constructors of Enrollment.antt; SHA-256 is the parameter `sha256`.
pub mod Challenges
pub mod Issued
pub mod SingleUse
pub mod Tests
use herdr_dog_relay.Prelude.{
  ℕ, ◌+◌, ◌-◌, List, [], ◌∷◌, Bool, true, false, ◌||◌, Option, none, some, Result, ok, err, ◌>>=◌,
  ◌>>◌, fail_if, ok_or, Bytes, to_be, flatten, replicate, ltb, ◌==◌, ◌!=◌, nat_ord, bytes_ord,
  if◌then◌else◌,
}
use herdr_dog_relay.Map.{Map, get, insert, remove, contains_key}
use herdr_dog_relay.Enrollment.{
  EnrollmentError, invalid_challenge, challenge_expired, csr_mismatch, authorization_mismatch,
  authorization_used, invalid_generation, invalid_metadata, AppId, Fingerprint, EnrollmentChallenge,
  CsrDigest, CsrMetadata, CertificateMetadata, zero_identity, authorization_id_bytes,
  enrollment_ttl_secs, checked_add, bounded_identity, challenge_from_bytes,
}
use herdr_dog_relay.Enrollment.Allowlist.{AllowlistEntry, AllowlistRegistry, enroll}
use herdr_dog_relay.Enrollment.Authority.{FakeCertificateAuthority, issue}

pub record CoreAuthorization : Type 0 where
  pub core_identity : Fingerprint
  pub authorization_id : Bytes
  pub pairing_id : Bytes
  pub target_id : Bytes
  pub app_id : AppId
  pub challenge : EnrollmentChallenge
  pub csr_digest : CsrDigest
  pub code_proof : CsrDigest
  pub configuration_generation : ℕ
  pub expires_at_epoch_seconds : ℕ

-- `CoreAuthorization::new`, from the authorization that its arguments would make.
unfoldable pub check_authorization : CoreAuthorization → Result EnrollmentError CoreAuthorization
check_authorization a = do
  pairing_id ← bounded_identity a.pairing_id
  target_id ← bounded_identity a.target_id
  fail_if
      ((a.authorization_id == replicate authorization_id_bytes 0)
        || (a.configuration_generation == 0)
        || (a.expires_at_epoch_seconds == 0))
      invalid_metadata
  ok (record a { pairing_id = pairing_id; target_id = target_id })

pub record EnrollmentSubmission : Type 0 where
  pub authorization : CoreAuthorization
  pub csr : CsrMetadata

-- `EnrollmentSubmission::new`
unfoldable pub submission_new :
    CoreAuthorization → CsrMetadata → Result EnrollmentError EnrollmentSubmission
submission_new authorization csr = do
  fail_if ((authorization.app_id != csr.app_id) || (authorization.csr_digest != csr.digest))
      csr_mismatch
  ok (record { authorization = authorization; csr = csr })

pub data EnrollmentOutcome : Type 0 where
  issued : (certificate : CertificateMetadata) (entry : AllowlistEntry) → EnrollmentOutcome
  rejected : EnrollmentError → EnrollmentOutcome

pub record PendingChallenge : Type 0 where
  pub core_identity : Fingerprint
  pub pairing_id : Bytes
  pub target_id : Bytes
  pub app_id : AppId
  pub configuration_generation : ℕ
  pub created_at_epoch_seconds : ℕ

-- The set of consumed authorizations is a map to the unit type.
pub record FakeRelayEnrollment : Type 0 where
  pub seed : Bytes
  pub next_counter : ℕ
  pub pending : Map EnrollmentChallenge PendingChallenge
  pub consumed : Map Bytes (Unit {0})
  pub authority : FakeCertificateAuthority
  pub allowlist : AllowlistRegistry

-- `FakeRelayEnrollment::new`
unfoldable pub create : Bytes → Bytes → Result EnrollmentError FakeRelayEnrollment
create seed ca_seed = do
  fail_if (seed == zero_identity) invalid_challenge
  authority ← herdr_dog_relay.Enrollment.Authority.create 1 ca_seed
  ok (record {
    seed = seed;
    next_counter = 1;
    pending = [];
    consumed = [];
    authority = authority;
    allowlist = herdr_dog_relay.Enrollment.Allowlist.create;
  })

-- The text that is hashed before the fields of a challenge.
abbrev challenge_label : Bytes
challenge_label =
    b'h' ∷ b'e' ∷ b'r' ∷ b'd' ∷ b'r' ∷ b'-' ∷ b'd' ∷ b'o' ∷ b'g' ∷ b' ' ∷ b'r' ∷ b'e' ∷ b'l' ∷ b'a'
    ∷ b'y' ∷ b' ' ∷ b'e' ∷ b'n' ∷ b'r' ∷ b'o' ∷ b'l' ∷ b'l' ∷ b'm' ∷ b'e' ∷ b'n' ∷ b't' ∷ b' '
    ∷ b'c' ∷ b'h' ∷ b'a' ∷ b'l' ∷ b'l' ∷ b'e' ∷ b'n' ∷ b'g' ∷ b'e' ∷ b' ' ∷ b'v' ∷ b'1' ∷ []

-- What `begin` stores under the challenge.
abbrev pub pending_of : Fingerprint → Bytes → Bytes → AppId → ℕ → ℕ → PendingChallenge
pending_of core_identity pairing_id target_id app_id configuration_generation now = record {
  core_identity = core_identity;
  pairing_id = pairing_id;
  target_id = target_id;
  app_id = app_id;
  configuration_generation = configuration_generation;
  created_at_epoch_seconds = now;
}

-- The bytes that `begin` hashes.
unfoldable pub challenge_preimage : Bytes → ℕ → PendingChallenge → Bytes
challenge_preimage seed counter p = flatten (
    challenge_label
    ∷ seed
    ∷ to_be 8 counter
    ∷ p.core_identity
    ∷ p.pairing_id
    ∷ p.target_id
    ∷ p.app_id
    ∷ [])

-- The checks of `begin` that come before the counter.
unfoldable pub check_begin : PendingChallenge → Result EnrollmentError (Unit {0})
check_begin p = do
  _ ← bounded_identity p.pairing_id
  _ ← bounded_identity p.target_id
  fail_if ((p.configuration_generation == 0) || (p.created_at_epoch_seconds == 0))
      invalid_generation

-- `begin`, from the pending challenge that its arguments make.
unfoldable pub begin :
    (sha256 : Bytes → Bytes)
    → FakeRelayEnrollment
    → PendingChallenge
    → FakeRelayEnrollment × Result EnrollmentError EnrollmentChallenge
begin sha256 f p = elim (check_begin p) [
  | err e ↦ (f, err e)
  | ok _ ↦ elim (checked_add f.next_counter 1) [
    | none ↦ (f, err invalid_challenge)
    | some next ↦
        elim (challenge_from_bytes (sha256 (challenge_preimage f.seed f.next_counter p))) [
          | err e ↦ (record f { next_counter = next }, err e)
          | ok challenge ↦ (
            record f { next_counter = next; pending = insert challenge p f.pending },
            ok challenge,
          )
        ]
  ]
]

-- The binding checks of `accept`.
unfoldable pub is_mismatch : PendingChallenge → EnrollmentSubmission → ℕ → Bool
is_mismatch p s now =
    (p.core_identity != s.authorization.core_identity)
    || (p.pairing_id != s.authorization.pairing_id)
    || (p.target_id != s.authorization.target_id)
    || (p.app_id != s.authorization.app_id)
    || (p.configuration_generation != s.authorization.configuration_generation)
    || ltb s.authorization.expires_at_epoch_seconds now
    || (s.authorization.csr_digest != s.csr.digest)
    || (s.authorization.code_proof == zero_identity)

-- `accept` once the authorization is consumed.
unfoldable pub accept_consumed :
    (sha256 : Bytes → Bytes)
    → FakeRelayEnrollment
    → EnrollmentSubmission
    → ℕ
    → FakeRelayEnrollment × EnrollmentOutcome
accept_consumed sha256 f s now =
    let (authority, certificate) = issue sha256 f.authority s.csr f.allowlist.generation now in
    let f' : FakeRelayEnrollment = record f { authority = authority } in
    elim certificate [
      | err e ↦ (f', rejected e)
      | ok certificate ↦
          let (allowlist, entry) = enroll f'.allowlist certificate in
          let f'' : FakeRelayEnrollment = record f' { allowlist = allowlist } in
          elim entry [ err e ↦ (f'', rejected e) | ok entry ↦ (f'', issued certificate entry) ]
    ]

-- `accept` once the pending challenge is taken out of `f`. `saturating_sub` is subtraction on ℕ.
unfoldable pub accept_pending :
    (sha256 : Bytes → Bytes)
    → FakeRelayEnrollment
    → EnrollmentSubmission
    → ℕ
    → PendingChallenge
    → FakeRelayEnrollment × EnrollmentOutcome
accept_pending sha256 f s now p =
    let id = s.authorization.authorization_id in
    if ltb enrollment_ttl_secs (now - p.created_at_epoch_seconds)
    then (f, rejected challenge_expired)
    else if is_mismatch p s now
    then (f, rejected authorization_mismatch)
    else if contains_key id f.consumed
    then (f, rejected authorization_used)
    else accept_consumed sha256 (record f { consumed = insert id tt f.consumed }) s now

unfoldable pub accept :
    (sha256 : Bytes → Bytes)
    → FakeRelayEnrollment
    → EnrollmentSubmission
    → ℕ
    → FakeRelayEnrollment × EnrollmentOutcome
accept sha256 f s now = elim (get s.authorization.challenge f.pending) [
  | none ↦ (f, rejected invalid_challenge)
  | some p ↦
      accept_pending sha256 (record f { pending = remove s.authorization.challenge f.pending }) s
        now p
]
