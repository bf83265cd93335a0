-- ===== src/Enrollment/Exchange/Issued.antt =====
-- src/enrollment.rs, lines 1090 to 1139: a submission that gets a certificate, and the allowlist
-- after it.
use herdr_dog_relay.Prelude.{
  ℕ, Bytes, ◌+◌, ◌-◌, ◌≤◌, ◌≡◌, ◌≢◌, sym, ap, ◌∙◌, inl, inr, false, some, none, ok, ltb, nat_ord,
  bytes_ord, bytes_beq_iff, arith, Option-cases,
}
use herdr_dog_relay.Map.{get, remove, insert}
use herdr_dog_relay.Map.Laws.{get-insert_self}
use herdr_dog_relay.Enrollment.{
  CertificateMetadata, CsrMetadata, enrollment_ttl_secs, zero_identity, checked_add,
}
use herdr_dog_relay.Enrollment.Allowlist.{
  AllowlistEntry, AllowlistRegistry, AllowlistState, enroll_with_state, enroll, entry_of,
}
use herdr_dog_relay.Enrollment.Authority.{FakeCertificateAuthority, issue, certificate_of}
use herdr_dog_relay.Enrollment.Exchange.{
  FakeRelayEnrollment, EnrollmentSubmission, issued, PendingChallenge, accept, accept_pending,
  accept_consumed, is_mismatch,
}
use herdr_dog_relay.Enrollment.Exchange.Challenges.{accept_found, accept_missing}

-- The pending challenge and the submission agree in every field, in time.
pub record IsBound (p : PendingChallenge) (s : EnrollmentSubmission) (now : ℕ) : Type 0 where
  pub core : p.core_identity ≡ s.authorization.core_identity
  pub pairing : p.pairing_id ≡ s.authorization.pairing_id
  pub target : p.target_id ≡ s.authorization.target_id
  pub app : p.app_id ≡ s.authorization.app_id
  pub generation : p.configuration_generation ≡ s.authorization.configuration_generation
  pub digest : s.authorization.csr_digest ≡ s.csr.digest
  pub proof : s.authorization.code_proof ≢ zero_identity
  pub authorized : now ≤ s.authorization.expires_at_epoch_seconds
  pub fresh : now ≤ p.created_at_epoch_seconds + enrollment_ttl_secs

IsBound-of_tests :
    (p : PendingChallenge) (s : EnrollmentSubmission) (now : ℕ)
    → ltb enrollment_ttl_secs (now - p.created_at_epoch_seconds) ≡ false
    → is_mismatch p s now ≡ false
    → IsBound p s now
unfolding is_mismatch
IsBound-of_tests p s now t m = ground (
  arith,
  bytes_beq_iff p.core_identity s.authorization.core_identity,
  bytes_beq_iff p.pairing_id s.authorization.pairing_id,
  bytes_beq_iff p.target_id s.authorization.target_id,
  bytes_beq_iff p.app_id s.authorization.app_id,
  bytes_beq_iff s.authorization.csr_digest s.csr.digest,
  bytes_beq_iff s.authorization.code_proof zero_identity,
)

enroll_facts :
    (r : AllowlistRegistry) (c : CertificateMetadata) (e : AllowlistEntry)
    → (enroll r c).1 ≡ ok e
    → (e ≡ entry_of c AllowlistState.active (r.generation + 1))
      × (get c.app_id (enroll r c).0.entries ≡ some e)
unfolding enroll_with_state checked_add
enroll_facts r c e h = ground (
  arith,
  get-insert_self c.app_id (entry_of c AllowlistState.active (r.generation + 1)) r.entries,
)

module _ (sha256 : Bytes → Bytes) where
  issue_facts :
      (a : FakeCertificateAuthority) (csr : CsrMetadata) (generation now : ℕ)
      (c : CertificateMetadata)
      → (issue sha256 a csr generation now).1 ≡ ok c
      → (c.app_id ≡ csr.app_id) × (c.not_before_epoch_seconds ≡ now)
  unfolding issue certificate_of
  issue_facts a csr generation now c h = ground arith

  -- The checks that a submission has passed if a certificate was issued for it.
  pub passed_of_issued :
      (f : FakeRelayEnrollment) (s : EnrollmentSubmission) (now : ℕ) (p : PendingChallenge)
      (c : CertificateMetadata) (e : AllowlistEntry)
      → (accept_pending sha256 f s now p).1 ≡ issued c e
      → (ltb enrollment_ttl_secs (now - p.created_at_epoch_seconds) ≡ false)
        × (is_mismatch p s now ≡ false)
        × (get s.authorization.authorization_id f.consumed ≡ none)
        × (accept_pending sha256 f s now p
            ≡ accept_consumed sha256
                (record f { consumed = insert s.authorization.authorization_id tt f.consumed })
                s
                now)
  unfolding accept_pending
  passed_of_issued f s now p c e h = ground arith

  enrolled_of_issued :
      (f : FakeRelayEnrollment) (s : EnrollmentSubmission) (now : ℕ) (c : CertificateMetadata)
      (e : AllowlistEntry)
      → (accept_consumed sha256 f s now).1 ≡ issued c e
      → ((issue sha256 f.authority s.csr f.allowlist.generation now).1 ≡ ok c)
        × ((enroll f.allowlist c).1 ≡ ok e)
        × ((accept_consumed sha256 f s now).0.allowlist ≡ (enroll f.allowlist c).0)
        × ((accept_consumed sha256 f s now).0.consumed ≡ f.consumed)
  unfolding accept_consumed
  enrolled_of_issued f s now c e h = ground arith

  -- What a submission that got a certificate has shown, and what it has changed.
  pub record IsEnrolled (f : FakeRelayEnrollment) (s : EnrollmentSubmission) (now : ℕ)
      (c : CertificateMetadata) (e : AllowlistEntry) : Type 0 where
    pub pending : PendingChallenge
    pub found : get s.authorization.challenge f.pending ≡ some pending
    pub bound : IsBound pending s now
    pub unused : get s.authorization.authorization_id f.consumed ≡ none
    pub used : get s.authorization.authorization_id (accept sha256 f s now).0.consumed ≡ some tt
    pub app : c.app_id ≡ s.csr.app_id
    pub starts : c.not_before_epoch_seconds ≡ now
    pub entry : e ≡ entry_of c AllowlistState.active (f.allowlist.generation + 1)
    pub stored : get c.app_id (accept sha256 f s now).0.allowlist.entries ≡ some e

  -- For any hash function, a certificate is issued only for a pending challenge, to a submission
  -- that agrees with it in every field, at most 300 seconds after its creation and no later than
  -- the authorization's expiry, under an authorization that was not used before and is used after;
  -- the certificate is for the App of the request and starts now, and the App's entry is then
  -- active in the allowlist.
  pub accept-issued :
      (f : FakeRelayEnrollment) (s : EnrollmentSubmission) (now : ℕ) (c : CertificateMetadata)
      (e : AllowlistEntry)
      → (accept sha256 f s now).1 ≡ issued c e
      → IsEnrolled f s now c e
  accept-issued f s now c e h = elim (Option-cases (get s.authorization.challenge f.pending)) [
    | inl n ↦ cc (accept_missing sha256 f s now n)
    | inr (p, g) ↦ enrolled p g
  ]
    where
      id : Bytes
      id = s.authorization.authorization_id

      enrolled :
          (p : PendingChallenge)
          → get s.authorization.challenge f.pending ≡ some p
          → IsEnrolled f s now c e
      enrolled p g =
          let f1 : FakeRelayEnrollment = record f {
            pending = remove s.authorization.challenge f.pending;
          } in
          let f2 : FakeRelayEnrollment = record f1 { consumed = insert id tt f.consumed } in
          let a = accept_found sha256 f s now p g in
          let (t, m, u, b) = passed_of_issued f1 s now p c e (sym (ap (λ x. x.1) a) ∙ h) in
          let (i, n, l, k) = enrolled_of_issued f2 s now c e (sym (ap (λ x. x.1) (a ∙ b)) ∙ h) in
          let (app, starts) = issue_facts f.authority s.csr f.allowlist.generation now c i in
          let (entry, stored) = enroll_facts f.allowlist c e n in
          record {
            pending = p;
            found = g;
            bound = IsBound-of_tests p s now t m;
            unused = u;
            used = rw (a ∙ b, k) (get-insert_self id tt f.consumed);
            app = app;
            starts = starts;
            entry = entry;
            stored = rw (a ∙ b, l) stored;
          }
