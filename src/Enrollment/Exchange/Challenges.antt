-- ===== src/Enrollment/Exchange/Challenges.antt =====
-- src/enrollment.rs, lines 1090 to 1139: what a submission does to the pending challenges.
use herdr_dog_relay.Prelude.{
  ℕ, Bytes, ◌≡◌, refl, ◌∙◌, inl, inr, some, none, ◌==◌, nat_ord, bytes_ord, bytes_beq_iff,
  if◌then◌else◌, arith, Option-cases,
}
use herdr_dog_relay.Map.{get, remove, insert}
use herdr_dog_relay.Map.Laws.{get-remove}
use herdr_dog_relay.Enrollment.{EnrollmentChallenge, invalid_challenge}
use herdr_dog_relay.Enrollment.Exchange.{
  FakeRelayEnrollment, EnrollmentSubmission, rejected, PendingChallenge, accept, accept_pending,
  accept_consumed,
}

module _ (sha256 : Bytes → Bytes) where
  consumed_keeps :
      (f : FakeRelayEnrollment) (s : EnrollmentSubmission) (now : ℕ)
      → (accept_consumed sha256 f s now).0.pending ≡ f.pending
  unfolding accept_consumed
  consumed_keeps f s now = ground arith

  pending_keeps :
      (f : FakeRelayEnrollment) (s : EnrollmentSubmission) (now : ℕ) (p : PendingChallenge)
      → (accept_pending sha256 f s now p).0.pending ≡ f.pending
  unfolding accept_pending
  pending_keeps f s now p = ground (
    arith,
    consumed_keeps (record f { consumed = insert s.authorization.authorization_id tt f.consumed }) s
        now,
  )

  pub accept_found :
      (f : FakeRelayEnrollment) (s : EnrollmentSubmission) (now : ℕ) (p : PendingChallenge)
      → get s.authorization.challenge f.pending ≡ some p
      → accept sha256 f s now
        ≡ accept_pending sha256
            (record f { pending = remove s.authorization.challenge f.pending })
            s
            now
            p
  unfolding accept
  accept_found f s now p e = rw (e, accept) refl

  pub accept_missing :
      (f : FakeRelayEnrollment) (s : EnrollmentSubmission) (now : ℕ)
      → get s.authorization.challenge f.pending ≡ none
      → accept sha256 f s now ≡ (f, rejected invalid_challenge)
  unfolding accept
  accept_missing f s now e = rw (e, accept) refl

  -- After any submission its challenge is pending no more, and every other one is as it was.
  pub get-accept :
      (f : FakeRelayEnrollment) (s : EnrollmentSubmission) (now : ℕ) (c : EnrollmentChallenge)
      → get c (accept sha256 f s now).0.pending
        ≡ (if c == s.authorization.challenge then none else get c f.pending)
  get-accept f s now c = elim (Option-cases (get s.authorization.challenge f.pending)) [
    | inl e ↦
        rw (accept_missing f s now e) (ground (arith, bytes_beq_iff c s.authorization.challenge))
    | inr (p, e) ↦
        rw (accept_found f s now p e, pending_keeps _ s now p)
          (get-remove s.authorization.challenge c f.pending)
  ]

  -- For any hash function, after a submission, whatever its outcome, a second submission for the
  -- same challenge is rejected as an invalid challenge and changes nothing.
  pub accept-replay :
      (f : FakeRelayEnrollment) (s t : EnrollmentSubmission) (now later : ℕ)
      → t.authorization.challenge ≡ s.authorization.challenge
      → let f' = (accept sha256 f s now).0 in
        accept sha256 f' t later ≡ (f', rejected invalid_challenge)
  accept-replay f s t now later e = accept_missing _ t later (
      get-accept f s now t.authorization.challenge
      ∙ ground (arith, bytes_beq_iff t.authorization.challenge s.authorization.challenge))
