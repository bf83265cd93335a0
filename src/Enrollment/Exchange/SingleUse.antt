-- ===== src/Enrollment/Exchange/SingleUse.antt =====
-- src/enrollment.rs, lines 1035 to 1139: authorizations of the Core over histories of the
-- exchange.
use herdr_dog_relay.Prelude.{
  ℕ, Bytes, ◌≡◌, inl, inr, List, [], ◌∷◌, some, nat_ord, bytes_ord, arith, Option-cases,
}
use herdr_dog_relay.Map.{get, insert}
use herdr_dog_relay.Map.Laws.{get-insert}
use herdr_dog_relay.Enrollment.{CertificateMetadata}
use herdr_dog_relay.Enrollment.Allowlist.{AllowlistEntry}
use herdr_dog_relay.Enrollment.Exchange.{
  FakeRelayEnrollment, EnrollmentSubmission, issued, PendingChallenge, accept, accept_pending,
  accept_consumed, begin,
}
use herdr_dog_relay.Enrollment.Exchange.Challenges.{accept_found, accept_missing}
use herdr_dog_relay.Enrollment.Exchange.Issued.{accept-issued}

-- The operations of the exchange that change its state.
pub data Event : Type 0 where
  begins : PendingChallenge → Event
  accepts : (submission : EnrollmentSubmission) (now : ℕ) → Event

module _ (sha256 : Bytes → Bytes) where
  pub after : FakeRelayEnrollment → List Event → FakeRelayEnrollment
  after f [] = f
  after f (begins p ∷ es) = after (begin sha256 f p).0 es
  after f (accepts s now ∷ es) = after (accept sha256 f s now).0 es

  begin_keeps :
      (f : FakeRelayEnrollment) (p : PendingChallenge) → (begin sha256 f p).0.consumed ≡ f.consumed
  unfolding begin
  begin_keeps f p = ground arith

  consumed_after :
      (f : FakeRelayEnrollment) (s : EnrollmentSubmission) (now : ℕ)
      → (accept_consumed sha256 f s now).0.consumed ≡ f.consumed
  unfolding accept_consumed
  consumed_after f s now = ground arith

  pending_used :
      (f : FakeRelayEnrollment) (s : EnrollmentSubmission) (now : ℕ) (p : PendingChallenge)
      (id : Bytes)
      → get id f.consumed ≡ some tt
      → get id (accept_pending sha256 f s now p).0.consumed ≡ some tt
  unfolding accept_pending
  pending_used f s now p id h = ground (
    arith,
    consumed_after (record f { consumed = insert s.authorization.authorization_id tt f.consumed }) s
        now,
    get-insert s.authorization.authorization_id id tt f.consumed,
  )

  accept_used :
      (f : FakeRelayEnrollment) (s : EnrollmentSubmission) (now : ℕ) (id : Bytes)
      → get id f.consumed ≡ some tt
      → get id (accept sha256 f s now).0.consumed ≡ some tt
  accept_used f s now id h = elim (Option-cases (get s.authorization.challenge f.pending)) [
    | inl e ↦ rw (accept_missing sha256 f s now e) h
    | inr (p, e) ↦ rw (accept_found sha256 f s now p e) (pending_used _ s now p id h)
  ]

  after_used :
      (f : FakeRelayEnrollment) (es : List Event) (id : Bytes)
      → get id f.consumed ≡ some tt
      → get id (after f es).consumed ≡ some tt
  unfolding after
  after_used f [] id h = h
  after_used f (begins p ∷ es) id h = after_used (begin sha256 f p).0 es id (rw (begin_keeps f p) h)
  after_used f (accepts s now ∷ es) id h =
      after_used (accept sha256 f s now).0 es id (accept_used f s now id h)

  -- For any hash function, once a certificate was issued under an authorization, no submission
  -- under the same authorization id gets another one, whatever challenges were begun and
  -- submissions made in between.
  pub accept-single_use :
      (f : FakeRelayEnrollment) (s t : EnrollmentSubmission) (now later : ℕ) (es : List Event)
      (c d : CertificateMetadata) (e g : AllowlistEntry)
      → (accept sha256 f s now).1 ≡ issued c e
      → t.authorization.authorization_id ≡ s.authorization.authorization_id
      → ¬ ((accept sha256 (after (accept sha256 f s now).0 es) t later).1 ≡ issued d g)
  accept-single_use f s t now later es c d e g h same k =
      let f' : FakeRelayEnrollment = (accept sha256 f s now).0 in
      let w = accept-issued sha256 f s now c e h in
      let u = accept-issued sha256 (after f' es) t later d g k in
      let kept = after_used f' es s.authorization.authorization_id w.used in
      cc (u.unused, kept, same)
