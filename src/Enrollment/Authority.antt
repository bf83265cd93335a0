-- ===== src/Enrollment/Authority.antt =====
-- src/enrollment.rs, lines 872 to 962: the metadata-only certificate authority. SHA-256 is code of
-- another package: it is the parameter `sha256`, a function of the bytes hashed.
use herdr_dog_relay.Prelude.{
  ℕ, ◌+◌, ◌<◌, ◌≡◌, ◌≢◌, arith, bytes_beq_iff, if◌then◌else◌, [], ◌∷◌, ◌||◌, none, some, Result, ok,
  err, ◌>>=◌, ◌>>◌, fail_if, ok_or, Bytes, to_be, flatten, ◌==◌, nat_ord, bytes_ord,
}
use herdr_dog_relay.Enrollment.{
  EnrollmentError, invalid_metadata, CsrMetadata, CertificateMetadata, zero_identity, checked_add,
  fingerprint_from_bytes, certificate_validity_secs, certificate_new,
}

pub record FakeCertificateAuthority : Type 0 where
  pub root_generation : ℕ
  pub intermediate_seed : Bytes
  pub next_serial : ℕ

-- `FakeCertificateAuthority::new`
unfoldable pub create : ℕ → Bytes → Result EnrollmentError FakeCertificateAuthority
create root_generation intermediate_seed = do
  fail_if ((root_generation == 0) || (intermediate_seed == zero_identity)) invalid_metadata
  ok (record {
    root_generation = root_generation;
    intermediate_seed = intermediate_seed;
    next_serial = 1;
  })

-- The text that is hashed before the fields of a certificate.
abbrev certificate_label : Bytes
certificate_label =
    b'h' ∷ b'e' ∷ b'r' ∷ b'd' ∷ b'r' ∷ b'-' ∷ b'd' ∷ b'o' ∷ b'g' ∷ b' ' ∷ b'r' ∷ b'e' ∷ b'l' ∷ b'a'
    ∷ b'y' ∷ b' ' ∷ b'f' ∷ b'a' ∷ b'k' ∷ b'e' ∷ b' ' ∷ b'c' ∷ b'e' ∷ b'r' ∷ b't' ∷ b'i' ∷ b'f'
    ∷ b'i' ∷ b'c' ∷ b'a' ∷ b't' ∷ b'e' ∷ b' ' ∷ b'v' ∷ b'1' ∷ []

-- The bytes that `issue` hashes.
unfoldable pub certificate_preimage : FakeCertificateAuthority → ℕ → CsrMetadata → Bytes
certificate_preimage a serial csr = flatten (
    certificate_label
    ∷ to_be 8 a.root_generation
    ∷ a.intermediate_seed
    ∷ to_be 8 serial
    ∷ csr.digest
    ∷ [])

-- `issue` once the serial is taken: what may still fail after the counter has moved on.
unfoldable pub certificate_of :
    (sha256 : Bytes → Bytes)
    → FakeCertificateAuthority
    → ℕ
    → CsrMetadata
    → ℕ
    → ℕ
    → Result EnrollmentError CertificateMetadata
certificate_of sha256 a serial csr allowlist_generation now = do
  fingerprint ← fingerprint_from_bytes (sha256 (certificate_preimage a serial csr))
  not_after ← ok_or (checked_add now certificate_validity_secs) invalid_metadata
  ok (record {
    app_id = csr.app_id;
    fingerprint = fingerprint;
    serial = serial;
    allowlist_generation = allowlist_generation;
    not_before_epoch_seconds = now;
    not_after_epoch_seconds = not_after;
  })

unfoldable pub issue :
    (sha256 : Bytes → Bytes)
    → FakeCertificateAuthority
    → CsrMetadata
    → ℕ
    → ℕ
    → FakeCertificateAuthority × Result EnrollmentError CertificateMetadata
issue sha256 a csr allowlist_generation now =
    if (allowlist_generation == 0) || (now == 0)
    then (a, err invalid_metadata)
    else elim (checked_add a.next_serial 1) [
      | none ↦ (a, err invalid_metadata)
      | some next ↦ (
        record a { next_serial = next },
        certificate_of sha256 a a.next_serial csr allowlist_generation now,
      )
    ]

-- For any hash function and an authority whose next serial is not 0, a certificate that `issue`
-- returns is one that `CertificateMetadata::new` accepts with the same fields: it is for the App
-- of the request, has the authority's next serial, a fingerprint other than zero, and the validity
-- from now for 90 days, and the next serial is greater.
pub issue-certificate_new :
    (sha256 : Bytes → Bytes) (a : FakeCertificateAuthority) (csr : CsrMetadata) (generation now : ℕ)
    (c : CertificateMetadata)
    → a.next_serial ≢ 0
    → (issue sha256 a csr generation now).1 ≡ ok c
    → (certificate_new c.app_id c.fingerprint c.serial c.allowlist_generation
          c.not_before_epoch_seconds c.not_after_epoch_seconds
        ≡ ok c)
      × (c.app_id ≡ csr.app_id)
      × (c.serial ≡ a.next_serial)
      × (c.fingerprint ≢ zero_identity)
      × (c.not_before_epoch_seconds ≡ now)
      × (c.not_after_epoch_seconds ≡ now + certificate_validity_secs)
      × (c.serial < (issue sha256 a csr generation now).0.next_serial)
unfolding issue certificate_of fingerprint_from_bytes checked_add certificate_new
issue-certificate_new sha256 a csr generation now c n h =
    ground (arith, bytes_beq_iff (sha256 (certificate_preimage a a.next_serial csr)) zero_identity)
