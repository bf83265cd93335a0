-- ===== src/Enrollment.antt =====
-- src/enrollment.rs, lines 1 to 240, 424 to 512, 613 to 648 and 1276 to 1287: identities, request and
-- certificate metadata, and the errors of enrollment. An identity of fixed width is its bytes, an
-- App identity the UTF-8 bytes of its text.
pub mod Allowlist
pub mod Authority
pub mod Worker
pub mod Exchange
pub mod Persistent
pub mod Tests
use herdr_dog_relay.Prelude.{
  ℕ, ◌+◌, ◌*◌, ◌^◌, ◌<◌, ◌≡◌, List, [], ◌∷◌, Bool, true, false, ◌||◌, ◌&&◌, Option, none, some,
  Result, ok, err, ◌>>=◌, ◌>>◌, fail_if, Bytes, length, replicate, ltb, leb, ◌==◌, nat_ord,
  bytes_ord, if◌then◌else◌,
}

abbrev pub authority_bytes : ℕ
authority_bytes = 32

abbrev pub authorization_id_bytes : ℕ
authorization_id_bytes = 16

abbrev pub max_app_id_bytes : ℕ
max_app_id_bytes = 128

abbrev pub max_csr_bytes : ℕ
max_csr_bytes = 65_536

abbrev pub enrollment_ttl_secs : ℕ
enrollment_ttl_secs = 300

abbrev pub certificate_validity_secs : ℕ
certificate_validity_secs = 7_776_000

pub data EnrollmentError : Type 0 where
  invalid_app_id invalid_challenge challenge_expired invalid_csr csr_mismatch : EnrollmentError
  authorization_mismatch authorization_used invalid_generation invalid_metadata : EnrollmentError
  duplicate_enrollment allowlist_persistence allowlist_not_found already_revoked : EnrollmentError
  update_unauthorized update_busy update_failed : EnrollmentError

abbrev pub AppId : Type 0
AppId = Bytes

-- The first character of UTF-8 text is white space or a control character, where it has two or
-- three bytes.
is_wide_blank : Bytes → Bool
is_wide_blank (b ∷ c ∷ []) = (b == 194) && leb 128 c && leb c 160
is_wide_blank (b ∷ c ∷ d ∷ bs) =
    ((b == 194) && leb 128 c && leb c 160)
    || ((b == 225) && (c == 154) && (d == 128))
    || ((b == 226) && (c == 128) && (leb d 138 || (d == 168) || (d == 169) || (d == 175)))
    || ((b == 226) && (c == 129) && (d == 159))
    || ((b == 227) && (c == 128) && (d == 128))
is_wide_blank _ = false

-- `value.chars().any(|c| c.is_whitespace() || c.is_control())`
has_blank : Bytes → Bool
unfolding is_wide_blank
has_blank [] = false
has_blank (b ∷ bs) = leb b 32 || (b == 127) || is_wide_blank (b ∷ bs) || has_blank bs

is_unbounded : Bytes → Bool
unfolding has_blank
is_unbounded value = (length value == 0) || ltb max_app_id_bytes (length value) || has_blank value

-- `AppId::new`
unfoldable pub app_id_new : Bytes → Result EnrollmentError AppId
unfolding is_unbounded
app_id_new value = do fail_if (is_unbounded value) invalid_app_id; ok value

-- `bounded_identity`
unfoldable pub bounded_identity : Bytes → Result EnrollmentError Bytes
unfolding is_unbounded
bounded_identity value = do fail_if (is_unbounded value) invalid_metadata; ok value

abbrev pub Fingerprint : Type 0
Fingerprint = Bytes

abbrev pub CsrDigest : Type 0
CsrDigest = Bytes

abbrev pub zero_identity : Bytes
zero_identity = replicate authority_bytes 0

-- `Fingerprint::from_bytes`
unfoldable pub fingerprint_from_bytes : Bytes → Result EnrollmentError Fingerprint
fingerprint_from_bytes bytes = do fail_if (bytes == zero_identity) invalid_metadata; ok bytes

abbrev pub EnrollmentChallenge : Type 0
EnrollmentChallenge = Bytes

-- `EnrollmentChallenge::from_bytes`
unfoldable pub challenge_from_bytes : Bytes → Result EnrollmentError EnrollmentChallenge
challenge_from_bytes bytes = do fail_if (bytes == zero_identity) invalid_challenge; ok bytes

-- `CsrDigest::from_bytes`
unfoldable pub digest_from_bytes : Bytes → Result EnrollmentError CsrDigest
digest_from_bytes bytes = do fail_if (bytes == zero_identity) invalid_csr; ok bytes

-- `u64::checked_add`
unfoldable pub checked_add : ℕ → ℕ → Option ℕ
checked_add a b = if ltb (a + b) (2 ^ 64) then some (a + b) else none

pub record CsrMetadata : Type 0 where
  pub app_id : AppId
  pub digest : CsrDigest
  pub byte_len : ℕ

-- `CsrMetadata::from_digest`
unfoldable pub csr_from_digest : AppId → CsrDigest → ℕ → Result EnrollmentError CsrMetadata
csr_from_digest app_id digest byte_len = do
  fail_if ((byte_len == 0) || ltb max_csr_bytes byte_len) invalid_csr
  ok (record { app_id = app_id; digest = digest; byte_len = byte_len })

-- `CsrMetadata::from_bytes`, where `sha256` is the function of another package.
unfoldable pub csr_from_bytes :
    (sha256 : Bytes → Bytes) → AppId → Bytes → Result EnrollmentError CsrMetadata
csr_from_bytes sha256 app_id bytes = do
  fail_if ((length bytes == 0) || ltb max_csr_bytes (length bytes)) invalid_csr
  digest ← digest_from_bytes (sha256 bytes)
  csr_from_digest app_id digest (length bytes)

pub record CertificateMetadata : Type 0 where
  pub app_id : AppId
  pub fingerprint : Fingerprint
  pub serial : ℕ
  pub allowlist_generation : ℕ
  pub not_before_epoch_seconds : ℕ
  pub not_after_epoch_seconds : ℕ

-- `CertificateMetadata::new`
unfoldable pub certificate_new :
    AppId → Fingerprint → ℕ → ℕ → ℕ → ℕ → Result EnrollmentError CertificateMetadata
certificate_new app_id fingerprint serial allowlist_generation not_before not_after = do
  fail_if
      ((serial == 0)
        || (allowlist_generation == 0)
        || (not_before == 0)
        || leb not_after not_before)
      invalid_metadata
  ok (record {
    app_id = app_id;
    fingerprint = fingerprint;
    serial = serial;
    allowlist_generation = allowlist_generation;
    not_before_epoch_seconds = not_before;
    not_after_epoch_seconds = not_after;
  })
