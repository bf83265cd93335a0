-- ===== src/Enrollment/Allowlist/Admission.antt =====
-- src/enrollment.rs, lines 713 to 763 and 812 to 847: whom the allowlist admits, against its
-- entries.
use herdr_dog_relay.Prelude.{
  ℕ, ◌<◌, ◌≡◌, ◌↔◌, inl, inr, refl, ◌∙◌, [], ◌∷◌, any, Bool, true, false, none, some, ok, err, ◌==◌,
  ◌||◌, ◌&&◌, ltb, nat_ord, bytes_ord, bytes_beq_iff, beq_refl, arith, if◌then◌else◌, Bool-cases,
}
use herdr_dog_relay.Map.{Map, get, insert, values}
use herdr_dog_relay.Map.Order.{IsSorted, get-IsAbove}
use herdr_dog_relay.Enrollment.{AppId, Fingerprint, CertificateMetadata, update_unauthorized}
use herdr_dog_relay.Enrollment.Allowlist.{
  AllowlistEntry, AllowlistRegistry, AllowlistState, is_duplicate, enroll_pending, is_active,
  is_update_admin, allows_qrm_at, authorize_update_at,
}
use herdr_dog_relay.Enrollment.Allowlist.Invariant.{IsValid, enroll_cases}

-- The test that `allows_qrm_at` makes of an entry.
admits : Fingerprint → ℕ → AllowlistEntry → Bool
admits f now e = (e.fingerprint == f) && is_active e.state && ltb now e.not_after_epoch_seconds

-- An active entry for this certificate that has not expired.
pub record IsAdmitted (r : AllowlistRegistry) (f : Fingerprint) (now : ℕ) : Type 0 where
  pub app : AppId
  pub entry : AllowlistEntry
  pub found : get app r.entries ≡ some entry
  pub fingerprint : entry.fingerprint ≡ f
  pub state : entry.state ≡ AllowlistState.active
  pub live : now < entry.not_after_epoch_seconds

found_of_any :
    (p : AllowlistEntry → Bool) (m : Map AppId AllowlistEntry)
    → IsSorted m
    → any p (values m) ≡ true
    → (k : AppId) × (e : AllowlistEntry) × (get k m ≡ some e) × (p e ≡ true)
unfolding get
found_of_any p [] s h = cc
found_of_any p ((j, w) ∷ m) s h = elim (Bool-cases (p w)) [
  | inl t ↦ (j, w, rw (beq_refl j) refl, t)
  | inr n ↦
      let (k, e, g, t) = found_of_any p m s.1 (ground arith) in
      let other : (k == j) ≡ false = ground (arith, g, get-IsAbove j m s.0, bytes_beq_iff k j) in
      (k, e, rw other g, t)
]

any_of_found :
    (p : AllowlistEntry → Bool) (m : Map AppId AllowlistEntry) (k : AppId) (e : AllowlistEntry)
    → get k m ≡ some e
    → p e ≡ true
    → any p (values m) ≡ true
unfolding get
any_of_found p [] k e g t = cc
any_of_found p ((j, w) ∷ m) k e g t = ground (arith, any_of_found p m k e)

admits_facts :
    (f : Fingerprint) (now : ℕ) (e : AllowlistEntry)
    → admits f now e ≡ true
    → (e.fingerprint ≡ f) × (e.state ≡ AllowlistState.active) × (now < e.not_after_epoch_seconds)
unfolding admits
admits_facts f now e h = ground (arith, bytes_beq_iff e.fingerprint f)

admits_of_facts :
    (f : Fingerprint) (now : ℕ) (e : AllowlistEntry)
    → e.fingerprint ≡ f
    → e.state ≡ AllowlistState.active
    → now < e.not_after_epoch_seconds
    → admits f now e ≡ true
unfolding admits
admits_of_facts f now e p q l = ground (arith, bytes_beq_iff e.fingerprint f)

-- A well-formed allowlist admits a certificate exactly if one of its entries for that certificate
-- is active and has not expired.
pub allows_qrm_at_iff :
    (r : AllowlistRegistry) (f : Fingerprint) (now : ℕ)
    → IsValid r
    → (allows_qrm_at r f now ≡ true) ↔ IsAdmitted r f now
unfolding allows_qrm_at admits
allows_qrm_at_iff r f now v = (
  λ h.
      let (k, e, g, t) = found_of_any (admits f now) r.entries v.sorted h in
      let (p, q, l) = admits_facts f now e t in
      record { app = k; entry = e; found = g; fingerprint = p; state = q; live = l },
  λ w.
      any_of_found (admits f now) r.entries w.app w.entry w.found
        (admits_of_facts f now w.entry w.fingerprint w.state w.live),
)

any_same :
    (p q : AllowlistEntry → Bool) (m : Map AppId AllowlistEntry)
    → ((e : AllowlistEntry) → p e ≡ q e)
    → any p (values m) ≡ any q (values m)
any_same p q [] h = refl
any_same p q ((k, e) ∷ m) h = ground (arith, h e, any_same p q m h)

-- The test that `authorize_update_at` makes of an entry.
admits_update : Fingerprint → ℕ → AllowlistEntry → Bool
admits_update f now e =
    (e.fingerprint == f)
    && is_active e.state
    && is_update_admin e.role
    && ltb now e.not_after_epoch_seconds

admits_update-admits :
    (f : Fingerprint) (now : ℕ) (e : AllowlistEntry) → admits_update f now e ≡ admits f now e
unfolding admits_update admits
admits_update-admits f now e = ground arith

-- An update is authorized for exactly the certificates that are admitted to a normal connection at
-- the same time.
pub authorize_update_at-allows_qrm_at :
    (r : AllowlistRegistry) (f : Fingerprint) (now : ℕ)
    → authorize_update_at r f now
      ≡ (if allows_qrm_at r f now then ok tt else err update_unauthorized)
unfolding authorize_update_at allows_qrm_at admits_update admits
authorize_update_at-allows_qrm_at r f now =
    rw (any_same (admits_update f now) (admits f now) r.entries (λ e. admits_update-admits f now e))
      refl

any-insert :
    (p : AllowlistEntry → Bool) (k : AppId) (e : AllowlistEntry) (m : Map AppId AllowlistEntry)
    → get k m ≡ none
    → any p (values (insert k e m)) ≡ (p e || any p (values m))
unfolding insert get
any-insert p k e [] h = refl
any-insert p k e ((j, w) ∷ m) h = ground (arith, any-insert p k e m)

-- A pending enrolment, whether it succeeds or fails, leaves unchanged which certificates are
-- admitted at any time.
pub allows_qrm_at-enroll_pending :
    (r : AllowlistRegistry) (c : CertificateMetadata) (f : Fingerprint) (now : ℕ)
    → allows_qrm_at (enroll_pending r c).0 f now ≡ allows_qrm_at r f now
unfolding allows_qrm_at is_duplicate
allows_qrm_at-enroll_pending r c f now = elim (enroll_cases r c AllowlistState.pending) [
  | inl e ↦ rw e refl
  | inr (d, l, e) ↦
      let fresh : get c.app_id r.entries ≡ none = ground arith in
      rw e (any-insert _ c.app_id _ r.entries fresh ∙ ground arith)
]
