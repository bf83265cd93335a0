-- ===== src/Issuance/Ledger.antt =====
-- src/issuance.rs, lines 708 to 795: ledgers that a load accepts, as a predicate on their records.
use herdr_dog_relay.Prelude.{
  ℕ, ◌≤◌, ◌≡◌, ◌↔◌, inl, inr, refl, List, [], ◌∷◌, ◌++◌, Bool, true, false, none, some, ok, length,
  retain, any, ltb, bytes_ord, arith, bytes_beq_iff, Bool-cases, subst, length-retain-le,
  retain-true, retain-false,
}
use herdr_dog_relay.Issuance.{
  IssuanceResultKey, IssuanceResultRecord, same_key, is_some, is_malformed, validate_status,
  validate_each, prune_records,
}
use herdr_dog_relay.Issuance.Records.{find_key, put_key}

-- A record that a load accepts.
pub record IsAccepted (r : IssuanceResultRecord) : Type 0 where
  pub formed : is_malformed r ≡ false
  pub status : validate_status r ≡ ok tt

-- One that also binds a configuration generation, as all records do that this version of the program
-- makes.
pub record IsRecord (r : IssuanceResultRecord) : Type 0 where
  pub formed : is_malformed r ≡ false
  pub status : validate_status r ≡ ok tt
  pub current : is_some r.configuration_generation ≡ true

-- Records of a kind, none under a key that is seen or that another has.
unfoldable pub IsFresh :
    (IssuanceResultRecord → Type 0) → List IssuanceResultKey → List IssuanceResultRecord → Type 0
IsFresh P ks [] = Unit
IsFresh P ks (r ∷ rs) = (any (same_key r.key) ks ≡ false) × P r × IsFresh P (r.key ∷ ks) rs

pub record IsLedger (rs : List IssuanceResultRecord) : Type 0 where
  pub few : length rs ≤ 256
  pub fresh : IsFresh IsRecord [] rs

pub same_key_iff : (a b : IssuanceResultKey) → (same_key a b ≡ true) ↔ (a ≡ b)
same_key_iff a b = ground (
  arith,
  bytes_beq_iff a.authorization_id b.authorization_id,
  bytes_beq_iff a.csr_digest b.csr_digest,
)

pub validate_each-fresh :
    (ks : List IssuanceResultKey) (rs : List IssuanceResultRecord)
    → IsFresh IsRecord ks rs
    → validate_each ks rs ≡ ok tt
unfolding validate_each IsFresh
validate_each-fresh ks [] h = refl
validate_each-fresh ks (r ∷ rs) (n, w, h) =
    ground (arith, w.formed, w.status, validate_each-fresh (r.key ∷ ks) rs h)

pub IsFresh-validate_each :
    (ks : List IssuanceResultKey) (rs : List IssuanceResultRecord)
    → validate_each ks rs ≡ ok tt
    → IsFresh IsAccepted ks rs
unfolding validate_each IsFresh
IsFresh-validate_each ks [] h = tt
IsFresh-validate_each ks (r ∷ rs) h = (
  ground arith,
  record { formed = ground arith; status = ground arith },
  IsFresh-validate_each (r.key ∷ ks) rs (ground arith),
)

module _ (P : IssuanceResultRecord → Type 0) where
  -- Fewer keys are seen.
  IsFresh-weaken :
      (ks js : List IssuanceResultKey) (rs : List IssuanceResultRecord)
      → ((k : IssuanceResultKey) → any (same_key k) js ≡ false → any (same_key k) ks ≡ false)
      → IsFresh P js rs
      → IsFresh P ks rs
  unfolding IsFresh
  IsFresh-weaken ks js [] sub h = tt
  IsFresh-weaken ks js (r ∷ rs) sub (n, w, h) =
      (sub r.key n, w, IsFresh-weaken (r.key ∷ ks) (r.key ∷ js) rs (λ k m. ground (arith, sub k)) h)

  IsFresh-tail :
      (ks : List IssuanceResultKey) (r : IssuanceResultRecord) (rs : List IssuanceResultRecord)
      → IsFresh P (r.key ∷ ks) rs
      → IsFresh P ks rs
  IsFresh-tail ks r rs h = IsFresh-weaken ks (r.key ∷ ks) rs (λ k m. ground arith) h

  pub retain-IsFresh :
      (p : IssuanceResultRecord → Bool) (ks : List IssuanceResultKey)
      (rs : List IssuanceResultRecord)
      → IsFresh P ks rs
      → IsFresh P ks (retain p rs)
  unfolding IsFresh
  retain-IsFresh p ks [] h = tt
  retain-IsFresh p ks (r ∷ rs) (n, w, h) = elim (Bool-cases (p r)) [
    | inl e ↦ rw (retain-true p r rs e) (n, w, retain-IsFresh p (r.key ∷ ks) rs h)
    | inr e ↦ rw (retain-false p r rs e) (retain-IsFresh p ks rs (IsFresh-tail ks r rs h))
  ]

  pub find-IsFresh :
      (key : IssuanceResultKey) (ks : List IssuanceResultKey) (rs : List IssuanceResultRecord)
      (r : IssuanceResultRecord)
      → IsFresh P ks rs
      → find_key key rs ≡ some r
      → P r × (r.key ≡ key)
  unfolding IsFresh find_key
  find-IsFresh key ks [] r h f = cc
  find-IsFresh key ks (s ∷ rs) r (n, w, h) f = elim (Bool-cases (same_key s.key key)) [
    | inl e ↦ let q : s ≡ r = ground arith in rw (← q) (w, (same_key_iff s.key key).0 e)
    | inr e ↦ find-IsFresh key (s.key ∷ ks) rs r h (ground arith)
  ]

  put_key-IsFresh :
      (key : IssuanceResultKey) (s : IssuanceResultRecord) (ks : List IssuanceResultKey)
      (rs : List IssuanceResultRecord)
      → P s
      → s.key ≡ key
      → IsFresh P ks rs
      → IsFresh P ks (put_key key s rs)
  unfolding IsFresh put_key
  put_key-IsFresh key s ks [] v k h = tt
  put_key-IsFresh key s ks (r ∷ rs) v k (n, w, h) = elim (Bool-cases (same_key r.key key)) [
    | inl e ↦
        let q : r.key ≡ s.key = ground (arith, same_key_iff r.key key) in
        rw e
          (subst (λ k. any (same_key k) ks ≡ false) q n, v, subst (λ k. IsFresh P (k ∷ ks) rs) q h)
    | inr e ↦ rw e (n, w, put_key-IsFresh key s (r.key ∷ ks) rs v k h)
  ]

  append-IsFresh :
      (key : IssuanceResultKey) (s : IssuanceResultRecord) (ks : List IssuanceResultKey)
      (rs : List IssuanceResultRecord)
      → P s
      → s.key ≡ key
      → any (same_key key) ks ≡ false
      → find_key key rs ≡ none
      → IsFresh P ks rs
      → IsFresh P ks (rs ++ s ∷ [])
  unfolding IsFresh find_key
  append-IsFresh key s ks [] v k m f h = (rw k m, v, tt)
  append-IsFresh key s ks (r ∷ rs) v k m f (n, w, h) = (
    n,
    w,
    append-IsFresh key s (r.key ∷ ks) rs v k
        (ground (arith, same_key_iff r.key key, same_key_iff key r.key)) (ground arith) h,
  )

length-put_key :
    (key : IssuanceResultKey) (s : IssuanceResultRecord) (rs : List IssuanceResultRecord)
    → length (put_key key s rs) ≡ length rs
unfolding put_key
length-put_key key s [] = refl
length-put_key key s (r ∷ rs) = ground (arith, length-put_key key s rs)

pub prune_records-IsLedger :
    (rs : List IssuanceResultRecord) (now : ℕ) → IsLedger rs → IsLedger (prune_records rs now)
unfolding prune_records
prune_records-IsLedger rs now h = record {
  few = omega (arith, h.few, length-retain-le (λ r. ltb now r.retained_until_epoch_seconds) rs);
  fresh = retain-IsFresh IsRecord _ [] rs h.fresh;
}

pub put_key-IsLedger :
    (key : IssuanceResultKey) (s : IssuanceResultRecord) (rs : List IssuanceResultRecord)
    → IsRecord s
    → s.key ≡ key
    → IsLedger rs
    → IsLedger (put_key key s rs)
put_key-IsLedger key s rs v k h = record {
  few = rw (length-put_key key s rs) h.few;
  fresh = put_key-IsFresh IsRecord key s [] rs v k h.fresh;
}

pub found-IsRecord :
    (key : IssuanceResultKey) (rs : List IssuanceResultRecord) (r : IssuanceResultRecord)
    → IsLedger rs
    → find_key key rs ≡ some r
    → IsRecord r × (r.key ≡ key)
found-IsRecord key rs r h f = find-IsFresh IsRecord key [] rs r h.fresh f

-- The record of a key among loaded records that are retained.
pub found-IsAccepted :
    (now : ℕ) (rs : List IssuanceResultRecord) (key : IssuanceResultKey) (r : IssuanceResultRecord)
    → IsFresh IsAccepted [] rs
    → find_key key (prune_records rs now) ≡ some r
    → IsAccepted r × (r.key ≡ key)
unfolding prune_records
found-IsAccepted now rs key r h f =
    find-IsFresh IsAccepted key [] (prune_records rs now) r (retain-IsFresh IsAccepted _ [] rs h) f

pub append-IsLedger :
    (key : IssuanceResultKey) (s : IssuanceResultRecord) (rs : List IssuanceResultRecord)
    → IsRecord s
    → s.key ≡ key
    → find_key key rs ≡ none
    → length (rs ++ s ∷ []) ≤ 256
    → IsLedger rs
    → IsLedger (rs ++ s ∷ [])
append-IsLedger key s rs v k f few h = record {
  few = few;
  fresh = append-IsFresh IsRecord key s [] rs v k refl f h.fresh;
}
