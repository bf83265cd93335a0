-- ===== src/Enrollment/Allowlist/Revocation.antt =====
-- src/enrollment.rs, lines 782 to 810: revocation, and what later changes make of a revoked App.
use mathlib.Core.Option
use herdr_dog_relay.Prelude.{
  ℕ, ◌+◌, ◌^◌, ◌<◌, ◌≡◌, ◌≢◌, inl, inr, refl, ap, ◌∙◌, List, [], ◌∷◌, false, some, ok, ◌==◌,
  nat_ord, bytes_ord, bytes_beq_iff, arith, if◌then◌else◌, Option-cases, Bool-cases,
}
use herdr_dog_relay.Map.{Map, get}
use herdr_dog_relay.Map.Laws.{get-insert, get-modify, get-All}
use herdr_dog_relay.Enrollment.{AppId, Fingerprint, CertificateMetadata, checked_add}
use herdr_dog_relay.Enrollment.Allowlist.{
  AllowlistEntry, AllowlistRegistry, AllowlistState, is_duplicate, enroll_with_state, activate,
  set_active, revise, revise_all, revoke,
}
use herdr_dog_relay.Enrollment.Allowlist.Invariant.{
  IsValid, enroll_cases, activate_cases, revoke_cases, Change, change, change_all,
}

get-revise_all :
    (a k : AppId) (g : ℕ) (m : Map AppId AllowlistEntry)
    → get k (revise_all a g m) ≡ Option.map (revise a g) (get k m)
unfolding get revise_all
get-revise_all a k g [] = refl
get-revise_all a k g ((j, e) ∷ m) = ground (arith, get-revise_all a k g m)

-- What revoking `a` makes of the entry of `k`.
abbrev pub revised : AppId → AppId → ℕ → AllowlistEntry → AllowlistEntry
revised a k g e =
    if k == a
    then record e { generation = g; state = AllowlistState.revoked }
    else record e { generation = g }

revise_own :
    (a k : AppId) (g : ℕ) (e : AllowlistEntry) → e.app_id ≡ k → revise a g e ≡ revised a k g e
revise_own a k g e h = elim (Bool-cases (k == a)) [ inl t ↦ simp (h, t) | inr f ↦ simp (h, f) ]

get-revised :
    (r : AllowlistRegistry) (a k : AppId) (g : ℕ)
    → IsValid r
    → get k (revise_all a g r.entries) ≡ Option.map (revised a k g) (get k r.entries)
get-revised r a k g v = elim (Option-cases (get k r.entries)) [
  | inl n ↦ get-revise_all a k g r.entries ∙ rw n refl
  | inr (e, h) ↦
      get-revise_all a k g r.entries
      ∙ rw h (ap some (revise_own a k g e (get-All _ k e r.entries v.entries h).own))
]

-- In a well-formed allowlist, an App that is enrolled and not revoked is revoked where the
-- generation does not overflow: the answer and the allowlist's generation are the next one, every
-- entry gets that generation, and of the entries only this App's becomes revoked.
pub revoke-revokes :
    (r : AllowlistRegistry) (a k : AppId) (e : AllowlistEntry)
    → IsValid r
    → get a r.entries ≡ some e
    → e.state ≢ AllowlistState.revoked
    → r.generation + 1 < 2 ^ 64
    → ((revoke r a).1 ≡ ok (r.generation + 1))
      × ((revoke r a).0.generation ≡ r.generation + 1)
      × (get k (revoke r a).0.entries
          ≡ Option.map (revised a k (r.generation + 1)) (get k r.entries))
unfolding revoke checked_add
revoke-revokes r a k e v h n l =
    let done : revoke r a ≡ (
      record { generation = r.generation + 1; entries = revise_all a (r.generation + 1) r.entries },
      ok (r.generation + 1),
    ) =
      ground arith in
    rw done (refl, refl, get-revised r a k (r.generation + 1) v)

-- The App is in the allowlist as revoked, with this fingerprint.
pub record IsRevoked (r : AllowlistRegistry) (a : AppId) (f : Fingerprint) : Type 0 where
  pub entry : AllowlistEntry
  pub found : get a r.entries ≡ some entry
  pub fingerprint : entry.fingerprint ≡ f
  pub state : entry.state ≡ AllowlistState.revoked

enroll-IsRevoked :
    (r : AllowlistRegistry) (c : CertificateMetadata) (state : AllowlistState) (a : AppId)
    (f : Fingerprint)
    → IsRevoked r a f
    → IsRevoked (enroll_with_state r c state).0 a f
unfolding is_duplicate
enroll-IsRevoked r c state a f w = elim (enroll_cases r c state) [
  | inl e ↦ rw e w
  | inr (d, l, e) ↦
      let other : (a == c.app_id) ≡ false = ground (arith, w.found, bytes_beq_iff a c.app_id) in
      rw e (record {
        entry = w.entry;
        found = get-insert c.app_id a _ r.entries ∙ rw other w.found;
        fingerprint = w.fingerprint;
        state = w.state;
      })
]

activate-IsRevoked :
    (r : AllowlistRegistry) (b : AppId) (g : Fingerprint) (a : AppId) (f : Fingerprint)
    → IsRevoked r a f
    → IsRevoked (activate r b g).0 a f
activate-IsRevoked r b g a f w = elim (activate_cases r b g) [
  | inl e ↦ rw e w
  | inr (x, h, p, q, e) ↦
      let other : (a == b) ≡ false = ground (arith, w.found, w.state, bytes_beq_iff a b) in
      rw e (record {
        entry = w.entry;
        found = get-modify b a set_active r.entries ∙ rw other w.found;
        fingerprint = w.fingerprint;
        state = w.state;
      })
]

revoke-IsRevoked :
    (r : AllowlistRegistry) (b : AppId) (a : AppId) (f : Fingerprint)
    → IsRevoked r a f
    → IsRevoked (revoke r b).0 a f
revoke-IsRevoked r b a f w = elim (revoke_cases r b) [
  | inl e ↦ rw e w
  | inr (x, h, p, l, e) ↦ rw e (record {
    entry = revise b (r.generation + 1) w.entry;
    found = get-revise_all b a _ r.entries ∙ rw w.found refl;
    fingerprint = ground (arith, w.fingerprint);
    state = ground (arith, w.state);
  })
]

pub change-IsRevoked :
    (r : AllowlistRegistry) (c : Change) (a : AppId) (f : Fingerprint)
    → IsRevoked r a f
    → IsRevoked (change r c) a f
unfolding change
change-IsRevoked r (Change.enrolls c) a f w = enroll-IsRevoked r c AllowlistState.active a f w
change-IsRevoked r (Change.enrolls_pending c) a f w =
    enroll-IsRevoked r c AllowlistState.pending a f w
change-IsRevoked r (Change.activates b g) a f w = activate-IsRevoked r b g a f w
change-IsRevoked r (Change.revokes b) a f w = revoke-IsRevoked r b a f w

-- An App that is in the allowlist as revoked stays there as revoked, under the same fingerprint,
-- whatever is enrolled, activated or revoked afterwards.
pub change_all-IsRevoked :
    (r : AllowlistRegistry) (cs : List Change) (a : AppId) (f : Fingerprint)
    → IsRevoked r a f
    → IsRevoked (change_all r cs) a f
unfolding change_all
change_all-IsRevoked r [] a f w = w
change_all-IsRevoked r (c ∷ cs) a f w =
    change_all-IsRevoked (change r c) cs a f (change-IsRevoked r c a f w)
