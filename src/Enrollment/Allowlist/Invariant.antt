-- ===== src/Enrollment/Allowlist/Invariant.antt =====
-- src/enrollment.rs, lines 694 to 810: well-formed allowlists, and histories of changes to one.
use herdr_dog_relay.Prelude.{
  ℕ, ◌+◌, ◌^◌, ◌≤◌, ◌<◌, ◌≡◌, ◌⊎◌, inl, inr, refl, List, [], ◌∷◌, All, true, false, some, ok, ◌==◌,
  nat_ord, bytes_ord, bytes_beq_iff, arith, Option-cases, Bool-cases,
}
use herdr_dog_relay.Map.{Map, get, insert, modify}
use herdr_dog_relay.Map.Laws.{insert-All, modify-All}
use herdr_dog_relay.Map.Order.{IsSorted, IsAbove, insert-IsSorted, modify-IsSorted}
use herdr_dog_relay.Enrollment.{AppId, Fingerprint, CertificateMetadata, checked_add}
use herdr_dog_relay.Enrollment.Allowlist.{
  AllowlistEntry, AllowlistRegistry, AllowlistState, create, is_duplicate, entry_of,
  enroll_with_state, enroll, enroll_pending, activate, set_active, revise, revise_all, revoke,
  is_pending, is_revoked,
}

-- An entry under its own App identity, whose generation the registry has reached.
pub record IsEntry (generation : ℕ) (k : AppId) (e : AllowlistEntry) : Type 0 where
  pub own : e.app_id ≡ k
  pub least : 1 ≤ e.generation
  pub most : e.generation ≤ generation

pub record IsValid (r : AllowlistRegistry) : Type 0 where
  pub started : 1 ≤ r.generation
  pub width : r.generation < 2 ^ 64
  pub sorted : IsSorted r.entries
  pub entries : All (λ (e : AppId × AllowlistEntry). IsEntry r.generation e.0 e.1) r.entries

create-IsValid : IsValid create
create-IsValid = record { started = omega arith; width = omega arith; sorted = tt; entries = tt }

-- What is well formed at one generation is so at a later one.
later :
    (g h : ℕ) (m : Map AppId AllowlistEntry)
    → g ≤ h
    → All (λ (e : AppId × AllowlistEntry). IsEntry g e.0 e.1) m
    → All (λ (e : AppId × AllowlistEntry). IsEntry h e.0 e.1) m
later g h [] l a = tt
later g h ((k, e) ∷ m) l a =
    (record { own = a.0.own; least = a.0.least; most = omega (arith, a.0.most) }, later g h m l a.1)

-- The outcome of the checks of an enrolment.
pub enroll_cases :
    (r : AllowlistRegistry) (c : CertificateMetadata) (state : AllowlistState)
    → ((enroll_with_state r c state).0 ≡ r)
      ⊎ ((is_duplicate r c ≡ false)
          × (r.generation + 1 < 2 ^ 64)
          × (enroll_with_state r c state ≡ (
            record {
              generation = r.generation + 1;
              entries = insert c.app_id (entry_of c state (r.generation + 1)) r.entries;
            },
            ok (entry_of c state (r.generation + 1)),
          )))
unfolding enroll_with_state checked_add
enroll_cases r c state = ground arith

enroll_with_state-IsValid :
    (r : AllowlistRegistry) (c : CertificateMetadata) (state : AllowlistState)
    → IsValid r
    → IsValid (enroll_with_state r c state).0
enroll_with_state-IsValid r c state v = elim (enroll_cases r c state) [
  | inl e ↦ rw e v
  | inr (d, l, e) ↦ rw e (record {
    started = omega arith;
    width = l;
    sorted = insert-IsSorted c.app_id _ r.entries v.sorted;
    entries =
        insert-All _ c.app_id _ r.entries
          (record { own = refl; least = omega arith; most = omega arith })
          (later r.generation (r.generation + 1) r.entries (omega arith) v.entries);
  })
]

pub activate_cases :
    (r : AllowlistRegistry) (a : AppId) (f : Fingerprint)
    → ((activate r a f).0 ≡ r)
      ⊎ ((e : AllowlistEntry) × (get a r.entries ≡ some e)
          × (is_pending e.state ≡ true)
          × (e.fingerprint ≡ f)
          × (activate r a f
              ≡ (record r { entries = modify a set_active r.entries }, ok (set_active e))))
unfolding activate
activate_cases r a f = elim (Option-cases (get a r.entries)) [
  | inl n ↦ inl (rw (n, activate))
  | inr (e, h) ↦ ground (arith, bytes_beq_iff e.fingerprint f)
]

activate-IsValid :
    (r : AllowlistRegistry) (a : AppId) (f : Fingerprint) → IsValid r → IsValid (activate r a f).0
activate-IsValid r a f v = elim (activate_cases r a f) [
  | inl e ↦ rw e v
  | inr (x, g, p, q, e) ↦ rw e (record {
    started = v.started;
    width = v.width;
    sorted = modify-IsSorted a set_active r.entries v.sorted;
    entries =
        modify-All _ a set_active r.entries
          (λ j w h. record { own = h.own; least = h.least; most = h.most }) v.entries;
  })
]

pub revoke_cases :
    (r : AllowlistRegistry) (a : AppId)
    → ((revoke r a).0 ≡ r)
      ⊎ ((e : AllowlistEntry) × (get a r.entries ≡ some e)
          × (is_revoked e.state ≡ false)
          × (r.generation + 1 < 2 ^ 64)
          × (revoke r a ≡ (
            record {
              generation = r.generation + 1;
              entries = revise_all a (r.generation + 1) r.entries;
            },
            ok (r.generation + 1),
          )))
unfolding revoke checked_add
revoke_cases r a = elim (Option-cases (get a r.entries)) [
  | inl n ↦ inl (rw (n, revoke))
  | inr (e, h) ↦ ground arith
]

revise_all-IsAbove :
    (k a : AppId) (g : ℕ) (m : Map AppId AllowlistEntry)
    → IsAbove k m
    → IsAbove k (revise_all a g m)
unfolding revise_all
revise_all-IsAbove k a g [] h = tt
revise_all-IsAbove k a g ((j, e) ∷ m) h = (h.0, revise_all-IsAbove k a g m h.1)

revise_all-IsSorted :
    (a : AppId) (g : ℕ) (m : Map AppId AllowlistEntry) → IsSorted m → IsSorted (revise_all a g m)
unfolding revise_all
revise_all-IsSorted a g [] s = tt
revise_all-IsSorted a g ((j, e) ∷ m) s =
    (revise_all-IsAbove j a g m s.0, revise_all-IsSorted a g m s.1)

revise-IsEntry :
    (a : AppId) (g h : ℕ) (k : AppId) (e : AllowlistEntry)
    → 1 ≤ h
    → IsEntry g k e
    → IsEntry h k (revise a h e)
revise-IsEntry a g h k e l w = elim (Bool-cases (e.app_id == a)) [
  | inl t ↦ rw t (record { own = w.own; least = l; most = omega arith })
  | inr f ↦ rw f (record { own = w.own; least = l; most = omega arith })
]

revise_all-IsEntry :
    (a : AppId) (g h : ℕ) (m : Map AppId AllowlistEntry)
    → 1 ≤ h
    → All (λ (e : AppId × AllowlistEntry). IsEntry g e.0 e.1) m
    → All (λ (e : AppId × AllowlistEntry). IsEntry h e.0 e.1) (revise_all a h m)
unfolding revise_all
revise_all-IsEntry a g h [] l w = tt
revise_all-IsEntry a g h ((k, e) ∷ m) l w =
    (revise-IsEntry a g h k e l w.0, revise_all-IsEntry a g h m l w.1)

revoke-IsValid : (r : AllowlistRegistry) (a : AppId) → IsValid r → IsValid (revoke r a).0
revoke-IsValid r a v = elim (revoke_cases r a) [
  | inl e ↦ rw e v
  | inr (x, g, p, l, e) ↦ rw e (record {
    started = omega arith;
    width = l;
    sorted = revise_all-IsSorted a _ r.entries v.sorted;
    entries = revise_all-IsEntry a r.generation _ r.entries (omega arith) v.entries;
  })
]

-- The operations that change an allowlist.
pub data Change : Type 0 where
  enrolls : CertificateMetadata → Change
  enrolls_pending : CertificateMetadata → Change
  activates : AppId → Fingerprint → Change
  revokes : AppId → Change

unfoldable pub change : AllowlistRegistry → Change → AllowlistRegistry
change r (enrolls c) = (enroll r c).0
change r (enrolls_pending c) = (enroll_pending r c).0
change r (activates a f) = (activate r a f).0
change r (revokes a) = (revoke r a).0

unfoldable pub change_all : AllowlistRegistry → List Change → AllowlistRegistry
change_all r [] = r
change_all r (c ∷ cs) = change_all (change r c) cs

pub change-IsValid : (r : AllowlistRegistry) (c : Change) → IsValid r → IsValid (change r c)
unfolding change
change-IsValid r (enrolls c) v = enroll_with_state-IsValid r c AllowlistState.active v
change-IsValid r (enrolls_pending c) v = enroll_with_state-IsValid r c AllowlistState.pending v
change-IsValid r (activates a f) v = activate-IsValid r a f v
change-IsValid r (revokes a) v = revoke-IsValid r a v

pub change_all-IsValid :
    (r : AllowlistRegistry) (cs : List Change) → IsValid r → IsValid (change_all r cs)
unfolding change_all
change_all-IsValid r [] v = v
change_all-IsValid r (c ∷ cs) v = change_all-IsValid (change r c) cs (change-IsValid r c v)

-- After any sequence of enrolments, activations and revocations of a new allowlist, its generation
-- is from 1 to 2^64 - 1, its entries are in key order, and each stands under its own App identity
-- with a generation from 1 to the allowlist's.
pub changes_of_create-IsValid : (cs : List Change) → IsValid (change_all create cs)
changes_of_create-IsValid cs = change_all-IsValid create cs create-IsValid
