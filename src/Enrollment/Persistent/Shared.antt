-- ===== src/Enrollment/Persistent/Shared.antt =====
-- src/allowlist.rs, lines 47 to 262: processes that share an allowlist file.
use herdr_dog_relay.Prelude.{
  ℕ, ◌≡◌, refl, List, [], ◌∷◌, ◌++◌, All, Bool, true, false, Option, Result, ok, err, ◌==◌, nat_ord,
  arith, beq_refl, if◌then◌else◌,
}
use herdr_dog_relay.RelayError.{RelayError}
use herdr_dog_relay.Material.{Access, Json}
use herdr_dog_relay.Enrollment.{EnrollmentError, AppId, Fingerprint}
use herdr_dog_relay.Enrollment.Allowlist.{AllowlistRegistry}
use herdr_dog_relay.Enrollment.Allowlist.Invariant.{
  Change, enrolls, enrolls_pending, activates, revokes, change,
}
use herdr_dog_relay.Enrollment.Allowlist.Revocation.{IsRevoked, change-IsRevoked}
use herdr_dog_relay.Enrollment.Persistent.{
  PersistentAllowlist, World, transact, enroll, enroll_pending, activate, revoke, reload, replace,
  open_store,
}
use herdr_dog_relay.Enrollment.Persistent.Outcomes.{
  Holds, failed, published, transact_cases, Loaded, stopped, loaded, began, reload_cases,
  open_cases, load-held, refused, replaced, replace_cases,
}

-- An operation of a process.
pub data Event : Type 0 where
  opens reloads : Access → Event
  changes : Access → Change → Event
  replaces : Access → AllowlistRegistry → Event

-- What an operation does to an allowlist in memory: one of its changes, or another in its place.
pub data Effect : Type 0 where
  makes : Change → Effect
  puts : AllowlistRegistry → Effect

unfoldable pub effect : AllowlistRegistry → Effect → AllowlistRegistry
effect r (makes c) = change r c
effect r (puts s) = s

unfoldable pub effect_all : AllowlistRegistry → List Effect → AllowlistRegistry
effect_all r [] = r
effect_all r (f ∷ fs) = effect_all (effect r f) fs

-- An operation that replaces the allowlist keeps an App revoked.
abbrev pub KeepsRevoked : AppId → Fingerprint → Event → Type 0
KeepsRevoked app_id fingerprint (replaces a r) = IsRevoked r app_id fingerprint
KeepsRevoked app_id fingerprint _ = Unit {0}

-- The file and the allowlists of the processes.
pub record System (C : Type 0) : Type 0 where
  pub file : Option C
  pub stores : ℕ → PersistentAllowlist

-- Whether an operation succeeded.
abbrev pub is_ok {ℓ κ} : {E : Type ℓ} {A : Type κ} → Result E A → Bool
is_ok (ok a) = true
is_ok (err e) = false

-- The world after an operation, and whether it succeeded.
abbrev outcome : {C E A : Type 0} → World C × Result E A → World C × Bool
outcome (w, r) = (w, is_ok r)

module _ (json : Json AllowlistRegistry) where
  unfoldable pub perform : Event → World json.Text → World json.Text × Bool
  perform (opens a) w = outcome (open_store json a w)
  perform (reloads a) w = outcome (reload json a w)
  perform (changes a (enrolls c)) w = outcome (enroll json a c w)
  perform (changes a (enrolls_pending c)) w = outcome (enroll_pending json a c w)
  perform (changes a (activates app_id fingerprint)) w =
      outcome (activate json a app_id fingerprint w)
  perform (changes a (revokes app_id)) w = outcome (revoke json a app_id w)
  perform (replaces a r) w = outcome (replace json a r w)

  -- What one process sees.
  abbrev pub view : ℕ → System json.Text → World json.Text
  view i s = record { file = s.file; store = s.stores i }

  -- One operation of one process.
  unfoldable pub act : ℕ → Event → System json.Text → System json.Text
  act i e s =
      let w = (perform e (view i s)).0 in
      record { file = w.file; stores = λ j. if j == i then w.store else s.stores j }

  unfoldable pub act_all : List (ℕ × Event) → System json.Text → System json.Text
  act_all [] s = s
  act_all ((i, e) ∷ es) s = act_all es (act i e s)

  -- The effects that an operation had.
  unfoldable pub effect_of : Event → Bool → List Effect
  effect_of (changes a c) true = makes c ∷ []
  effect_of (replaces a r) true = puts r ∷ []
  effect_of _ _ = []

  -- The effects that the operations of a history had, in their order.
  unfoldable pub effects_of : List (ℕ × Event) → System json.Text → List Effect
  effects_of [] s = []
  effects_of ((i, e) ∷ es) s = effect_of e (perform e (view i s)).1 ++ effects_of es (act i e s)

  transact-refines :
      {A : Type 0} (a : Access) (c : Change)
      (op : AllowlistRegistry → AllowlistRegistry × Result EnrollmentError A) (w : World json.Text)
      (r : AllowlistRegistry)
      → ((r : AllowlistRegistry) → change r c ≡ (op r).0)
      → Holds json w.file r
      → Holds json
          (outcome (transact json a op w)).0.file
          (effect_all r (effect_of (changes a c) (outcome (transact json a op w)).1))
        × ((outcome (transact json a op w)).1 ≡ true
            → (outcome (transact json a op w)).0.store.registry
              ≡ effect_all r (effect_of (changes a c) (outcome (transact json a op w)).1))
  unfolding effect_of effect_all effect
  transact-refines a c op w r same h = elim (transact_cases json a w op) [
    | failed e q ↦ rw q (h, λ b. ground arith)
    | published s x text l o t q ↦
        let k : s ≡ r = load-held json a w r s h l in
        rw (q, same r, ← k) (record { text = text; there = refl; printed = t }, λ _. refl)
  ]

  load-refines :
      (e : Event) (a : Access) (w : World json.Text) (r : AllowlistRegistry)
      (out : World json.Text × Result RelayError (Unit {0}))
      → ((b : Bool) → effect_of e b ≡ [])
      → Loaded json a w out
      → Holds json w.file r
      → Holds json (outcome out).0.file (effect_all r (effect_of e (outcome out).1))
        × ((outcome out).1 ≡ true
            → (outcome out).0.store.registry ≡ effect_all r (effect_of e (outcome out).1))
  unfolding effect_all
  load-refines e a w r out quiet (stopped f q) h = rw (q, quiet false) (h, λ b. ground arith)
  load-refines e a w r out quiet (loaded s l q) h =
      rw (q, quiet true) (h, λ _. load-held json a w r s h l)
  load-refines e a w r out quiet (began text n t q) h = ground (arith, h.there)

  replace-refines :
      (a : Access) (s : AllowlistRegistry) (w : World json.Text) (r : AllowlistRegistry)
      → Holds json w.file r
      → Holds json
          (outcome (replace json a s w)).0.file
          (effect_all r (effect_of (replaces a s) (outcome (replace json a s w)).1))
        × ((outcome (replace json a s w)).1 ≡ true
            → (outcome (replace json a s w)).0.store.registry
              ≡ effect_all r (effect_of (replaces a s) (outcome (replace json a s w)).1))
  unfolding effect_of effect_all effect
  replace-refines a s w r h = elim (replace_cases json a w s) [
    | refused e q ↦ rw q (h, λ b. ground arith)
    | replaced text t q ↦ rw q (record { text = text; there = refl; printed = t }, λ _. refl)
  ]

  pub perform-refines :
      (e : Event) (w : World json.Text) (r : AllowlistRegistry)
      → Holds json w.file r
      → Holds json (perform e w).0.file (effect_all r (effect_of e (perform e w).1))
        × ((perform e w).1 ≡ true
            → (perform e w).0.store.registry ≡ effect_all r (effect_of e (perform e w).1))
  unfolding perform change effect_of effect
  perform-refines (opens a) w r h =
      load-refines (opens a) a w r _ (λ b. refl) (open_cases json a w) h
  perform-refines (reloads a) w r h =
      load-refines (reloads a) a w r _ (λ b. refl) (reload_cases json a w) h
  perform-refines (changes a (enrolls c)) w r h = transact-refines a (enrolls c) _ w r (λ r. refl) h
  perform-refines (changes a (enrolls_pending c)) w r h =
      transact-refines a (enrolls_pending c) _ w r (λ r. refl) h
  perform-refines (changes a (activates app_id fingerprint)) w r h =
      transact-refines a (activates app_id fingerprint) _ w r (λ r. refl) h
  perform-refines (changes a (revokes app_id)) w r h =
      transact-refines a (revokes app_id) _ w r (λ r. refl) h
  perform-refines (replaces a s) w r h = replace-refines a s w r h

  effect_all-append :
      (r : AllowlistRegistry) (cs ds : List Effect)
      → effect_all r (cs ++ ds) ≡ effect_all (effect_all r cs) ds
  unfolding effect_all
  effect_all-append r [] ds = refl
  effect_all-append r (c ∷ cs) ds = effect_all-append (effect r c) cs ds

  -- For any JSON that reads back what it writes: however processes interleave `open`, `reload`,
  -- `replace`, `enroll`, `enroll_pending`, `activate` and `revoke` on one allowlist file, the file
  -- holds exactly the allowlist that comes of the successful changes and replacements, made in
  -- memory one after another in their order.
  pub act_all-refines :
      (es : List (ℕ × Event)) (s : System json.Text) (r : AllowlistRegistry)
      → Holds json s.file r
      → Holds json (act_all es s).file (effect_all r (effects_of es s))
  unfolding act_all act effects_of effect_all
  act_all-refines [] s r h = h
  act_all-refines ((i, e) ∷ es) s r h =
      rw (effect_all-append r (effect_of e (perform e (view i s)).1) (effects_of es (act i e s)))
        (act_all-refines es (act i e s) _ (perform-refines e (view i s) r h).0)

  effect_of-IsRevoked :
      (r : AllowlistRegistry) (app_id : AppId) (fingerprint : Fingerprint) (e : Event) (b : Bool)
      → KeepsRevoked app_id fingerprint e
      → IsRevoked r app_id fingerprint
      → IsRevoked (effect_all r (effect_of e b)) app_id fingerprint
  unfolding effect_of effect_all effect
  effect_of-IsRevoked r app_id fingerprint (opens a) b k v = v
  effect_of-IsRevoked r app_id fingerprint (reloads a) b k v = v
  effect_of-IsRevoked r app_id fingerprint (changes a c) false k v = v
  effect_of-IsRevoked r app_id fingerprint (replaces a s) false k v = v
  effect_of-IsRevoked r app_id fingerprint (changes a c) true k v =
      change-IsRevoked r c app_id fingerprint v
  effect_of-IsRevoked r app_id fingerprint (replaces a s) true k v = k

  effects_of-IsRevoked :
      (es : List (ℕ × Event)) (s : System json.Text) (r : AllowlistRegistry) (app_id : AppId)
      (fingerprint : Fingerprint)
      → All (λ (e : ℕ × Event). KeepsRevoked app_id fingerprint e.1) es
      → IsRevoked r app_id fingerprint
      → IsRevoked (effect_all r (effects_of es s)) app_id fingerprint
  unfolding effects_of effect_all
  effects_of-IsRevoked [] s r app_id fingerprint k v = v
  effects_of-IsRevoked ((i, e) ∷ es) s r app_id fingerprint (k, ks) v =
      rw (effect_all-append r (effect_of e (perform e (view i s)).1) (effects_of es (act i e s))) (
        effects_of-IsRevoked es (act i e s) _ app_id fingerprint ks
          (effect_of-IsRevoked r app_id fingerprint e (perform e (view i s)).1 k v))

  -- For any JSON that reads back what it writes: once the file holds an App as revoked, after any
  -- operations of any processes, where every allowlist that `replace` is called with has the App
  -- as revoked under the same fingerprint, a process whose `reload` succeeds holds the App as
  -- revoked under that fingerprint.
  pub reload-IsRevoked :
      (es : List (ℕ × Event)) (s : System json.Text) (r : AllowlistRegistry) (app_id : AppId)
      (fingerprint : Fingerprint) (i : ℕ) (a : Access)
      → Holds json s.file r
      → IsRevoked r app_id fingerprint
      → All (λ (e : ℕ × Event). KeepsRevoked app_id fingerprint e.1) es
      → (perform (reloads a) (view i (act_all es s))).1 ≡ true
      → IsRevoked ((act i (reloads a) (act_all es s)).stores i).registry app_id fingerprint
  unfolding act effect_of effect_all
  reload-IsRevoked es s r app_id fingerprint i a h v k done =
      let (held, fresh) =
        perform-refines (reloads a) (view i (act_all es s)) _ (act_all-refines es s r h) in
      rw (beq_refl i) (rw (fresh done) (effects_of-IsRevoked es s r app_id fingerprint k v))
