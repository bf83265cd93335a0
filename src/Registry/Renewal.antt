-- ===== src/Registry/Renewal.antt =====
-- src/session_registry.rs, lines 492 to 537: the renewal of a batch.
use herdr_dog_relay.Prelude.{
  ℕ, Bytes, bytes_beq_iff, ◌<◌, ◌≡◌, refl, sym, ◌∙◌, inl, inr, List, [], ◌∷◌, Bool, true, false,
  ◌||◌, ◌!=◌, leb, some, none, All, any, ◌==◌, nat_ord, bytes_ord, if◌then◌else◌, arith,
  Option-cases, Bool-cases,
}
use mathlib.Core.Option
use herdr_dog_relay.Map.{get, modify}
use herdr_dog_relay.Map.Laws.{get-modify, get-All}
use herdr_dog_relay.Registry.{SessionRegistry, ActiveSession}
use herdr_dog_relay.Registry.Calls.{extend, is_stale, renew, renew_all, renew_batch}
use herdr_dog_relay.Registry.Invariant.{IsValid}
use herdr_dog_relay.Registry.Invariant.Preserved.{modify-IsValid}

-- The entry names an active authority by its token, and that authority is alive.
pub record IsRenewable (r : SessionRegistry) (now : ℕ) (e : ℕ × Bytes) : Type 0 where
  pub session : ActiveSession
  pub found : get e.0 r.active ≡ some session
  pub token : session.prepared.token ≡ e.1
  pub live : now < session.expires_at

-- The entries name this handle.
abbrev pub names : ℕ → List (ℕ × Bytes) → Bool
names h entries = any (λ (e : ℕ × Bytes). e.0 == h) entries

stale_none :
    (r : SessionRegistry) (now h : ℕ) (token : Bytes)
    → get h r.active ≡ none
    → is_stale r now (h, token) ≡ true
unfolding is_stale
stale_none r now h token e = rw (e, is_stale)

stale_some :
    (r : SessionRegistry) (now h : ℕ) (token : Bytes) (a : ActiveSession)
    → get h r.active ≡ some a
    → is_stale r now (h, token) ≡ ((a.prepared.token != token) || leb a.expires_at now)
unfolding is_stale
stale_some r now h token a e = rw (e, is_stale)

stale_facts :
    (a : ActiveSession) (now : ℕ) (token : Bytes)
    → ((a.prepared.token != token) || leb a.expires_at now) ≡ false
    → (a.prepared.token ≡ token) × (now < a.expires_at)
stale_facts a now token h = ground (arith, bytes_beq_iff a.prepared.token token)

IsRenewable-of_test :
    (r : SessionRegistry) (now h : ℕ) (token : Bytes)
    → is_stale r now (h, token) ≡ false
    → IsRenewable r now (h, token)
unfolding is_stale
IsRenewable-of_test r now h token f = elim (Option-cases (get h r.active)) [
  | inl e ↦ cc (stale_none r now h token e)
  | inr (a, e) ↦
      let t = stale_facts a now token (sym (stale_some r now h token a e) ∙ f) in
      record { session = a; found = e; token = t.0; live = t.1 }
]

-- A live entry is renewed: the new registry has it extended, and all else as it was.
renew_live :
    (r : SessionRegistry) (now h : ℕ) (token : Bytes)
    → IsRenewable r now (h, token)
    → renew r h token now ≡ (record r { active = modify h (extend now) r.active }, true)
unfolding renew
renew_live r now h token l =
    ground (arith, l.found, l.token, l.live, bytes_beq_iff l.session.prepared.token token)

-- Renewing an entry leaves the others live.
extended_keeps :
    (r : SessionRegistry) (now h : ℕ) (e : ℕ × Bytes)
    → IsValid r
    → IsRenewable r now e
    → IsRenewable (record r { active = modify h (extend now) r.active }) now e
extended_keeps r now h e v k = elim (Bool-cases (e.0 == h)) [
  | inl same ↦ record {
    session = extend now k.session;
    found = get-modify h e.0 (extend now) r.active ∙ ground (arith, k.found);
    token = k.token;
    live = omega (arith, (get-All _ e.0 k.session r.active v.active_minted k.found).minted.ttl);
  }
  | inr other ↦ record {
    session = k.session;
    found = get-modify h e.0 (extend now) r.active ∙ ground (arith, k.found);
    token = k.token;
    live = k.live;
  }
]

all_keep :
    (r : SessionRegistry) (now h : ℕ) (entries : List (ℕ × Bytes))
    → IsValid r
    → All (IsRenewable r now) entries
    → All (IsRenewable (record r { active = modify h (extend now) r.active }) now) entries
all_keep r now h [] v k = tt
all_keep r now h (e ∷ es) v k = (extended_keeps r now h e v k.0, all_keep r now h es v k.1)

get-renew_all :
    (r : SessionRegistry) (entries : List (ℕ × Bytes)) (now h : ℕ)
    → IsValid r
    → All (IsRenewable r now) entries
    → get h (renew_all r entries now).active
      ≡ (if names h entries then Option.map (extend now) (get h r.active) else get h r.active)
unfolding renew_all
get-renew_all r [] now h v k = refl
get-renew_all r ((g, token) ∷ es) now h v k =
    let r' : SessionRegistry = record r { active = modify g (extend now) r.active } in
    let v' : IsValid r' = modify-IsValid r g (extend now) (λ a. (refl, refl)) v in
    rw (renew_live r now g token k.0, renew_all)
      (get-renew_all r' es now h v' (all_keep r now g es v k.1)
        ∙ ground (arith, get-modify g h (extend now) r.active))

all_of_test :
    (r : SessionRegistry) (now : ℕ) (entries : List (ℕ × Bytes))
    → any (is_stale r now) entries ≡ false
    → All (IsRenewable r now) entries
all_of_test r now [] h = tt
all_of_test r now ((g, token) ∷ es) h =
    (IsRenewable-of_test r now g token (ground arith), all_of_test r now es (ground arith))

test_of_all :
    (r : SessionRegistry) (now : ℕ) (entries : List (ℕ × Bytes))
    → All (IsRenewable r now) entries
    → any (is_stale r now) entries ≡ false
unfolding is_stale
test_of_all r now [] k = refl
test_of_all r now ((g, token) ∷ es) k = ground (
  arith,
  test_of_all r now es k.1,
  k.0.found,
  k.0.token,
  k.0.live,
  bytes_beq_iff k.0.session.prepared.token token,
)

-- On a well-formed registry, if every entry of a batch names an active authority by its token
-- before it runs out, the answer is true, exactly the authorities whose handles are named get a
-- full term from now, and the others are unchanged.
pub renew_batch-renews :
    (r : SessionRegistry) (entries : List (ℕ × Bytes)) (now h : ℕ)
    → IsValid r
    → All (IsRenewable r now) entries
    → ((renew_batch r entries now).1 ≡ true)
      × (get h (renew_batch r entries now).0.active
          ≡ (if names h entries then Option.map (extend now) (get h r.active) else get h r.active))
unfolding renew_batch
renew_batch-renews r entries now h v k =
    let t = test_of_all r now entries k in
    (rw (t, renew_batch), rw (t, renew_batch) (get-renew_all r entries now h v k))

-- If not every entry of a batch names an active authority by its token before it runs out, the
-- answer is false and nothing changes.
pub renew_batch-atomic :
    (r : SessionRegistry) (entries : List (ℕ × Bytes)) (now : ℕ)
    → ¬ All (IsRenewable r now) entries
    → renew_batch r entries now ≡ (r, false)
unfolding renew_batch
renew_batch-atomic r entries now n = elim (Bool-cases (any (is_stale r now) entries)) [
  | inl s ↦ rw (s, renew_batch)
  | inr f ↦ absurd (n (all_of_test r now entries f))
]
