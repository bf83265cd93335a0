-- ===== src/Registry/Opening/Admission.antt =====
-- src/session_registry.rs, lines 230 to 287: which attempts open a session, and what they get.
use herdr_dog_relay.Prelude.{
  ℕ, Bytes, ap, ◌∙◌, ◌+◌, ◌<◌, ◌≡◌, refl, sym, ◌⊎◌, inl, inr, false, Option, some, none, nat_ord,
  bytes_ord, arith, Option-cases,
}
use herdr_dog_relay.Wire.Binding.{HdqsBinding}
use herdr_dog_relay.Wire.Response.{accept}
use herdr_dog_relay.Map.{Map, get, remove, insert}
use herdr_dog_relay.Registry.{
  SessionRegistry, ActiveSession, PreparedSession, Opened, activate, handle_rounds, open_prepared,
  open_at, from_secs,
}
use herdr_dog_relay.Registry.Handles.{allocate_total, allocate_free, IsHandle}
use herdr_dog_relay.Registry.Invariant.{IsValid, NameFree}
use herdr_dog_relay.Registry.Invariant.Entries.{NameFree-any, any-NameFree}
use herdr_dog_relay.Registry.Opening.{
  allocated, Passes, open_prepared_cases, differs_iff, open_prepared_pass, open_at_found,
  open_at_missing,
}

-- The prepared authority that an attempt names is found, alive and named in every field, and its
-- session is not active.
pub record IsAdmissible (r : SessionRegistry) (now : ℕ) (b : HdqsBinding) (p : PreparedSession)
    : Type 0 where
  pub found : get b.token r.prepared ≡ some p
  pub live : now < p.expires_at
  pub free : NameFree b.session.as_str r.active
  pub session : p.session.as_str ≡ b.session.as_str
  pub fingerprint : p.fingerprint ≡ b.fingerprint
  pub configuration : p.configuration_generation ≡ b.configuration_generation
  pub relay : p.relay_generation ≡ b.relay_generation
  pub epoch : p.connection_epoch ≡ b.connection_epoch

-- The session that an admitted attempt gets.
pub record IsOpened (r : SessionRegistry) (now : ℕ) (p : PreparedSession) (o : Opened)
    (a : ActiveSession) : Type 0 where
  pub result : o.2 ≡ some a
  pub response : o.1 ≡ accept a.handle r.connection_epoch
  pub stored : o.0.active ≡ insert a.handle a r.active
  pub fresh : get a.handle r.active ≡ none
  pub in_range : IsHandle a.handle
  pub authority : a.prepared ≡ p
  pub unbound : a.bound ≡ false
  pub expiry : a.expires_at ≡ now + from_secs p.token_ttl_secs

activate-IsOpened :
    (r : SessionRegistry) (m : Map Bytes PreparedSession) (now : ℕ) (p : PreparedSession) (next : ℕ)
    (handle : Option ℕ) (h : ℕ)
    → handle ≡ some h
    → IsHandle h
    → get h r.active ≡ none
    → (a : ActiveSession) × IsOpened r now p
        (activate (record r { prepared = m; next_handle = next }) now p handle)
        a
unfolding activate
activate-IsOpened r m now p next none h e i f = cc
activate-IsOpened r m now p next (some g) h e i f =
    let e' : g ≡ h = ground arith in
    (
      record {
        handle = g;
        prepared = p;
        expires_at = now + from_secs p.token_ttl_secs;
        bound = false;
      },
      record {
        result = refl;
        response = refl;
        stored = refl;
        fresh = rw e' f;
        in_range = rw e' i;
        authority = refl;
        unbound = refl;
        expiry = refl;
      },
    )

activate_prepared :
    (r : SessionRegistry) (now : ℕ) (p : PreparedSession) (handle : Option ℕ) (a : ActiveSession)
    → (activate r now p handle).2 ≡ some a
    → a.prepared ≡ p
unfolding activate
activate_prepared r now p none a e = cc
activate_prepared r now p (some h) a e = ground arith

module _ (r : SessionRegistry) (now : ℕ) (b : HdqsBinding) (v : IsValid r) where
  -- The registry while the attempt is examined.
  abbrev taken : SessionRegistry
  taken = record r { prepared = remove b.token r.prepared }

  opened_of_passes :
      (p : PreparedSession) → (a : ActiveSession) × IsOpened r now p (allocated taken now p) a
  opened_of_passes p =
      let (h, e) =
        allocate_total r.next_handle r.active v.counter (omega (arith, v.capacity, v.limit)) in
      let (i, f) = allocate_free handle_rounds r.next_handle r.active h v.counter e in
      activate-IsOpened r (remove b.token r.prepared) now p _ _ h e i f

  -- On a well-formed registry, an attempt that names a prepared authority by its token, before
  -- that authority runs out, in every field, and where no session of that name is active, opens a
  -- session: the answer accepts, under a handle from 1 to 65535 that was free, and the new entry
  -- is unbound, has this authority, and runs out after the authority's own term from now.
  pub open_at-admits :
      (p : PreparedSession)
      → IsAdmissible r now b p
      → (a : ActiveSession) × IsOpened r now p (open_at r now b) a
  open_at-admits p h =
      rw (open_at_found r now b p h.found, open_prepared_pass taken now b p passes)
        (opened_of_passes p)
    where
      passes : Passes taken now b p
      passes = record {
        live = h.live;
        free = any-NameFree b.session.as_str r.active h.free;
        exact =
            (differs_iff p _ _ _ _ _).1
              (h.session, h.fingerprint, h.configuration, h.relay, h.epoch);
      }

  -- On a well-formed registry, an attempt that opens a session has named a prepared authority by
  -- its token, before that authority ran out, in every field, and no session of that name was
  -- active.
  pub open_at-IsAdmissible :
      (a : ActiveSession) → (open_at r now b).2 ≡ some a → IsAdmissible r now b a.prepared
  open_at-IsAdmissible a h = elim (Option-cases (get b.token r.prepared)) [
    | inl e ↦ cc (open_at_missing r now b e)
    | inr (p, e) ↦ admissible p e (open_prepared_cases taken now b p)
  ]
    where
      admissible :
          (p : PreparedSession)
          → get b.token r.prepared ≡ some p
          → (((open_prepared taken now b p).0 ≡ taken) × ((open_prepared taken now b p).2 ≡ none))
            ⊎ (Passes taken now b p × (open_prepared taken now b p ≡ allocated taken now p))
          → IsAdmissible r now b a.prepared
      admissible p e (inl (_, n)) = cc (open_at_found r now b p e)
      admissible p e (inr (t, o)) =
          let same : a.prepared ≡ p =
            activate_prepared _ now p _ a
              (sym (ap (λ (q : Opened). q.2) (open_at_found r now b p e ∙ o)) ∙ h) in
          let d = (differs_iff p _ _ _ _ _).0 t.exact in
          rw same (record {
            found = e;
            live = t.live;
            free = NameFree-any b.session.as_str r.active t.free;
            session = d.0;
            fingerprint = d.1;
            configuration = d.2;
            relay = d.3;
            epoch = d.4;
          })
