-- ===== src/Registry/Stream.antt =====
-- src/session_registry.rs, lines 332 to 358 and 390 to 404: the gate of a session stream,
-- `accept_active` and `active_bound_exact`.
use herdr_dog_relay.Prelude.{
  ℕ, bytes_beq_iff, ◌<◌, ◌≡◌, ◌≢◌, ◌↔◌, refl, sym, ◌∙◌, ◌⊎◌, inl, inr, not, ◌&&◌, Bool, true, false,
  some, none, ltb, ◌==◌, nat_ord, bytes_ord, if◌then◌else◌, arith, Option-cases,
}
use mathlib.Core.Option
use herdr_dog_relay.Wire.Binding.{HdqsBinding}
use herdr_dog_relay.Wire.Response.{accept, reject, session_already_open}
use herdr_dog_relay.Map.{get, modify}
use herdr_dog_relay.Map.Laws.{get-modify, get-All}
use herdr_dog_relay.Registry.{SessionRegistry, ActiveSession}
use herdr_dog_relay.Registry.Calls.{
  is_other, set_bound, accept_found, accept_active, active_bound_exact,
}
use herdr_dog_relay.Registry.Invariant.{IsValid}
use herdr_dog_relay.Registry.Opening.{differs_iff}

-- The binding names this authority in every field.
pub record IsExact (a : ActiveSession) (b : HdqsBinding) : Type 0 where
  pub session : a.prepared.session.as_str ≡ b.session.as_str
  pub fingerprint : a.prepared.fingerprint ≡ b.fingerprint
  pub configuration : a.prepared.configuration_generation ≡ b.configuration_generation
  pub relay : a.prepared.relay_generation ≡ b.relay_generation
  pub epoch : a.prepared.connection_epoch ≡ b.connection_epoch
  pub token : a.prepared.token ≡ b.token

pub IsExact-of_test : (a : ActiveSession) (b : HdqsBinding) → is_other a b ≡ false → IsExact a b
unfolding is_other
IsExact-of_test a b h = ground (
  arith,
  (differs_iff a.prepared b.session.as_str b.fingerprint b.configuration_generation
      b.relay_generation b.connection_epoch).0,
  bytes_beq_iff a.prepared.token b.token,
)

pub is_other-of_exact : (a : ActiveSession) (b : HdqsBinding) → IsExact a b → is_other a b ≡ false
unfolding is_other
is_other-of_exact a b h = ground (
  arith,
  (differs_iff a.prepared b.session.as_str b.fingerprint b.configuration_generation
        b.relay_generation b.connection_epoch).1
      (h.session, h.fingerprint, h.configuration, h.relay, h.epoch),
  bytes_beq_iff a.prepared.token b.token,
)

module _ (r : SessionRegistry) (now : ℕ) (b : HdqsBinding) where
  -- An authority that a stream may bind now: active under the handle, not yet bound, named in every
  -- field and alive.
  pub record IsBindable (a : ActiveSession) : Type 0 where
    pub found : get b.session_handle r.active ≡ some a
    pub unbound : a.bound ≡ false
    pub exact : IsExact a b
    pub live : now < a.expires_at

-- On a well-formed registry, a binding that names, in every field, an authority that is active
-- under its handle, not yet bound and not run out, is accepted; that entry becomes bound and
-- nothing else changes.
pub accept_active-accepts :
    (r : SessionRegistry) (now : ℕ) (b : HdqsBinding) (a : ActiveSession)
    → IsValid r
    → IsBindable r now b a
    → accept_active r now b ≡ (
      record r { active = modify b.session_handle set_bound r.active },
      accept b.session_handle r.connection_epoch,
    )
unfolding accept_active accept_found
accept_active-accepts r now b a v h = ground (arith, own, is_other-of_exact a b h.exact)
  where
    own : a.handle ≡ b.session_handle
    own = (get-All _ b.session_handle a r.active v.active_minted h.found).own_handle

accept_found_cases :
    (r : SessionRegistry) (now : ℕ) (b : HdqsBinding) (a : ActiveSession)
    → ((a.bound ≡ false) × (is_other a b ≡ false) × (now < a.expires_at))
      ⊎ (((accept_found r now b a).0 ≡ r)
          × ((accept_found r now b a).1 ≢ accept b.session_handle r.connection_epoch))
unfolding accept_found
accept_found_cases r now b a = ground arith

-- Either the binding names, in every field, an authority that is active under its handle, not yet
-- bound and not run out, or `accept_active` changes nothing and does not accept the handle.
pub accept_active-cases :
    (r : SessionRegistry) (now : ℕ) (b : HdqsBinding)
    → ((a : ActiveSession) × IsBindable r now b a)
      ⊎ (((accept_active r now b).0 ≡ r)
          × ((accept_active r now b).1 ≢ accept b.session_handle r.connection_epoch))
unfolding accept_active
accept_active-cases r now b = elim (Option-cases (get b.session_handle r.active)) [
  | inl e ↦ inr (rw (e, accept_active), rw (e, accept_active) (λ q. cc))
  | inr (a, e) ↦ elim (accept_found_cases r now b a) [
    | inl (u, x, l) ↦
        inl (a, record { found = e; unbound = u; exact = IsExact-of_test a b x; live = l })
    | inr n ↦ inr (rw (e, accept_active) n.0, rw (e, accept_active) n.1)
  ]
]

bound_rejected :
    (r : SessionRegistry) (now : ℕ) (b : HdqsBinding) (a : ActiveSession)
    → get b.session_handle r.active ≡ some a
    → a.bound ≡ true
    → accept_active r now b ≡ (r, reject session_already_open r.connection_epoch)
unfolding accept_active accept_found
bound_rejected r now b a e h = ground arith

-- On a well-formed registry, once a bindable authority was accepted, the next stream for the same
-- handle is rejected as already open, whatever it claims and whenever it comes, and changes
-- nothing.
pub accept_active-once :
    (r : SessionRegistry) (now later : ℕ) (b c : HdqsBinding) (a : ActiveSession)
    → IsValid r
    → IsBindable r now b a
    → c.session_handle ≡ b.session_handle
    → let r' = (accept_active r now b).0 in
      accept_active r' later c ≡ (r', reject session_already_open r'.connection_epoch)
accept_active-once r now later b c a v h e =
    rw (accept_active-accepts r now b a v h)
      (bound_rejected _ later c (set_bound a) (rw (get-modify, e) held) refl)
  where
    held :
        (if b.session_handle == b.session_handle
          then Option.map set_bound (get b.session_handle r.active)
          else get b.session_handle r.active)
        ≡ some (set_bound a)
    held = ground (arith, h.found)

gate : ActiveSession → ℕ → HdqsBinding → Bool
gate a now b = a.bound && not (is_other a b) && ltb now a.expires_at

gate_closed :
    (r : SessionRegistry) (now : ℕ) (b : HdqsBinding)
    → get b.session_handle r.active ≡ none
    → active_bound_exact r now b ≡ false
unfolding active_bound_exact
gate_closed r now b e = rw (e, active_bound_exact)

gate_open :
    (r : SessionRegistry) (now : ℕ) (b : HdqsBinding) (a : ActiveSession)
    → get b.session_handle r.active ≡ some a
    → active_bound_exact r now b ≡ gate a now b
unfolding active_bound_exact gate
gate_open r now b a e = rw (e, active_bound_exact)

gate_facts :
    (a : ActiveSession) (now : ℕ) (b : HdqsBinding)
    → gate a now b ≡ true
    → (a.bound ≡ true) × (is_other a b ≡ false) × (now < a.expires_at)
unfolding gate
gate_facts a now b h = ground arith

gate_of_facts :
    (a : ActiveSession) (now : ℕ) (b : HdqsBinding)
    → a.bound ≡ true
    → is_other a b ≡ false
    → now < a.expires_at
    → gate a now b ≡ true
unfolding gate
gate_of_facts a now b u x l = ground arith

-- `active_bound_exact` is true exactly if an authority is active under the binding's handle that
-- is bound, named in every field and not run out.
pub active_bound_exact_iff :
    (r : SessionRegistry) (now : ℕ) (b : HdqsBinding)
    → (active_bound_exact r now b ≡ true) ↔ (
        (a : ActiveSession) × (get b.session_handle r.active ≡ some a)
        × (a.bound ≡ true)
        × IsExact a b
        × (now < a.expires_at))
active_bound_exact_iff r now b = (
  λ h. elim (Option-cases (get b.session_handle r.active)) [
    | inl e ↦ cc (gate_closed r now b e)
    | inr (a, e) ↦
        let f = gate_facts a now b (sym (gate_open r now b a e) ∙ h) in
        (a, e, f.0, IsExact-of_test a b f.1, f.2)
  ],
  λ (a, e, u, x, l). gate_open r now b a e ∙ gate_of_facts a now b u (is_other-of_exact a b x) l,
)

gate_bound :
    (a : ActiveSession) (later : ℕ) (b : HdqsBinding)
    → is_other a b ≡ false
    → gate (set_bound a) later b ≡ ltb later a.expires_at
unfolding gate is_other
gate_bound a later b h = ground arith

-- On a well-formed registry, after a bindable authority was accepted, `active_bound_exact` holds
-- for the same binding exactly until the authority runs out.
pub active_bound_exact-accept_active :
    (r : SessionRegistry) (now later : ℕ) (b : HdqsBinding) (a : ActiveSession)
    → IsValid r
    → IsBindable r now b a
    → active_bound_exact (accept_active r now b).0 later b ≡ ltb later a.expires_at
active_bound_exact-accept_active r now later b a v h = rw (accept_active-accepts r now b a v h) (
    gate_open _ later b (set_bound a) (rw get-modify (ground (arith, h.found)))
    ∙ gate_bound a later b (is_other-of_exact a b h.exact))
