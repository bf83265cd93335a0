-- ===== src/Registry/Closing.antt =====
-- src/session_registry.rs, lines 360 to 425: the exact closes.
use herdr_dog_relay.Prelude.{
  ℕ, ◌≡◌, ◌∙◌, ◌⊎◌, inl, inr, true, false, ◌||◌, some, none, nat_ord, bytes_ord, if◌then◌else◌,
  arith, Option-cases, Bool-cases,
}
use herdr_dog_relay.Wire.Binding.{HdqsBinding}
use herdr_dog_relay.Map.{get, remove}
use herdr_dog_relay.Registry.{SessionRegistry, ActiveSession}
use herdr_dog_relay.Registry.Calls.{is_other, close, close_exact, close_unbound_if_exact}
use herdr_dog_relay.Registry.Stream.{IsExact, IsExact-of_test, is_other-of_exact}

-- The registry without the authority under a handle.
abbrev pub without : SessionRegistry → ℕ → SessionRegistry
without r h = record r { active = remove h r.active }

close_found :
    (r : SessionRegistry) (h : ℕ) (a : ActiveSession)
    → get h r.active ≡ some a
    → close r h ≡ (without r h, true)
unfolding close
close_found r h a e = ground arith

close_exact-none :
    (r : SessionRegistry) (b : HdqsBinding)
    → get b.session_handle r.active ≡ none
    → close_exact r b ≡ (r, false)
unfolding close_exact
close_exact-none r b e = rw (e, close_exact)

close_exact-some :
    (r : SessionRegistry) (b : HdqsBinding) (a : ActiveSession)
    → get b.session_handle r.active ≡ some a
    → close_exact r b ≡ (if is_other a b then (r, false) else close r b.session_handle)
unfolding close_exact
close_exact-some r b a e = rw (e, close_exact)

-- Either an authority is active under the binding's handle that the binding names in every field,
-- and `close_exact` removes it and answers true; or no authority under that handle is so named,
-- and `close_exact` changes nothing and answers false.
pub close_exact-cases :
    (r : SessionRegistry) (b : HdqsBinding)
    → ((a : ActiveSession) × (get b.session_handle r.active ≡ some a)
        × IsExact a b
        × (close_exact r b ≡ (without r b.session_handle, true)))
      ⊎ (((a : ActiveSession) → get b.session_handle r.active ≡ some a → ¬ IsExact a b)
          × (close_exact r b ≡ (r, false)))
close_exact-cases r b = elim (Option-cases (get b.session_handle r.active)) [
  | inl e ↦ inr (λ a f. λ x. cc, close_exact-none r b e)
  | inr (a, e) ↦ elim (Bool-cases (is_other a b)) [
    | inl o ↦ inr (λ c f. λ x. cc (is_other-of_exact c b x), close_exact-some r b a e ∙ rw o)
    | inr o ↦
        inl (a, e, IsExact-of_test a b o, close_exact-some r b a e ∙ rw o (close_found r _ a e))
  ]
]

close_unbound_none :
    (r : SessionRegistry) (b : HdqsBinding)
    → get b.session_handle r.active ≡ none
    → close_unbound_if_exact r b ≡ (r, false)
unfolding close_unbound_if_exact
close_unbound_none r b e = rw (e, close_unbound_if_exact)

close_unbound_some :
    (r : SessionRegistry) (b : HdqsBinding) (a : ActiveSession)
    → get b.session_handle r.active ≡ some a
    → close_unbound_if_exact r b
      ≡ (if a.bound || is_other a b then (r, false) else close r b.session_handle)
unfolding close_unbound_if_exact
close_unbound_some r b a e = rw (e, close_unbound_if_exact)

-- Either an authority is active under the binding's handle that is not bound and that the binding
-- names in every field, and `close_unbound_if_exact` removes it and answers true; or any authority
-- under that handle is bound or not so named, and `close_unbound_if_exact` changes nothing and
-- answers false.
pub close_unbound_if_exact-cases :
    (r : SessionRegistry) (b : HdqsBinding)
    → ((a : ActiveSession) × (get b.session_handle r.active ≡ some a)
        × IsExact a b
        × (a.bound ≡ false)
        × (close_unbound_if_exact r b ≡ (without r b.session_handle, true)))
      ⊎ (((a : ActiveSession)
            → get b.session_handle r.active ≡ some a
            → (a.bound ≡ true) ⊎ (¬ IsExact a b))
          × (close_unbound_if_exact r b ≡ (r, false)))
close_unbound_if_exact-cases r b = elim (Option-cases (get b.session_handle r.active)) [
  | inl e ↦ inr (λ a f. cc, close_unbound_none r b e)
  | inr (a, e) ↦ elim (Bool-cases a.bound) [
    | inl u ↦ inr (λ c f. inl (cc), close_unbound_some r b a e ∙ rw u)
    | inr u ↦ elim (Bool-cases (is_other a b)) [
      | inl o ↦
          inr (
            λ c f. inr (λ x. cc (is_other-of_exact c b x)),
            close_unbound_some r b a e ∙ simp (u, o),
          )
      | inr o ↦ inl (
        a,
        e,
        IsExact-of_test a b o,
        u,
        close_unbound_some r b a e ∙ simp (u, o) (close_found r _ a e),
      )
    ]
  ]
]
