-- ===== src/Registry/Opening/Tokens.antt =====
-- src/session_registry.rs, lines 230 to 330: what an attempt to open does to the prepared tokens.
use herdr_dog_relay.Prelude.{
  ℕ, Bytes, ◌≡◌, refl, ◌∙◌, inl, inr, Option, some, none, ◌==◌, nat_ord, bytes_ord, bytes_beq_iff,
  if◌then◌else◌, subst, arith, Option-cases,
}
use herdr_dog_relay.Wire.Binding.{HdqsBinding}
use herdr_dog_relay.Wire.Session.{SessionOpenRequest}
use herdr_dog_relay.Wire.Response.{reject, token_mismatch}
use herdr_dog_relay.Map.{get}
use herdr_dog_relay.Map.Laws.{get-remove, get-All}
use herdr_dog_relay.Registry.{
  SessionRegistry, PreparedSession, activate, open_prepared, open_at, open_request, binding_of,
}
use herdr_dog_relay.Registry.Invariant.{IsValid, IsMinted}
use herdr_dog_relay.Registry.Opening.{open_prepared_cases, open_at_found, open_at_missing}

activate_keeps :
    (r : SessionRegistry) (now : ℕ) (p : PreparedSession) (handle : Option ℕ)
    → (activate r now p handle).0.prepared ≡ r.prepared
unfolding activate
activate_keeps r now p none = refl
activate_keeps r now p (some h) = refl

open_prepared_keeps :
    (r : SessionRegistry) (now : ℕ) (b : HdqsBinding) (p : PreparedSession)
    → (open_prepared r now b p).0.prepared ≡ r.prepared
open_prepared_keeps r now b p = elim (open_prepared_cases r now b p) [
  | inl (e, _) ↦ rw e
  | inr (_, e) ↦ rw e (activate_keeps _ now p _)
]

-- After any attempt to open, the token of the attempt is prepared no more, and every other token is
-- as it was.
pub get-open_at :
    (r : SessionRegistry) (now : ℕ) (b : HdqsBinding) (t : Bytes)
    → get t (open_at r now b).0.prepared ≡ (if t == b.token then none else get t r.prepared)
get-open_at r now b t = elim (Option-cases (get b.token r.prepared)) [
  | inl e ↦ rw (open_at_missing r now b e) (ground (arith, bytes_beq_iff t b.token))
  | inr (p, e) ↦
      rw (open_at_found r now b p e, open_prepared_keeps _ now b p)
        (get-remove b.token t r.prepared)
]

-- After an attempt to open, whatever its outcome, a second attempt with the same token, at any
-- time and under any other claims, is rejected with a token mismatch and changes nothing.
pub open_at-replay :
    (r : SessionRegistry) (now later : ℕ) (b c : HdqsBinding)
    → c.token ≡ b.token
    → let r' = (open_at r now b).0 in
      open_at r' later c ≡ (r', reject token_mismatch r'.connection_epoch, none)
open_at-replay r now later b c e =
    open_at_missing _ later c
      (get-open_at r now b c.token ∙ ground (arith, bytes_beq_iff c.token b.token))

-- On a well-formed registry, after a request to open on the control stream, whatever its outcome,
-- its token is prepared no more, and what is prepared under every other token is unchanged.
pub get-open_request :
    (r : SessionRegistry) (now : ℕ) (q : SessionOpenRequest) (t : Bytes)
    → IsValid r
    → get t (open_request r now q).0.prepared ≡ (if t == q.token then none else get t r.prepared)
unfolding open_request binding_of
get-open_request r now q t v = elim (Option-cases (get q.token r.prepared)) [
  | inl e ↦ rw (e, open_request) (ground (arith, bytes_beq_iff t q.token))
  | inr (p, e) ↦
      let m : IsMinted r.relay_generation r.connection_epoch q.token p =
        get-All _ q.token p r.prepared v.prepared_minted e in
      rw (e, open_request) (ground (arith, get-remove q.token t r.prepared, own p m.own_token))
]
  where
    own :
        (p : PreparedSession)
        → p.token ≡ q.token
        → get t (open_at r now (binding_of p)).0.prepared
          ≡ (if t == q.token then none else get t r.prepared)
    own p e =
        subst
          (λ k.
            get t (open_at r now (binding_of p)).0.prepared
            ≡ (if t == k then none else get t r.prepared))
          e (get-open_at r now (binding_of p) t)
