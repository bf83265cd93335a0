-- ===== src/Registry/History.antt =====
-- src/session_registry.rs: histories of a connection, any calls, at any instants, in any order.
use herdr_dog_relay.Prelude.{ℕ, ◌≡◌, List, [], ◌∷◌, Bytes, ok}
use herdr_dog_relay.Wire.Binding.{HdqsBinding}
use herdr_dog_relay.Wire.Session.{SessionOpenRequest}
use herdr_dog_relay.Registry.{SessionRegistry, create, prepare_at, open_at, open_request}
use herdr_dog_relay.Registry.Calls.{
  accept_active, close, close_exact, close_unbound_if_exact, invalidate_connection,
  reap_expired_prepared, reap_expired_handles, renew, renew_batch,
}
use herdr_dog_relay.Registry.Invariant.{IsValid}
use herdr_dog_relay.Registry.Invariant.Preserved.{create-IsValid, prepare_at-IsValid}
use herdr_dog_relay.Registry.Invariant.Opened.{open_at-IsValid}
use herdr_dog_relay.Registry.Invariant.Called.{
  open_request-IsValid, accept_active-IsValid, close-IsValid, close_exact-IsValid,
  close_unbound_if_exact-IsValid, invalidate_connection-IsValid, reap_expired_prepared-IsValid,
  reap_expired_handles-IsValid, renew-IsValid, renew_batch-IsValid,
}

-- The public operations that change the registry, each with the instant that it reads.
pub data Call : Type 0 where
  prepares : (now : ℕ) (session fingerprint : Bytes) (generation : ℕ) (token : Bytes) → Call
  opens : (now : ℕ) (binding : HdqsBinding) → Call
  requests : (now : ℕ) (request : SessionOpenRequest) → Call
  accepts : (now : ℕ) (binding : HdqsBinding) → Call
  closes : (handle : ℕ) → Call
  closes_exact : (binding : HdqsBinding) → Call
  closes_unbound : (binding : HdqsBinding) → Call
  invalidates : Call
  reaps_prepared : (now : ℕ) → Call
  reaps : (now : ℕ) → Call
  renews : (handle : ℕ) (token : Bytes) (now : ℕ) → Call
  renews_batch : (entries : List (ℕ × Bytes)) (now : ℕ) → Call

pub step : SessionRegistry → Call → SessionRegistry
step r (prepares now session fingerprint generation token) =
    (prepare_at r now session fingerprint generation token).0
step r (opens now b) = (open_at r now b).0
step r (requests now q) = (open_request r now q).0
step r (accepts now b) = (accept_active r now b).0
step r (closes h) = (close r h).0
step r (closes_exact b) = (close_exact r b).0
step r (closes_unbound b) = (close_unbound_if_exact r b).0
step r invalidates = invalidate_connection r
step r (reaps_prepared now) = (reap_expired_prepared r now).0
step r (reaps now) = (reap_expired_handles r now).0
step r (renews h token now) = (renew r h token now).0
step r (renews_batch entries now) = (renew_batch r entries now).0

pub run : SessionRegistry → List Call → SessionRegistry
run r [] = r
run r (c ∷ cs) = run (step r c) cs

step-IsValid : (r : SessionRegistry) (c : Call) → IsValid r → IsValid (step r c)
unfolding step
step-IsValid r (prepares now s f g t) v = prepare_at-IsValid r now s f g t v
step-IsValid r (opens now b) v = open_at-IsValid r now b v
step-IsValid r (requests now q) v = open_request-IsValid r now q v
step-IsValid r (accepts now b) v = accept_active-IsValid r now b v
step-IsValid r (closes h) v = close-IsValid r h v
step-IsValid r (closes_exact b) v = close_exact-IsValid r b v
step-IsValid r (closes_unbound b) v = close_unbound_if_exact-IsValid r b v
step-IsValid r invalidates v = invalidate_connection-IsValid r v
step-IsValid r (reaps_prepared now) v = reap_expired_prepared-IsValid r now v
step-IsValid r (reaps now) v = reap_expired_handles-IsValid r now v
step-IsValid r (renews h t now) v = renew-IsValid r h t now v
step-IsValid r (renews_batch es now) v = renew_batch-IsValid r es now v

run-IsValid_from : (r : SessionRegistry) (cs : List Call) → IsValid r → IsValid (run r cs)
unfolding run
run-IsValid_from r [] v = v
run-IsValid_from r (c ∷ cs) v = run-IsValid_from (step r c) cs (step-IsValid r c v)

-- After any sequence of calls (prepare, open, request, accept, the closes, the sweeps, renewals,
-- invalidation) on a registry that `new` has returned, the registry is well formed: prepared and
-- active authorities together are within the limit of at most 64, each stands under its own token
-- or handle with the generations of this registry, handles are in 1 to 65535, both maps are in key
-- order, and no session name is active twice.
pub run-IsValid :
    (relay epoch max : ℕ) (r : SessionRegistry) (cs : List Call)
    → create relay epoch max ≡ ok r
    → IsValid (run r cs)
run-IsValid relay epoch max r cs h = run-IsValid_from r cs (create-IsValid relay epoch max r h)
