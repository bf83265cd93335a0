-- ===== src/Registry/Invariant/Called.antt =====
-- The invariant and the operations on active and expired authorities.
use herdr_dog_relay.Prelude.{
  ℕ, nat_ord, bytes_ord, refl, inl, inr, List, [], ◌∷◌, Bytes, arith, Option-cases, retain-All,
  length-retain-le,
}
use herdr_dog_relay.Wire.Binding.{HdqsBinding}
use herdr_dog_relay.Wire.Session.{SessionOpenRequest}
use herdr_dog_relay.Map.{get, remove}
use herdr_dog_relay.Map.Order.{retain-IsSorted}
use herdr_dog_relay.Registry.{SessionRegistry, open_request, binding_of}
use herdr_dog_relay.Registry.Calls.{
  set_bound, extend, accept_found, accept_active, close, close_exact, close_unbound_if_exact,
  invalidate_connection, reap_expired_prepared, reap_expired_handles, remove_all, renew, renew_all,
  renew_batch,
}
use herdr_dog_relay.Registry.Invariant.{IsValid}
use herdr_dog_relay.Registry.Invariant.Preserved.{consume-IsValid, release-IsValid, modify-IsValid}
use herdr_dog_relay.Registry.Invariant.Opened.{open_at-IsValid}

pub open_request-IsValid :
    (r : SessionRegistry) (now : ℕ) (q : SessionOpenRequest)
    → IsValid r
    → IsValid (open_request r now q).0
unfolding open_request
open_request-IsValid r now q v = elim (Option-cases (get q.token r.prepared)) [
  | inl e ↦ rw (e, open_request) v
  | inr (p, e) ↦
      rw (e, open_request)
        (ground (arith, consume-IsValid r q.token v, open_at-IsValid r now (binding_of p) v))
]

pub accept_active-IsValid :
    (r : SessionRegistry) (now : ℕ) (b : HdqsBinding)
    → IsValid r
    → IsValid (accept_active r now b).0
unfolding accept_active accept_found
accept_active-IsValid r now b v =
    ground (arith, modify-IsValid r b.session_handle set_bound (λ a. (refl, refl)) v)

pub close-IsValid : (r : SessionRegistry) (h : ℕ) → IsValid r → IsValid (close r h).0
unfolding close
close-IsValid r h v = release-IsValid r h v

pub close_exact-IsValid :
    (r : SessionRegistry) (b : HdqsBinding) → IsValid r → IsValid (close_exact r b).0
unfolding close_exact
close_exact-IsValid r b v = ground (arith, close-IsValid r b.session_handle v)

pub close_unbound_if_exact-IsValid :
    (r : SessionRegistry) (b : HdqsBinding) → IsValid r → IsValid (close_unbound_if_exact r b).0
unfolding close_unbound_if_exact
close_unbound_if_exact-IsValid r b v = ground (arith, close-IsValid r b.session_handle v)

pub invalidate_connection-IsValid :
    (r : SessionRegistry) → IsValid r → IsValid (invalidate_connection r)
unfolding invalidate_connection
invalidate_connection-IsValid r v = record {
  started = v.started;
  connected = v.connected;
  limit = v.limit;
  capacity = omega arith;
  counter = v.counter;
  prepared_sorted = tt;
  active_sorted = tt;
  prepared_minted = tt;
  active_minted = tt;
  distinct = tt;
}

pub reap_expired_prepared-IsValid :
    (r : SessionRegistry) (now : ℕ) → IsValid r → IsValid (reap_expired_prepared r now).0
unfolding reap_expired_prepared
reap_expired_prepared-IsValid r now v = record {
  started = v.started;
  connected = v.connected;
  limit = v.limit;
  capacity = omega (arith, v.capacity, length-retain-le _ r.prepared);
  counter = v.counter;
  prepared_sorted = retain-IsSorted _ r.prepared v.prepared_sorted;
  active_sorted = v.active_sorted;
  prepared_minted = retain-All _ _ r.prepared v.prepared_minted;
  active_minted = v.active_minted;
  distinct = v.distinct;
}

remove_all-IsValid :
    (hs : List ℕ) (r : SessionRegistry)
    → IsValid r
    → IsValid (record r { active = remove_all hs r.active })
unfolding remove_all
remove_all-IsValid [] r v = v
remove_all-IsValid (h ∷ hs) r v =
    remove_all-IsValid hs (record r { active = remove h r.active }) (release-IsValid r h v)

pub reap_expired_handles-IsValid :
    (r : SessionRegistry) (now : ℕ) → IsValid r → IsValid (reap_expired_handles r now).0
unfolding reap_expired_handles
reap_expired_handles-IsValid r now v =
    remove_all-IsValid _ _ (reap_expired_prepared-IsValid r now v)

pub renew-IsValid :
    (r : SessionRegistry) (h : ℕ) (token : Bytes) (now : ℕ)
    → IsValid r
    → IsValid (renew r h token now).0
unfolding renew
renew-IsValid r h token now v =
    ground (arith, modify-IsValid r h (extend now) (λ a. (refl, refl)) v)

renew_all-IsValid :
    (entries : List (ℕ × Bytes)) (r : SessionRegistry) (now : ℕ)
    → IsValid r
    → IsValid (renew_all r entries now)
unfolding renew_all
renew_all-IsValid [] r now v = v
renew_all-IsValid ((h, token) ∷ entries) r now v =
    renew_all-IsValid entries _ now (renew-IsValid r h token now v)

pub renew_batch-IsValid :
    (r : SessionRegistry) (entries : List (ℕ × Bytes)) (now : ℕ)
    → IsValid r
    → IsValid (renew_batch r entries now).0
unfolding renew_batch
renew_batch-IsValid r entries now v = ground (arith, renew_all-IsValid entries r now v)
