-- ===== src/Registry/Invariant/Opened.antt =====
-- The invariant and the opening of a session.
use herdr_dog_relay.Prelude.{
  ℕ, ◌+◌, ◌<◌, ◌≡◌, refl, inl, inr, Bytes, Option, none, some, length, nat_ord, bytes_ord, arith,
  Option-cases, subst, sym,
}
use herdr_dog_relay.Wire.Binding.{HdqsBinding}
use herdr_dog_relay.Map.{get, remove}
use herdr_dog_relay.Map.Laws.{insert-All, get-All, length-insert-le, length-remove-lt}
use herdr_dog_relay.Map.Order.{insert-IsSorted}
use herdr_dog_relay.Registry.{
  SessionRegistry, PreparedSession, activate, open_prepared, open_at, allocate, handle_rounds,
}
use herdr_dog_relay.Registry.Opening.{open_prepared_cases, differs_iff}
use herdr_dog_relay.Registry.Handles.{IsHandle, allocate_free, allocate-IsHandle}
use herdr_dog_relay.Registry.Invariant.{NameFree, IsMinted, IsValid}
use herdr_dog_relay.Registry.Invariant.Preserved.{consume-IsValid}
use herdr_dog_relay.Registry.Invariant.Entries.{insert-IsDistinct, NameFree-any}

-- A new authority goes active under a free handle, where there is room and its name is free.
activate-IsValid :
    (r : SessionRegistry) (now : ℕ) (token : Bytes) (p : PreparedSession) (handle : Option ℕ)
    → IsValid r
    → length r.active + length r.prepared < r.max_sessions
    → IsMinted r.relay_generation r.connection_epoch token p
    → NameFree p.session.as_str r.active
    → ((h : ℕ) → handle ≡ some h → IsHandle h)
    → IsValid (activate r now p handle).0
unfolding activate
activate-IsValid r now token p none v room m free range = v
activate-IsValid r now token p (some h) v room m free range = record {
  started = v.started;
  connected = v.connected;
  limit = v.limit;
  capacity = omega (arith, length-insert-le h _ r.active);
  counter = v.counter;
  prepared_sorted = v.prepared_sorted;
  active_sorted = insert-IsSorted h _ r.active v.active_sorted;
  prepared_minted = v.prepared_minted;
  active_minted =
      insert-All _ h _ r.active
        (record {
          own_handle = refl;
          in_range = range h refl;
          minted =
              subst (λ t. IsMinted r.relay_generation r.connection_epoch t p) (sym m.own_token) m;
        })
        v.active_minted;
  distinct = insert-IsDistinct h _ r.active free v.distinct;
}

-- The pieces of a well-formed registry do not name `next_handle` but in its own field.
count-IsValid :
    (r : SessionRegistry) (next : ℕ)
    → IsValid r
    → IsHandle next
    → IsValid (record r { next_handle = next })
count-IsValid r next v h = record {
  started = v.started;
  connected = v.connected;
  limit = v.limit;
  capacity = v.capacity;
  counter = h;
  prepared_sorted = v.prepared_sorted;
  active_sorted = v.active_sorted;
  prepared_minted = v.prepared_minted;
  active_minted = v.active_minted;
  distinct = v.distinct;
}

module _ (r : SessionRegistry) (now : ℕ) (b : HdqsBinding) (p : PreparedSession)
    (v : IsValid r) where
  opened-IsValid :
      length r.active + length r.prepared < r.max_sessions
      → IsMinted r.relay_generation r.connection_epoch b.token p
      → NameFree p.session.as_str r.active
      → let a = allocate handle_rounds r.next_handle r.active in
        IsValid (activate (record r { next_handle = a.0 }) now p a.1).0
  opened-IsValid room m free =
      activate-IsValid _ now b.token p _
        (count-IsValid r _ v (allocate-IsHandle handle_rounds r.next_handle r.active v.counter))
        room m free (λ h e. (allocate_free handle_rounds r.next_handle r.active h v.counter e).0)

  open_prepared-IsValid :
      length r.active + length r.prepared < r.max_sessions
      → IsMinted r.relay_generation r.connection_epoch b.token p
      → IsValid (open_prepared r now b p).0
  open_prepared-IsValid room m = elim (open_prepared_cases r now b p) [
    | inl (e, _) ↦ subst IsValid (sym e) v
    | inr (t, e) ↦ rw e (
        opened-IsValid room m (
          subst (λ s. NameFree s r.active) (sym ((differs_iff p _ _ _ _ _).0 t.exact).0)
            (NameFree-any b.session.as_str r.active t.free)))
  ]

pub open_at-IsValid :
    (r : SessionRegistry) (now : ℕ) (b : HdqsBinding) → IsValid r → IsValid (open_at r now b).0
unfolding open_at
open_at-IsValid r now b v = elim (Option-cases (get b.token r.prepared)) [
  | inl e ↦ rw (e, open_at) v
  | inr (p, e) ↦
      rw (e, open_at)
        (open_prepared-IsValid (record r { prepared = remove b.token r.prepared }) now b p
          (consume-IsValid r b.token v)
          (omega (arith, v.capacity, length-remove-lt b.token p r.prepared e))
          (get-All _ b.token p r.prepared v.prepared_minted e))
]
