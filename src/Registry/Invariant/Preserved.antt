-- ===== src/Registry/Invariant/Preserved.antt =====
-- The invariant and the changes that the operations make.
use herdr_dog_relay.Prelude.{
  ℕ, ◌+◌, ◌<◌, ◌≡◌, ◌≢◌, refl, inl, inr, Bytes, ok, length, nat_ord, bytes_ord, arith, Result-cases,
}
use herdr_dog_relay.Wire.Name.{SessionName, new}
use herdr_dog_relay.Wire.Name.RoundTrip.{new-IsName}
use herdr_dog_relay.Map.{insert, remove, modify}
use herdr_dog_relay.Map.Laws.{
  insert-All, remove-All, modify-All, length-insert-le, length-remove-le, length-modify,
}
use herdr_dog_relay.Map.Order.{insert-IsSorted, remove-IsSorted, modify-IsSorted}
use herdr_dog_relay.Registry.{
  SessionRegistry, ActiveSession, create, prepare_at, check_prepare, mint,
}
use herdr_dog_relay.Registry.Invariant.{IsActive, IsValid}
use herdr_dog_relay.Registry.Invariant.Entries.{remove-IsDistinct, modify-IsDistinct}

pub create-IsValid :
    (relay epoch max : ℕ) (r : SessionRegistry) → create relay epoch max ≡ ok r → IsValid r
unfolding create
create-IsValid relay epoch max r h = ground arith

-- What the checks of `prepare_at` have found when they pass.
checked :
    (r : SessionRegistry) (session : Bytes) (g : ℕ) (token : Bytes) (name : SessionName)
    → check_prepare r session g token ≡ ok name
    → (length r.active + length r.prepared < r.max_sessions) × (g ≢ 0) × (new session ≡ ok name)
unfolding check_prepare
checked r session g token name h = ground arith

minted-IsValid :
    (r : SessionRegistry) (now : ℕ) (session fingerprint : Bytes) (g : ℕ) (token : Bytes)
    (name : SessionName)
    → IsValid r
    → check_prepare r session g token ≡ ok name
    → IsValid
        (record r { prepared = insert token (mint r now name fingerprint g token) r.prepared })
unfolding mint
minted-IsValid r now session fingerprint g token name v h =
    let p = mint r now name fingerprint g token in
    let c = checked r session g token name h in
    record {
      started = v.started;
      connected = v.connected;
      limit = v.limit;
      capacity = omega (arith, c, length-insert-le token p r.prepared);
      counter = v.counter;
      prepared_sorted = insert-IsSorted token p r.prepared v.prepared_sorted;
      active_sorted = v.active_sorted;
      prepared_minted =
          insert-All _ token p r.prepared
            (record {
              own_token = refl;
              own_relay = refl;
              own_epoch = refl;
              ttl = refl;
              configured = c.1;
              name = new-IsName session name c.2;
            })
            v.prepared_minted;
      active_minted = v.active_minted;
      distinct = v.distinct;
    }

pub prepare_at-IsValid :
    (r : SessionRegistry) (now : ℕ) (session fingerprint : Bytes) (g : ℕ) (token : Bytes)
    → IsValid r
    → IsValid (prepare_at r now session fingerprint g token).0
unfolding prepare_at
prepare_at-IsValid r now session fingerprint g token v =
    elim (Result-cases (check_prepare r session g token)) [
      | inl (name, e) ↦
          rw (e, prepare_at) (minted-IsValid r now session fingerprint g token name v e)
      | inr (x, e) ↦ rw (e, prepare_at) v
    ]

-- A token is taken out of the prepared authorities.
pub consume-IsValid :
    (r : SessionRegistry) (token : Bytes)
    → IsValid r
    → IsValid (record r { prepared = remove token r.prepared })
consume-IsValid r token v = record {
  started = v.started;
  connected = v.connected;
  limit = v.limit;
  capacity = omega (arith, v.capacity, length-remove-le token r.prepared);
  counter = v.counter;
  prepared_sorted = remove-IsSorted token r.prepared v.prepared_sorted;
  active_sorted = v.active_sorted;
  prepared_minted = remove-All _ token r.prepared v.prepared_minted;
  active_minted = v.active_minted;
  distinct = v.distinct;
}

-- An active authority is taken out.
pub release-IsValid :
    (r : SessionRegistry) (handle : ℕ)
    → IsValid r
    → IsValid (record r { active = remove handle r.active })
release-IsValid r handle v = record {
  started = v.started;
  connected = v.connected;
  limit = v.limit;
  capacity = omega (arith, v.capacity, length-remove-le handle r.active);
  counter = v.counter;
  prepared_sorted = v.prepared_sorted;
  active_sorted = remove-IsSorted handle r.active v.active_sorted;
  prepared_minted = v.prepared_minted;
  active_minted = remove-All _ handle r.active v.active_minted;
  distinct = remove-IsDistinct handle r.active v.distinct;
}

-- An active authority changes in what is no part of the prepared one.
pub modify-IsValid :
    (r : SessionRegistry) (handle : ℕ) (f : ActiveSession → ActiveSession)
    → ((a : ActiveSession) → ((f a).prepared ≡ a.prepared) × ((f a).handle ≡ a.handle))
    → IsValid r
    → IsValid (record r { active = modify handle f r.active })
modify-IsValid r handle f keep v = record {
  started = v.started;
  connected = v.connected;
  limit = v.limit;
  capacity = rw (length-modify handle f r.active) v.capacity;
  counter = v.counter;
  prepared_sorted = v.prepared_sorted;
  active_sorted = modify-IsSorted handle f r.active v.active_sorted;
  prepared_minted = v.prepared_minted;
  active_minted = modify-All _ handle f r.active kept v.active_minted;
  distinct = modify-IsDistinct handle f r.active (λ a. (keep a).0) v.distinct;
}
  where
    kept :
        (j : ℕ) (a : ActiveSession)
        → IsActive r.relay_generation r.connection_epoch j a
        → IsActive r.relay_generation r.connection_epoch j (f a)
    kept j a i = record {
      own_handle = rw ((keep a).1) i.own_handle;
      in_range = i.in_range;
      minted = rw ((keep a).0) i.minted;
    }
