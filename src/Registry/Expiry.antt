-- ===== src/Registry/Expiry.antt =====
-- src/session_registry.rs, lines 438 to 470: the sweep of expired authorities.
use herdr_dog_relay.Prelude.{
  ℕ, Bytes, ◌<◌, ◌≡◌, refl, ◌∙◌, List, [], ◌∷◌, Bool, false, Option, some, none, All, any, ltb, leb,
  ◌==◌, nat_ord, bytes_ord, if◌then◌else◌, arith,
}
use herdr_dog_relay.Map.{Map, get, remove}
use herdr_dog_relay.Map.Laws.{get-remove}
use herdr_dog_relay.Map.Order.{keep_if, get-retain, IsSorted, IsAbove, get-IsAbove}
use herdr_dog_relay.Registry.{SessionRegistry, ActiveSession, PreparedSession}
use herdr_dog_relay.Registry.Calls.{
  expired_handles, remove_all, reap_expired_prepared, reap_expired_handles,
}
use herdr_dog_relay.Registry.Invariant.{IsValid}

abbrev pub contains : List ℕ → ℕ → Bool
contains hs h = any (λ x. h == x) hs

get-remove_all :
    (hs : List ℕ) (m : Map ℕ ActiveSession) (h : ℕ)
    → get h (remove_all hs m) ≡ (if contains hs h then none else get h m)
unfolding remove_all
get-remove_all [] m h = refl
get-remove_all (g ∷ hs) m h = get-remove_all hs (remove g m) h ∙ ground (arith, get-remove g h m)

-- Whether an authority that may be there has run out.
abbrev pub ran_out : ℕ → Option ActiveSession → Bool
ran_out now none = false
ran_out now (some a) = leb a.expires_at now

contains-expired_handles :
    (now : ℕ) (m : Map ℕ ActiveSession) (h : ℕ)
    → IsSorted m
    → contains (expired_handles now m) h ≡ ran_out now (get h m)
unfolding expired_handles get
contains-expired_handles now [] h s = refl
contains-expired_handles now ((g, a) ∷ m) h s =
    ground (arith, contains-expired_handles now m h s.1, get-IsAbove g m s.0)

-- On a well-formed registry, the sweep reports a handle exactly if an active authority under it
-- has run out.
pub reap_reports :
    (r : SessionRegistry) (now h : ℕ)
    → IsValid r
    → contains (reap_expired_handles r now).1 h ≡ ran_out now (get h r.active)
unfolding reap_expired_handles reap_expired_prepared
reap_reports r now h v = contains-expired_handles now r.active h v.active_sorted

-- On a well-formed registry, after the sweep an authority, active or prepared, is there exactly if
-- it was there and has not run out, and it is unchanged.
pub reap_keeps :
    (r : SessionRegistry) (now h : ℕ) (t : Bytes)
    → IsValid r
    → (get h (reap_expired_handles r now).0.active
        ≡ keep_if (λ (a : ActiveSession). ltb now a.expires_at) (get h r.active))
      × (get t (reap_expired_handles r now).0.prepared
          ≡ keep_if (λ (p : PreparedSession). ltb now p.expires_at) (get t r.prepared))
unfolding reap_expired_handles reap_expired_prepared
reap_keeps r now h t v = (
  get-remove_all (expired_handles now r.active) r.active h
      ∙ ground (arith, contains-expired_handles now r.active h v.active_sorted),
  get-retain t (λ (p : PreparedSession). ltb now p.expires_at) r.prepared v.prepared_sorted,
)

-- Handles in strictly ascending order.
abbrev pub IsAscending : List ℕ → Type 0
IsAscending [] = Unit {0}
IsAscending (h ∷ hs) = All (λ g. h < g) hs × IsAscending hs

expired_above :
    (now h : ℕ) (m : Map ℕ ActiveSession) → IsAbove h m → All (λ g. h < g) (expired_handles now m)
unfolding expired_handles
expired_above now h [] a = tt
expired_above now h ((g, x) ∷ m) a = ground (arith, expired_above now h m a.1)

expired-IsAscending :
    (now : ℕ) (m : Map ℕ ActiveSession) → IsSorted m → IsAscending (expired_handles now m)
unfolding expired_handles
expired-IsAscending now [] s = tt
expired-IsAscending now ((g, x) ∷ m) s =
    ground (arith, expired-IsAscending now m s.1, expired_above now g m s.0)

-- The sweep reports each handle once, in ascending order.
pub reap-IsAscending :
    (r : SessionRegistry) (now : ℕ) → IsValid r → IsAscending (reap_expired_handles r now).1
unfolding reap_expired_handles reap_expired_prepared
reap-IsAscending r now v = expired-IsAscending now r.active v.active_sorted
