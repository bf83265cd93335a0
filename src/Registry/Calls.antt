-- ===== src/Registry/Calls.antt =====
-- src/session_registry.rs, lines 335 to 547: the operations on active and expired authorities.
use herdr_dog_relay.Prelude.{
  ℕ, ◌+◌, ◌-◌, List, [], ◌∷◌, Bool, true, false, not, ◌||◌, ◌&&◌, Option, none, some, Bytes, length,
  any, ltb, leb, ◌==◌, ◌!=◌, nat_ord, bytes_ord, if◌then◌else◌,
}
use herdr_dog_relay.Wire.Binding.{HdqsBinding}
use herdr_dog_relay.Wire.Response.{
  HdqsResponse, accept, reject, session_not_found, generation_mismatch, session_already_open,
}
use herdr_dog_relay.Map.{Map, get, remove, modify, contains_key, retain_values}
use herdr_dog_relay.Registry.{
  SessionRegistry, ActiveSession, PreparedSession, differs_from_binding, from_secs,
}

-- The binding does not name exactly this authority.
unfoldable pub is_other : ActiveSession → HdqsBinding → Bool
is_other a b = differs_from_binding a.prepared b || (a.prepared.token != b.token)

abbrev pub set_bound : ActiveSession → ActiveSession
set_bound a = record a { bound = true }

unfoldable pub accept_found :
    SessionRegistry → ℕ → HdqsBinding → ActiveSession → SessionRegistry × HdqsResponse
accept_found r now b a =
    if a.bound
    then (r, reject session_already_open r.connection_epoch)
    else if is_other a b || leb a.expires_at now
    then (r, reject generation_mismatch r.connection_epoch)
    else (
      record r { active = modify b.session_handle set_bound r.active },
      accept a.handle r.connection_epoch,
    )

unfoldable pub accept_active : SessionRegistry → ℕ → HdqsBinding → SessionRegistry × HdqsResponse
accept_active r now b = elim (get b.session_handle r.active) [
  | none ↦ (r, reject session_not_found r.connection_epoch)
  | some a ↦ accept_found r now b a
]

-- `close`
unfoldable pub close : SessionRegistry → ℕ → SessionRegistry × Bool
close r handle = (record r { active = remove handle r.active }, contains_key handle r.active)

unfoldable pub close_exact : SessionRegistry → HdqsBinding → SessionRegistry × Bool
close_exact r b = elim (get b.session_handle r.active) [
  | none ↦ (r, false)
  | some a ↦ if is_other a b then (r, false) else close r b.session_handle
]

unfoldable pub close_unbound_if_exact : SessionRegistry → HdqsBinding → SessionRegistry × Bool
close_unbound_if_exact r b = elim (get b.session_handle r.active) [
  | none ↦ (r, false)
  | some a ↦ if a.bound || is_other a b then (r, false) else close r b.session_handle
]

unfoldable pub active_bound_exact : SessionRegistry → ℕ → HdqsBinding → Bool
active_bound_exact r now b = elim (get b.session_handle r.active) [
  | none ↦ false
  | some a ↦ a.bound && not (is_other a b) && ltb now a.expires_at
]

unfoldable pub invalidate_connection : SessionRegistry → SessionRegistry
invalidate_connection r = record r { prepared = []; active = [] }

unfoldable pub reap_expired_prepared : SessionRegistry → ℕ → SessionRegistry × ℕ
reap_expired_prepared r now =
    let rest = retain_values (λ (p : PreparedSession). ltb now p.expires_at) r.prepared in
    (record r { prepared = rest }, length r.prepared - length rest)

-- The handles of the entries that have run out, in the order of the map.
unfoldable pub expired_handles : ℕ → Map ℕ ActiveSession → List ℕ
expired_handles now [] = []
expired_handles now ((handle, a) ∷ m) =
    let rest = expired_handles now m in if leb a.expires_at now then handle ∷ rest else rest

-- `for handle in &handles { self.active.remove(handle); }`
unfoldable pub remove_all : List ℕ → Map ℕ ActiveSession → Map ℕ ActiveSession
remove_all [] m = m
remove_all (h ∷ hs) m = remove_all hs (remove h m)

unfoldable pub reap_expired_handles : SessionRegistry → ℕ → SessionRegistry × List ℕ
reap_expired_handles r now =
    let r' = (reap_expired_prepared r now).0 in
    let handles = expired_handles now r'.active in
    (record r' { active = remove_all handles r'.active }, handles)

unfoldable pub active_is_valid_at : SessionRegistry → ℕ → Bytes → ℕ → Bool
active_is_valid_at r handle token now = elim (get handle r.active) [
  | none ↦ false
  | some a ↦ (a.prepared.token == token) && ltb now a.expires_at
]

abbrev pub extend : ℕ → ActiveSession → ActiveSession
extend now a = record a { expires_at = now + from_secs a.prepared.token_ttl_secs }

unfoldable pub renew : SessionRegistry → ℕ → Bytes → ℕ → SessionRegistry × Bool
renew r handle token now = elim (get handle r.active) [
  | none ↦ (r, false)
  | some a ↦
      if (a.prepared.token != token) || leb a.expires_at now
      then (r, false)
      else (record r { active = modify handle (extend now) r.active }, true)
]

-- The test that `renew_batch` makes of each entry before it changes anything.
unfoldable pub is_stale : SessionRegistry → ℕ → ℕ × Bytes → Bool
is_stale r now (handle, token) = elim (get handle r.active) [
  | none ↦ true
  | some a ↦ (a.prepared.token != token) || leb a.expires_at now
]

unfoldable pub renew_all : SessionRegistry → List (ℕ × Bytes) → ℕ → SessionRegistry
renew_all r [] now = r
renew_all r ((handle, token) ∷ entries) now = renew_all (renew r handle token now).0 entries now

unfoldable pub renew_batch : SessionRegistry → List (ℕ × Bytes) → ℕ → SessionRegistry × Bool
renew_batch r entries now =
    if any (is_stale r now) entries then (r, false) else (renew_all r entries now, true)

unfoldable pub active_count : SessionRegistry → ℕ
active_count r = length r.active

unfoldable pub active : SessionRegistry → ℕ → Option ActiveSession
active r handle = get handle r.active
