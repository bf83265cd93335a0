-- ===== src/Registry/Invariant.antt =====
-- src/session_registry.rs: the well-formed registries.
pub mod Entries
pub mod Preserved
pub mod Opened
pub mod Called
use herdr_dog_relay.Prelude.{
  ℕ, ◌+◌, ◌≤◌, ◌≡◌, ◌≢◌, List, [], ◌∷◌, Bool, false, All, Bytes, length, ◌==◌, nat_ord, bytes_ord,
}
use herdr_dog_relay.Wire.Name.{IsName}
use herdr_dog_relay.Map.{Map}
use herdr_dog_relay.Map.Order.{IsSorted}
use herdr_dog_relay.Registry.{
  SessionRegistry, PreparedSession, ActiveSession, session_token_ttl_secs, max_session_streams,
}
use herdr_dog_relay.Registry.Handles.{IsHandle}

-- An authority that a registry of these generations has minted under this token.
pub record IsMinted (relay epoch : ℕ) (token : Bytes) (p : PreparedSession) : Type 0 where
  pub own_token : p.token ≡ token
  pub own_relay : p.relay_generation ≡ relay
  pub own_epoch : p.connection_epoch ≡ epoch
  pub ttl : p.token_ttl_secs ≡ session_token_ttl_secs
  pub configured : p.configuration_generation ≢ 0
  pub name : IsName p.session

pub record IsActive (relay epoch : ℕ) (handle : ℕ) (a : ActiveSession) : Type 0 where
  pub own_handle : a.handle ≡ handle
  pub in_range : IsHandle handle
  pub minted : IsMinted relay epoch a.prepared.token a.prepared

-- No other entry has this session name.
abbrev pub NameFree : Bytes → Map ℕ ActiveSession → Type 0
NameFree s m = All (λ (e : ℕ × ActiveSession). (e.1.prepared.session.as_str == s) ≡ false) m

abbrev pub IsDistinct : Map ℕ ActiveSession → Type 0
IsDistinct [] = Unit {0}
IsDistinct ((h, a) ∷ m) = NameFree a.prepared.session.as_str m × IsDistinct m

pub record IsValid (r : SessionRegistry) : Type 0 where
  pub started : r.relay_generation ≢ 0
  pub connected : r.connection_epoch ≢ 0
  pub limit : r.max_sessions ≤ max_session_streams
  pub capacity : length r.active + length r.prepared ≤ r.max_sessions
  pub counter : IsHandle r.next_handle
  pub prepared_sorted : IsSorted r.prepared
  pub active_sorted : IsSorted r.active
  pub prepared_minted :
      All
        (λ (e : Bytes × PreparedSession). IsMinted r.relay_generation r.connection_epoch e.0 e.1)
        r.prepared
  pub active_minted :
      All
        (λ (e : ℕ × ActiveSession). IsActive r.relay_generation r.connection_epoch e.0 e.1)
        r.active
  pub distinct : IsDistinct r.active
