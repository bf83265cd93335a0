-- ===== src/Registry/Opening.antt =====
-- src/session_registry.rs, lines 230 to 330: the branches of `open_at` and `open_request`.
pub mod Admission
pub mod Tokens
use herdr_dog_relay.Prelude.{
  ℕ, Bytes, bytes_beq_iff, ◌↔◌, ◌+◌, ◌≤◌, ◌<◌, ◌≡◌, refl, ◌⊎◌, inl, inr, Bool, true, false, Option,
  some, none, any, leb, ltb, ◌==◌, bytes_ord, if◌then◌else◌, arith,
}
use herdr_dog_relay.Wire.Binding.{HdqsBinding}
use herdr_dog_relay.Wire.Response.{
  HdqsResponse, accept, reject, token_mismatch, session_already_open, generation_mismatch,
}
use herdr_dog_relay.Map.{get, remove, insert, values}
use herdr_dog_relay.Registry.{
  SessionRegistry, ActiveSession, PreparedSession, Opened, differs, differs_from_binding, activate,
  allocate, handle_rounds, open_prepared, open_at,
}

-- `differs` is false exactly where all five fields are equal.
pub differs_iff :
    (p : PreparedSession) (s f : Bytes) (g rg e : ℕ)
    → (differs p s f g rg e ≡ false) ↔ (
        (p.session.as_str ≡ s)
        × (p.fingerprint ≡ f)
        × (p.configuration_generation ≡ g)
        × (p.relay_generation ≡ rg)
        × (p.connection_epoch ≡ e))
unfolding differs
differs_iff p s f g rg e = (
  λ h. ground (arith, bytes_beq_iff p.session.as_str s, bytes_beq_iff p.fingerprint f),
  λ h. ground (arith, bytes_beq_iff p.session.as_str s, bytes_beq_iff p.fingerprint f),
)

abbrev pub name_taken : SessionRegistry → HdqsBinding → Bool
name_taken r b =
    any (λ (a : ActiveSession). a.prepared.session.as_str == b.session.as_str) (values r.active)

-- What is left of `open_prepared` when all its tests pass.
abbrev pub allocated : SessionRegistry → ℕ → PreparedSession → Opened
allocated r now p =
    let a = allocate handle_rounds r.next_handle r.active in
    activate (record r { next_handle = a.0 }) now p a.1

-- The tests that let an attempt with a token found go on.
pub record Passes (r : SessionRegistry) (now : ℕ) (b : HdqsBinding) (p : PreparedSession)
    : Type 0 where
  pub live : now < p.expires_at
  pub free : name_taken r b ≡ false
  pub exact : differs_from_binding p b ≡ false

pub open_prepared_cases :
    (r : SessionRegistry) (now : ℕ) (b : HdqsBinding) (p : PreparedSession)
    → (((open_prepared r now b p).0 ≡ r) × ((open_prepared r now b p).2 ≡ none))
      ⊎ (Passes r now b p × (open_prepared r now b p ≡ allocated r now p))
unfolding open_prepared
open_prepared_cases r now b p = ground arith

pub open_prepared_pass :
    (r : SessionRegistry) (now : ℕ) (b : HdqsBinding) (p : PreparedSession)
    → Passes r now b p
    → open_prepared r now b p ≡ allocated r now p
unfolding open_prepared
open_prepared_pass r now b p t = ground arith

pub open_at_missing :
    (r : SessionRegistry) (now : ℕ) (b : HdqsBinding)
    → get b.token r.prepared ≡ none
    → open_at r now b ≡ (r, reject token_mismatch r.connection_epoch, none)
unfolding open_at
open_at_missing r now b e = rw (e, open_at)

pub open_at_found :
    (r : SessionRegistry) (now : ℕ) (b : HdqsBinding) (p : PreparedSession)
    → get b.token r.prepared ≡ some p
    → open_at r now b ≡ open_prepared (record r { prepared = remove b.token r.prepared }) now b p
unfolding open_at
open_at_found r now b p e = rw (e, open_at)
