-- ===== src/Registry.antt =====
-- src/session_registry.rs: the authority registry of one connection, the gate before any forwarding.
-- An `Instant` is a number of nanoseconds, and its additions do not overflow. Each operation takes
-- the registry and returns the new one with its result; where the source reads the clock, the
-- instant is the argument `now`.
pub mod Calls
pub mod Handles
pub mod Invariant
pub mod Opening
pub mod Stream
pub mod Closing
pub mod Renewal
pub mod Expiry
pub mod History
pub mod Tests
use herdr_dog_relay.Prelude.{
  ℕ, zero, suc, ◌+◌, ◌-◌, ◌*◌, ◌%◌, max, ◌<◌, ◌≡◌, List, [], ◌∷◌, Bool, true, false, not, ◌||◌,
  ◌&&◌, Option, none, some, Result, ok, err, ◌>>=◌, ◌>>◌, fail_if, map_err, Bytes, length,
  replicate, any, map, ltb, leb, ◌==◌, ◌!=◌, nat_ord, bytes_ord, if◌then◌else◌,
}
use herdr_dog_relay.RelayError.{
  RelayError, invalid_configuration, resource_limit, session_authority,
}
use herdr_dog_relay.Wire.{qrm_authority_bytes, qrm_max_session_name_bytes}
use herdr_dog_relay.Wire.Name.{SessionName, new}
use herdr_dog_relay.Wire.Session.{SessionOpenRequest}
use herdr_dog_relay.Wire.Binding.{HdqsBinding}
use herdr_dog_relay.Wire.Response.{
  HdqsResponse, accept, reject, session_not_found, token_mismatch, generation_mismatch,
  capacity_exhausted, session_already_open,
}
use herdr_dog_relay.Map.{Map, get, insert, remove, contains_key, values, retain_values}

abbrev pub max_session_streams : ℕ
max_session_streams = 64

abbrev pub session_token_ttl_secs : ℕ
session_token_ttl_secs = 90

-- `Duration::from_secs`
abbrev pub from_secs : ℕ → ℕ
from_secs s = s * 1_000_000_000

pub record PreparedSession : Type 0 where
  pub session : SessionName
  pub fingerprint : Bytes
  pub configuration_generation : ℕ
  pub relay_generation : ℕ
  pub connection_epoch : ℕ
  pub token : Bytes
  pub token_ttl_secs : ℕ
  pub expires_at : ℕ

pub record ActiveSession : Type 0 where
  pub handle : ℕ
  pub prepared : PreparedSession
  pub expires_at : ℕ
  pub bound : Bool

pub record SessionRegistry : Type 0 where
  pub relay_generation : ℕ
  pub connection_epoch : ℕ
  pub max_sessions : ℕ
  pub next_handle : ℕ
  pub prepared : Map Bytes PreparedSession
  pub active : Map ℕ ActiveSession

-- `SessionRegistry::new`
pub create : ℕ → ℕ → ℕ → Result RelayError SessionRegistry
create relay_generation connection_epoch max_sessions = do
  fail_if
      ((relay_generation == 0)
        || (connection_epoch == 0)
        || (max_sessions == 0)
        || ltb max_session_streams max_sessions)
      (invalid_configuration "limits.max_sessions_per_connection"
        "QRM session registry bounds are invalid")
  ok (record {
    relay_generation = relay_generation;
    connection_epoch = connection_epoch;
    max_sessions = max_sessions;
    next_handle = 1;
    prepared = [];
    active = [];
  })

abbrev pub zero_authority : Bytes
zero_authority = replicate qrm_authority_bytes 0

-- The authority that `prepare_at` mints once its checks have passed.
pub mint : SessionRegistry → ℕ → SessionName → Bytes → ℕ → Bytes → PreparedSession
mint r now session fingerprint configuration_generation token = record {
  session = session;
  fingerprint = fingerprint;
  configuration_generation = configuration_generation;
  relay_generation = r.relay_generation;
  connection_epoch = r.connection_epoch;
  token = token;
  token_ttl_secs = session_token_ttl_secs;
  expires_at = now + from_secs session_token_ttl_secs;
}

-- The checks of `prepare_at`, in the source's order.
pub check_prepare : SessionRegistry → Bytes → ℕ → Bytes → Result RelayError SessionName
check_prepare r session configuration_generation token = do
  fail_if (leb r.max_sessions (length r.active + length r.prepared)) resource_limit
  fail_if ((configuration_generation == 0) || (token == zero_authority)) session_authority
  name ← map_err (new session) session_authority
  fail_if (ltb qrm_max_session_name_bytes (length name.as_str)) session_authority
  ok name

pub prepare_at :
    SessionRegistry
    → ℕ
    → Bytes
    → Bytes
    → ℕ
    → Bytes
    → SessionRegistry × Result RelayError PreparedSession
prepare_at r now session fingerprint configuration_generation token =
    elim (check_prepare r session configuration_generation token) [
      | err e ↦ (r, err e)
      | ok name ↦
          let p = mint r now name fingerprint configuration_generation token in
          (record r { prepared = insert token p r.prepared }, ok p)
    ]

-- `self.next_handle.wrapping_add(1).max(1)` on `u16`.
pub bump_handle : ℕ → ℕ
bump_handle h = max ((h + 1) % 65536) 1

-- The loop of `allocate_handle`: the rounds left, and `next_handle`.
pub allocate : ℕ → ℕ → Map ℕ ActiveSession → ℕ × Option ℕ
allocate zero next active = (next, none)
allocate (suc rounds) next active = elim ((next != 0) && not (contains_key next active)) [
  | true ↦ (bump_handle next, some next)
  | false ↦ allocate rounds (bump_handle next) active
]

-- `0..=u16::MAX`
abbrev pub handle_rounds : ℕ
handle_rounds = 65536

-- Two authorities differ in one of the fields that each check of the source compares.
pub differs : PreparedSession → Bytes → Bytes → ℕ → ℕ → ℕ → Bool
differs p session fingerprint configuration_generation relay_generation connection_epoch =
    (p.session.as_str != session)
    || (p.fingerprint != fingerprint)
    || (p.configuration_generation != configuration_generation)
    || (p.relay_generation != relay_generation)
    || (p.connection_epoch != connection_epoch)

abbrev pub differs_from_binding : PreparedSession → HdqsBinding → Bool
differs_from_binding p b =
    differs p b.session.as_str b.fingerprint b.configuration_generation b.relay_generation
      b.connection_epoch

abbrev pub Opened : Type 0
Opened = SessionRegistry × HdqsResponse × Option ActiveSession

-- `open_at` once the handle is allocated; `r` has the handle counter moved on.
pub activate : SessionRegistry → ℕ → PreparedSession → Option ℕ → Opened
activate r now p none = (r, reject capacity_exhausted r.connection_epoch, none)
activate r now p (some handle) =
    let a : ActiveSession = record {
      handle = handle;
      prepared = p;
      expires_at = now + from_secs p.token_ttl_secs;
      bound = false;
    } in
    (record r { active = insert handle a r.active }, accept handle r.connection_epoch, some a)

-- `open_at` after the token was found and taken out of `r`.
pub open_prepared : SessionRegistry → ℕ → HdqsBinding → PreparedSession → Opened
open_prepared r now b p =
    let (next, handle) = allocate handle_rounds r.next_handle r.active in
    let opened = activate (record r { next_handle = next }) now p handle in
    if leb p.expires_at now
    then (r, reject token_mismatch r.connection_epoch, none)
    else if any (λ (a : ActiveSession). a.prepared.session.as_str == b.session.as_str)
        (values r.active)
    then (r, reject session_already_open r.connection_epoch, none)
    else if differs_from_binding p b
    then (r, reject generation_mismatch r.connection_epoch, none)
    else opened

pub open_at : SessionRegistry → ℕ → HdqsBinding → Opened
open_at r now b = elim (get b.token r.prepared) [
  | none ↦ (r, reject token_mismatch r.connection_epoch, none)
  | some p ↦ open_prepared (record r { prepared = remove b.token r.prepared }) now b p
]

-- The binding that `open_request` makes from the prepared authority.
pub binding_of : PreparedSession → HdqsBinding
binding_of p = record {
  session_handle = 1;
  configuration_generation = p.configuration_generation;
  relay_generation = p.relay_generation;
  connection_epoch = p.connection_epoch;
  session = p.session;
  fingerprint = p.fingerprint;
  token = p.token;
}

pub open_request : SessionRegistry → ℕ → SessionOpenRequest → Opened
open_request r now q = elim (get q.token r.prepared) [
  | none ↦ (r, reject token_mismatch r.connection_epoch, none)
  | some p ↦
      if differs p q.session.as_str q.fingerprint q.configuration_generation q.relay_generation
        q.connection_epoch
      then (
        record r { prepared = remove q.token r.prepared },
        reject generation_mismatch r.connection_epoch,
        none,
      )
      else open_at r now (binding_of p)
]
