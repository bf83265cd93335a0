-- ===== src/Registry/Tests.antt =====
-- The session registry at concrete inputs: a registry that waits for one authority to be opened, and
-- one where an authority is active.
use herdr_dog_relay.Prelude.{
  ℕ, ◌≡◌, ◌≢◌, ◌⊎◌, refl, List, [], ◌∷◌, true, false, none, some, All, Bytes, ok, replicate, arith,
  if◌then◌else◌, bytes_ord, nat_ord, ltb, bytes_beq,
}
use mathlib.Core.Option
use herdr_dog_relay.Wire.Name.Tests.{alpha, alpha-IsName}
use herdr_dog_relay.Wire.Binding.{HdqsBinding}
use herdr_dog_relay.Wire.Session.{SessionOpenRequest}
use herdr_dog_relay.Wire.Response.{accept, reject, token_mismatch, session_already_open}
use herdr_dog_relay.Map.{get, modify}
use herdr_dog_relay.Map.Order.{keep_if}
use herdr_dog_relay.Registry.Closing.{without, close_exact-cases}
use herdr_dog_relay.Registry.{
  SessionRegistry, ActiveSession, PreparedSession, create, open_at, allocate, handle_rounds,
}
use herdr_dog_relay.Registry.Calls.{
  set_bound, accept_active, close_exact, active_bound_exact, renew_batch, reap_expired_handles,
  extend,
}
use herdr_dog_relay.Registry.Handles.{allocate_total}
use herdr_dog_relay.Registry.Invariant.{IsValid, IsMinted}
use herdr_dog_relay.Registry.Opening.Admission.{
  IsAdmissible, IsOpened, open_at-admits, open_at-IsAdmissible,
}
use herdr_dog_relay.Registry.Opening.Tokens.{open_at-replay}
use herdr_dog_relay.Registry.Stream.{
  IsBindable, IsExact, accept_active-cases, accept_active-accepts, accept_active-once,
  active_bound_exact-accept_active,
}
use herdr_dog_relay.Registry.Renewal.{IsRenewable, names, renew_batch-renews, renew_batch-atomic}
use herdr_dog_relay.Registry.Expiry.{reap_keeps}
use herdr_dog_relay.Registry.History.{Call, run, run-IsValid}

abbrev print : Bytes
print = replicate 32 1

abbrev secret : Bytes
secret = replicate 32 2

abbrev minted : PreparedSession
minted = record {
  session = alpha;
  fingerprint = print;
  configuration_generation = 5;
  relay_generation = 7;
  connection_epoch = 9;
  token = secret;
  token_ttl_secs = 90;
  expires_at = 90_000_000_000;
}

minted-IsMinted : IsMinted 7 9 secret minted
minted-IsMinted = record {
  own_token = refl;
  own_relay = refl;
  own_epoch = refl;
  ttl = refl;
  configured = omega arith;
  name = alpha-IsName;
}

abbrev claim : HdqsBinding
claim = record {
  session_handle = 1;
  configuration_generation = 5;
  relay_generation = 7;
  connection_epoch = 9;
  session = alpha;
  fingerprint = print;
  token = secret;
}

abbrev empty : SessionRegistry
empty = record {
  relay_generation = 7;
  connection_epoch = 9;
  max_sessions = 4;
  next_handle = 1;
  prepared = [];
  active = [];
}

abbrev waiting : SessionRegistry
waiting = record empty { prepared = (secret, minted) ∷ [] }

abbrev session : ActiveSession
session = record { handle = 1; prepared = minted; expires_at = 100_000_000_000; bound = false }

abbrev busy : SessionRegistry
busy = record empty { next_handle = 2; active = (1, session) ∷ [] }

waiting-IsValid : IsValid waiting
waiting-IsValid = record {
  started = omega arith;
  connected = omega arith;
  limit = omega arith;
  capacity = omega arith;
  counter = omega arith;
  prepared_sorted = (tt, tt);
  active_sorted = tt;
  prepared_minted = (minted-IsMinted, tt);
  active_minted = tt;
  distinct = tt;
}

busy-IsValid : IsValid busy
busy-IsValid = record {
  started = omega arith;
  connected = omega arith;
  limit = omega arith;
  capacity = omega arith;
  counter = omega arith;
  prepared_sorted = tt;
  active_sorted = (tt, tt);
  prepared_minted = tt;
  active_minted =
      (record { own_handle = refl; in_range = omega arith; minted = minted-IsMinted }, tt);
  distinct = (tt, tt);
}

empty-create : create 7 9 4 ≡ ok empty
unfolding create
empty-create = refl

abbrev calls : List Call
calls =
    Call.prepares 0 alpha.as_str print 5 secret
    ∷ Call.opens 1 claim
    ∷ Call.accepts 2 claim
    ∷ Call.reaps 3
    ∷ Call.closes_exact claim
    ∷ []

run-IsValid_example : IsValid (run empty calls)
run-IsValid_example = run-IsValid 7 9 4 empty calls empty-create

waiting-IsAdmissible : IsAdmissible waiting 5 claim minted
unfolding get bytes_beq
waiting-IsAdmissible = record {
  found = refl;
  live = omega arith;
  free = tt;
  session = refl;
  fingerprint = refl;
  configuration = refl;
  relay = refl;
  epoch = refl;
}

open_at-admits_example : (a : ActiveSession) × IsOpened waiting 5 minted (open_at waiting 5 claim) a
open_at-admits_example = open_at-admits waiting 5 claim waiting-IsValid minted waiting-IsAdmissible

opened : (a : ActiveSession) × IsOpened waiting 5 minted (open_at waiting 5 claim) a
opened = open_at-admits waiting 5 claim waiting-IsValid minted waiting-IsAdmissible

open_at-IsAdmissible_example : IsAdmissible waiting 5 claim opened.0.prepared
open_at-IsAdmissible_example =
    open_at-IsAdmissible waiting 5 claim waiting-IsValid opened.0 opened.1.result

abbrev wrong : HdqsBinding
wrong = record claim { fingerprint = secret }

open_at-replay_example :
    let r' = (open_at waiting 5 wrong).0 in
    open_at r' 6 claim ≡ (r', reject token_mismatch r'.connection_epoch, none)
open_at-replay_example = open_at-replay waiting 5 6 wrong claim refl

abbrev request : SessionOpenRequest
request = record {
  session = alpha;
  fingerprint = secret;
  configuration_generation = 5;
  relay_generation = 7;
  connection_epoch = 9;
  token = secret;
}

busy-IsBindable : IsBindable busy 5 claim session
unfolding get
busy-IsBindable = record {
  found = refl;
  unbound = refl;
  exact = record {
    session = refl;
    fingerprint = refl;
    configuration = refl;
    relay = refl;
    epoch = refl;
    token = refl;
  };
  live = omega arith;
}

accept_active-accepts_example :
    accept_active busy 5 claim
    ≡ (record busy { active = modify 1 set_bound busy.active }, accept 1 9)
accept_active-accepts_example =
    accept_active-accepts busy 5 claim session busy-IsValid busy-IsBindable

accept_active-once_example :
    let r' = (accept_active busy 5 claim).0 in
    accept_active r' 8 claim ≡ (r', reject session_already_open r'.connection_epoch)
accept_active-once_example =
    accept_active-once busy 5 8 claim claim session busy-IsValid busy-IsBindable refl

active_bound_exact-accept_active_example :
    active_bound_exact (accept_active busy 5 claim).0 8 claim ≡ ltb 8 100_000_000_000
active_bound_exact-accept_active_example =
    active_bound_exact-accept_active busy 5 8 claim session busy-IsValid busy-IsBindable

accept_active-cases_example :
    ((a : ActiveSession) × IsBindable busy 5 wrong a)
    ⊎ (((accept_active busy 5 wrong).0 ≡ busy)
        × ((accept_active busy 5 wrong).1 ≢ accept wrong.session_handle busy.connection_epoch))
accept_active-cases_example = accept_active-cases busy 5 wrong

close_exact-cases_example :
    ((a : ActiveSession) × (get claim.session_handle busy.active ≡ some a)
      × IsExact a claim
      × (close_exact busy claim ≡ (without busy claim.session_handle, true)))
    ⊎ (((a : ActiveSession) → get claim.session_handle busy.active ≡ some a → ¬ IsExact a claim)
        × (close_exact busy claim ≡ (busy, false)))
close_exact-cases_example = close_exact-cases busy claim

abbrev beat : List (ℕ × Bytes)
beat = (1, secret) ∷ []

beat-IsRenewable : All (IsRenewable busy 5) beat
unfolding get
beat-IsRenewable =
    (record { session = session; found = refl; token = refl; live = omega arith }, tt)

renew_batch-renews_example :
    ((renew_batch busy beat 5).1 ≡ true)
    × (get 1 (renew_batch busy beat 5).0.active
        ≡ (if names 1 beat then Option.map (extend 5) (get 1 busy.active) else get 1 busy.active))
renew_batch-renews_example = renew_batch-renews busy beat 5 1 busy-IsValid beat-IsRenewable

late-stale : ¬ All (IsRenewable busy 100_000_000_000) beat
unfolding get
late-stale (e, _) = ground (arith, e.found, e.live)

reap_keeps_example :
    (get 1 (reap_expired_handles busy 5).0.active
      ≡ keep_if (λ (a : ActiveSession). ltb 5 a.expires_at) (get 1 busy.active))
    × (get secret (reap_expired_handles busy 5).0.prepared
        ≡ keep_if (λ (p : PreparedSession). ltb 5 p.expires_at) (get secret busy.prepared))
reap_keeps_example = reap_keeps busy 5 1 secret busy-IsValid

allocate_total_example : (h : ℕ) × ((allocate handle_rounds 65535 busy.active).1 ≡ some h)
allocate_total_example = allocate_total 65535 busy.active (omega arith) (omega arith)

renew_batch-atomic_example : renew_batch busy beat 100_000_000_000 ≡ (busy, false)
renew_batch-atomic_example = renew_batch-atomic busy beat 100_000_000_000 late-stale
