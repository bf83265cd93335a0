-- ===== src/Issuance/Events.antt =====
-- src/issuance.rs, lines 277 to 634: the operations of the ledger as events, and the steps that they
-- take from the records of the file to the next ones.
use herdr_dog_relay.Prelude.{
  ℕ, ◌≡◌, List, [], ◌∷◌, ◌++◌, false, Option, none, some, ok, Bytes, ◌==◌, nat_ord,
}
use herdr_dog_relay.Prelude.Actions.{returns, ◌>>=◌}
use herdr_dog_relay.Material.{Access, Json}
use herdr_dog_relay.Issuance.{
  IssuanceResultKey, IssuanceResultRecord, IssuanceBeginResult, PersistedIssuanceResults,
  prune_records, is_empty_binding,
}
use herdr_dog_relay.Issuance.Records.{
  IssuedMaterial, find_key, put_key, pending_of, has_authorization, check_begin, check_material,
  attach_record, issue_record, reject_record,
}
use herdr_dog_relay.Issuance.Store.{
  World, Operation, open_store, find_record, find_by_authorization_id, begin_pending,
  attach_certificate, mark_issued, mark_rejected,
}

-- An operation with its arguments; the key of `begin_pending` passed `IssuanceResultKey::new`.
pub data Event : Type 0 where
  opens : Access → Event
  finds : Access → IssuanceResultKey → ℕ → Event
  finds_by_id : Access → Bytes → ℕ → Event
  begins :
      Access → (key : IssuanceResultKey) → is_empty_binding key ≡ false → Bytes → ℕ → ℕ → ℕ → Event
  attaches issues : Access → IssuanceResultKey → IssuedMaterial → ℕ → Event
  rejects : Access → IssuanceResultKey → ℕ → ℕ → Event

pub data Answer : Type 0 where
  opened : Answer
  found : Option IssuanceResultRecord → Answer
  began : IssuanceBeginResult → Answer
  updated : IssuanceResultRecord → Answer

-- The time that an operation is given; `open` is given none.
abbrev pub time : Event → Option ℕ
time (opens a) = none
time (finds a key now) = some now
time (finds_by_id a id now) = some now
time (begins a key b app_id generation expires_at now) = some now
time (attaches a key m now) = some now
time (issues a key m now) = some now
time (rejects a key code now) = some now

abbrev pub access : Event → Access
access (opens a) = a
access (finds a key now) = a
access (finds_by_id a id now) = a
access (begins a key b app_id generation expires_at now) = a
access (attaches a key m now) = a
access (issues a key m now) = a
access (rejects a key code now) = a

-- What an event makes of the record of a key at a time.
pub data Decided (e : Event) (key : IssuanceResultKey) (now : ℕ) (r s : IssuanceResultRecord)
    : Type 0 where
  by_attach :
      (a : Access) (m : IssuedMaterial)
      → e ≡ attaches a key m now
      → check_material m ≡ ok tt
      → attach_record m r ≡ ok (some s)
      → Decided e key now r s
  by_issue :
      (a : Access) (m : IssuedMaterial)
      → e ≡ issues a key m now
      → check_material m ≡ ok tt
      → issue_record m now r ≡ ok (some s)
      → Decided e key now r s
  by_reject :
      (a : Access) (code : ℕ)
      → e ≡ rejects a key code now
      → (code == 0) ≡ false
      → reject_record code now r ≡ ok (some s)
      → Decided e key now r s

-- The steps of an event from the records of the file to the records that are written, at a time.
pub data Step (e : Event) (now : ℕ) (loaded next : List IssuanceResultRecord) : Type 0 where
  prunes : next ≡ prune_records loaded now → Step e now loaded next
  adds :
      (a : Access) (key : IssuanceResultKey) (b : is_empty_binding key ≡ false) (app_id : Bytes)
      (generation expires_at until : ℕ)
      → e ≡ begins a key b app_id generation expires_at now
      → check_begin app_id generation expires_at now ≡ ok until
      → find_key key (prune_records loaded now) ≡ none
      → has_authorization key.authorization_id (prune_records loaded now) ≡ false
      → next ≡ prune_records loaded now ++ pending_of key app_id generation expires_at until ∷ []
      → Step e now loaded next
  updates :
      (key : IssuanceResultKey) (r s : IssuanceResultRecord)
      → find_key key (prune_records loaded now) ≡ some r
      → Decided e key now r s
      → next ≡ put_key key s (prune_records loaded now)
      → Step e now loaded next

-- The step of an event; `open` takes none.
pub data StepOf (e : Event) (loaded next : List IssuanceResultRecord) : Type 0 where
  stays : next ≡ loaded → StepOf e loaded next
  steps : (now : ℕ) → time e ≡ some now → Step e now loaded next → StepOf e loaded next

module _ (json : Json PersistedIssuanceResults) where
  unfoldable pub perform : Event → Operation json Answer
  perform (opens a) = open_store json a >>= λ _. returns opened
  perform (finds a key now) = find_record json a key now >>= λ r. returns (found r)
  perform (finds_by_id a id now) = find_by_authorization_id json a id now >>= λ r. returns (found r)
  perform (begins a key b app_id generation expires_at now) =
      begin_pending json a key app_id generation expires_at now >>= λ r. returns (began r)
  perform (attaches a key m now) = attach_certificate json a key m now >>= λ r. returns (updated r)
  perform (issues a key m now) = mark_issued json a key m now >>= λ r. returns (updated r)
  perform (rejects a key code now) = mark_rejected json a key code now >>= λ r. returns (updated r)

  -- The world after events of any processes that share the file. The ledger of a process is what its
  -- last operation left.
  unfoldable pub after : World json.Text → List Event → World json.Text
  after w [] = w
  after w (e ∷ es) = after (perform e w).0 es
