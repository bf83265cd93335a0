-- ===== src/Issuance/Phases.antt =====
-- src/issuance.rs, lines 84 to 110 and 369 to 715: the ledger as its doc comments promise it, one
-- state machine for each binding of an authorization to a CSR.
pub mod Refinement
use herdr_dog_relay.Prelude.{
  ℕ, ◌+◌, ◌<◌, ◌≡◌, List, [], ◌∷◌, Bool, true, false, Option, none, some, Bytes, ltb, if◌then◌else◌,
}
use herdr_dog_relay.Material.{Access}
use herdr_dog_relay.Issuance.{
  IssuanceResultKey, IssuanceResultRecord, pending, issued, rejected, is_empty, is_empty_binding,
}
use herdr_dog_relay.Issuance.Records.{IssuedMaterial, find_key}
use herdr_dog_relay.Issuance.Events.{Event, begins, attaches, issues, rejects, time}

-- What is known of one binding, with the end of its retention: nothing, that it was begun, that a
-- chain of certificates is its candidate, that a chain was issued, or that it was rejected.
pub data Phase : Type 0 where
  absent : Phase
  waiting : ℕ → Phase
  candidate certified : List Bytes → ℕ → Phase
  turned_down : ℕ → ℕ → Phase

-- A binding at a time: it is forgotten when its retention is over.
unfoldable pub aged : ℕ → Phase → Phase
aged now absent = absent
aged now (waiting until) = if ltb now until then waiting until else absent
aged now (candidate chain until) = if ltb now until then candidate chain until else absent
aged now (certified chain until) = if ltb now until then certified chain until else absent
aged now (turned_down code until) = if ltb now until then turned_down code until else absent

-- What an event may make of the binding of a key. Nothing is made of an issued or a rejected one.
pub data Move : Event → IssuanceResultKey → Phase → Phase → Type 0 where
  begins_it :
      (a : Access) (key : IssuanceResultKey) (b : is_empty_binding key ≡ false) (app_id : Bytes)
      (generation expires_at now : ℕ)
      → now < expires_at
      → Move
          (begins a key b app_id generation expires_at now)
          key
          absent
          (waiting (expires_at + 86400))
  attaches_it :
      (a : Access) (key : IssuanceResultKey) (m : IssuedMaterial) (now until : ℕ)
      → Move (attaches a key m now) key (waiting until) (candidate m.certificate_chain until)
  issues_it :
      (a : Access) (key : IssuanceResultKey) (m : IssuedMaterial) (now until : ℕ)
      → Move (issues a key m now) key (waiting until) (certified m.certificate_chain (now + 86400))
  confirms_it :
      (a : Access) (key : IssuanceResultKey) (m : IssuedMaterial) (now until : ℕ)
      (chain : List Bytes)
      → Move
          (issues a key m now)
          key
          (candidate chain until)
          (certified m.certificate_chain (now + 86400))
  rejects_it :
      (a : Access) (key : IssuanceResultKey) (code now until : ℕ)
      → Move (rejects a key code now) key (waiting until) (turned_down code (now + 86400))
  withdraws_it :
      (a : Access) (key : IssuanceResultKey) (code now until : ℕ) (chain : List Bytes)
      → Move (rejects a key code now) key (candidate chain until) (turned_down code (now + 86400))

-- An event leaves a binding as it is, or only ages it, or ages it and makes one move of its own.
pub data Turn (e : Event) (key : IssuanceResultKey) (p q : Phase) : Type 0 where
  rests : q ≡ p → Turn e key p q
  ages : (now : ℕ) → time e ≡ some now → q ≡ aged now p → Turn e key p q
  makes : (now : ℕ) → time e ≡ some now → Move e key (aged now p) q → Turn e key p q

-- A binding over events: one turn for each, in their order.
pub data Trace (key : IssuanceResultKey) : List Event → Phase → Phase → Type 0 where
  done : {p : Phase} → Trace key [] p p
  turn :
      {e : Event} {es : List Event} {p q s : Phase}
      → Turn e key p q
      → Trace key es q s
      → Trace key (e ∷ es) p s

-- The phase that a record stands for. A rejected record that a load accepts has a code.
unfoldable pub phase_of : Option IssuanceResultRecord → Phase
phase_of none = absent
phase_of (some r) = elim r.status [
  | pending ↦ elim (is_empty r.certificate_chain) [
    | true ↦ waiting r.retained_until_epoch_seconds
    | false ↦ candidate r.certificate_chain r.retained_until_epoch_seconds
  ]
  | issued ↦ certified r.certificate_chain r.retained_until_epoch_seconds
  | rejected ↦ turned_down (code_of r.rejection_code) r.retained_until_epoch_seconds
]
  where
    code_of : Option ℕ → ℕ
    code_of none = 0
    code_of (some code) = code

-- The phase of a binding in a ledger.
abbrev pub phase : IssuanceResultKey → List IssuanceResultRecord → Phase
phase key rs = phase_of (find_key key rs)
