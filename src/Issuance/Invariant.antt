-- ===== src/Issuance/Invariant.antt =====
-- src/issuance.rs, lines 277 to 706: ledgers over histories of operations.
use herdr_dog_relay.Prelude.{
  ℕ, ◌≤◌, ◌≡◌, ◌⊎◌, inl, inr, refl, ap, subst, ◌∙◌, List, [], ◌∷◌, none, some, ok, length, nat_ord,
  arith, Result-cases,
}
use herdr_dog_relay.Material.{Access, Json, allowlist, read_protected_file}
use herdr_dog_relay.Issuance.Steps.{perform_cases}
use herdr_dog_relay.Material.Files.{read-held}
use herdr_dog_relay.Issuance.{
  IssuanceResultKey, IssuanceResultRecord, PersistedIssuanceResults, prune_records, validate_each,
  validate_records, max_issuance_result_bytes,
}
use herdr_dog_relay.Issuance.Records.{pending_of}
use herdr_dog_relay.Issuance.Store.{World, persisted_of, load_records}
use herdr_dog_relay.Issuance.Outcomes.{failed, read_only, wrote, started}
use herdr_dog_relay.Issuance.Ledger.{
  IsAccepted, IsRecord, IsLedger, IsFresh, IsFresh-validate_each, prune_records-IsLedger,
  put_key-IsLedger, found-IsRecord, append-IsLedger, validate_each-fresh,
}
use herdr_dog_relay.Issuance.Decisions.{
  attached-IsRecord, finalized-IsRecord, refused-IsRecord, pending_of-IsRecord,
}
use herdr_dog_relay.Issuance.Events.{
  Event, access, Decided, by_attach, by_issue, by_reject, Step, prunes, adds, updates, StepOf,
  stays, steps, perform, after,
}

Decided-IsRecord :
    (e : Event) (key : IssuanceResultKey) (now : ℕ) (r s : IssuanceResultRecord)
    → Decided e key now r s
    → IsRecord r
    → IsRecord s × (s.key ≡ r.key)
Decided-IsRecord e key now r s (by_attach a m q c d) v = attached-IsRecord m r s c d v
Decided-IsRecord e key now r s (by_issue a m q c d) v = finalized-IsRecord m now r s c d v
Decided-IsRecord e key now r s (by_reject a code q c d) v = refused-IsRecord code now r s c d v

Step-IsLedger :
    (ev : Event) (now : ℕ) (loaded next : List IssuanceResultRecord)
    → Step ev now loaded next
    → length next ≤ 256
    → IsLedger loaded
    → IsLedger next
unfolding pending_of
Step-IsLedger ev now loaded next (prunes e) few h = rw e (prune_records-IsLedger loaded now h)
Step-IsLedger ev now loaded next (adds a key b app_id generation expires_at until o c f n e) few h =
    rw e (
      append-IsLedger key _ (prune_records loaded now)
        (pending_of-IsRecord key app_id generation expires_at now until b c) refl f (rw⁻¹ e few)
        (prune_records-IsLedger loaded now h))
Step-IsLedger ev now loaded next (updates key r s f d e) few h =
    let l = prune_records-IsLedger loaded now h in
    let (v, k) = found-IsRecord key (prune_records loaded now) r l f in
    let (v', k') = Decided-IsRecord ev key now r s d v in
    rw e (put_key-IsLedger key s (prune_records loaded now) v' (k' ∙ k) l)

pub StepOf-IsLedger :
    (e : Event) (loaded next : List IssuanceResultRecord)
    → StepOf e loaded next
    → length next ≤ 256
    → IsLedger loaded
    → IsLedger next
StepOf-IsLedger e loaded next (stays q) few h = rw q h
StepOf-IsLedger e loaded next (steps now t s) few h = Step-IsLedger e now loaded next s few h

validate_records-each :
    (rs : List IssuanceResultRecord)
    → validate_records (persisted_of rs) ≡ ok tt
    → validate_each [] rs ≡ ok tt
unfolding validate_records
validate_records-each rs h = ground arith

-- An event leaves the records of the file as they were, or it loaded them and takes its step.
pub data Taken (e : Event) (rs next : List IssuanceResultRecord) : Type 0 where
  kept : next ≡ rs → Taken e rs next
  moved : IsFresh IsAccepted [] rs → length next ≤ 256 → StepOf e rs next → Taken e rs next

module _ (json : Json PersistedIssuanceResults) where
  -- The file holds these records.
  pub record IsStored (w : World json.Text) (rs : List IssuanceResultRecord) : Type 0 where
    pub text : json.Text
    pub file : w.file ≡ some text
    pub printed : json.to_vec (persisted_of rs) ≡ some text

  -- There is no file yet, or it holds a ledger.
  abbrev pub IsSound : World json.Text → Type 0
  IsSound w = (w.file ≡ none) ⊎ ((rs : List IssuanceResultRecord) × IsStored w rs × IsLedger rs)

  validate_records-ok :
      (rs : List IssuanceResultRecord) → IsLedger rs → validate_records (persisted_of rs) ≡ ok tt
  unfolding validate_records
  validate_records-ok rs h = ground (arith, h.few, validate_each-fresh [] rs h.fresh)

  pub load-read :
      (a : Access) (w : World json.Text) (rs : List IssuanceResultRecord) (text : json.Text)
      → IsStored w rs
      → IsLedger rs
      → read_protected_file json.size a w.file w.ledger.expected_uid allowlist
          max_issuance_result_bytes
        ≡ ok text
      → load_records json a w ≡ ok rs
  unfolding load_records
  load-read a w rs text h valid r =
      let (f, small) = read-held json.size a w.file _ allowlist _ text r in
      let t : h.text ≡ text = ground (arith, h.file) in
      ground (
        arith,
        json.from_slice-to_vec (persisted_of rs) text (h.printed ∙ ap some t),
        validate_records-ok rs valid,
      )

  -- A load that succeeds gives the records of the file, and has accepted them.
  pub load-stored :
      (a : Access) (w : World json.Text) (rs loaded : List IssuanceResultRecord)
      → IsStored w rs
      → load_records json a w ≡ ok loaded
      → (loaded ≡ rs) × (validate_each [] rs ≡ ok tt)
  unfolding load_records
  load-stored a w rs loaded h l =
      elim (Result-cases (
        read_protected_file json.size a w.file w.ledger.expected_uid allowlist
          max_issuance_result_bytes)) [
            | inl (text, r) ↦
                let (f, small) = read-held json.size a w.file _ allowlist _ text r in
                let t : h.text ≡ text = ground (arith, h.file) in
                let p = json.from_slice-to_vec (persisted_of rs) text (h.printed ∙ ap some t) in
                (ground (arith, p), validate_records-each rs (ground (arith, p)))
            | inr (e, r) ↦ ground arith
          ]

  pub load-some :
      (a : Access) (w : World json.Text) (loaded : List IssuanceResultRecord)
      → load_records json a w ≡ ok loaded
      → ¬ (w.file ≡ none)
  unfolding load_records
  load-some a w loaded l n =
      elim (Result-cases (
        read_protected_file json.size a w.file w.ledger.expected_uid allowlist
          max_issuance_result_bytes)) [
            | inl (text, r) ↦ ground (arith, read-held json.size a w.file _ allowlist _ text r)
            | inr (e, r) ↦ ground arith
          ]

  -- The records of the file after an event.
  pub perform-Taken :
      (e : Event) (w : World json.Text) (rs : List IssuanceResultRecord)
      → IsStored w rs
      → (next : List IssuanceResultRecord) × IsStored (perform json e w).0 next × Taken e rs next
  perform-Taken e w rs h = elim (perform_cases json e w) [
    | failed f q ↦ (rs, rw q h, kept refl)
    | read_only v x q f i ↦
        (rs, rw q (record { text = h.text; file = f ∙ h.file; printed = h.printed }), kept refl)
    | wrote loaded next text x l n small t q ↦
        let (same, valid) = load-stored (access e) w rs loaded h l in
        (
          next,
          rw q (record { text = text; file = refl; printed = t }),
          moved (IsFresh-validate_each [] rs valid) small (subst (λ r. StepOf e r next) same n),
        )
    | started text x f t q ↦ ground (arith, h.file)
  ]

  Taken-IsLedger :
      (e : Event) (rs next : List IssuanceResultRecord)
      → Taken e rs next
      → IsLedger rs
      → IsLedger next
  Taken-IsLedger e rs next (kept q) h = rw q h
  Taken-IsLedger e rs next (moved v few s) h = StepOf-IsLedger e rs next s few h

  pub perform-IsSound : (e : Event) (w : World json.Text) → IsSound w → IsSound (perform json e w).0
  unfolding IsFresh
  perform-IsSound e w (inr (rs, h, l)) =
      let (next, k, s) = perform-Taken e w rs h in inr (next, k, Taken-IsLedger e rs next s l)
  perform-IsSound e w (inl n) = elim (perform_cases json e w) [
    | failed f q ↦ rw q (inl n)
    | read_only v x q f i ↦ rw q (inl (f ∙ n))
    | wrote loaded next text x l m small t q ↦ absurd (load-some (access e) w loaded l n)
    | started text x f t q ↦ rw q (
        inr (
          [],
          record { text = text; file = refl; printed = t },
          record { few = omega arith; fresh = tt },
        ))
  ]

  pub after-IsSound :
      (w : World json.Text) (es : List Event) → IsSound w → IsSound (after json w es)
  unfolding after
  after-IsSound w [] h = h
  after-IsSound w (e ∷ es) h = after-IsSound (perform json e w).0 es (perform-IsSound e w h)
