-- ===== src/Issuance/Tests.antt =====
-- src/issuance.rs: one run of the ledger, and what it shows of the theorems.
use herdr_dog_relay.Prelude.{
  ℕ, Bytes, ◌+◌, ◌≡◌, ◌≢◌, refl, List, [], ◌∷◌, false, none, some, ok, err, replicate, arith,
  bytes_beq,
}
use herdr_dog_relay.RelayError.{quic_protocol}
use herdr_dog_relay.Material.{
  allowlist, read_protected_file, validate_file_metadata, same_file_identity, write_protected_file,
  validate_directory, lock_file,
}
use herdr_dog_relay.Material.Tests.{plain, works}
use herdr_dog_relay.Prelude.Actions.{read, ◌>>=◌}
use herdr_dog_relay.Enrollment.{app_id_new, checked_add}
use herdr_dog_relay.Issuance.{
  IssuanceResultKey, IssuanceResultRecord, IssuanceResultStatus, PersistedIssuanceResults, created,
  is_empty_binding, prune_records, is_malformed, validate_chain, validate_status, validate_each,
  validate_records, max_issuance_result_bytes,
}
use herdr_dog_relay.Issuance.Records.{
  IssuedMaterial, pending_of, finalized, attached, find_key, put_key, has_authorization,
  check_material, check_begin, issue_record,
}
use herdr_dog_relay.Issuance.Store.{
  World, persisted_of, load_records, persisted_text, persist_records, begin_pending, create,
  mark_issued, mark_rejected, update_record, settle, open_store, open_locked,
}
use herdr_dog_relay.Issuance.Events.{Event, opens, begins, issues, rejects, perform, after}
use herdr_dog_relay.Issuance.Ledger.{IsLedger}
use herdr_dog_relay.Issuance.Invariant.{IsStored}
use herdr_dog_relay.Issuance.History.{AllBetween, perform-err, after-loads, after-final, begin-once}
use herdr_dog_relay.Issuance.Legacy.{mark_issued-legacy}
use herdr_dog_relay.Issuance.Phases.{
  Phase, certified, turned_down, aged, Move, begins_it, attaches_it, issues_it, confirms_it,
  rejects_it, withdraws_it, Turn, rests, ages, makes, Trace, phase,
}
use herdr_dog_relay.Issuance.Phases.Refinement.{after-Trace}

abbrev key : IssuanceResultKey
key = record { authorization_id = replicate 16 7; csr_digest = replicate 32 9 }

abbrev other_csr : IssuanceResultKey
other_csr = record key { csr_digest = replicate 32 8 }

abbrev material : IssuedMaterial
material = record {
  certificate_chain = (1 ∷ 2 ∷ []) ∷ [];
  fingerprint = replicate 32 5;
  allowlist_generation = 2;
  not_after_epoch_seconds = 9000;
}

abbrev empty_world : World PersistedIssuanceResults
empty_world = record { file = none; ledger = record { expected_uid = 501; records = [] } }

abbrev world_of : List IssuanceResultRecord → World PersistedIssuanceResults
world_of rs = record {
  file = some (persisted_of rs);
  ledger = record { expected_uid = 501; records = rs };
}

abbrev begun : IssuanceResultRecord
begun = record {
  key = key;
  app_id = b'a' ∷ [];
  status = IssuanceResultStatus.pending;
  authorization_expires_at_epoch_seconds = 1200;
  retained_until_epoch_seconds = 87600;
  certificate_chain = [];
  fingerprint = none;
  configuration_generation = some 3;
  allowlist_generation = none;
  not_after_epoch_seconds = none;
  rejection_code = none;
}

abbrev done : IssuanceResultRecord
done = record begun {
  status = IssuanceResultStatus.issued;
  retained_until_epoch_seconds = 87410;
  certificate_chain = material.certificate_chain;
  fingerprint = some material.fingerprint;
  allowlist_generation = some 2;
  not_after_epoch_seconds = some 9000;
}

key_bound : is_empty_binding key ≡ false
unfolding bytes_beq
key_bound = refl

other_bound : is_empty_binding other_csr ≡ false
unfolding bytes_beq
other_bound = refl

opened_then_begun :
    after
      (plain PersistedIssuanceResults)
      empty_world
      (opens works ∷ begins works key key_bound (b'a' ∷ []) 3 1200 1000 ∷ [])
    ≡ world_of (begun ∷ [])
unfolding after perform open_store open_locked begin_pending create persist_records persisted_text
    load_records read ◌>>=◌ lock_file read_protected_file write_protected_file
    validate_file_metadata validate_directory same_file_identity check_begin app_id_new checked_add
    prune_records find_key has_authorization pending_of validate_records validate_each is_malformed
    validate_status bytes_beq
opened_then_begun = refl

material_checked : check_material material ≡ ok tt
unfolding check_material validate_chain bytes_beq
material_checked = refl

begun_issued : issue_record material 1010 begun ≡ ok (some done)
unfolding issue_record checked_add finalized attached
begun_issued = refl

-- A pending record from before the field, under another authorization.
abbrev legacy : IssuanceResultRecord
legacy = record begun {
  key = record key { authorization_id = replicate 16 6 };
  configuration_generation = none;
}

world-IsStored :
    (rs : List IssuanceResultRecord) → IsStored (plain PersistedIssuanceResults) (world_of rs) rs
world-IsStored rs = record { text = persisted_of rs; file = refl; printed = refl }

rejecting_nothing :
    perform (plain PersistedIssuanceResults) (rejects works key 0 1000) empty_world
    ≡ (empty_world, err (quic_protocol "issuance rejection code is empty"))
unfolding perform mark_rejected read ◌>>=◌
rejecting_nothing = refl

abbrev run : List Event
run = opens works ∷ begins works key key_bound (b'a' ∷ []) 3 1200 1000 ∷ []

text_read :
    read_protected_file
      (plain PersistedIssuanceResults).size
      works
      (after (plain PersistedIssuanceResults) empty_world run).file
      (after (plain PersistedIssuanceResults) empty_world run).ledger.expected_uid
      allowlist
      max_issuance_result_bytes
    ≡ ok (persisted_of (begun ∷ []))
unfolding after perform open_store open_locked begin_pending create persist_records persisted_text
    load_records read ◌>>=◌ lock_file read_protected_file write_protected_file
    validate_file_metadata validate_directory same_file_identity check_begin app_id_new checked_add
    prune_records find_key has_authorization pending_of validate_records validate_each is_malformed
    validate_status bytes_beq
text_read = refl

begun_first :
    begin_pending
      (plain PersistedIssuanceResults)
      works
      key
      (b'a' ∷ [])
      3
      1200
      1000
      (world_of (legacy ∷ []))
    ≡ (world_of (legacy ∷ begun ∷ []), ok (created begun))
unfolding after perform open_store open_locked begin_pending create persist_records persisted_text
    load_records read ◌>>=◌ lock_file read_protected_file write_protected_file
    validate_file_metadata validate_directory same_file_identity check_begin app_id_new checked_add
    prune_records find_key has_authorization pending_of validate_records validate_each is_malformed
    validate_status bytes_beq
begun_first = refl

done_found : find_key key (done ∷ legacy ∷ []) ≡ some done
unfolding find_key bytes_beq
done_found = refl

not_pending : done.status ≢ IssuanceResultStatus.pending
not_pending h = cc

-- The legacy record is issued, after which no load of the file succeeds.
abbrev spoiled : List Event
spoiled = issues works legacy.key material 1500 ∷ rejects works key 5 2000 ∷ []

spoiled_in_time : AllBetween 0 87410 spoiled
spoiled_in_time = (λ now q. ground arith, (λ now q. ground arith, tt))

spoiled_in_a_day : AllBetween 1000 (1000 + 86400) spoiled
spoiled_in_a_day = (λ now q. ground arith, (λ now q. ground arith, tt))

perform-err_example : empty_world ≡ empty_world
perform-err_example =
    perform-err (plain PersistedIssuanceResults) (rejects works key 0 1000) empty_world empty_world
      (quic_protocol "issuance rejection code is empty") rejecting_nothing

after-loads_example :
    (rs : List IssuanceResultRecord) × (load_records
        (plain PersistedIssuanceResults)
        works
        (after (plain PersistedIssuanceResults) empty_world run)
      ≡ ok rs)
    × IsLedger rs
after-loads_example =
    after-loads (plain PersistedIssuanceResults) run empty_world works (persisted_of (begun ∷ []))
      refl text_read

after-final_example :
    (next : List IssuanceResultRecord) × IsStored
      (plain PersistedIssuanceResults)
      (after (plain PersistedIssuanceResults) (world_of (done ∷ legacy ∷ [])) spoiled)
      next
    × (find_key key next ≡ some done)
after-final_example =
    after-final (plain PersistedIssuanceResults) spoiled (world_of (done ∷ legacy ∷ []))
      (done ∷ legacy ∷ []) key done (world-IsStored (done ∷ legacy ∷ [])) done_found not_pending
      spoiled_in_time

begin-once_example : ¬ (
    begin_pending
      (plain PersistedIssuanceResults)
      works
      other_csr
      (b'a' ∷ [])
      3
      1700
      1600
      (after (plain PersistedIssuanceResults) (world_of (legacy ∷ begun ∷ [])) spoiled)
    ≡ (world_of (begun ∷ []), ok (created done)))
begin-once_example =
    begin-once (plain PersistedIssuanceResults) works works key other_csr (b'a' ∷ []) (b'a' ∷ []) 3
      3 1200 1700 1000 1600 (world_of (legacy ∷ [])) (world_of (legacy ∷ begun ∷ []))
      (world_of (begun ∷ [])) (legacy ∷ []) begun done spoiled (world-IsStored (legacy ∷ []))
      begun_first spoiled_in_a_day refl (omega arith) (omega arith)

abbrev answered : List Event
answered = issues works key material 1010 ∷ rejects works key 5 2000 ∷ []

-- An issued binding is not rejected before its retention ends.
Move-certified :
    {e : Event} {k : IssuanceResultKey} {p q : Phase} (chain : List Bytes) (until : ℕ)
    → Move e k p q
    → p ≢ certified chain until
Move-certified chain until (begins_it a k b app_id generation expires_at now l) h = cc
Move-certified chain until (attaches_it a k m now u) h = cc
Move-certified chain until (issues_it a k m now u) h = cc
Move-certified chain until (confirms_it a k m now u c) h = cc
Move-certified chain until (rejects_it a k code now u) h = cc
Move-certified chain until (withdraws_it a k code now u c) h = cc

issued_stays : ¬ Turn (rejects works key 5 2000) key (certified [] 87410) (turned_down 5 88400)
unfolding aged
issued_stays (rests q) = cc
issued_stays (ages now t q) = ground (arith, t, q)
issued_stays (makes now t m) = Move-certified [] 87410 m (ground (arith, t))

after-Trace_example :
    (ss : List IssuanceResultRecord) × IsStored
      (plain PersistedIssuanceResults)
      (after (plain PersistedIssuanceResults) (world_of (begun ∷ legacy ∷ [])) answered)
      ss
    × ((k : IssuanceResultKey) → Trace k answered (phase k (begun ∷ legacy ∷ [])) (phase k ss))
after-Trace_example =
    after-Trace (plain PersistedIssuanceResults) answered (world_of (begun ∷ legacy ∷ []))
      (begun ∷ legacy ∷ []) (world-IsStored (begun ∷ legacy ∷ []))

-- A record from before the field.
abbrev old : IssuanceResultRecord
old = record begun { configuration_generation = none }

old_loaded :
    load_records (plain PersistedIssuanceResults) works (world_of (old ∷ [])) ≡ ok (old ∷ [])
unfolding open_store open_locked begin_pending create persist_records persisted_text load_records
    read ◌>>=◌ lock_file read_protected_file write_protected_file validate_file_metadata
    validate_directory same_file_identity check_begin app_id_new checked_add prune_records find_key
    has_authorization pending_of validate_records validate_each is_malformed validate_status
    bytes_beq
old_loaded = refl

old_kept : find_key key (prune_records (old ∷ []) 1010) ≡ some old
unfolding find_key prune_records bytes_beq
old_kept = refl

old_issued :
    mark_issued (plain PersistedIssuanceResults) works key material 1010 (world_of (old ∷ []))
    ≡ (world_of (finalized old material 87410 ∷ []), ok (finalized old material 87410))
unfolding mark_issued update_record settle check_material validate_chain issue_record finalized
    attached put_key open_store open_locked begin_pending create persist_records persisted_text
    load_records read ◌>>=◌ lock_file read_protected_file write_protected_file
    validate_file_metadata validate_directory same_file_identity check_begin app_id_new checked_add
    prune_records find_key has_authorization pending_of validate_records validate_each is_malformed
    validate_status bytes_beq
old_issued = refl

mark_issued-legacy_example : ¬ (
    load_records
      (plain PersistedIssuanceResults)
      works
      (world_of (finalized old material 87410 ∷ []))
    ≡ ok (old ∷ []))
mark_issued-legacy_example =
    mark_issued-legacy (plain PersistedIssuanceResults) works works key material 1010
      (world_of (old ∷ [])) (world_of (finalized old material 87410 ∷ [])) (old ∷ []) (old ∷ []) old
      (finalized old material 87410) old_loaded old_kept refl refl old_issued
