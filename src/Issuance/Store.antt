-- ===== src/Issuance/Store.antt =====
-- src/issuance.rs, lines 248 to 706: the operations of the ledger. Each takes the lock, loads the
-- protected file, drops what is no longer retained, acts and writes the file back.
use herdr_dog_relay.Prelude.{
  ℕ, List, [], ◌∷◌, ◌++◌, Bool, true, false, Bool, true, false, Option, none, some, Result, ok, err,
  fail_if, ok_or, Bytes, length, find, ltb, leb, ◌==◌, nat_ord, bytes_ord, if◌then◌else◌,
}
use herdr_dog_relay.Prelude.Actions.{Action, ◌>>=◌, ◌>>◌, read, write, returns}
use herdr_dog_relay.RelayError.{RelayError, configuration_read, quic_protocol, resource_limit}
use herdr_dog_relay.Material.{
  Access, Json, allowlist, lock_file, read_protected_file, write_protected_file,
}
use herdr_dog_relay.Issuance.{
  IssuanceResultKey, IssuanceResultRecord, IssuanceBeginResult, created, existing,
  PersistedIssuanceResults, prune_records, is_pruned, validate_records, max_issuance_result_records,
  max_issuance_result_bytes, issuance_result_store_version,
}
use herdr_dog_relay.Issuance.Records.{
  IssuedMaterial, find_key, put_key, pending_of, check_material, check_begin, check_existing,
  has_authorization, attach_record, issue_record, reject_record,
}

-- `PersistentIssuanceResults`, less the path of its file.
pub record PersistentIssuanceResults : Type 0 where
  pub expected_uid : ℕ
  pub records : List IssuanceResultRecord

-- The file and the ledger of one process.
pub record World (C : Type 0) : Type 0 where
  pub file : Option C
  pub ledger : PersistentIssuanceResults

abbrev pub persisted_of : List IssuanceResultRecord → PersistedIssuanceResults
persisted_of records = record { version = issuance_result_store_version; records = records }

module _ (json : Json PersistedIssuanceResults) where
  abbrev pub Operation : Type 0 → Type 0
  Operation = Action (World json.Text) RelayError

  unfoldable pub load_records :
      Access → World json.Text → Result RelayError (List IssuanceResultRecord)
  load_records a w =
      elim (read_protected_file json.size a w.file w.ledger.expected_uid allowlist
        max_issuance_result_bytes) [
          | err e ↦ err e
          | ok text ↦ elim (json.from_slice text) [
            | none ↦ err configuration_read
            | some persisted ↦ elim (validate_records persisted) [
              | err e ↦ err e
              | ok _ ↦ ok persisted.records
            ]
          ]
        ]

  -- What the file holds after `persist_records`.
  unfoldable pub persisted_text :
      Access → ℕ → List IssuanceResultRecord → Result RelayError json.Text
  persisted_text a expected_uid records =
      if ltb max_issuance_result_records (length records)
      then err resource_limit
      else elim (json.to_vec (persisted_of records)) [
        | none ↦ err configuration_read
        | some text ↦ write_protected_file json.size a expected_uid text max_issuance_result_bytes
      ]

  unfoldable pub persist_records : Access → List IssuanceResultRecord → Operation (Unit {0})
  persist_records a records = do
    text ← read (λ w. persisted_text a w.ledger.expected_uid records)
    write (λ w. record w { file = some text })

  -- `self.records = records`
  abbrev pub keep_records : List IssuanceResultRecord → Operation (Unit {0})
  keep_records records = write (λ w. record w { ledger = record w.ledger { records = records } })

  -- `open` once the lock is taken: the file is there or not, as `exists` is taken to tell.
  unfoldable pub open_locked : Access → Option json.Text → Operation (Unit {0})
  open_locked a none = do persist_records a []; keep_records []; returns tt
  open_locked a (some text) = do records ← read (load_records a); keep_records records

  -- `PersistentIssuanceResults::open`
  unfoldable pub open_store : Access → Operation (Unit {0})
  open_store a = do
    read (λ _. a.path)
    read (λ _. lock_file a)
    there ← read (λ w. ok w.file)
    open_locked a there

  -- Records are written back if some were dropped.
  unfoldable pub persist_if : Bool → Access → List IssuanceResultRecord → Operation (Unit {0})
  persist_if true a records = persist_records a records
  persist_if false a records = returns tt

  -- How `find`, `find_by_authorization_id` and `reconcile` begin.
  unfoldable pub refresh : Access → ℕ → Operation (List IssuanceResultRecord)
  refresh a now = do
    read (λ _. lock_file a)
    loaded ← read (load_records a)
    persist_if (is_pruned loaded now) a (prune_records loaded now)
    keep_records (prune_records loaded now)
    returns (prune_records loaded now)

  -- `find`, and `reconcile`, which is the same.
  unfoldable pub find_record :
      Access → IssuanceResultKey → ℕ → Operation (Option IssuanceResultRecord)
  find_record a key now = do records ← refresh a now; returns (find_key key records)

  unfoldable pub find_by_authorization_id :
      Access → Bytes → ℕ → Operation (Option IssuanceResultRecord)
  find_by_authorization_id a id now = do
    records ← refresh a now
    returns (find (λ (r : IssuanceResultRecord). r.key.authorization_id == id) records)

  -- `begin_pending` once its records are loaded: the key is there.
  unfoldable pub resume :
      Access
      → Bytes
      → ℕ
      → ℕ
      → List IssuanceResultRecord
      → IssuanceResultRecord
      → Operation IssuanceBeginResult
  resume a app_id configuration_generation now loaded r = do
    read (λ _. check_existing r app_id configuration_generation)
    persist_if (is_pruned loaded now) a (prune_records loaded now)
    keep_records (prune_records loaded now)
    returns (existing r)

  -- `begin_pending` once its records are loaded: the key is not there.
  unfoldable pub create :
      Access → IssuanceResultRecord → List IssuanceResultRecord → Operation IssuanceBeginResult
  create a r records = do
    read (λ _.
        fail_if (has_authorization r.key.authorization_id records)
          (quic_protocol "issuance authorization was bound to another CSR"))
    read (λ _. fail_if (leb max_issuance_result_records (length records)) resource_limit)
    persist_records a (records ++ r ∷ [])
    keep_records (records ++ r ∷ [])
    returns (created r)

  abbrev pub resume_or_create :
      Access
      → Bytes
      → ℕ
      → ℕ
      → List IssuanceResultRecord
      → IssuanceResultRecord
      → Option IssuanceResultRecord
      → Operation IssuanceBeginResult
  resume_or_create a app_id configuration_generation now loaded new (some r) =
      resume a app_id configuration_generation now loaded r
  resume_or_create a app_id configuration_generation now loaded new none =
      create a new (prune_records loaded now)

  unfoldable pub begin_pending :
      Access → IssuanceResultKey → Bytes → ℕ → ℕ → ℕ → Operation IssuanceBeginResult
  begin_pending a key app_id configuration_generation expires_at now = do
    until ← read (λ _. check_begin app_id configuration_generation expires_at now)
    read (λ _. lock_file a)
    loaded ← read (load_records a)
    resume_or_create a app_id configuration_generation now loaded
        (pending_of key app_id configuration_generation expires_at until)
        (find_key key (prune_records loaded now))

  -- What `attach_certificate`, `mark_issued` and `mark_rejected` do once they have decided on the
  -- record of the key.
  unfoldable pub settle :
      Access
      → IssuanceResultKey
      → List IssuanceResultRecord
      → IssuanceResultRecord
      → Option IssuanceResultRecord
      → Operation IssuanceResultRecord
  settle a key records r none = returns r
  settle a key records r (some s) = do
    persist_records a (put_key key s records)
    keep_records (put_key key s records)
    returns s

  -- What they do after their checks, from what they decide on the record of the key.
  unfoldable pub update_record :
      Access
      → IssuanceResultKey
      → ℕ
      → (IssuanceResultRecord → Result RelayError (Option IssuanceResultRecord))
      → Operation IssuanceResultRecord
  update_record a key now decide = do
    read (λ _. lock_file a)
    loaded ← read (load_records a)
    r ← read (λ _. ok_or (find_key key (prune_records loaded now)) configuration_read)
    decision ← read (λ _. decide r)
    settle a key (prune_records loaded now) r decision

  unfoldable pub attach_certificate :
      Access → IssuanceResultKey → IssuedMaterial → ℕ → Operation IssuanceResultRecord
  attach_certificate a key m now = do
    read (λ _. check_material m)
    update_record a key now (attach_record m)

  unfoldable pub mark_issued :
      Access → IssuanceResultKey → IssuedMaterial → ℕ → Operation IssuanceResultRecord
  mark_issued a key m now = do
    read (λ _. check_material m)
    update_record a key now (issue_record m now)

  unfoldable pub mark_rejected : Access → IssuanceResultKey → ℕ → ℕ → Operation IssuanceResultRecord
  mark_rejected a key code now = do
    read (λ _. fail_if (code == 0) (quic_protocol "issuance rejection code is empty"))
    update_record a key now (reject_record code now)
