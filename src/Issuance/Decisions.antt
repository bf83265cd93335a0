-- ===== src/Issuance/Decisions.antt =====
-- src/issuance.rs, lines 369 to 634: the records that the operations of the ledger make.
use herdr_dog_relay.Prelude.{
  ℕ, ◌+◌, ◌<◌, ◌≡◌, sym, subst, refl, true, false, some, ok, Bytes, is_err, ◌==◌, nat_ord,
  bytes_ord, arith,
}
use herdr_dog_relay.Enrollment.{app_id_new, checked_add}
use herdr_dog_relay.Issuance.{
  IssuanceResultKey, IssuanceResultRecord, IssuanceResultStatus, is_empty, is_malformed,
  is_empty_binding, validate_chain, validate_status,
}
use herdr_dog_relay.Issuance.Records.{
  IssuedMaterial, attached, finalized, refused, pending_of, check_material, check_begin,
  attach_record, issue_record, reject_record, is_rejected,
}
use herdr_dog_relay.Issuance.Ledger.{IsRecord}

check_material-ok :
    (m : IssuedMaterial) → check_material m ≡ ok tt → validate_chain m.certificate_chain ≡ ok tt
unfolding check_material
check_material-ok m h = ground arith

pub check_material-chain :
    (m : IssuedMaterial) → check_material m ≡ ok tt → is_empty m.certificate_chain ≡ false
unfolding check_material validate_chain
check_material-chain m h = ground arith

pub attach_record-some :
    (m : IssuedMaterial) (r s : IssuanceResultRecord)
    → attach_record m r ≡ ok (some s)
    → (s ≡ attached r m) × (is_empty r.certificate_chain ≡ true) × (is_rejected r.status ≡ false)
unfolding attach_record
attach_record-some m r s h = ground arith

-- What a load accepts, on a record without a chain that is not rejected.
pub unattached-pending :
    (r : IssuanceResultRecord)
    → validate_status r ≡ ok tt
    → is_empty r.certificate_chain ≡ true
    → is_rejected r.status ≡ false
    → r.status ≡ IssuanceResultStatus.pending
unfolding validate_status validate_chain
unattached-pending r h e n = ground arith

pub issue_record-some :
    (m : IssuedMaterial) (now : ℕ) (r s : IssuanceResultRecord)
    → issue_record m now r ≡ ok (some s)
    → (s ≡ finalized r m (now + 86400)) × (r.status ≡ IssuanceResultStatus.pending)
unfolding issue_record checked_add
issue_record-some m now r s h = ground arith

pub reject_record-some :
    (code now : ℕ) (r s : IssuanceResultRecord)
    → reject_record code now r ≡ ok (some s)
    → (s ≡ refused r code (now + 86400)) × (r.status ≡ IssuanceResultStatus.pending)
unfolding reject_record checked_add
reject_record-some code now r s h = ground arith

pub check_begin-ok :
    (app_id : Bytes) (generation expires_at now until : ℕ)
    → check_begin app_id generation expires_at now ≡ ok until
    → (is_err (app_id_new app_id) ≡ false)
      × ((generation == 0) ≡ false)
      × (now < expires_at)
      × (until ≡ expires_at + 86400)
unfolding check_begin checked_add
check_begin-ok app_id generation expires_at now until h = ground arith

pub attached-IsRecord :
    (m : IssuedMaterial) (r s : IssuanceResultRecord)
    → check_material m ≡ ok tt
    → attach_record m r ≡ ok (some s)
    → IsRecord r
    → IsRecord s × (s.key ≡ r.key)
unfolding is_malformed validate_status attached
attached-IsRecord m r s c d v =
    let (e, empty, live) = attach_record-some m r s d in
    let p = unattached-pending r v.status empty live in
    subst (λ (x : IssuanceResultRecord). IsRecord x × (x.key ≡ r.key)) (sym e)
      (
        record {
          formed = v.formed;
          status = ground (arith, check_material-ok m c);
          current = v.current;
        },
        refl,
      )

pub finalized-IsRecord :
    (m : IssuedMaterial) (now : ℕ) (r s : IssuanceResultRecord)
    → check_material m ≡ ok tt
    → issue_record m now r ≡ ok (some s)
    → IsRecord r
    → IsRecord s × (s.key ≡ r.key)
unfolding is_malformed validate_status finalized attached
finalized-IsRecord m now r s c d v =
    let (e, p) = issue_record-some m now r s d in
    subst (λ (x : IssuanceResultRecord). IsRecord x × (x.key ≡ r.key)) (sym e)
      (
        record {
          formed = ground (arith, v.formed);
          status = ground (arith, check_material-ok m c, v.current);
          current = v.current;
        },
        refl,
      )

pub refused-IsRecord :
    (code now : ℕ) (r s : IssuanceResultRecord)
    → (code == 0) ≡ false
    → reject_record code now r ≡ ok (some s)
    → IsRecord r
    → IsRecord s × (s.key ≡ r.key)
unfolding is_malformed validate_status refused
refused-IsRecord code now r s c d v =
    let (e, p) = reject_record-some code now r s d in
    subst (λ (x : IssuanceResultRecord). IsRecord x × (x.key ≡ r.key)) (sym e)
      (
        record { formed = ground (arith, v.formed); status = ground arith; current = v.current },
        refl,
      )

pub pending_of-IsRecord :
    (key : IssuanceResultKey) (app_id : Bytes) (generation expires_at now until : ℕ)
    → is_empty_binding key ≡ false
    → check_begin app_id generation expires_at now ≡ ok until
    → IsRecord (pending_of key app_id generation expires_at until)
unfolding is_malformed validate_status pending_of
pending_of-IsRecord key app_id generation expires_at now until b c =
    let k = check_begin-ok app_id generation expires_at now until c in
    record { formed = ground arith; status = refl; current = refl }
