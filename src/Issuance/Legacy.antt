-- ===== src/Issuance/Legacy.antt =====
-- src/issuance.rs, lines 130 to 134, 522 to 580 and 742 to 795: records from before the field
-- `configuration_generation`.
use herdr_dog_relay.Prelude.{
  ℕ, ◌+◌, ◌≡◌, refl, sym, subst, ◌∙◌, List, [], ◌∷◌, none, some, ok, arith, ok-injective,
}
use herdr_dog_relay.Material.{Access, Json}
use herdr_dog_relay.Issuance.{
  IssuanceResultKey, IssuanceResultRecord, IssuanceResultStatus, PersistedIssuanceResults,
  prune_records, validate_status, validate_each,
}
use herdr_dog_relay.Issuance.Records.{IssuedMaterial, find_key, issue_record, finalized, attached}
use herdr_dog_relay.Issuance.Store.{World, load_records, mark_issued}
use herdr_dog_relay.Issuance.Outcomes.{
  failed, read_only, wrote, started, read_then, update_cases, Outcome, UpdateNext, UpdateSilent,
}
use herdr_dog_relay.Issuance.Invariant.{load-some, load-stored}
use herdr_dog_relay.Issuance.Kept.{find_key-put_key}
use herdr_dog_relay.Issuance.Decisions.{issue_record-some}

validate_each-find :
    (ks : List IssuanceResultKey) (rs : List IssuanceResultRecord) (key : IssuanceResultKey)
    (r : IssuanceResultRecord)
    → validate_each ks rs ≡ ok tt
    → find_key key rs ≡ some r
    → validate_status r ≡ ok tt
unfolding validate_each find_key
validate_each-find ks [] key r h f = cc
validate_each-find ks (s ∷ rs) key r h f = ground (arith, validate_each-find (s.key ∷ ks) rs key r)

finalized-refused :
    (m : IssuedMaterial) (until : ℕ) (r : IssuanceResultRecord)
    → r.configuration_generation ≡ none
    → ¬ (validate_status (finalized r m until) ≡ ok tt)
unfolding validate_status finalized attached
finalized-refused m until r n h = ground arith

issue_record-pending :
    (m : IssuedMaterial) (now : ℕ) (r : IssuanceResultRecord)
    → r.status ≡ IssuanceResultStatus.pending
    → ¬ (issue_record m now r ≡ ok none)
unfolding issue_record
issue_record-pending m now r p h = ground arith

module _ (json : Json PersistedIssuanceResults) where
  mark_cases :
      (a : Access) (key : IssuanceResultKey) (m : IssuedMaterial) (now : ℕ) (w : World json.Text)
      → Outcome json a w
          (UpdateNext json key now (issue_record m now))
          (UpdateSilent json a w key now (issue_record m now))
          (mark_issued json a key m now)
  unfolding mark_issued
  mark_cases a key m now w =
      read_then json _ _ (λ _ d. update_cases json a key now (issue_record m now) w)

  -- For any JSON that reads back what it writes: where the loaded ledger has under the key a
  -- retained pending record without a configuration generation and `mark_issued` succeeds for it,
  -- loading the file that it leaves fails, under whatever file metadata.
  pub mark_issued-legacy :
      (a c : Access) (key : IssuanceResultKey) (m : IssuedMaterial) (now : ℕ)
      (w v : World json.Text) (loaded again : List IssuanceResultRecord)
      (r s : IssuanceResultRecord)
      → load_records json a w ≡ ok loaded
      → find_key key (prune_records loaded now) ≡ some r
      → r.status ≡ IssuanceResultStatus.pending
      → r.configuration_generation ≡ none
      → mark_issued json a key m now w ≡ (v, ok s)
      → ¬ (load_records json c v ≡ ok again)
  unfolding finalized
  mark_issued-legacy a c key m now w v loaded again r s l f p g q k =
      elim (mark_cases a key m now w) [
        | failed e o ↦ ground (arith, q, o)
        | started text x i t o ↦ absurd (load-some json a w loaded l i)
        | read_only u x o i (loaded', l', f', d) ↦
            let n : loaded' ≡ loaded = ok-injective (sym l' ∙ l) in
            let y : x ≡ r =
              ground (arith, f, subst (λ rs. find_key key (prune_records rs now) ≡ some x) n f') in
            ground (
              arith,
              issue_record-pending m now r p,
              subst (λ x. issue_record m now x ≡ ok none) y d,
            )
        | wrote loaded' next text x l' (r', f', d, e) small t o ↦
            let n : loaded' ≡ loaded = ok-injective (sym l' ∙ l) in
            let f'' = subst (λ rs. find_key key (prune_records rs now) ≡ some r') n f' in
            let y : r' ≡ r = ground (arith, f, f'') in
            let (z, _) =
              issue_record-some m now r x (subst (λ x'. issue_record m now x' ≡ ok (some x)) y d) in
            let file : v.file ≡ some text = ground (arith, q, o) in
            let (_, valid) =
              load-stored json c v next again (record { text = text; file = file; printed = t })
                k in
            let own : x.key ≡ r.key = rw z refl in
            let found : find_key key next ≡ some x =
              rw (e, n) (find_key-put_key key r x (prune_records loaded now) f own) in
            finalized-refused m (now + 86400) r g
              (rw⁻¹ z (validate_each-find [] next key x valid found))
      ]
