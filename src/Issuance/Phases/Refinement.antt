-- ===== src/Issuance/Phases/Refinement.antt =====
-- src/issuance.rs, lines 369 to 715: each operation takes one turn of the state machine of a binding.
use herdr_dog_relay.Prelude.{
  ℕ, ◌+◌, ◌≡◌, ◌⊎◌, inl, inr, refl, ap, sym, ◌∙◌, List, [], ◌∷◌, ◌++◌, Bool, true, Option, none,
  some, ok, Bytes, ltb, any, retain, arith, Bool-cases, if◌then◌else◌,
}
use herdr_dog_relay.Material.{Json}
use herdr_dog_relay.Issuance.{
  IssuanceResultKey, IssuanceResultRecord, pending, PersistedIssuanceResults, same_key,
  prune_records,
}
use herdr_dog_relay.Issuance.Records.{
  IssuedMaterial, find_key, pending_of, attached, finalized, refused, check_material, attach_record,
}
use herdr_dog_relay.Issuance.Store.{World}
use herdr_dog_relay.Issuance.Ledger.{
  IsAccepted, IsFresh, retain-IsFresh, same_key_iff, found-IsAccepted,
}
use herdr_dog_relay.Issuance.Decisions.{
  check_material-chain, attach_record-some, issue_record-some, reject_record-some,
  unattached-pending, check_begin-ok,
}
use herdr_dog_relay.Issuance.Kept.{find_key-put_key_other, find_key-put_key, Decided-key}
use herdr_dog_relay.Issuance.Invariant.{IsStored, perform-Taken, Taken, kept, moved}
use herdr_dog_relay.Issuance.Events.{
  Event, time, Decided, by_attach, by_issue, by_reject, Step, prunes, adds, updates, stays, steps,
  perform, after,
}
use herdr_dog_relay.Issuance.Phases.{
  absent, waiting, candidate, certified, turned_down, aged, Move, begins_it, attaches_it, issues_it,
  confirms_it, rejects_it, withdraws_it, Turn, rests, ages, makes, Trace, done, turn, phase_of,
  phase,
}

find_key-fresh :
    (k : IssuanceResultKey) (ks : List IssuanceResultKey) (rs : List IssuanceResultRecord)
    → any (same_key k) ks ≡ true
    → IsFresh IsAccepted ks rs
    → find_key k rs ≡ none
unfolding find_key IsFresh
find_key-fresh k ks [] m h = refl
find_key-fresh k ks (r ∷ rs) m (n, w, h) =
    ground (arith, same_key_iff r.key k, find_key-fresh k (r.key ∷ ks) rs)

-- A record is dropped or stays.
abbrev kept_by :
    (IssuanceResultRecord → Bool) → Option IssuanceResultRecord → Option IssuanceResultRecord
kept_by p none = none
kept_by p (some r) = if p r then some r else none

find_key-retain :
    (p : IssuanceResultRecord → Bool) (key : IssuanceResultKey) (ks : List IssuanceResultKey)
    (rs : List IssuanceResultRecord)
    → IsFresh IsAccepted ks rs
    → find_key key (retain p rs) ≡ kept_by p (find_key key rs)
unfolding find_key IsFresh
find_key-retain p key ks [] h = refl
find_key-retain p key ks (r ∷ rs) (n, w, h) = ground (
  arith,
  find_key-retain p key (r.key ∷ ks) rs h,
  find_key-fresh key (r.key ∷ ks) (retain p rs),
  retain-IsFresh IsAccepted p (r.key ∷ ks) rs h,
  same_key_iff r.key key,
  same_key_iff key r.key,
)

find_key-append :
    (key : IssuanceResultKey) (s : IssuanceResultRecord) (rs : List IssuanceResultRecord)
    → find_key s.key rs ≡ none
    → (find_key key (rs ++ s ∷ []) ≡ find_key key rs)
      ⊎ ((find_key key rs ≡ none) × (find_key key (rs ++ s ∷ []) ≡ some s) × (s.key ≡ key))
unfolding find_key
find_key-append key s [] f = ground (arith, same_key_iff s.key key)
find_key-append key s (r ∷ rs) f =
    ground (arith, find_key-append key s rs, same_key_iff r.key key, same_key_iff r.key s.key)

phase_of-kept_by :
    (now : ℕ) (o : Option IssuanceResultRecord)
    → phase_of (kept_by (λ (r : IssuanceResultRecord). ltb now r.retained_until_epoch_seconds) o)
      ≡ aged now (phase_of o)
unfolding phase_of aged
phase_of-kept_by now none = refl
phase_of-kept_by now (some r) = ground arith

phase-prune_records :
    (now : ℕ) (rs : List IssuanceResultRecord) (key : IssuanceResultKey)
    → IsFresh IsAccepted [] rs
    → phase key (prune_records rs now) ≡ aged now (phase key rs)
unfolding prune_records
phase-prune_records now rs key l =
    ap phase_of (find_key-retain _ key [] rs l) ∙ phase_of-kept_by now (find_key key rs)

phase_of-pending :
    (r : IssuanceResultRecord)
    → r.status ≡ pending
    → (phase_of (some r) ≡ waiting r.retained_until_epoch_seconds)
      ⊎ (phase_of (some r) ≡ candidate r.certificate_chain r.retained_until_epoch_seconds)
unfolding phase_of
phase_of-pending r p = ground arith

phase_of-attached :
    (m : IssuedMaterial) (r s : IssuanceResultRecord)
    → check_material m ≡ ok tt
    → attach_record m r ≡ ok (some s)
    → IsAccepted r
    → (phase_of (some r) ≡ waiting r.retained_until_epoch_seconds)
      × (phase_of (some s) ≡ candidate m.certificate_chain r.retained_until_epoch_seconds)
unfolding phase_of attached
phase_of-attached m r s c d v =
    let (e, empty, live) = attach_record-some m r s d in
    let p = unattached-pending r v.status empty live in ground (arith, check_material-chain m c)

phase_of-finalized :
    (m : IssuedMaterial) (until : ℕ) (r : IssuanceResultRecord)
    → phase_of (some (finalized r m until)) ≡ certified m.certificate_chain until
unfolding phase_of finalized attached
phase_of-finalized m until r = refl

phase_of-refused :
    (code until : ℕ) (r : IssuanceResultRecord)
    → phase_of (some (refused r code until)) ≡ turned_down code until
unfolding phase_of refused
phase_of-refused code until r = refl

Decided-Move :
    (e : Event) (key : IssuanceResultKey) (now : ℕ) (r s : IssuanceResultRecord)
    → Decided e key now r s
    → IsAccepted r
    → Move e key (phase_of (some r)) (phase_of (some s))
Decided-Move e key now r s (by_attach a m o c d) v =
    let (p, q) = phase_of-attached m r s c d v in rw (o, p, q) (attaches_it a key m now _)
Decided-Move e key now r s (by_issue a m o c d) v =
    let (z, p) = issue_record-some m now r s d in
    let q : phase_of (some s) ≡ certified m.certificate_chain (now + 86400) =
      rw z (phase_of-finalized m (now + 86400) r) in
    elim (phase_of-pending r p) [
      | inl w ↦ rw (o, w, q) (issues_it a key m now _)
      | inr w ↦ rw (o, w, q) (confirms_it a key m now _ r.certificate_chain)
    ]
Decided-Move e key now r s (by_reject a code o c d) v =
    let (z, p) = reject_record-some code now r s d in
    let q : phase_of (some s) ≡ turned_down code (now + 86400) =
      rw z (phase_of-refused code (now + 86400) r) in
    elim (phase_of-pending r p) [
      | inl w ↦ rw (o, w, q) (rejects_it a key code now _)
      | inr w ↦ rw (o, w, q) (withdraws_it a key code now _ r.certificate_chain)
    ]

phase_of-pending_of :
    (key : IssuanceResultKey) (app_id : Bytes) (generation expires_at until : ℕ)
    → phase_of (some (pending_of key app_id generation expires_at until)) ≡ waiting until
unfolding pending_of phase_of
phase_of-pending_of key app_id generation expires_at until = refl

Step-Turn :
    (ev : Event) (now : ℕ) (rs ss : List IssuanceResultRecord) (key : IssuanceResultKey)
    → IsFresh IsAccepted [] rs
    → time ev ≡ some now
    → Step ev now rs ss
    → Turn ev key (phase key rs) (phase key ss)
unfolding phase_of pending_of
Step-Turn ev now rs ss key l t (prunes e) =
    ages now t (ap (phase key) e ∙ phase-prune_records now rs key l)
Step-Turn ev now rs ss key l t (adds a k b app_id generation expires_at until o c f m e) =
    let old = phase-prune_records now rs key l in
    let new = pending_of k app_id generation expires_at until in
    elim (find_key-append key new (prune_records rs now) f) [
      | inl p ↦ ages now t (ap (phase key) e ∙ ap phase_of p ∙ old)
      | inr (n, p, k') ↦
          let (_, _, later, u) = check_begin-ok app_id generation expires_at now until c in
          let h : phase key ss ≡ waiting (expires_at + 86400) =
            ap (phase key) e
            ∙ ap phase_of p
            ∙ phase_of-pending_of k app_id generation expires_at until
            ∙ ap waiting u in
          let i : aged now (phase key rs) ≡ absent = sym old ∙ ap phase_of n in
          makes now t (rw (o, h, i, ← k') (begins_it a k b app_id generation expires_at now later))
    ]
Step-Turn ev now rs ss key l t (updates k x s f d e) =
    let old = phase-prune_records now rs key l in
    let (v, q) = found-IsAccepted now rs k x l f in
    let o = (Decided-key ev k now x s d).0 in
    elim (Bool-cases (same_key k key)) [
      | inl u ↦
          let k' : k ≡ key = (same_key_iff k key).0 u in
          let g : find_key key (prune_records rs now) ≡ some x = rw⁻¹ k' f in
          let h : phase key ss ≡ phase_of (some s) =
            rw (e, k') (ap phase_of (find_key-put_key key x s (prune_records rs now) g o)) in
          let i : aged now (phase key rs) ≡ phase_of (some x) = sym old ∙ ap phase_of g in
          makes now t (rw (h, i, ← k') (Decided-Move ev k now x s d v))
      | inr u ↦ ages now t (
          ap (phase key) e
          ∙ ap phase_of (find_key-put_key_other key k s (prune_records rs now) (o ∙ q) u)
          ∙ old)
    ]

Taken-Turn :
    (e : Event) (rs ss : List IssuanceResultRecord) (key : IssuanceResultKey)
    → Taken e rs ss
    → Turn e key (phase key rs) (phase key ss)
Taken-Turn e rs ss key (kept q) = rests (ap (phase key) q)
Taken-Turn e rs ss key (moved l few (stays q)) = rests (ap (phase key) q)
Taken-Turn e rs ss key (moved l few (steps now t s)) = Step-Turn e now rs ss key l t s

module _ (json : Json PersistedIssuanceResults) where
  -- For any JSON that reads back what it writes: over a file that holds any records, those that no
  -- load accepts or that lack a configuration generation included, any operations leave a file in
  -- which each key has gone through one turn of its state machine for each operation, in their
  -- order: the operation leaves the phase of the key as it is; or only forgets it, where its
  -- retention is over at the time of the operation; or, after that, makes a move that is this
  -- operation's own on this key: beginning an absent one, attaching a chain to one that waits,
  -- issuing or rejecting one that waits or has a candidate, with the chain, the code and the end
  -- of the retention that `Move` gives. No move leads from an issued or a rejected one.
  pub after-Trace :
      (es : List Event) (w : World json.Text) (rs : List IssuanceResultRecord)
      → IsStored json w rs
      → (ss : List IssuanceResultRecord) × IsStored json (after json w es) ss
        × ((key : IssuanceResultKey) → Trace key es (phase key rs) (phase key ss))
  unfolding after
  after-Trace [] w rs h = (rs, h, λ key. done)
  after-Trace (e ∷ es) w rs h =
      let (ss, k, s) = perform-Taken json e w rs h in
      let (ts, k', m) = after-Trace es (perform json e w).0 ss k in
      (ts, k', λ key. turn (Taken-Turn e rs ss key s) (m key))
