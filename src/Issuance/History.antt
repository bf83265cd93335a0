-- ===== src/Issuance/History.antt =====
-- src/issuance.rs, lines 277 to 706: ledgers over histories of operations of the processes that share
-- a file.
use herdr_dog_relay.Prelude.{
  ℕ, ◌+◌, ◌≤◌, ◌<◌, ◌≡◌, ◌≢◌, inl, inr, refl, ap, subst, ◌∙◌, List, [], ◌∷◌, ◌++◌, true, false,
  none, some, ok, err, Bytes, any, arith, All, beq_refl, bytes_ord,
}
use herdr_dog_relay.Material.Files.{read-held}
use herdr_dog_relay.RelayError.{RelayError}
use herdr_dog_relay.Material.{Access, Json, allowlist, read_protected_file}
use herdr_dog_relay.Issuance.{
  IssuanceResultKey, IssuanceResultRecord, IssuanceResultStatus, created, PersistedIssuanceResults,
  max_issuance_result_bytes, prune_records,
}
use herdr_dog_relay.Issuance.Records.{find_key, has_authorization, pending_of}
use herdr_dog_relay.Issuance.Store.{World, load_records, begin_pending}
use herdr_dog_relay.Issuance.Outcomes.{failed, read_only, wrote, started, begin_cases, written}
use herdr_dog_relay.Issuance.Ledger.{IsLedger}
use herdr_dog_relay.Issuance.Kept.{
  Taken-final, Taken-bound, is_bound, any-last, has_authorization-bound,
}
use herdr_dog_relay.Issuance.Decisions.{check_begin-ok}
use herdr_dog_relay.Issuance.Steps.{perform_cases}
use herdr_dog_relay.Issuance.Invariant.{
  IsStored, perform-Taken, after-IsSound, load-read, load-stored,
}
use herdr_dog_relay.Issuance.Events.{Event, time, perform, after}

-- The times of the events are from one time on and before another.
abbrev pub AllBetween : ℕ → ℕ → List Event → Type 0
AllBetween lo hi es = All (λ e. (now : ℕ) → time e ≡ some now → (lo ≤ now) × (now < hi)) es

module _ (json : Json PersistedIssuanceResults) where
  -- An operation on the ledger that fails changes neither the file nor the ledger of the process.
  pub perform-err :
      (e : Event) (w v : World json.Text) (failure : RelayError)
      → perform json e w ≡ (v, err failure)
      → v ≡ w
  perform-err e w v failure h = elim (perform_cases json e w) [
    | failed f q ↦ ground (arith, h, q)
    | read_only u x q f i ↦ ground (arith, h, q)
    | wrote loaded next text x l n small t q ↦ ground (arith, h, q)
    | started text x f t q ↦ ground (arith, h, q)
  ]

  -- For any JSON that reads back what it writes: from no file, after any operations, if the
  -- protected file can be read then it loads as records that are a valid ledger: at most 256, no
  -- two under the same key, each as `validate_records` demands.
  pub after-loads :
      (es : List Event) (w : World json.Text) (a : Access) (text : json.Text)
      → w.file ≡ none
      → read_protected_file json.size a
          (after json w es).file
          (after json w es).ledger.expected_uid
          allowlist
          max_issuance_result_bytes
        ≡ ok text
      → (rs : List IssuanceResultRecord) × (load_records json a (after json w es) ≡ ok rs)
        × IsLedger rs
  after-loads es w a text n r = elim (after-IsSound json w es (inl n)) [
    | inl m ↦ ground (arith, read-held json.size a (after json w es).file _ allowlist _ text r)
    | inr (rs, h, l) ↦ (rs, load-read json a (after json w es) rs text h l r, l)
  ]

  -- For any JSON that reads back what it writes: over a file that holds any records, those that no
  -- load accepts or that lack a configuration generation included, where the record found under a
  -- key is issued or rejected, and after any operations, all of which happen before its retention
  -- ends, the file holds records among which the same record, unchanged, is found under that key.
  pub after-final :
      (es : List Event) (w : World json.Text) (rs : List IssuanceResultRecord)
      (key : IssuanceResultKey) (r : IssuanceResultRecord)
      → IsStored json w rs
      → find_key key rs ≡ some r
      → r.status ≢ IssuanceResultStatus.pending
      → AllBetween 0 r.retained_until_epoch_seconds es
      → (next : List IssuanceResultRecord) × IsStored json (after json w es) next
        × (find_key key next ≡ some r)
  unfolding after
  after-final [] w rs key r h f n t = (rs, h, f)
  after-final (e ∷ es) w rs key r h f n (t, ts) =
      let (next, k, s) = perform-Taken json e w rs h in
      after-final es (perform json e w).0 next key r k
        (Taken-final e rs next key r s (λ now q. (t now q).1) n f) n ts

  after-bound :
      (es : List Event) (w : World json.Text) (rs : List IssuanceResultRecord) (id : Bytes)
      (start : ℕ)
      → IsStored json w rs
      → any (is_bound id (start + 86400)) rs ≡ true
      → AllBetween start (start + 86400) es
      → (next : List IssuanceResultRecord) × IsStored json (after json w es) next
        × (any (is_bound id (start + 86400)) next ≡ true)
  unfolding after
  after-bound [] w rs id start h b t = (rs, h, b)
  after-bound (e ∷ es) w rs id start h b (t, ts) =
      let (next, k, s) = perform-Taken json e w rs h in
      after-bound es (perform json e w).0 next id start k (Taken-bound e start rs next id s t b) ts

  module _ (a : Access) (key : IssuanceResultKey) (app_id : Bytes)
      (generation expires_at now : ℕ) where
    -- What a record that `begin_pending` made tells of the ledger.
    created-next :
        (w v : World json.Text) (rs : List IssuanceResultRecord) (r : IssuanceResultRecord)
        → IsStored json w rs
        → begin_pending json a key app_id generation expires_at now w ≡ (v, ok (created r))
        → (has_authorization key.authorization_id (prune_records rs now) ≡ false)
          × (r.key ≡ key)
          × (now + 86400 ≤ r.retained_until_epoch_seconds)
          × IsStored json v (prune_records rs now ++ r ∷ [])
    unfolding pending_of
    created-next w v rs r h q = elim (begin_cases json a key app_id generation expires_at now w) [
      | failed f o ↦ ground (arith, q, o)
      | read_only u x o f i ↦ ground (arith, q, o, i)
      | started text x f t o ↦ ground (arith, f, h.file)
      | wrote loaded next text x l n small t o ↦
          let same : loaded ≡ rs = (load-stored json a w rs loaded h l).0 in
          elim n [
            | inl (s, e, y, f) ↦ ground (arith, q, o, y)
            | inr (until, c, f, m, e, y) ↦
                let new = pending_of key app_id generation expires_at until in
                let p : new ≡ r = ground (arith, q, o, y) in
                let u : written json w text next ≡ v = ground (arith, q, o) in
                let k : next ≡ prune_records rs now ++ r ∷ [] =
                  e
                  ∙ ap (λ rs. prune_records rs now ++ new ∷ []) same
                  ∙ ap (λ r. prune_records rs now ++ r ∷ []) p in
                let held : IsStored json (written json w text next) next = record {
                  text = text;
                  file = refl;
                  printed = t;
                } in
                (
                  subst
                      (λ rs. has_authorization key.authorization_id (prune_records rs now) ≡ false)
                      same m,
                  subst (λ (x : IssuanceResultRecord). x.key ≡ key) p refl,
                  subst (λ (x : IssuanceResultRecord). now + 86400 ≤ x.retained_until_epoch_seconds)
                      p (omega (arith, check_begin-ok app_id generation expires_at now until c)),
                  subst (λ v. IsStored json v (prune_records rs now ++ r ∷ [])) u
                      (subst (IsStored json (written json w text next)) k held),
                )
          ]
    ]

  -- For any JSON that reads back what it writes: over a file that holds any records, those that no
  -- load accepts or that lack a configuration generation included, once `begin_pending` has
  -- created a record for an authorization, and while all operations happen within the 86400
  -- seconds from then, no second call of `begin_pending` in that time creates a record for the
  -- same authorization id, whichever certificate request, App, process state and intermediate
  -- operations there are.
  pub begin-once :
      (a c : Access) (key other : IssuanceResultKey) (app_id app_id' : Bytes)
      (generation generation' expires_at expires_at' start now : ℕ) (w v u : World json.Text)
      (rs : List IssuanceResultRecord) (r s : IssuanceResultRecord) (es : List Event)
      → IsStored json w rs
      → begin_pending json a key app_id generation expires_at start w ≡ (v, ok (created r))
      → AllBetween start (start + 86400) es
      → other.authorization_id ≡ key.authorization_id
      → start ≤ now
      → now < start + 86400
      → ¬ (
          begin_pending json c other app_id' generation' expires_at' now (after json v es)
          ≡ (u, ok (created s)))
  begin-once a c key other app_id app_id' generation generation' expires_at expires_at' start now w
        v u rs r s es h q t same lo hi q' =
      let (n, k, d, held) = created-next a key app_id generation expires_at start w v rs r h q in
      let (next, held', bound) =
        after-bound es v _ key.authorization_id start held
          (any-last _ (prune_records rs start) r
            (ground (arith, k, d, beq_refl key.authorization_id)))
          t in
      let (n', k', d', held'') =
        created-next c other app_id' generation' expires_at' now (after json v es) u next s held'
          q' in
      let m =
        has_authorization-bound other.authorization_id (start + 86400) now next hi
          (rw same bound) in
      ground (arith, m, n')
