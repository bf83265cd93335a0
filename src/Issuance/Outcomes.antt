-- ===== src/Issuance/Outcomes.antt =====
-- src/issuance.rs, lines 277 to 706: how an operation of the ledger ends.
use herdr_dog_relay.Prelude.{
  ℕ, ◌≤◌, ◌≡◌, ◌⊎◌, ◌∙◌, ok_or-ok, ok-injective, fail_if-ok, Bool, inl, inr, refl, List, [], ◌∷◌,
  ◌++◌, Option, none, some, Result, ok, err, Bytes, length, bytes_ord, arith, Result-cases, true,
  false,
}
use herdr_dog_relay.RelayError.{RelayError}
use herdr_dog_relay.Prelude.Actions.{read, returns, ◌>>=◌, ◌>>◌, >>=-ok, >>=-err, read-eq}
use herdr_dog_relay.Material.{Access, Json, write_protected_file}
use herdr_dog_relay.Issuance.{
  IssuanceResultKey, IssuanceResultRecord, IssuanceBeginResult, created, existing,
  PersistedIssuanceResults, prune_records,
}
use herdr_dog_relay.Issuance.Records.{find_key, put_key, pending_of, has_authorization, check_begin}
use herdr_dog_relay.Issuance.Store.{
  World, Operation, persisted_of, load_records, persisted_text, persist_records, keep_records,
  settle, update_record, persist_if, refresh, open_locked, open_store, resume, create,
  resume_or_create, begin_pending,
}

module _ (json : Json PersistedIssuanceResults) where
  -- The world once records were written and kept.
  abbrev pub written : World json.Text → json.Text → List IssuanceResultRecord → World json.Text
  written w text records = record w {
    file = some text;
    ledger = record w.ledger { records = records };
  }

  -- An operation fails and changes nothing, or succeeds without a write to the file with an answer
  -- that is `Silent`, or writes records that are `Next` to those it loaded, or makes the file.
  pub data Outcome {A : Type 0} (a : Access) (w : World json.Text)
      (Next : List IssuanceResultRecord → List IssuanceResultRecord → A → Type 0)
      (Silent : A → Type 0) (m : Operation json A) : Type 0 where
    failed : (e : RelayError) → m w ≡ (w, err e) → Outcome a w Next Silent m
    read_only :
        (v : World json.Text) (x : A)
        → m w ≡ (v, ok x)
        → v.file ≡ w.file
        → Silent x
        → Outcome a w Next Silent m
    wrote :
        (loaded next : List IssuanceResultRecord) (text : json.Text) (x : A)
        → load_records json a w ≡ ok loaded
        → Next loaded next x
        → length next ≤ 256
        → json.to_vec (persisted_of next) ≡ some text
        → m w ≡ (written w text next, ok x)
        → Outcome a w Next Silent m
    started :
        (text : json.Text) (x : A)
        → w.file ≡ none
        → json.to_vec (persisted_of []) ≡ some text
        → m w ≡ (written w text [], ok x)
        → Outcome a w Next Silent m

  persisted_text-ok :
      (a : Access) (uid : ℕ) (records : List IssuanceResultRecord) (text : json.Text)
      → persisted_text json a uid records ≡ ok text
      → (length records ≤ 256) × (json.to_vec (persisted_of records) ≡ some text)
  unfolding persisted_text write_protected_file
  persisted_text-ok a uid records text h = ground arith

  persisted : Access → List IssuanceResultRecord → Operation json json.Text
  persisted a next = read (λ w. persisted_text json a w.ledger.expected_uid next)

  persist-ok :
      (a : Access) (w : World json.Text) (next : List IssuanceResultRecord) (text : json.Text)
      → persisted_text json a w.ledger.expected_uid next ≡ ok text
      → persist_records json a next w ≡ (record w { file = some text }, ok tt)
  unfolding persist_records persisted
  persist-ok a w next text h = >>=-ok (persisted a next) _ w (read-eq _ w h)

  persist-err :
      (a : Access) (w : World json.Text) (next : List IssuanceResultRecord) (e : RelayError)
      → persisted_text json a w.ledger.expected_uid next ≡ err e
      → persist_records json a next w ≡ (w, err e)
  unfolding persist_records persisted
  persist-err a w next e h = >>=-err (persisted a next) _ w (read-eq _ w h)

  module _ {A : Type 0} {a : Access} {w : World json.Text}
      {Next : List IssuanceResultRecord → List IssuanceResultRecord → A → Type 0}
      {Silent : A → Type 0} where
    -- Operations that end alike.
    pub along :
        (m n : Operation json A) → m w ≡ n w → Outcome a w Next Silent n → Outcome a w Next Silent m
    along m n e (failed f h) = failed f (e ∙ h)
    along m n e (read_only v x h k i) = read_only v x (e ∙ h) k i
    along m n e (wrote loaded next text x l n' small t h) =
        wrote loaded next text x l n' small t (e ∙ h)
    along m n e (started text x f t h) = started text x f t (e ∙ h)

    -- A step that only reads: what follows has its value, or the operation fails.
    pub read_then :
        {B : Type 0} (f : World json.Text → Result RelayError B) (rest : B → Operation json A)
        → ((x : B) → f w ≡ ok x → Outcome a w Next Silent (rest x))
        → Outcome a w Next Silent (read f >>= rest)
    read_then f rest go = elim (Result-cases (f w)) [
      | inl (x, h) ↦ along _ (rest x) (>>=-ok (read f) rest w (read-eq _ w h)) (go x h)
      | inr (e, h) ↦ failed e (>>=-err (read f) rest w (read-eq _ w h))
    ]

    -- The end of an operation that writes its records.
    persist_then :
        (next : List IssuanceResultRecord) (x : A)
        → ((text : json.Text)
            → length next ≤ 256
            → json.to_vec (persisted_of next) ≡ some text
            → (persist_records json a next >> (keep_records json next >> returns x)) w
              ≡ (written w text next, ok x)
            → Outcome a w Next Silent
                (persist_records json a next >> (keep_records json next >> returns x)))
        → Outcome a w Next Silent
            (persist_records json a next >> (keep_records json next >> returns x))
    unfolding ◌>>=◌
    persist_then next x go =
        elim (Result-cases (persisted_text json a w.ledger.expected_uid next)) [
          | inl (text, h) ↦
              let (small, texts) = persisted_text-ok a _ next text h in
              go text small texts
                (>>=-ok (persist_records json a next) _ w (persist-ok a w next text h))
          | inr (e, h) ↦
              failed e (>>=-err (persist_records json a next) _ w (persist-err a w next e h))
        ]

    write_then :
        (loaded next : List IssuanceResultRecord) (x : A)
        → load_records json a w ≡ ok loaded
        → Next loaded next x
        → Outcome a w Next Silent
            (persist_records json a next >> (keep_records json next >> returns x))
    write_then loaded next x l n =
        persist_then next x (λ text small t h. wrote loaded next text x l n small t h)

    -- The end of an operation that writes its records if some were dropped.
    persist_if_then :
        (b : Bool) (loaded next : List IssuanceResultRecord) (x : A)
        → load_records json a w ≡ ok loaded
        → Next loaded next x
        → Silent x
        → Outcome a w Next Silent
            (persist_if json b a next >> (keep_records json next >> returns x))
    unfolding persist_if ◌>>=◌
    persist_if_then true loaded next x l n i = write_then loaded next x l n
    persist_if_then false loaded next x l n i = read_only _ x refl refl i

  -- An operation whose answer is wrapped.
  pub map_then :
      {A B : Type 0} {a : Access} {w : World json.Text}
      {Next : List IssuanceResultRecord → List IssuanceResultRecord → A → Type 0}
      {Silent : A → Type 0} (m : Operation json A) (g : A → B)
      → Outcome a w Next Silent m
      → Outcome a w
          (λ loaded next y. (x : A) × Next loaded next x × (y ≡ g x))
          (λ y. (x : A) × Silent x × (y ≡ g x))
          (m >>= λ x. returns (g x))
  map_then m g (failed e h) = failed e (>>=-err m _ _ h)
  map_then m g (read_only v x h k i) = read_only v (g x) (>>=-ok m _ _ h) k (x, i, refl)
  map_then m g (wrote loaded next text x l n small t h) =
      wrote loaded next text (g x) l (x, n, refl) small t (>>=-ok m _ _ h)
  map_then m g (started text x f t h) = started text (g x) f t (>>=-ok m _ _ h)

  abbrev pub UpdateNext :
      IssuanceResultKey
      → ℕ
      → (IssuanceResultRecord → Result RelayError (Option IssuanceResultRecord))
      → List IssuanceResultRecord
      → List IssuanceResultRecord
      → IssuanceResultRecord
      → Type 0
  UpdateNext key now decide loaded next s =
      (r : IssuanceResultRecord) × (find_key key (prune_records loaded now) ≡ some r)
      × (decide r ≡ ok (some s))
      × (next ≡ put_key key s (prune_records loaded now))

  -- The record of the key is answered as it is.
  abbrev pub UpdateSilent :
      Access
      → World json.Text
      → IssuanceResultKey
      → ℕ
      → (IssuanceResultRecord → Result RelayError (Option IssuanceResultRecord))
      → IssuanceResultRecord
      → Type 0
  UpdateSilent a w key now decide r =
      (loaded : List IssuanceResultRecord) × (load_records json a w ≡ ok loaded)
      × (find_key key (prune_records loaded now) ≡ some r)
      × (decide r ≡ ok none)

  settle_then :
      (a : Access) (key : IssuanceResultKey) (now : ℕ)
      (decide : IssuanceResultRecord → Result RelayError (Option IssuanceResultRecord))
      (w : World json.Text) (loaded : List IssuanceResultRecord) (r : IssuanceResultRecord)
      (decision : Option IssuanceResultRecord)
      → load_records json a w ≡ ok loaded
      → find_key key (prune_records loaded now) ≡ some r
      → decide r ≡ ok decision
      → Outcome a w
          (UpdateNext key now decide)
          (UpdateSilent a w key now decide)
          (settle json a key (prune_records loaded now) r decision)
  unfolding settle
  settle_then a key now decide w loaded r none l f d = read_only w r refl refl (loaded, l, f, d)
  settle_then a key now decide w loaded r (some s) l f d = write_then loaded _ s l (r, f, d, refl)

  pub update_cases :
      (a : Access) (key : IssuanceResultKey) (now : ℕ)
      (decide : IssuanceResultRecord → Result RelayError (Option IssuanceResultRecord))
      (w : World json.Text)
      → Outcome a w
          (UpdateNext key now decide)
          (UpdateSilent a w key now decide)
          (update_record json a key now decide)
  unfolding update_record
  update_cases a key now decide w = read_then _ _ (λ _ locked. read_then _ _ (λ loaded l.
      read_then _ _ (λ r f.
        read_then _ _
          (λ decision d. settle_then a key now decide w loaded r decision l (ok_or-ok _ _ f) d))))

  abbrev pub RefreshNext :
      ℕ → List IssuanceResultRecord → List IssuanceResultRecord → List IssuanceResultRecord → Type 0
  RefreshNext now loaded next records =
      (next ≡ prune_records loaded now) × (records ≡ prune_records loaded now)

  pub refresh_cases :
      (a : Access) (now : ℕ) (w : World json.Text)
      → Outcome a w (RefreshNext now) (λ _. Unit) (refresh json a now)
  unfolding refresh
  refresh_cases a now w =
      read_then _ _
        (λ _ locked. read_then _ _ (λ loaded l. persist_if_then _ loaded _ _ l (refl, refl) tt))

  abbrev pub OpenNext : List IssuanceResultRecord → List IssuanceResultRecord → Unit {0} → Type 0
  OpenNext loaded next _ = next ≡ loaded

  open_then :
      (a : Access) (w : World json.Text) (there : Option json.Text)
      → w.file ≡ there
      → Outcome a w OpenNext (λ _. Unit) (open_locked json a there)
  unfolding open_locked
  open_then a w none e = persist_then [] tt (λ text small t h. started text tt e t h)
  open_then a w (some text) e = read_then _ _ (λ loaded l. read_only _ tt refl refl tt)

  pub open_cases :
      (a : Access) (w : World json.Text) → Outcome a w OpenNext (λ _. Unit) (open_store json a)
  unfolding open_store
  open_cases a w = read_then _ _ (λ _ p.
      read_then _ _ (λ _ locked. read_then _ _ (λ there h. open_then a w there (ok-injective h))))

  -- The answer that a record is there.
  abbrev pub IsExisting : IssuanceBeginResult → Type 0
  IsExisting x = (r : IssuanceResultRecord) × (x ≡ existing r)

  -- What `begin_pending` did: it resumed a record of the key, or added one for it.
  abbrev pub BeginNext :
      IssuanceResultKey
      → Bytes
      → ℕ
      → ℕ
      → ℕ
      → List IssuanceResultRecord
      → List IssuanceResultRecord
      → IssuanceBeginResult
      → Type 0
  BeginNext key app_id generation expires_at now loaded next x =
      ((r : IssuanceResultRecord) × (next ≡ prune_records loaded now)
        × (x ≡ existing r)
        × (find_key key next ≡ some r))
      ⊎ ((until : ℕ) × (check_begin app_id generation expires_at now ≡ ok until)
          × (find_key key (prune_records loaded now) ≡ none)
          × (has_authorization key.authorization_id (prune_records loaded now) ≡ false)
          × (next
              ≡ prune_records loaded now ++ pending_of key app_id generation expires_at until ∷ [])
          × (x ≡ created (pending_of key app_id generation expires_at until)))

  module _ (a : Access) (key : IssuanceResultKey) (app_id : Bytes)
      (generation expires_at until now : ℕ) (w : World json.Text)
      (loaded : List IssuanceResultRecord) (l : load_records json a w ≡ ok loaded)
      (c : check_begin app_id generation expires_at now ≡ ok until) where
    loaded_then :
        (found : Option IssuanceResultRecord)
        → find_key key (prune_records loaded now) ≡ found
        → Outcome a w (BeginNext key app_id generation expires_at now) IsExisting (
            resume_or_create json a app_id generation now loaded
              (pending_of key app_id generation expires_at until)
              found)
    unfolding resume create pending_of
    loaded_then (some r) f =
        read_then _ _ (λ _ k. persist_if_then _ loaded _ _ l (inl (r, refl, refl, f)) (r, refl))
    loaded_then none f = read_then _ _ (λ _ k.
        read_then _ _
          (λ _ n. write_then loaded _ _ l (inr (until, c, f, fail_if-ok _ _ k, refl, refl))))

  pub begin_cases :
      (a : Access) (key : IssuanceResultKey) (app_id : Bytes) (generation expires_at now : ℕ)
      (w : World json.Text)
      → Outcome a w
          (BeginNext key app_id generation expires_at now)
          IsExisting
          (begin_pending json a key app_id generation expires_at now)
  unfolding begin_pending
  begin_cases a key app_id generation expires_at now w = read_then _ _ (λ until c.
      read_then _ _ (λ _ locked.
        read_then _ _ (λ loaded l.
          loaded_then a key app_id generation expires_at until now w loaded l c _ refl)))
