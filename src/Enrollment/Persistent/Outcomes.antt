-- ===== src/Enrollment/Persistent/Outcomes.antt =====
-- src/allowlist.rs, lines 60 to 267: how an operation on the persistent allowlist ends.
use herdr_dog_relay.Prelude.{
  ◌≡◌, inl, inr, refl, Option, none, some, Result, ok, err, map_err, arith, Result-cases,
  ok-injective,
}
use herdr_dog_relay.Prelude.Actions.{read-ends, write-ends}
use herdr_dog_relay.RelayError.{RelayError}
use herdr_dog_relay.Material.{
  Access, Json, allowlist, max_allowlist_bytes, read_protected_file, write_protected_file,
}
use herdr_dog_relay.Material.Files.{read-held}
use herdr_dog_relay.Enrollment.{EnrollmentError}
use herdr_dog_relay.Enrollment.Allowlist.{AllowlistRegistry, create}
use herdr_dog_relay.Enrollment.Persistent.{
  World, load_registry, persisted_text, publish, transact, reload, replace, open_locked, open_store,
}

map_err-ok : {E F A : Type 0} (r : Result E A) (f : F) {a : A} → map_err r f ≡ ok a → r ≡ ok a
map_err-ok r f h = ground arith

module _ (json : Json AllowlistRegistry) where
  -- The file holds this registry.
  pub record Holds (file : Option json.Text) (r : AllowlistRegistry) : Type 0 where
    pub text : json.Text
    pub there : file ≡ some text
    pub printed : json.to_vec r ≡ some text

  pub load-held :
      (a : Access) (w : World json.Text) (r s : AllowlistRegistry)
      → Holds w.file r
      → load_registry json a w ≡ ok s
      → s ≡ r
  unfolding load_registry
  load-held a w r s h l =
      elim (Result-cases (
        read_protected_file json.size a w.file w.store.expected_uid allowlist
          max_allowlist_bytes)) [
            | inl (text, q) ↦ ground (
              arith,
              read-held json.size a w.file _ allowlist _ text q,
              h.there,
              json.from_slice-to_vec r h.text h.printed,
            )
            | inr (e, q) ↦ ground arith
          ]

  pub persisted-held :
      (a : Access) (w : World json.Text) (r : AllowlistRegistry) (text : json.Text)
      → persisted_text json a r w ≡ ok text
      → json.to_vec r ≡ some text
  unfolding persisted_text write_protected_file
  persisted-held a w r text h = ground arith

  -- A transaction fails and changes nothing, or the file and the process get what it makes of the
  -- registry that the file held.
  pub data Transacted {A : Type 0} (a : Access) (w : World json.Text)
      (op : AllowlistRegistry → AllowlistRegistry × Result EnrollmentError A)
      (out : World json.Text × Result EnrollmentError A) : Type 0 where
    failed : (e : EnrollmentError) → out ≡ (w, err e) → Transacted a w op out
    published :
        (r : AllowlistRegistry) (x : A) (text : json.Text)
        → load_registry json a w ≡ ok r
        → (op r).1 ≡ ok x
        → json.to_vec (op r).0 ≡ some text
        → out ≡ (publish json text (op r).0 w, ok x)
        → Transacted a w op out

  pub transact_cases :
      {A : Type 0} (a : Access) (w : World json.Text)
      (op : AllowlistRegistry → AllowlistRegistry × Result EnrollmentError A)
      → Transacted a w op (transact json a op w)
  unfolding transact
  transact_cases a w op =
      read-ends (Transacted a w op) _ _ w (λ e q. failed e refl)
        (λ _ _.
          read-ends (Transacted a w op) _ _ w (λ e q. failed e refl)
            (λ r l.
              read-ends (Transacted a w op) _ _ w (λ e q. failed e refl)
                (λ x o.
                  read-ends (Transacted a w op) _ _ w (λ e q. failed e refl)
                    (λ text t. write-ends (Transacted a w op) _ _ w (
                      published r x text (map_err-ok _ _ l) o
                        (persisted-held a w _ text (map_err-ok _ _ t)) refl)))))

  -- `replace` fails and changes nothing, or the file and the process get the registry.
  pub data Replaced (a : Access) (w : World json.Text) (r : AllowlistRegistry)
      (out : World json.Text × Result RelayError (Unit {0})) : Type 0 where
    refused : (e : RelayError) → out ≡ (w, err e) → Replaced a w r out
    replaced :
        (text : json.Text)
        → json.to_vec r ≡ some text
        → out ≡ (publish json text r w, ok tt)
        → Replaced a w r out

  pub replace_cases :
      (a : Access) (w : World json.Text) (r : AllowlistRegistry)
      → Replaced a w r (replace json a r w)
  unfolding replace
  replace_cases a w r =
      read-ends (Replaced a w r) _ _ w (λ e q. refused e refl)
        (λ _ _.
          read-ends (Replaced a w r) _ _ w (λ e q. refused e refl)
            (λ _ _.
              read-ends (Replaced a w r) _ _ w (λ e q. refused e refl)
                (λ text t. replaced text (persisted-held a w r text t) refl)))

  -- `reload` and `open` fail and change nothing, or the process gets the registry of the file, or
  -- the file is made with a new registry.
  pub data Loaded (a : Access) (w : World json.Text)
      (out : World json.Text × Result RelayError (Unit {0})) : Type 0 where
    stopped : (e : RelayError) → out ≡ (w, err e) → Loaded a w out
    loaded :
        (r : AllowlistRegistry)
        → load_registry json a w ≡ ok r
        → out ≡ (record w { store = record w.store { registry = r } }, ok tt)
        → Loaded a w out
    began :
        (text : json.Text)
        → w.file ≡ none
        → json.to_vec create ≡ some text
        → out ≡ (publish json text create w, ok tt)
        → Loaded a w out

  pub reload_cases : (a : Access) (w : World json.Text) → Loaded a w (reload json a w)
  unfolding reload
  reload_cases a w =
      read-ends (Loaded a w) _ _ w (λ e q. stopped e refl)
        (λ _ _. read-ends (Loaded a w) _ _ w (λ e q. stopped e refl) (λ r l. loaded r l refl))

  open_then :
      (a : Access) (w : World json.Text) (there : Option json.Text)
      → w.file ≡ there
      → Loaded a w (open_locked json a there w)
  unfolding open_locked
  open_then a w none h =
      read-ends (Loaded a w) _ _ w (λ e q. stopped e refl)
        (λ text t. began text h (persisted-held a w _ text t) refl)
  open_then a w (some text) h =
      read-ends (Loaded a w) _ _ w (λ e q. stopped e refl) (λ r l. loaded r l refl)

  pub open_cases : (a : Access) (w : World json.Text) → Loaded a w (open_store json a w)
  unfolding open_store
  open_cases a w =
      read-ends (Loaded a w) _ _ w (λ e q. stopped e refl)
        (λ _ _.
          read-ends (Loaded a w) _ _ w (λ e q. stopped e refl)
            (λ _ _.
              read-ends (Loaded a w) _ _ w (λ e q. stopped e refl)
                (λ there h. open_then a w there (ok-injective h))))
