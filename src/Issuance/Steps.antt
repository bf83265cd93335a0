-- ===== src/Issuance/Steps.antt =====
-- src/issuance.rs, lines 277 to 634: how each event ends.
use herdr_dog_relay.Prelude.{
  ℕ, ◌≡◌, inl, inr, refl, List, Option, some, Result, ok, nat_ord, fail_if-ok,
}
use herdr_dog_relay.Prelude.Actions.{read, returns, ◌>>=◌, ◌>>◌}
use herdr_dog_relay.RelayError.{RelayError}
use herdr_dog_relay.Material.{Access, Json}
use herdr_dog_relay.Issuance.{IssuanceResultKey, IssuanceResultRecord, PersistedIssuanceResults}
use herdr_dog_relay.Issuance.Records.{
  find_key, check_material, attach_record, issue_record, reject_record,
}
use herdr_dog_relay.Issuance.Store.{
  World, Operation, update_record, attach_certificate, mark_issued, mark_rejected, find_record,
  find_by_authorization_id,
}
use herdr_dog_relay.Issuance.Outcomes.{
  Outcome, failed, read_only, wrote, started, read_then, map_then, update_cases, refresh_cases,
  open_cases, begin_cases,
}
use herdr_dog_relay.Issuance.Events.{
  Event, opens, finds, finds_by_id, begins, attaches, issues, rejects, Answer, found, began,
  updated, time, access, Decided, by_attach, by_issue, by_reject, prunes, adds, updates, StepOf,
  stays, steps, perform,
}

module _ (json : Json PersistedIssuanceResults) where
  weaken :
      {A : Type 0} {a : Access} {w : World json.Text}
      {Next Next' : List IssuanceResultRecord → List IssuanceResultRecord → A → Type 0}
      {Silent : A → Type 0} (m : Operation json A)
      → ((loaded next : List IssuanceResultRecord) (x : A)
          → Next loaded next x
          → Next' loaded next x)
      → Outcome json a w Next Silent m
      → Outcome json a w Next' (λ _. Unit) m
  weaken m f (failed e h) = failed e h
  weaken m f (read_only v x h k i) = read_only v x h k tt
  weaken m f (wrote loaded next text x l n small t h) =
      wrote loaded next text x l (f loaded next x n) small t h
  weaken m f (started text x e t h) = started text x e t h

  -- An operation with its answer wrapped, where it takes a step of the event.
  answer_then :
      {A : Type 0} {a : Access} {w : World json.Text}
      {Next : List IssuanceResultRecord → List IssuanceResultRecord → A → Type 0}
      {Silent : A → Type 0} (e : Event) (m : Operation json A) (g : A → Answer)
      → ((loaded next : List IssuanceResultRecord) (x : A)
          → Next loaded next x
          → StepOf e loaded next)
      → Outcome json a w Next Silent m
      → Outcome json a w
          (λ loaded next x. StepOf e loaded next)
          (λ _. Unit)
          (m >>= λ x. returns (g x))
  answer_then e m g f o =
      weaken _ (λ loaded next y (x, n, q). f loaded next x n) (map_then json m g o)

  update_then :
      (e : Event) (a : Access) (key : IssuanceResultKey) (now : ℕ) (w : World json.Text)
      (check : Result RelayError (Unit {0}))
      (decide : IssuanceResultRecord → Result RelayError (Option IssuanceResultRecord))
      → time e ≡ some now
      → (check ≡ ok tt
          → (r s : IssuanceResultRecord) → decide r ≡ ok (some s)
          → Decided e key now r s)
      → Outcome json a w
          (λ loaded next x. StepOf e loaded next)
          (λ _. Unit)
          (read (λ _. check) >> update_record json a key now decide)
  update_then e a key now w check decide t d = read_then json _ _ (λ _ c.
      weaken _ (λ loaded next s (r, f, k, q). steps now t (updates key r s f (d c r s k) q))
        (update_cases json a key now decide w))

  pub perform_cases :
      (e : Event) (w : World json.Text)
      → Outcome json
          (access e)
          w
          (λ loaded next x. StepOf e loaded next)
          (λ _. Unit)
          (perform json e)
  unfolding perform find_record find_by_authorization_id attach_certificate mark_issued
      mark_rejected
  perform_cases (opens a) w = answer_then _ _ _ (λ loaded next x n. stays n) (open_cases json a w)
  perform_cases (finds a key now) w =
      answer_then _ _ found (λ loaded next x (records, n, q). steps now refl (prunes n.0))
        (map_then json _ (find_key key) (refresh_cases json a now w))
  perform_cases (finds_by_id a id now) w =
      answer_then _ _ found (λ loaded next x (records, n, q). steps now refl (prunes n.0))
        (map_then json _ _ (refresh_cases json a now w))
  perform_cases (begins a key b app_id generation expires_at now) w =
      answer_then _ _ began
        (λ loaded next x n. elim n [
          | inl (r, q, y, f) ↦ steps now refl (prunes q)
          | inr (until, c, f, n, q, y) ↦
              steps now refl (adds a key b app_id generation expires_at until refl c f n q)
        ])
        (begin_cases json a key app_id generation expires_at now w)
  perform_cases (attaches a key m now) w =
      answer_then _ _ updated (λ loaded next x n. n)
        (update_then (attaches a key m now) a key now w (check_material m) (attach_record m) refl
          (λ c r s d. by_attach a m refl c d))
  perform_cases (issues a key m now) w =
      answer_then _ _ updated (λ loaded next x n. n)
        (update_then (issues a key m now) a key now w (check_material m) (issue_record m now) refl
          (λ c r s d. by_issue a m refl c d))
  perform_cases (rejects a key code now) w =
      answer_then _ _ updated (λ loaded next x n. n)
        (update_then (rejects a key code now) a key now w _ (reject_record code now) refl
          (λ c r s d. by_reject a code refl (fail_if-ok _ _ c) d))
