-- ===== src/Enrollment/Worker.antt =====
-- src/enrollment.rs, lines 1152 to 1267: the update worker's lock.
use herdr_dog_relay.Prelude.{
  ℕ, ◌≡◌, ◌≢◌, Bool, true, false, not, Result, ok, err, Bytes, arith, if◌then◌else◌,
}
use herdr_dog_relay.Enrollment.{EnrollmentError, update_unauthorized, update_busy, Fingerprint}
use herdr_dog_relay.Enrollment.Allowlist.{AllowlistRegistry, authorize_update_at, allows_qrm_at}
use herdr_dog_relay.Enrollment.Allowlist.Admission.{authorize_update_at-allows_qrm_at}

pub data UpdateSelector : Type 0 where
  stable_latest : UpdateSelector

pub record UpdateRequest : Type 0 where
  pub request_id : Bytes
  pub selector : UpdateSelector
  pub caller : Fingerprint

pub data UpdateStatus : Type 0 where
  running succeeded failed unknown : UpdateStatus

pub record FakeUpdateWorker : Type 0 where
  pub is_running : Bool
  pub next : UpdateStatus

-- `FakeUpdateWorker::new` and `default`
abbrev pub create : FakeUpdateWorker
create = record { is_running = false; next = succeeded }

abbrev pub set_next : FakeUpdateWorker → UpdateStatus → FakeUpdateWorker
set_next w next = record w { next = next }

-- The only selector passes the first test.
abbrev pub is_stable_latest : UpdateSelector → Bool
is_stable_latest stable_latest = true

unfoldable pub start_at :
    FakeUpdateWorker
    → UpdateRequest
    → AllowlistRegistry
    → ℕ
    → FakeUpdateWorker × Result EnrollmentError UpdateStatus
start_at w q allowlist now =
    if not (is_stable_latest q.selector)
    then (w, err update_unauthorized)
    else elim (authorize_update_at allowlist q.caller now) [
      | err e ↦ (w, err e)
      | ok _ ↦
          if w.is_running
          then (w, err update_busy)
          else (record w { is_running = true }, ok running)
    ]

unfoldable pub complete : FakeUpdateWorker → FakeUpdateWorker × Result EnrollmentError UpdateStatus
complete w =
    if w.is_running then (record w { is_running = false }, ok w.next) else (w, err update_busy)

-- An update starts exactly if the caller's certificate is admitted and none is running; a caller
-- that is not admitted is refused as unauthorized and any other as busy, and both change nothing.
pub start_at-cases :
    (w : FakeUpdateWorker) (q : UpdateRequest) (allowlist : AllowlistRegistry) (now : ℕ)
    → start_at w q allowlist now ≡ (
        if allows_qrm_at allowlist q.caller now
        then if w.is_running
          then (w, err update_busy)
          else (record w { is_running = true }, ok running)
        else (w, err update_unauthorized))
unfolding start_at
start_at-cases w q allowlist now =
    ground (arith, authorize_update_at-allows_qrm_at allowlist q.caller now)

-- After an update has started, any other attempt to start, by any caller under any allowlist at
-- any time, does not start and changes nothing, and completing the update answers the configured
-- result and puts the worker back to its state before the start.
pub start_at-exclusive :
    (w : FakeUpdateWorker) (q other : UpdateRequest) (allowlist allowlist' : AllowlistRegistry)
    (now later : ℕ)
    → (start_at w q allowlist now).1 ≡ ok running
    → let w' = (start_at w q allowlist now).0 in
      ((start_at w' other allowlist' later).0 ≡ w')
      × ((start_at w' other allowlist' later).1 ≢ ok running)
      × (complete w' ≡ (w, ok w.next))
unfolding start_at complete
start_at-exclusive w q other allowlist allowlist' now later h = ground arith
