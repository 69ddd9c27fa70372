-- ===== src/Core/Supervisor/Run.antt =====
-- media-shuttle-core/core/queue/worker_process.py, `run_forever`: the start of the workers, what is reported
-- of their end, and the `finally` block that stops them all.
use media_shuttle.Prelude.{
  ℕ, ◌+◌, Option, none, some, List, [], ◌∷◌, map, ℤ, pos, ◌==◌, if◌then◌else◌,
}
use media_shuttle.Py.Text.{Text, str}
use media_shuttle.Py.Exec.{Result, ok, err, Exec, pure, raise, update, ◌>>=◌, ◌>>◌, try_finally}
use media_shuttle.Core.Env.{Env}
use media_shuttle.Core.Contracts.{from_result}
use media_shuttle.Core.Slots.{Slot, resolve_roles, worker_slots, start_command}
use media_shuttle.Core.Supervisor.{
  Waited, exited, interrupted, Host, Running, status_of_code, reason_of_code, signal_reason, poll,
  upsert_worker,
}
use media_shuttle.Core.Supervisor.Waits.{terminate_workers, wait_for_any_exit}

module _ {W : Type 0} (env : Env W) (host : Host W) where
  -- Starts a worker for each slot.
  unfoldable pub boot : List Slot → Exec W (List Running)
  unfolding upsert_worker start_command
  boot [] = pure []
  boot (slot ∷ slots) = do
    upsert_worker env host slot none (str "STARTING") []
    command ← from_result (
        start_command env (some slot.role)
          (record { concurrency = none; hostname = none; queues = none }))
    proc ← host.popen command
    upsert_worker env host slot (some proc) (str "READY") []
    rest ← boot slots
    pure ((slot, proc) ∷ rest)

  -- The slot of the process that ended is reported.
  unfoldable pub report_exit : ℕ → ℤ → List Running → Exec W (Unit {0})
  unfolding upsert_worker status_of_code reason_of_code
  report_exit exited_proc code [] = pure tt
  report_exit exited_proc code ((slot, proc) ∷ started) =
      let rest = report_exit exited_proc code started in
      if proc == exited_proc
      then upsert_worker env host slot (some proc) (status_of_code code) (reason_of_code code)
      else rest

  unfoldable pub report_shutdown : Text → List Running → Exec W (Unit {0})
  unfolding upsert_worker
  report_shutdown reason [] = pure tt
  report_shutdown reason ((slot, proc) ∷ started) = do
    upsert_worker env host slot (some proc) (str "SHUTDOWN") reason
    report_shutdown reason started

  -- The last report of a slot: `shutdown` is the signal, where one came.
  unfoldable pub last_report : Option (Option ℕ) → Slot → ℕ → Option ℤ → Exec W (Unit {0})
  unfolding upsert_worker status_of_code reason_of_code signal_reason
  last_report (some signum) slot proc code =
      upsert_worker env host slot (some proc) (str "SHUTDOWN") (signal_reason env host signum)
  last_report none slot proc none = upsert_worker env host slot (some proc) (str "SHUTDOWN") []
  last_report none slot proc (some code) =
      upsert_worker env host slot (some proc) (status_of_code code) (reason_of_code code)

  unfoldable pub last_reports : Option (Option ℕ) → List Running → Exec W (Unit {0})
  unfolding last_report
  last_reports shutdown [] = pure tt
  last_reports shutdown ((slot, proc) ∷ started) = do
    λ w. last_report shutdown slot proc (poll env host proc w) w
    last_reports shutdown started

  -- The `finally` block.
  unfoldable pub stop_all : Option (Option ℕ) → List Running → Exec W (Unit {0})
  unfolding terminate_workers last_reports
  stop_all shutdown started = do
    update (terminate_workers env host (map (λ r. r.1) started))
    last_reports shutdown started

  -- `128 + signum`
  unfoldable pub code_of_signal : Option ℕ → ℤ
  code_of_signal none = pos 130
  code_of_signal (some signum) = pos (128 + signum)

  -- What the wait ended with, the reports on it and the `finally` block.
  unfoldable pub conclude : Result (Option Waited) → List Running → Exec W (Option ℤ)
  unfolding stop_all report_exit report_shutdown code_of_signal signal_reason
  conclude (err reason) started = do stop_all none started; raise reason
  conclude (ok none) started = pure none
  conclude (ok (some (exited proc code))) started = do
    try_finally (report_exit proc code started) (stop_all none started)
    pure (some code)
  conclude (ok (some (interrupted signum))) started = do
    try_finally (report_shutdown (signal_reason env host signum) started)
        (stop_all (some signum) started)
    pure (some (code_of_signal signum))

  -- The part of `run_forever` under `try`; `none` while no worker ended and no signal came.
  unfoldable pub supervise : ℕ → List Running → Exec W (Option ℤ)
  unfolding wait_for_any_exit conclude
  supervise rounds started w =
      let (waited, w') = wait_for_any_exit env host rounds started w in conclude waited started w'

  unfoldable pub run_forever : ℕ → Exec W (Option ℤ)
  unfolding resolve_roles worker_slots boot supervise
  run_forever rounds = do
    slots ← from_result (worker_slots env (resolve_roles env))
    started ← boot slots
    supervise rounds started
