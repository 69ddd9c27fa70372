-- ===== src/Core/Supervisor/Reports.antt =====
-- What the supervisor's reports to the registry keep, if the registry does.
use media_shuttle.Prelude.{
  ℕ, ◌+◌, ◌≡◌, refl, inl, inr, Option, none, some, List, [], ◌∷◌, Bool, true, false, leb, ℤ,
  Option-cases, Bool-cases, if◌then◌else◌,
}
use media_shuttle.Py.Text.{Text, str}
use media_shuttle.Py.Exec.{Exec}
use media_shuttle.Py.Exec.Keeps.{Keeps, Keeps-pure, Keeps-bind, Keeps-gets}
use media_shuttle.Core.Env.{Env}
use media_shuttle.Core.Workers.{Report}
use media_shuttle.Core.Slots.{Slot, worker_registry_enabled}
use media_shuttle.Core.Supervisor.{Host, Running, build_worker_registry, upsert_with, upsert_worker}
use media_shuttle.Core.Supervisor.Waits.{report_running, tick}
use media_shuttle.Core.Supervisor.Run.{last_report, last_reports}

module _ {W : Type 0} (env : Env W) (host : Host W) (Inv : W → Type 0)
    (kept : (upsert : Report → Exec W (Unit {0})) (report : Report)
      → host.mongo_upsert ≡ some upsert
      → Keeps Inv (upsert report)) where
  own_registry :
      (upsert : Report → Exec W (Unit {0}))
      → build_worker_registry env host ≡ some upsert
      → host.mongo_upsert ≡ some upsert
  unfolding build_worker_registry
  own_registry upsert e = opened (worker_registry_enabled env) host.mongo_upsert e
    where
      opened :
          (b : Bool) (o : Option (Report → Exec W (Unit {0})))
          → (if b then o else none) ≡ some upsert
          → o ≡ some upsert
      opened true o e = e
      opened false o e = cc e

  upsert_with-Keeps :
      (o : Option (Report → Exec W (Unit {0}))) (report : Report)
      → ((upsert : Report → Exec W (Unit {0})) → o ≡ some upsert → host.mongo_upsert ≡ some upsert)
      → Keeps Inv (upsert_with env host o report)
  unfolding upsert_with
  upsert_with-Keeps none report own = Keeps-pure tt
  upsert_with-Keeps (some upsert) report own = kept upsert report (own upsert refl)

  pub upsert_worker-Keeps :
      (slot : Slot) (proc : Option ℕ) (status reason : Text)
      → Keeps Inv (upsert_worker env host slot proc status reason)
  unfolding upsert_worker
  upsert_worker-Keeps slot proc status reason = record {
    at = λ w held. (upsert_with-Keeps _ _ own_registry).at w held;
  }

  last_report-Keeps :
      (shutdown : Option (Option ℕ)) (slot : Slot) (proc : ℕ) (code : Option ℤ)
      → Keeps Inv (last_report env host shutdown slot proc code)
  unfolding last_report
  last_report-Keeps (some signum) slot proc code = upsert_worker-Keeps slot _ _ _
  last_report-Keeps none slot proc none = upsert_worker-Keeps slot _ _ _
  last_report-Keeps none slot proc (some code) = upsert_worker-Keeps slot _ _ _

  pub last_reports-Keeps :
      (shutdown : Option (Option ℕ)) (started : List Running)
      → Keeps Inv (last_reports env host shutdown started)
  unfolding last_reports
  last_reports-Keeps shutdown [] = Keeps-pure tt
  last_reports-Keeps shutdown ((slot, proc) ∷ started) =
      Keeps-bind _ _
        (record {
          at = λ w held.
              (last_report-Keeps shutdown slot proc (host.processes.poll proc w)).at w held;
        })
        (λ _. last_reports-Keeps shutdown started)

  report_running-Keeps : (started : List Running) → Keeps Inv (report_running env host started)
  unfolding report_running
  report_running-Keeps [] = Keeps-pure tt
  report_running-Keeps ((slot, proc) ∷ started) = record {
    at = λ w held. elim (Option-cases (host.processes.poll proc w)) [
      | inl running ↦
          rw (running, report_running)
            ((Keeps-bind _ _ (upsert_worker-Keeps slot (some proc) (str "READY") [])
                (λ _. report_running-Keeps started)).at
              w held)
      | inr (code, e) ↦ rw (e, report_running) ((report_running-Keeps started).at w held)
    ];
  }

  pub tick-Keeps :
      (started : List Running) (last_tick : ℕ) → Keeps Inv (tick env host started last_tick)
  unfolding tick
  tick-Keeps started last_tick = record {
    at = λ w held. elim (Bool-cases (leb (last_tick + 50) (host.monotonic w))) [
      | inl due ↦ rw due (
          (Keeps-bind _ _ (report_running-Keeps started)
              (λ _. Keeps-bind _ _ (Keeps-gets host.monotonic) (λ now. Keeps-pure now))).at
            w held)
      | inr early ↦ rw early held
    ];
  }
