-- ===== src/Api/Workers/LimitRecords.antt =====
-- The worker records through `admin_rate_limit_action` of media-shuttle-api/app/service.py.
use media_shuttle.Prelude.{◌≡◌, refl, List, All}
use media_shuttle.Py.Text.{Text, str, is_empty, strip}
use media_shuttle.Py.Dict.{Dict}
use media_shuttle.Py.Exec.{ok}
use media_shuttle.Py.Exec.Triple.{Triple-returns}
use media_shuttle.Core.Env.{Env}
use media_shuttle.Core.Model.{Event}
use media_shuttle.Api.Model.{TaskRecord}
use media_shuttle.Api.Control.{WorkerControl}
use media_shuttle.Api.Store.{Api}
use media_shuttle.Api.Workers.{ActionReply, refused}
use media_shuttle.Api.Workers.Gives.{
  IsSound, Kept, Gives, Any, Gives-pure, Gives-bind, Gives-if, Gives-in_control, Gives-utc_now_iso,
  Gives-upsert_worker, Gives-known_worker,
}
use media_shuttle.Api.Workers.Limits.{
  resolve_task_name, note_limit, set_limit, admin_rate_limit_action,
}

module _ {W : Type 0} (env : Env W) (control : WorkerControl W) (tasks : Dict TaskRecord)
    (events : List Event) where
  Gives-note_limit :
      (worker task_name rate_limit : Text)
      → Gives tasks events Any (note_limit env control worker task_name rate_limit)
  unfolding note_limit
  Gives-note_limit worker task_name rate_limit =
      Gives-bind _ _ (Gives-known_worker env control worker) λ current h.
        Gives-bind _ _ (Gives-utc_now_iso env) λ now _.
          Gives-upsert_worker env _ (record { own_name = refl; busy = h.busy; wanted = h.wanted })

  Gives-set_limit :
      (worker task_type task_name rate_limit : Text)
      → Gives tasks events Any (set_limit env control worker task_type task_name rate_limit)
  unfolding set_limit
  Gives-set_limit worker task_type task_name rate_limit =
      Gives-bind _ _ (Gives-in_control env control _) λ out _.
        Gives-bind _ _
          (Gives-if out.accepted _ _ (Gives-note_limit worker task_name rate_limit)
            (Gives-pure tt tt))
          λ _ _. Gives-pure _ tt

  Gives-admin_rate_limit_action :
      (worker task_type rate_limit : Text)
      → Gives tasks events Any (admin_rate_limit_action env control worker task_type rate_limit)
  unfolding admin_rate_limit_action
  Gives-admin_rate_limit_action worker task_type rate_limit =
      let task_name = resolve_task_name (strip task_type) in
      Gives-if (is_empty (strip worker)) _ _ (Gives-pure (refused (str "worker_required")) tt) (
        Gives-if (is_empty task_name) _ _ (Gives-pure (refused (str "task_type_required")) tt) (
          Gives-if (is_empty rate_limit) _ _ (Gives-pure (refused (str "rate_limit_required")) tt)
            (Gives-set_limit (strip worker) (strip task_type) task_name rate_limit)))

module _ {W : Type 0} (env : Env W) (control : WorkerControl W) where
  -- A rate limit is set without an exception, whatever the control answers. It leaves the tasks and
  -- the events alone, and every worker record under its own name with at least one slot, had and
  -- desired, if they all were so before.
  pub admin_rate_limit_action-Kept :
      (worker task_type rate_limit : Text) (a : Api W)
      → All IsSound a.workers
      → (reply : ActionReply) × (a' : Api W) × (admin_rate_limit_action env control worker task_type
            rate_limit a
          ≡ (ok reply, a'))
        × Kept a.tasks a.events a'
  admin_rate_limit_action-Kept worker task_type rate_limit a h =
      let (reply, a', e, k) =
        Triple-returns _
          (Gives-admin_rate_limit_action env control a.tasks a.events worker task_type rate_limit) a
          (record { sound = h; same_tasks = refl; same_events = refl }) in
      (reply, a', e, k.0)
