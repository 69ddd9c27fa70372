-- ===== src/Api/Workers/Records.antt =====
-- The worker records through the operators' actions of media-shuttle-api/app/service.py.
use media_shuttle.Prelude.{
  ℕ, ◌≡◌, refl, Option, none, some, List, [], ◌∷◌, arith, All, ℤ, at_least_one-pos, is_some, not,
}
use media_shuttle.Py.Text.{Text, str, text_in, is_empty, or_text, strip, lower}
use media_shuttle.Py.Dict.{Dict}
use media_shuttle.Py.Dict.Every.{OfEntry}
use media_shuttle.Py.Exec.{ok}
use media_shuttle.Py.Exec.Triple.{Triple-returns}
use media_shuttle.Core.Env.{Env}
use media_shuttle.Core.Model.{Event}
use media_shuttle.Api.Model.{TaskRecord, WorkerRecord}
use media_shuttle.Api.Control.{WorkerControl}
use media_shuttle.Api.Store.{Api}
use media_shuttle.Api.Workers.{
  ActionReply, blank_worker, note_command, send_command, shut_down, or_queued, note_queue,
  add_queue_of, note_concurrency, note_wish, adjust, act_on, admin_worker_action, refused,
}
use media_shuttle.Api.Workers.Gives.{
  IsSound, Kept, Gives, Any, Gives-pure, Gives-bind, Gives-if, Gives-in_control, Gives-utc_now_iso,
  Gives-get_worker, Gives-upsert_worker, Gives-patch_worker, Gives-new_worker, Gives-known_worker,
}

module _ {W : Type 0} (env : Env W) (control : WorkerControl W) (tasks : Dict TaskRecord)
    (events : List Event) where
  Gives-note_command :
      (node role action : Text) (desired : ℤ)
      → Gives tasks events Any (note_command env control node role action desired)
  unfolding note_command
  Gives-note_command node role action desired =
      Gives-bind _ _ (Gives-known_worker env control _) λ current h.
        Gives-bind _ _ (Gives-utc_now_iso env) λ now _.
          Gives-upsert_worker env _
            (record { own_name = refl; busy = h.busy; wanted = at_least_one-pos desired })

  Gives-send_command :
      (node role action : Text) (desired : ℤ) (queue : Text)
      → Gives tasks events Any (send_command env control node role action desired queue)
  unfolding send_command
  Gives-send_command node role action desired queue =
      Gives-bind _ _ (Gives-in_control env control _) λ out _.
        Gives-bind _ _
          (Gives-if out.accepted _ _ (Gives-note_command node role action desired)
            (Gives-pure tt tt))
          λ _ _. Gives-pure _ tt

  Gives-shut_down :
      (worker queue : Text) (desired : ℤ) (current : WorkerRecord)
      → IsSound (worker, current)
      → Gives tasks events Any (shut_down env control worker queue desired current)
  unfolding shut_down
  Gives-shut_down worker queue desired current h =
      Gives-bind _ _ (Gives-in_control env control _) λ out _.
        Gives-bind _ _
          (Gives-if out.accepted _ _
            (Gives-bind _ _ (Gives-utc_now_iso env) λ heartbeat _.
              Gives-bind _ _ (Gives-utc_now_iso env) λ updated _.
                Gives-upsert_worker env _
                  (record { own_name = refl; busy = h.busy; wanted = h.wanted }))
            (Gives-pure tt tt))
          λ _ _. Gives-pure _ tt

  Gives-or_queued :
      (worker : Text) (queues : List Text) (o : Option WorkerRecord)
      → OfEntry IsSound worker o
      → Gives tasks events (λ r. IsSound (worker, r)) (or_queued env control worker queues o)
  unfolding or_queued
  Gives-or_queued worker queues (some r) h = Gives-pure r h
  Gives-or_queued worker queues none h =
      Gives-bind _ _ (Gives-new_worker env control worker)
        λ fresh h. Gives-pure _ (record { own_name = h.own_name; busy = h.busy; wanted = h.wanted })

  Gives-note_queue :
      (worker queue : Text) (current : WorkerRecord)
      → Gives tasks events (λ r. IsSound (worker, r)) (note_queue env control worker queue current)
  unfolding note_queue
  Gives-note_queue worker queue current = Gives-bind _ _ (Gives-utc_now_iso env) λ now _.
      Gives-bind _ _
        (Gives-patch_worker env worker _
          (λ r h. record { own_name = h.own_name; busy = h.busy; wanted = h.wanted }))
        λ _ _. Gives-bind _ _ (Gives-get_worker env worker) (Gives-or_queued worker _)

  Gives-note_concurrency :
      (worker : Text) (desired : ℤ) (after : Option ℕ) (current : WorkerRecord)
      → Gives tasks events Any (note_concurrency env control worker desired after current)
  unfolding note_concurrency
  Gives-note_concurrency worker desired after current =
      Gives-bind _ _ (Gives-get_worker env worker) λ found _.
        Gives-bind _ _ (Gives-utc_now_iso env) λ now _.
          Gives-upsert_worker env _ (record {
            own_name = refl;
            busy = at_least_one-pos _;
            wanted = at_least_one-pos desired;
          })

  Gives-note_wish :
      (worker : Text) (desired : ℤ) (current : WorkerRecord)
      → Gives tasks events Any (note_wish env control worker desired current)
  unfolding note_wish blank_worker
  Gives-note_wish worker desired current = Gives-bind _ _ (Gives-get_worker env worker) λ found _.
      Gives-bind _ _ (Gives-utc_now_iso env) λ now _.
        Gives-if (is_some found) _ _
          (Gives-patch_worker env worker _ (λ r h. record {
            own_name = h.own_name;
            busy = h.busy;
            wanted = at_least_one-pos desired;
          }))
          (Gives-bind _ _ (Gives-utc_now_iso env) λ started _.
            Gives-bind _ _ (Gives-utc_now_iso env) λ heartbeat _.
              Gives-upsert_worker env _
                (record { own_name = refl; busy = omega arith; wanted = at_least_one-pos desired }))

  Gives-add_queue_of :
      (worker queue : Text) (current : WorkerRecord)
      → Gives tasks events Any (add_queue_of env control worker queue current)
  unfolding add_queue_of
  Gives-add_queue_of worker queue current = Gives-if (is_empty queue) _ _ (Gives-pure _ tt) (
      Gives-bind _ _ (Gives-in_control env control _) λ out _.
        Gives-if out.accepted _ _
          (Gives-bind _ _ (Gives-note_queue worker queue current) λ current' _. Gives-pure _ tt)
          (Gives-pure _ tt))

  Gives-adjust :
      (worker queue : Text) (desired : ℤ) (action : Text) (current : WorkerRecord)
      → Gives tasks events Any (adjust env control worker queue desired action current)
  unfolding adjust
  Gives-adjust worker queue desired action current =
      Gives-bind _ _ (Gives-add_queue_of worker queue current) λ (operations, current') _.
        Gives-bind _ _ (Gives-in_control env control _) λ out _.
          Gives-bind _ _
            (Gives-if out.accepted _ _ (Gives-note_concurrency worker desired out.after current')
              (Gives-note_wish worker desired current'))
            λ _ _. Gives-pure _ tt

  Gives-act_on :
      (worker queue : Text) (desired : ℤ) (action : Text) (current : WorkerRecord)
      → IsSound (worker, current)
      → Gives tasks events Any (act_on env control worker queue desired action current)
  unfolding act_on
  Gives-act_on worker queue desired action current h = Gives-if _ _ _ (Gives-pure _ tt) (
      Gives-if _ _ _ (Gives-shut_down worker queue desired current h)
        (Gives-adjust worker queue desired action current))

  Gives-admin_worker_action :
      (worker queue : Text) (concurrency : ℤ) (action node_id role : Text)
      → Gives tasks events Any
          (admin_worker_action env control worker queue concurrency action node_id role)
  unfolding admin_worker_action
  Gives-admin_worker_action worker queue concurrency action node_id role =
      let action_key = lower (strip (or_text action (str "set"))) in
      let role_key = lower (strip role) in
      Gives-if _ _ _
        (Gives-if (not (text_in role_key (str "parse" ∷ str "download" ∷ str "upload" ∷ []))) _ _
          (Gives-pure (refused (str "role_required")) tt)
          (Gives-if (is_empty (strip node_id)) _ _
            (Gives-pure (refused (str "node_id_required")) tt)
            (Gives-send_command (strip node_id) role_key action_key concurrency (strip queue))))
        (Gives-if (is_empty (strip worker)) _ _ (Gives-pure (refused (str "worker_required")) tt) (
          Gives-bind _ _ (Gives-known_worker env control (strip worker)) λ current h.
            Gives-act_on (strip worker) (strip queue) concurrency action_key current h))

module _ {W : Type 0} (env : Env W) (control : WorkerControl W) where
  -- An action on a worker never raises, whatever the control answers. It leaves the tasks and the
  -- events alone, and every worker record under its own name with at least one slot, had and
  -- desired.
  pub admin_worker_action-Kept :
      (worker queue : Text) (concurrency : ℤ) (action node_id role : Text) (a : Api W)
      → All IsSound a.workers
      → (reply : ActionReply) × (a' : Api W) × (admin_worker_action env control worker queue
            concurrency action node_id role a
          ≡ (ok reply, a'))
        × Kept a.tasks a.events a'
  admin_worker_action-Kept worker queue concurrency action node_id role a h =
      let (reply, a', e, k) =
        Triple-returns _
          (Gives-admin_worker_action env control a.tasks a.events worker queue concurrency action
            node_id role)
          a (record { sound = h; same_tasks = refl; same_events = refl }) in
      (reply, a', e, k.0)
