-- ===== src/Core/Service.antt =====
-- media-shuttle-core/core/service.py and worker.py: an event becomes a task, and the task is run.
pub mod Outcome
use media_shuttle.Prelude.{Option, none, some, List, [], ◌∷◌}
use media_shuttle.Py.Text.{Text, str}
use media_shuttle.Py.Exec.{ok, Exec, pure, raise, ◌>>=◌, ◌>>◌, try_except}
use media_shuttle.Core.Model.{TaskPayload, TaskRecord, Event, EventPayload, failed, new_record}
use media_shuttle.Core.Utils.{make_idempotency_key}
use media_shuttle.Core.Contracts.{from_result, index, validate_task_created_event}
use media_shuttle.Core.Pipeline.{
  PipelineService, Sys, in_world, get_task, create_task, update_status, update_runtime_fields,
  or_raise, read_clock, run,
}

module _ {R W : Type 0} (p : PipelineService R W) where
  -- `event.get("task_id") or str(uuid.uuid4())`
  choose_task_id : Option Text → Exec (Sys R W) Text
  choose_task_id (some (c ∷ t)) = pure (c ∷ t)
  choose_task_id _ = in_world p (λ w. let (t, w') = p.env.uuid4 w in (ok t, w'))

  -- `event.get("idempotency_key") or make_idempotency_key(...)`
  choose_key : Option Text → TaskPayload → Exec (Sys R W) Text
  choose_key (some (c ∷ t)) payload = pure (c ∷ t)
  choose_key _ payload = from_result (make_idempotency_key p.env payload.url payload.requester_id)

  read_payload : EventPayload → Exec (Sys R W) TaskPayload
  read_payload d = do
    url ← index (str "url") d.url
    requester_id ← index (str "requester_id") d.requester_id
    target ← index (str "target") d.target
    destination ← index (str "destination") d.destination
    pure (record {
      url = url;
      requester_id = requester_id;
      target = target;
      destination = destination;
    })

  -- A new record, with the current time read for each of its two times.
  create_new : Event → Text → Exec (Sys R W) TaskRecord
  unfolding read_payload choose_key
  create_new event task_id = do
    d ← index (str "payload") event.payload
    payload ← read_payload d
    key ← choose_key event.idempotency_key payload
    created ← read_clock p
    updated ← read_clock p
    create_task p (new_record task_id key payload created updated)
    pure (new_record task_id key payload created updated)

  -- `if existing is not None: return existing`
  existing_or_new : Event → Text → Option TaskRecord → Exec (Sys R W) TaskRecord
  unfolding create_new
  existing_or_new event task_id (some r) = pure r
  existing_or_new event task_id none = create_new event task_id

  unfoldable pub create_task_from_event : Event → Exec (Sys R W) TaskRecord
  unfolding choose_task_id existing_or_new
  create_task_from_event event = do
    validate_task_created_event p.env event
    task_id ← choose_task_id event.task_id
    existing ← get_task p task_id
    existing_or_new event task_id existing

  -- `except Exception as exc`
  unfoldable pub record_failure : Text → Text → Exec (Sys R W) TaskRecord
  record_failure task_id reason = do
    task ← update_status p task_id failed reason
    update_runtime_fields p task_id
        (record { sources = none; artifacts = none; last_error = some reason })
    or_raise reason task

  unfoldable pub run_task : Text → Exec (Sys R W) TaskRecord
  unfolding record_failure
  run_task task_id = try_except (run p task_id) (record_failure task_id)

  -- `CoreWorker.handle_event`, and `handle_created_event` over a service of its own.
  unfoldable pub handle_event : Event → Exec (Sys R W) TaskRecord
  handle_event event = do r ← create_task_from_event event; run_task r.task_id
