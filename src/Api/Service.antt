-- ===== src/Api/Service.antt =====
-- media-shuttle-api/app/service.py: the entry of tasks and the retry of failed ones. An action
-- gives its reply and the new state.
pub mod Retry
pub mod RetryOne
pub mod Entry
use media_shuttle.Prelude.{
  ℕ, ◌+◌, Bool, true, false, not, Option, none, some, List, [], ◌∷◌, ◌++◌, length, ℤ, clamp_to,
  if◌then◌else◌,
}
use media_shuttle.Py.Text.{Text, str, text_eq, text_in, strip, lower, or_text}
use media_shuttle.Py.Exec.{Result, Exec, pure, raise, ◌>>=◌, ◌>>◌}
use media_shuttle.Core.Env.{Env}
use media_shuttle.Core.Model.{Event}
use media_shuttle.Core.Utils.{make_idempotency_key}
use media_shuttle.Core.Contracts.{from_result}
use media_shuttle.Api.Model.{CreateTaskRequest, TaskRecord}
use media_shuttle.Api.Contracts.{validate_create_request}
use media_shuttle.Api.Store.{
  Api, list_tasks, utc_now_iso, create, get_task, update_status, publish_created_event,
}

-- The event of a task, for the queue.
unfoldable pub created_event : Text → Text → Text → CreateTaskRequest → Event
created_event task_id key timestamp request = record {
  spec_version = some (str "task.created.v1");
  task_id = some task_id;
  task_type = some (str "parse_link");
  idempotency_key = some key;
  created_at = some timestamp;
  payload = some (record {
    url = some request.url;
    requester_id = some request.requester_id;
    target = some request.target;
    destination = some request.destination;
  });
  attempt = none;
  last_error = none;
  updated_at = none;
}

unfoldable pub queued_record : Text → Text → Text → CreateTaskRequest → TaskRecord
queued_record task_id key timestamp request = record {
  task_id = task_id;
  idempotency_key = key;
  status = str "QUEUED";
  requester_id = request.requester_id;
  url = request.url;
  target = request.target;
  destination = request.destination;
  message = [];
  sources = [];
  artifacts = [];
  last_error = [];
  created_at = timestamp;
  updated_at = timestamp;
}

abbrev pub request_of : TaskRecord → CreateTaskRequest
request_of task = record {
  url = task.url;
  requester_id = task.requester_id;
  target = task.target;
  destination = task.destination;
}

-- The reply of a retry, less the keys that give the arguments back (`mode` and `task_id`);
-- `task_ids` and `reason` are empty where the source leaves the key out.
pub record RetryReply : Type 0 where
  pub accepted : Bool
  pub reason : Text
  pub retried : ℕ
  pub skipped : ℕ
  pub task_ids : List Text

module _ {W : Type 0} (env : Env W) where
  new_task_id : Exec (Api W) Text
  new_task_id a = let (t, w) = env.uuid4 a.world in (Result.ok t, record a { world = w })

  unfoldable pub create_parse_task : CreateTaskRequest → Exec (Api W) TaskRecord
  unfolding new_task_id queued_record created_event
  create_parse_task request = do
    validate_create_request env request
    task_id ← new_task_id
    key ← from_result (make_idempotency_key env request.url request.requester_id)
    timestamp ← utc_now_iso env
    create env (queued_record task_id key timestamp request)
    publish_created_event env (created_event task_id key timestamp request)
    pure (queued_record task_id key timestamp request)

  -- `_build_created_event`: the event of a stored task, with the current time.
  unfoldable pub build_created_event : TaskRecord → Exec (Api W) Event
  unfolding created_event
  build_created_event task = do
    timestamp ← utc_now_iso env
    pure (created_event task.task_id task.idempotency_key timestamp (request_of task))

  -- The three calls that queue a task again.
  unfoldable pub requeue : TaskRecord → Exec (Api W) (Unit {0})
  unfolding build_created_event
  requeue task = do
    update_status env task.task_id (str "QUEUED") []
    event ← build_created_event task
    publish_created_event env event

  abbrev pub refuse : Text → ℕ → RetryReply
  refuse reason skipped = record {
    accepted = false;
    reason = reason;
    retried = 0;
    skipped = skipped;
    task_ids = [];
  }

  retry_found : Option TaskRecord → Exec (Api W) RetryReply
  unfolding requeue
  retry_found none = pure (refuse (str "task_not_found") 1)
  retry_found (some task) =
      if not (text_eq task.status (str "FAILED"))
      then pure (refuse (str "task_not_failed") 1)
      else do
        requeue task
        pure (record {
          accepted = true;
          reason = [];
          retried = 1;
          skipped = 0;
          task_ids = task.task_id ∷ [];
        })

  -- The loop over the failed items: how many were skipped, and which were queued again.
  unfoldable pub retry_items : List TaskRecord → Exec (Api W) (ℕ × List Text)
  unfolding requeue
  retry_items [] = pure (0, [])
  retry_items (item ∷ items) =
      let later = retry_items items in
      if not (text_eq item.status (str "FAILED"))
      then (do (skipped, retried) ← later; pure (skipped + 1, retried))
      else (do requeue item; (skipped, retried) ← later; pure (skipped, item.task_id ∷ retried))

  unfoldable pub retry_failed : ℕ → Exec (Api W) RetryReply
  unfolding retry_items
  retry_failed limit a =
      (do
        (skipped, retried) ← retry_items (list_tasks (some (str "FAILED")) limit a.tasks)
        pure (record {
          accepted = true;
          reason = [];
          retried = length retried;
          skipped = skipped;
          task_ids = retried;
        }))
        a

  -- With a task id that is not empty, that task; without, the failed ones up to a limit.
  unfoldable pub admin_retry_action : Text → Option Text → ℤ → Exec (Api W) RetryReply
  unfolding retry_found retry_failed
  admin_retry_action mode (some (c ∷ t)) limit = get_task env (c ∷ t) >>= retry_found
  admin_retry_action mode _ limit =
      let mode_key = lower (strip (or_text mode (str "failed"))) in
      if not (text_in mode_key (str "failed" ∷ str "both" ∷ []))
      then pure (refuse (str "unsupported_mode") 0)
      else retry_failed (clamp_to 200 limit)
