-- ===== src/Core/Queues/Router.antt =====
-- media-shuttle-core/core/queue/celery_app.py, `route_task`: where the broker sends a task, by the
-- arguments of its call.
use media_shuttle.Prelude.{Option, none, some, List, [], ◌∷◌, get_or, if◌then◌else◌}
use media_shuttle.Py.Text.{Text, str, text_eq}
use media_shuttle.Core.Env.{Env}
use media_shuttle.Core.Queues.{upload_queue_for_target}

-- `TASK_UPLOAD_RESULT`
abbrev pub task_upload_result : Text
task_upload_result = str "core.queue.tasks.process_upload_result"

-- A positional argument: a dictionary with its `owner_node`, or another value; `shown` is
-- `str(value or "")`.
pub data Argument : Type 0 where
  dictionary : (owner_node : Option Text) (shown : Text) → Argument
  other : (shown : Text) → Argument

unfoldable pub shown_of : Argument → Text
shown_of (dictionary owner_node shown) = shown
shown_of (other shown) = shown

-- `packet.get("owner_node")`, where the packet is the first argument if that is a dictionary.
unfoldable pub owner_of : List Argument → Option Text
owner_of [] = none
owner_of (dictionary owner_node shown ∷ values) = owner_node
owner_of (other shown ∷ values) = none

-- The third argument, or else the keyword argument `target`, which may be missing.
unfoldable pub target_of : List Argument → Option Text → Text
unfolding shown_of
target_of [] keyword = get_or keyword []
target_of (_ ∷ []) keyword = get_or keyword []
target_of (_ ∷ _ ∷ []) keyword = get_or keyword []
target_of (_ ∷ _ ∷ value ∷ _) keyword = shown_of value

module _ {W : Type 0} (env : Env W) where
  -- The queue, which is the routing key as well; `none` leaves the route to the broker.
  unfoldable pub route_task : Text → List Argument → Option Text → Option Text
  unfolding text_eq target_of owner_of upload_queue_for_target
  route_task name args keyword =
      if text_eq name task_upload_result
      then some (upload_queue_for_target env (target_of args keyword) (owner_of args))
      else none
