-- ===== src/Api/Control.antt =====
-- media-shuttle-api/app/worker_control.py: how the service acts on the workers. `WorkerControl` is
-- the interface; a reply keeps the keys that the service reads.
use media_shuttle.Prelude.{
  ℕ, Bool, true, false, Option, none, some, List, [], ◌++◌, ℤ, at_least_one, if◌then◌else◌,
}
use media_shuttle.Py.Text.{Text, str, is_empty, strip, or_text}
use media_shuttle.Core.Env.{Env}
use media_shuttle.Core.Queues.{normalize_owner_node}
use media_shuttle.Py.Dict.{Dict}

pub record ControlReply : Type 0 where
  pub accepted : Bool
  pub reason : Option Text
  pub queue : Option Text
  pub after : Option ℕ

abbrev pub accepted_reply : ControlReply
accepted_reply = record { accepted = true; reason = none; queue = none; after = none }

-- What `inspect_workers` says of one worker: absent keys and empty values count alike.
pub record WorkerInfo : Type 0 where
  pub role : Text
  pub queue : Text
  pub queues : Option (List Text)
  pub status : Text
  pub concurrency : Option ℕ
  pub desired_concurrency : Option ℕ
  pub node_id : Text
  pub pid : Option (Option ℕ)
  pub exit_code : Option (Option ℤ)
  pub rate_limits : Dict Text
  pub last_error : Text
  pub started_at : Text
  pub last_heartbeat_at : Text
  pub updated_at : Text

-- Every operation may act on the world.
pub record WorkerControl (W : Type 0) : Type 0 where
  pub inspect_workers : W → List (Text × WorkerInfo) × W
  pub add_queue : (worker queue : Text) → W → ControlReply × W
  pub set_concurrency : (worker : Text) (concurrency : ℤ) → W → ControlReply × W
  pub shutdown : (worker : Text) → W → ControlReply × W
  pub set_rate_limit : (worker task_name rate_limit : Text) → W → ControlReply × W
  pub publish_control_command :
      (node_id role action : Text) (concurrency : ℕ) (queue : Text) → W → ControlReply × W

-- `InMemoryWorkerControl`: it accepts whatever it is asked.
unfoldable pub in_memory_control : {W : Type 0} → WorkerControl W
in_memory_control = record {
  inspect_workers = λ w. ([], w);
  add_queue = λ worker queue w. (record accepted_reply { queue = some queue }, w);
  set_concurrency = λ worker concurrency w.
      (record accepted_reply { after = some (at_least_one concurrency) }, w);
  shutdown = λ worker w. (accepted_reply, w);
  set_rate_limit = λ worker task_name rate_limit w. (accepted_reply, w);
  publish_control_command =
      λ node_id role action concurrency queue w. (record accepted_reply { queue = some queue }, w);
}

-- `_control_queue`
unfoldable pub control_queue : Text → Text → Text
control_queue prefix node_id = if is_empty node_id then prefix else prefix ++ (str "@" ++ node_id)

-- The message that is sent to the broker.
pub record ControlMessage : Type 0 where
  pub task_name : Text
  pub queue : Text
  pub action : Text
  pub role : Text
  pub node_id : Text
  pub concurrency : ℕ
  pub requested_at : Text

abbrev pub unsupported_reply : ControlReply
unsupported_reply = record {
  accepted = false;
  reason = some (str "celery_unavailable");
  queue = none;
  after = none;
}

-- `CeleryWorkerControl`, where the application is there or not. The application is a parameter.
module _ {W : Type 0} (env : Env W) (control_queue_prefix control_task_name : Text) where
  unfoldable pub control_message : Text → Text → Text → ℤ → Text → Text → ControlMessage
  unfolding control_queue normalize_owner_node
  control_message node_id role action concurrency queue requested_at =
      let node = normalize_owner_node (some node_id) in
      record {
        task_name = control_task_name;
        queue = or_text (strip queue) (control_queue control_queue_prefix node);
        action = action;
        role = role;
        node_id = node;
        concurrency = at_least_one concurrency;
        requested_at = requested_at;
      }

  unfoldable pub publish_control_command :
      Option (ControlMessage → W → W) → Text → Text → Text → ℤ → Text → W → ControlReply × W
  unfolding control_message
  publish_control_command none node_id role action concurrency queue w = (unsupported_reply, w)
  publish_control_command (some send_task) node_id role action concurrency queue w =
      let (now, w') = env.now w in
      let message = control_message node_id role action concurrency queue (env.iso now) in
      (record accepted_reply { queue = some message.queue }, send_task message w')
