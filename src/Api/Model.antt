-- ===== src/Api/Model.antt =====
-- media-shuttle-api/app/models.py: the records of tasks and workers. A status and a time are texts.
use media_shuttle.Prelude.{ℕ, ℤ, Option, List}
use media_shuttle.Py.Text.{Text}
use media_shuttle.Py.Dict.{Dict}
use media_shuttle.Core.Model.{ParsedSource, Artifact}

pub record CreateTaskRequest : Type 0 where
  pub url : Text
  pub requester_id : Text
  pub target : Text
  pub destination : Text

pub record TaskRecord : Type 0 where
  pub task_id : Text
  pub idempotency_key : Text
  pub status : Text
  pub requester_id : Text
  pub url : Text
  pub target : Text
  pub destination : Text
  pub message : Text
  pub sources : List ParsedSource
  pub artifacts : List Artifact
  pub last_error : Text
  pub created_at : Text
  pub updated_at : Text

pub record WorkerRecord : Type 0 where
  pub hostname : Text
  pub role : Text
  pub queue : Text
  pub queues : List Text
  pub status : Text
  pub concurrency : ℕ
  pub desired_concurrency : ℕ
  pub node_id : Text
  pub pid : Option ℕ
  pub exit_code : Option ℤ
  pub rate_limits : Dict Text
  pub last_error : Text
  pub started_at : Text
  pub last_heartbeat_at : Text
  pub updated_at : Text
