-- ===== src/Samples/Service.antt =====
-- Inputs for the service of media-shuttle-api: two failed tasks, one worker and a control that
-- accepts everything.
use media_shuttle.Prelude.{ℕ, none, some, [], ◌∷◌, if◌then◌else◌}
use media_shuttle.Py.Text.{Text, str, text_eq}
use media_shuttle.Core.Control.{Processes, Control}
use media_shuttle.Core.Env.{Env}
use media_shuttle.Api.Model.{CreateTaskRequest, TaskRecord, WorkerRecord}
use media_shuttle.Api.Control.{WorkerControl, in_memory_control}
use media_shuttle.Api.Store.{Api}
use media_shuttle.Py.Exec.{ok}
use media_shuttle.Samples.{env}

abbrev pub request : CreateTaskRequest
request = record {
  url = str "https://gofile.io/d/1";
  requester_id = str "u1";
  target = str "TELEGRAM";
  destination = str "tg://chat/@channel";
}

abbrev pub failed_task : Text → Text → TaskRecord
failed_task task_id created_at = record {
  task_id = task_id;
  idempotency_key = str "k";
  status = str "FAILED";
  requester_id = str "u1";
  url = str "https://gofile.io/d/1";
  target = str "RCLONE";
  destination = str "remote:";
  message = str "no parsed source found";
  sources = [];
  artifacts = [];
  last_error = str "no parsed source found";
  created_at = created_at;
  updated_at = created_at;
}

abbrev pub worker : WorkerRecord
worker = record {
  hostname = str "w1";
  role = str "parse";
  queue = str "q1";
  queues = str "q1" ∷ [];
  status = str "READY";
  concurrency = 2;
  desired_concurrency = 2;
  node_id = str "NODE";
  pid = some 12;
  exit_code = none;
  rate_limits = [];
  last_error = [];
  started_at = str "2026-01-01";
  last_heartbeat_at = str "2026-01-01";
  updated_at = str "2026-01-01";
}

abbrev pub api : Api ℕ
api = record {
  tasks =
      (str "t1", failed_task (str "t1") (str "2026-01-01"))
      ∷ (str "t2", failed_task (str "t2") (str "2026-01-02"))
      ∷ [];
  events = [];
  workers = (str "w1", worker) ∷ [];
  world = 5;
}

abbrev pub control : WorkerControl ℕ
control = in_memory_control

-- The environment names the node.
abbrev pub named_env : Env ℕ
named_env = record env {
  getenv = λ name. if text_eq name (str "MEDIA_SHUTTLE_NODE_ID") then some (str "node 1") else none;
}

-- Every process runs on; a new one has the number 44.
abbrev pub processes : Processes ℕ
processes = record {
  poll = λ pid w. none;
  terminate = λ pid w. w;
  kill = λ pid w. w;
  sleep = λ w. w;
  time = λ w. w;
  start = λ role concurrency hostname w. (ok 44, w);
}

abbrev pub managed : Control ℕ
managed = record {
  procs =
      (str "parse", record { role = str "parse"; proc = 7; concurrency = 2; started_at = 1 }) ∷ [];
  world = 5;
}
