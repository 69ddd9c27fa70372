-- ===== src/Samples.antt =====
-- Small inputs on which the theorems are applied: a world that is a counter, providers that always
-- answer, and a task.
pub mod Collection
pub mod Providers
pub mod Service
pub mod Supervisor
use media_shuttle.Prelude.{ℕ, ◌+◌, true, false, none, some, [], ◌∷◌, ◌++◌, pos}
use media_shuttle.Py.Text.{str}
use media_shuttle.Py.Exec.{ok}
use media_shuttle.Core.Env.{Env, Url}
use media_shuttle.Core.Model.{
  queued, ParsedSource, DownloadResult, TaskPayload, TaskRecord, Event, end,
}
use media_shuttle.Core.Registry.{Provider, Registry}
use media_shuttle.Core.Repository.Memory.{Items, memory_repository}
use media_shuttle.Core.Pipeline.{PipelineService, Sys}
use media_shuttle.Core.Runtime.{RuntimeConfig, Runtime}

abbrev pub chat_url : Url
chat_url = record {
  scheme = str "tg";
  netloc = str "chat";
  path = str "/@channel";
  query = [];
  fragment = [];
}

-- A counter as the clock; no variable of the environment is set, and there is no file.
abbrev pub env : Env ℕ
env = record {
  now = λ w. (w, w + 1);
  iso = λ t. str "2026-01-01T00:00:00Z";
  from_iso = λ t. ok 7;
  uuid4 = λ w. (str "fresh", w + 1);
  getenv = λ name. none;
  hostname = str "node 1";
  repr = λ t. str "'" ++ (t ++ str "'");
  sha256 = λ t. t;
  urlsplit = λ t. ok chat_url;
  urlunsplit = λ u. u.path;
  unquote = λ t. t;
  is_decimal = λ c. false;
  resolve = λ t w. ok (t ∷ []);
  is_file = λ f w. false;
  is_symlink = λ f w. false;
  is_dir = λ f w. false;
  rglob = λ f w. [];
  rglob_sorted = λ f w. [];
  unlink = λ f w. (ok tt, w);
  rmdir = λ f w. (ok tt, w);
}

abbrev pub provider : {K I O : Type 0} → O → Provider ℕ K I O
provider o = record {
  name = str "mock";
  mode = str "all";
  matcher = λ k w. (ok true, w);
  action = λ i w. (ok o, w);
}

abbrev registry : {K I O : Type 0} → Provider ℕ K I O → Registry ℕ K I O
registry p = record { mode = str "mock"; providers = p ∷ [] }

abbrev pub source : ParsedSource
source = record {
  site = str "GOFILE";
  page_url = str "https://gofile.io/d/1";
  download_url = str "https://gofile.io/f/1";
  file_name = str "a.bin";
  remote_folder = none;
  metadata = end;
}

abbrev pub downloaded : DownloadResult
downloaded = record {
  site = str "GOFILE";
  source_url = str "https://gofile.io/f/1";
  local_path = str "/tmp/media-shuttle/a.bin";
  size_bytes = 3;
  file_name = str "a.bin";
  remote_folder = none;
}

abbrev pub pipeline : PipelineService Items ℕ
pipeline = record {
  repository = memory_repository;
  env = env;
  parser_registry = registry (provider (source ∷ []));
  downloader_registry = registry (provider downloaded);
  uploader_registry = registry (provider (record { location = str "rclone://a.bin" }));
}

abbrev pub payload : TaskPayload
payload = record {
  url = str "https://gofile.io/d/1";
  requester_id = str "u1";
  target = str "RCLONE";
  destination = str "remote:";
}

abbrev pub task : TaskRecord
task = record {
  task_id = str "t1";
  idempotency_key = str "k1";
  payload = payload;
  status = queued;
  message = [];
  sources = [];
  artifacts = [];
  last_error = [];
  created_at = 1;
  updated_at = 1;
}

abbrev pub sys : Sys Items ℕ
sys = record { repo = (str "t1", task) ∷ []; world = 5 }

abbrev pub event : Event
event = record {
  spec_version = some (str "task.created.v1");
  task_id = some (str "t1");
  task_type = some (str "parse_link");
  idempotency_key = some (str "k1");
  created_at = some (str "2026-01-01T00:00:00Z");
  payload = some (record {
    url = some (str "https://gofile.io/d/1");
    requester_id = some (str "u1");
    target = some (str "RCLONE");
    destination = some (str "remote:");
  });
  attempt = none;
  last_error = none;
  updated_at = none;
}

abbrev pub config : RuntimeConfig
config = record { max_retries = pos 2; concurrency = 1 }

abbrev pub runtime : Runtime Items ℕ
runtime = record { sys = sys; created = event ∷ []; retry = [] }
