-- ===== src/Core/Workers.antt =====
-- media-shuttle-core/core/storage/worker_registry.py, `InMemoryWorkerRegistry`: one document for each
-- worker. The current time comes in as an argument.
pub mod Start
pub mod Mongo
use media_shuttle.Prelude.{ℕ, Option, none, some, List, [], ◌∷◌, ℤ, at_least_one, map_option}
use media_shuttle.Py.Text.{Text, str, join, or_text}
use media_shuttle.Py.Dict
use media_shuttle.Py.Dict.{Dict}

pub record WorkerDocument : Type 0 where
  pub hostname : Text
  pub role : Text
  pub queues : List Text
  pub queue : Text
  pub status : Text
  pub concurrency : ℕ
  pub desired_concurrency : ℕ
  pub node_id : Text
  pub pid : Option ℕ
  pub exit_code : Option ℤ
  pub last_error : Text
  pub started_at : Text
  pub last_heartbeat_at : Text
  pub updated_at : Text

-- The keyword arguments of `upsert_worker`.
pub record Report : Type 0 where
  pub hostname : Text
  pub role : Text
  pub queues : List Text
  pub concurrency : ℤ
  pub status : Text
  pub node_id : Text
  pub pid : Option ℕ
  pub exit_code : Option ℤ
  pub reason : Text

-- `current.get("started_at") or now`
unfoldable pub started_at_or : Text → Option WorkerDocument → Text
started_at_or now none = now
started_at_or now (some current) = or_text current.started_at now

unfoldable pub next_document : Text → Report → Option WorkerDocument → WorkerDocument
unfolding started_at_or
next_document now report current = record {
  hostname = report.hostname;
  role = report.role;
  queues = report.queues;
  queue = join (str ",") report.queues;
  status = report.status;
  concurrency = at_least_one report.concurrency;
  desired_concurrency = at_least_one report.concurrency;
  node_id = report.node_id;
  pid = report.pid;
  exit_code = report.exit_code;
  last_error = report.reason;
  started_at = started_at_or now current;
  last_heartbeat_at = now;
  updated_at = now;
}

unfoldable pub register_worker :
    Text → Report → Dict WorkerDocument → WorkerDocument × Dict WorkerDocument
unfolding next_document
register_worker now report items =
    let document = next_document now report (Dict.get report.hostname items) in
    (document, Dict.put report.hostname document items)

unfoldable pub beat : Text → WorkerDocument → WorkerDocument
beat now document = record document { last_heartbeat_at = now; updated_at = now }

unfoldable pub heartbeat :
    Text → Text → Dict WorkerDocument → Option WorkerDocument × Dict WorkerDocument
unfolding beat
heartbeat now hostname items =
    (map_option (beat now) (Dict.get hostname items), Dict.modify hostname (beat now) items)

-- One call of the registry, and a sequence of calls.
pub data Call : Type 0 where
  reported : (now : Text) (report : Report) → Call
  beaten : (now hostname : Text) → Call

unfoldable pub after_call : Call → Dict WorkerDocument → Dict WorkerDocument
unfolding register_worker heartbeat
after_call (reported now report) items = (register_worker now report items).1
after_call (beaten now hostname) items = (heartbeat now hostname items).1

unfoldable pub after_calls : List Call → Dict WorkerDocument → Dict WorkerDocument
unfolding after_call
after_calls [] items = items
after_calls (call ∷ calls) items = after_calls calls (after_call call items)
