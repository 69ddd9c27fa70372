-- ===== src/Witness/Stored.antt =====
-- The theorems on the collections of workers and tasks at the inputs of `Samples`.
use media_shuttle.Prelude.{
  ℕ, ◌≡◌, refl, none, some, [], ◌∷◌, pos, arith, List, if◌then◌else◌, ◌==◌, ◌+◌,
}
use media_shuttle.Py.Text.{str, text_eq}
use media_shuttle.Py.Exec.{ok}
use media_shuttle.Py.Dict
use media_shuttle.Py.Dict.{Dict}
use media_shuttle.Core.Workers.{Report, Call, reported, beaten}
use media_shuttle.Core.Workers.Mongo.{StoredWorker, stored_after}
use media_shuttle.Core.Workers.Mongo.Wish.{HasWish, stored_after-HasWish}
use media_shuttle.Core.Repository.Mongo.{TaskDocument}
use media_shuttle.Api.Store.Mongo.{MongoState, worker_document, create, get, upsert}
use media_shuttle.Api.Store.Mongo.RoundTrip.{get-create, upsert-returns}
use media_shuttle.Core.Env.{Env}
use media_shuttle.Core.Tasks.Signals.{
  Connect, Instance, State, unopened, role_from_hostname, Written, answered, unwritten,
}
use media_shuttle.Samples.{env}
use media_shuttle.Samples.Service.{worker, failed_task}
use media_shuttle.Samples.Collection.{dict_collection}

abbrev parse_report : Report
parse_report = record {
  hostname = str "w1";
  role = str "parse";
  queues = str "q1" ∷ [];
  concurrency = pos 7;
  status = str "READY";
  node_id = str "NODE";
  pid = some 12;
  exit_code = none;
  reason = [];
}

abbrev calls : List Call
calls = reported (str "2026-01-02") parse_report ∷ beaten (str "2026-01-03") (str "w1") ∷ []

-- The service stored a worker for which two slots are wished.
abbrev stored : Dict StoredWorker
stored = (str "w1", worker_document worker) ∷ []

stored-HasWish : HasWish dict_collection (str "w1") 1 stored
unfolding dict_collection Dict.get text_eq worker_document
stored-HasWish = (_, refl, refl)

stored_after-HasWish_example :
    HasWish dict_collection (str "w1") 1 (stored_after dict_collection calls stored)
stored_after-HasWish_example =
    stored_after-HasWish dict_collection calls (str "w1") 1 stored stored-HasWish

abbrev tasks : MongoState (Dict TaskDocument) ℕ
tasks = record { documents = []; world = 5 }

abbrev workers : MongoState (Dict StoredWorker) ℕ
workers = record { documents = stored; world = 5 }

get-create_example :
    get env dict_collection
      (str "t1")
      (create env dict_collection (failed_task (str "t1") (str "2026-01-01")) tasks).1
    ≡ (
      ok (some (failed_task (str "t1") (str "2026-01-01"))),
      (create env dict_collection (failed_task (str "t1") (str "2026-01-01")) tasks).1,
    )
get-create_example =
    get-create env dict_collection (failed_task (str "t1") (str "2026-01-01")) tasks

upsert-returns_example :
    ((upsert env dict_collection worker workers).0 ≡ ok worker)
    × (dict_collection.find_one (str "w1") (upsert env dict_collection worker workers).1.documents
        ≡ some (worker_document worker))
upsert-returns_example =
    upsert-returns env dict_collection worker workers (omega arith) (omega arith) refl

-- The workers are kept in MongoDB; the rest of the environment is unset.
abbrev mongo_env : Env ℕ
mongo_env = record env {
  getenv = λ name.
      if text_eq name (str "MEDIA_SHUTTLE_STORAGE_BACKEND") then some (str "mongo") else none;
}

abbrev download_worker : Instance
download_worker = record {
  hostname = str "core-worker-download@media-shuttle-core";
  queue_keys = some (some (str "q1") ∷ none ∷ some (str "q2") ∷ some (str "q1") ∷ []);
  concurrency = some (pos 0);
}

abbrev connect : Connect (Dict StoredWorker)
connect uri db name = ok dict_collection

-- The first write fails.
abbrev driver : ℕ → Written × ℕ
driver w = (if w == 6 then unwritten (str "down") else answered, w + 1)

abbrev unopened_state : State (Dict StoredWorker) ℕ
unopened_state = record { registry = unopened; stored = stored; world = 5 }

role_from_hostname_test : role_from_hostname download_worker.hostname ≡ str "download"
unfolding role_from_hostname
role_from_hostname_test = refl
