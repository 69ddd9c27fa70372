-- ===== src/Api/Store/Mongo.antt =====
-- media-shuttle-api/app/repository.py, `MongoTaskRepository` and `MongoWorkerRepository`, over collections.
-- The documents are those of the core, which writes to the same collections.
pub mod RoundTrip
use media_shuttle.Prelude.{
  ℕ, ℤ, pos, Bool, true, false, ◌&&◌, not, Option, none, some, List, [], ◌∷◌, map, get_or,
  at_least_one, if◌then◌else◌,
}
use media_shuttle.Py.Text.{Text, str, text_eq, join, is_empty}
use media_shuttle.Py.Exec.{Result, ok, Exec, pure, update, gets, ◌>>=◌, ◌>>◌}
use media_shuttle.Core.Env.{Env}
use media_shuttle.Core.Contracts.{index}
use media_shuttle.Core.Collection.{Collection}
use media_shuttle.Core.Repository.Mongo.{TaskDocument, dicts_of}
use media_shuttle.Core.Workers.Mongo.{StoredWorker}
use media_shuttle.Api.Model.{TaskRecord, WorkerRecord}
use media_shuttle.Api.Store.{Stats, mark}

-- A collection with the world, whose clock gives the times.
pub record MongoState (C W : Type 0) : Type 0 where
  pub documents : C
  pub world : W

unfoldable pub task_document : TaskRecord → TaskDocument
task_document r = record {
  id = r.task_id;
  task_id = some r.task_id;
  idempotency_key = some r.idempotency_key;
  status = some r.status;
  message = some r.message;
  sources = some (map some r.sources);
  artifacts = some (map some r.artifacts);
  last_error = some r.last_error;
  requester_id = some r.requester_id;
  url = some r.url;
  target = some r.target;
  destination = some r.destination;
  created_at = some r.created_at;
  updated_at = some r.updated_at;
}

unfoldable pub worker_document : WorkerRecord → StoredWorker
worker_document r = record {
  hostname = some r.hostname;
  role = some r.role;
  queues = some (map some r.queues);
  queue = some r.queue;
  status = some r.status;
  concurrency = some (pos r.concurrency);
  desired_concurrency = some (pos r.desired_concurrency);
  node_id = some r.node_id;
  pid = r.pid;
  exit_code = r.exit_code;
  rate_limits = some r.rate_limits;
  last_error = some r.last_error;
  started_at = some r.started_at;
  last_heartbeat_at = some r.last_heartbeat_at;
  updated_at = some r.updated_at;
}

-- `queue`, or the queues in one text where it is empty.
unfoldable pub queue_or : Text → List Text → Text
unfolding join
queue_or [] queues = join (str ",") queues
queue_or (c ∷ queue) queues = c ∷ queue

-- `{"status": status} if status else {}`
unfoldable pub wanted : Option Text → Option Text → Bool
unfolding text_eq
wanted none found = true
wanted (some []) found = true
wanted (some (c ∷ s)) none = false
wanted (some (c ∷ s)) (some found) = text_eq found (c ∷ s)

unfoldable pub set_task_status : Text → Text → Text → TaskDocument → TaskDocument
set_task_status now status message d = record d {
  status = some status;
  message = some message;
  updated_at = some now;
}

-- `next_doc.setdefault("hostname", hostname)`
unfoldable pub named_after : Text → StoredWorker → StoredWorker
named_after hostname d = record d { hostname = some (get_or d.hostname hostname) }

unfoldable pub read_task : {S : Type 0} → TaskDocument → Exec S TaskRecord
unfolding dicts_of
read_task d = do
  task_id ← index (str "task_id") d.task_id
  key ← index (str "idempotency_key") d.idempotency_key
  status ← index (str "status") d.status
  requester_id ← index (str "requester_id") d.requester_id
  url ← index (str "url") d.url
  target ← index (str "target") d.target
  destination ← index (str "destination") d.destination
  created_at ← index (str "created_at") d.created_at
  updated_at ← index (str "updated_at") d.updated_at
  pure (record {
    task_id = task_id;
    idempotency_key = key;
    status = status;
    requester_id = requester_id;
    url = url;
    target = target;
    destination = destination;
    message = get_or d.message [];
    sources = dicts_of (get_or d.sources []);
    artifacts = dicts_of (get_or d.artifacts []);
    last_error = get_or d.last_error [];
    created_at = created_at;
    updated_at = updated_at;
  })

unfoldable pub read_option : {S D A : Type 0} → (D → Exec S A) → Option D → Exec S (Option A)
read_option read none = pure none
read_option read (some d) = do r ← read d; pure (some r)

unfoldable pub read_all : {S D A : Type 0} → (D → Exec S A) → List D → Exec S (List A)
read_all read [] = pure []
read_all read (d ∷ docs) = do r ← read d; rest ← read_all read docs; pure (r ∷ rest)

module _ {C W : Type 0} (env : Env W) where
  unfoldable pub now_iso : Exec (MongoState C W) Text
  now_iso s = let (now, w) = env.now s.world in (ok (env.iso now), record s { world = w })

  -- The defaults of the times are made even where they are not used.
  unfoldable pub read_worker : StoredWorker → Exec (MongoState C W) WorkerRecord
  unfolding dicts_of queue_or now_iso
  read_worker d = do
    let queues = dicts_of (get_or d.queues [])
    hostname ← index (str "hostname") d.hostname
    first ← now_iso
    second ← now_iso
    third ← now_iso
    pure (record {
      hostname = hostname;
      role = get_or d.role [];
      queue = queue_or (get_or d.queue []) queues;
      queues = queues;
      status = get_or d.status (str "UNKNOWN");
      concurrency = at_least_one (get_or d.concurrency (pos 1));
      desired_concurrency =
          at_least_one (get_or d.desired_concurrency (get_or d.concurrency (pos 1)));
      node_id = get_or d.node_id [];
      pid = d.pid;
      exit_code = d.exit_code;
      rate_limits = get_or d.rate_limits [];
      last_error = get_or d.last_error [];
      started_at = get_or d.started_at first;
      last_heartbeat_at = get_or d.last_heartbeat_at (get_or d.updated_at second);
      updated_at = get_or d.updated_at third;
    })

  module _ (collection : Collection TaskDocument C) where
    unfoldable pub create : TaskRecord → Exec (MongoState C W) (Unit {0})
    unfolding task_document
    create r = update (λ s. record s {
      documents = collection.replace_one r.task_id (task_document r) s.documents;
    })

    unfoldable pub get : Text → Exec (MongoState C W) (Option TaskRecord)
    unfolding read_option read_task
    get task_id = do
      found ← gets (λ s. collection.find_one task_id s.documents)
      read_option read_task found

    unfoldable pub list : Option Text → ℕ → Exec (MongoState C W) (List TaskRecord)
    unfolding read_all read_task wanted
    list status limit = do
      docs ←
          gets (λ s.
            collection.find (λ d. wanted status d.status) limit (λ d. d.created_at) s.documents)
      read_all read_task docs

    unfoldable pub stats : MongoState C W → Stats
    unfolding wanted
    stats s = record {
      parse = collection.count_documents (λ d. wanted (some (str "PARSING")) d.status) s.documents;
      download =
          collection.count_documents (λ d. wanted (some (str "DOWNLOADING")) d.status) s.documents;
      upload =
          collection.count_documents (λ d. wanted (some (str "UPLOADING")) d.status) s.documents;
    }

    unfoldable pub update_status : Text → Text → Text → Exec (MongoState C W) (Option TaskRecord)
    unfolding now_iso set_task_status get
    update_status task_id status message = do
      updated_at ← now_iso
      update (λ s. record s {
        documents =
            collection.update_one task_id (set_task_status updated_at status message) s.documents;
      })
      get task_id

  module _ (collection : Collection StoredWorker C) where
    unfoldable pub upsert : WorkerRecord → Exec (MongoState C W) WorkerRecord
    unfolding worker_document read_option read_worker
    upsert r = do
      update (λ s. record s {
        documents = collection.replace_one r.hostname (worker_document r) s.documents;
      })
      found ← gets (λ s. collection.find_one r.hostname s.documents)
      got ← read_option read_worker found
      pure (get_or got r)

    unfoldable pub get_worker : Text → Exec (MongoState C W) (Option WorkerRecord)
    unfolding read_option read_worker
    get_worker hostname = do
      found ← gets (λ s. collection.find_one hostname s.documents)
      read_option read_worker found

    unfoldable pub list_workers : Option Text → ℕ → Exec (MongoState C W) (List WorkerRecord)
    unfolding read_all read_worker wanted
    list_workers status limit = do
      docs ←
          gets (λ s.
            collection.find (λ d. wanted status d.status) limit (λ d. d.updated_at) s.documents)
      read_all read_worker docs

    patch_found :
        Text
        → (StoredWorker → StoredWorker)
        → Option StoredWorker
        → Exec (MongoState C W) (Option WorkerRecord)
    unfolding named_after read_worker
    patch_found hostname fields none = pure none
    patch_found hostname fields (some current) = do
      let next = named_after hostname (fields current)
      update (λ s. record s { documents = collection.replace_one hostname next s.documents })
      r ← read_worker next
      pure (some r)

    -- The fields that are given, as a function of the document.
    unfoldable pub patch :
        Text → (StoredWorker → StoredWorker) → Exec (MongoState C W) (Option WorkerRecord)
    unfolding patch_found
    patch hostname fields = do
      found ← gets (λ s. collection.find_one hostname s.documents)
      patch_found hostname fields found
