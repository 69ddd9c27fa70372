-- ===== src/Core/Tasks/Signals.antt =====
-- media-shuttle-core/core/queue/tasks.py: the handlers of Celery's signals, by which a worker tells the
-- registry that it starts, is ready or shuts down. The registry is opened at the first signal and kept
-- in a global variable.
pub mod Told
use media_shuttle.Prelude.{
  ℕ, zero, suc, Bool, true, false, Option, none, some, List, [], ◌∷◌, ℤ, pos, negsuc, at_least_one,
  if◌then◌else◌, get_or, ◌==◌,
}
use media_shuttle.Py.Text.{Text, str, strip, lower, text_eq, in_range, is_empty, unique}
use media_shuttle.Py.Text.Search.{after_prefix, take_while}
use media_shuttle.Py.Exec.{Result, ok, err, Exec, pure, raise, ◌>>=◌, ◌>>◌, try_except}
use media_shuttle.Core.Env.{Env}
use media_shuttle.Core.Utils.{bool_env}
use media_shuttle.Core.Queues.{getenv_or, resolve_owner_node}
use media_shuttle.Core.Collection.{Collection}
use media_shuttle.Core.Workers.{Report}
use media_shuttle.Core.Workers.Mongo.{StoredWorker, upsert_stored}

-- The global `_WORKER_REGISTRY`: `None`, `False` or a registry.
pub data Opened (C : Type 0) : Type 0 where
  unopened switched_off : Opened C
  opened : (collection : Collection StoredWorker C) → Opened C

pub record State (C W : Type 0) : Type 0 where
  pub registry : Opened C
  pub stored : C
  pub world : W

-- What a handler reads of the worker: the keys of its queues, which are missing when they cannot be
-- read, where a key that is no text is `none`.
pub record Instance : Type 0 where
  pub hostname : Text
  pub queue_keys : Option (List (Option Text))
  pub concurrency : Option ℤ

pub data Signal : Type 0 where
  worker_setup worker_ready worker_shutdown : Signal

-- `MongoClient(uri)[db][collection]`, with the exception of a missing driver or a bad address.
abbrev pub Connect : Type 0 → Type 0
Connect C = (uri db name : Text) → Result (Collection StoredWorker C)

-- How the calls of a write to the database end: they are answered, they fail before the document is
-- written, or the answer is lost after that.
pub data Written : Type 0 where
  answered : Written
  unwritten unanswered : (reason : Text) → Written

-- `[a-z]`
abbrev is_letter : ℕ → Bool
is_letter c = in_range b'a' b'z' c

-- `[a-z]+` behind the prefix, if both are there
unfoldable pub role_behind : Option Text → Text
unfolding take_while
role_behind none = []
role_behind (some rest) = take_while is_letter rest

-- `re.search(r"core-worker-([a-z]+)", s)`, its group or an empty text
unfoldable pub search_role : Text → Text
unfolding role_behind after_prefix
search_role [] = []
search_role (c ∷ s) =
    let role = role_behind (after_prefix (λ a b. a == b) (str "core-worker-") (c ∷ s)) in
    let later = search_role s in if is_empty role then later else role

unfoldable pub role_from_hostname : Text → Text
unfolding search_role strip lower
role_from_hostname hostname = search_role (lower (strip hostname))

unfoldable pub text_keys : List (Option Text) → List Text
text_keys [] = []
text_keys (none ∷ keys) = text_keys keys
text_keys (some key ∷ keys) = key ∷ text_keys keys

unfoldable pub queue_names_from_worker_instance : Instance → List Text
unfolding text_keys unique
queue_names_from_worker_instance worker = unique (text_keys (get_or worker.queue_keys []))

-- `int(getattr(instance, "concurrency", 1) or 1)`
unfoldable pub concurrency_of : Option ℤ → ℤ
concurrency_of none = pos 1
concurrency_of (some (pos zero)) = pos 1
concurrency_of (some (pos (suc n))) = pos (suc n)
concurrency_of (some (negsuc n)) = negsuc n

abbrev pub status_of_signal : Signal → Text
status_of_signal worker_setup = str "STARTING"
status_of_signal worker_ready = str "READY"
status_of_signal worker_shutdown = str "SHUTDOWN"

module _ {C W : Type 0} (env : Env W) (connect : Connect C) (driver : W → Written × W) where
  unfoldable pub registry_enabled : Bool
  unfolding text_eq lower strip
  registry_enabled =
      let backend = lower (strip (getenv_or env "MEDIA_SHUTTLE_STORAGE_BACKEND" "memory")) in
      if text_eq backend (str "mongo")
      then bool_env env (str "MEDIA_SHUTTLE_WORKER_REGISTRY_ENABLED") (str "1")
      else false

  unfoldable pub connected : Result (Collection StoredWorker C)
  connected =
      connect (getenv_or env "MEDIA_SHUTTLE_MONGO_URI" "mongodb://localhost:27017")
        (getenv_or env "MEDIA_SHUTTLE_MONGO_DB" "media_shuttle")
        (getenv_or env "MEDIA_SHUTTLE_MONGO_WORKER_COLLECTION" "workers")

  -- The value that is returned, and the one that the global variable then has.
  unfoldable pub first_registry : Result (Collection StoredWorker C) → Opened C × Opened C
  first_registry (ok collection) = (opened collection, opened collection)
  first_registry (err e) = (unopened, switched_off)

  unfoldable pub registry_after : Opened C → Opened C × Opened C
  unfolding first_registry connected registry_enabled
  registry_after unopened =
      if registry_enabled then first_registry connected else (unopened, switched_off)
  registry_after switched_off = (switched_off, switched_off)
  registry_after (opened collection) = (opened collection, opened collection)

  unfoldable pub worker_registry : Exec (State C W) (Opened C)
  unfolding registry_after
  worker_registry s =
      let (registry, kept) = registry_after s.registry in
      (ok registry, record s { registry = kept })

  unfoldable pub write_in :
      Collection StoredWorker C → Report → Text → Written → Exec (State C W) (Unit {0})
  unfolding upsert_stored
  write_in collection report now answered s =
      (ok tt, record s { stored = (upsert_stored collection now report s.stored).1 })
  write_in collection report now (unwritten reason) s = (err reason, s)
  write_in collection report now (unanswered reason) s =
      (err reason, record s { stored = (upsert_stored collection now report s.stored).1 })

  -- `registry.upsert_worker(...)`, where the registry may be `False`, and the driver may raise.
  unfoldable pub upsert_in : Opened C → Report → Exec (State C W) (Unit {0})
  unfolding write_in
  upsert_in unopened report s = (err (str "'NoneType' object has no attribute 'upsert_worker'"), s)
  upsert_in switched_off report s = (err (str "'bool' object has no attribute 'upsert_worker'"), s)
  upsert_in (opened collection) report s =
      let (now, w) = env.now s.world in
      let (written, w') = driver w in
      write_in collection report (env.iso now) written (record s { world = w' })

  -- `if registry is None: return`, and no exception of the registry leaves the handler.
  unfoldable pub touch_with : Report → Opened C → Exec (State C W) (Unit {0})
  unfolding upsert_in
  touch_with report unopened = pure tt
  touch_with report switched_off = try_except (upsert_in switched_off report) λ _. pure tt
  touch_with report (opened collection) =
      try_except (upsert_in (opened collection) report) λ _. pure tt

  unfoldable pub touch_worker_registry : Report → Exec (State C W) (Unit {0})
  unfolding worker_registry touch_with
  touch_worker_registry report = worker_registry >>= touch_with report

  unfoldable pub report_of : Signal → Instance → Report
  unfolding role_from_hostname queue_names_from_worker_instance concurrency_of resolve_owner_node
  report_of signal worker = record {
    hostname = worker.hostname;
    role = role_from_hostname worker.hostname;
    queues = queue_names_from_worker_instance worker;
    concurrency = pos (at_least_one (concurrency_of worker.concurrency));
    status = status_of_signal signal;
    node_id = resolve_owner_node env;
    pid = none;
    exit_code = none;
    reason = [];
  }

  -- `_on_worker_setup`, `_on_worker_ready` and `_on_worker_shutdown`
  unfoldable pub on_signal : Signal → Instance → Exec (State C W) (Unit {0})
  unfolding touch_worker_registry report_of
  on_signal signal worker = touch_worker_registry (report_of signal worker)

  unfoldable pub on_signals : List (Signal × Instance) → Exec (State C W) (Unit {0})
  unfolding on_signal
  on_signals [] = pure tt
  on_signals ((signal, worker) ∷ signals) = on_signal signal worker >> on_signals signals
