-- ===== src/Core/Slots.antt =====
-- media-shuttle-core/core/queue/worker_process.py: the worker slots that the environment describes, and
-- the command line of a worker.
pub mod Commands
pub mod Reads
use media_shuttle.Prelude.{
  ℕ, Bool, true, false, not, ◌++◌, Option, none, some, List, [], ◌∷◌, ℤ, at_least_one, is_some,
  get_or, if◌then◌else◌,
}
use media_shuttle.Py.Text.{
  Text, str, strip, upper, lower, is_empty, or_text, split, strip_items, text_eq,
}
use media_shuttle.Py.Number.{parse_int, int_or_error, show_nat}
use media_shuttle.Py.Exec.{Result, ok, err, map_result}
use media_shuttle.Core.Env.{Env}
use media_shuttle.Core.Utils.{bool_env}
use media_shuttle.Core.Queues.{getenv_or, generate_queue_names}

-- The dictionary of `_worker_slot`, less its process.
pub record Slot : Type 0 where
  pub role : Text
  pub hostname : Text
  pub queues_csv : Text
  pub queues : List Text
  pub concurrency : ℕ

-- The keyword arguments of `start_celery_process`.
pub record Overrides : Type 0 where
  pub concurrency : Option ℤ
  pub hostname : Option Text
  pub queues : Option Text

module _ {W : Type 0} (env : Env W) where
  -- `os.getenv(f"MEDIA_SHUTTLE_CORE_{role_key}_{suffix}", "").strip()`
  unfoldable pub role_specific : Text → Text → Text
  unfolding upper strip
  role_specific worker_role suffix =
      let name = str "MEDIA_SHUTTLE_CORE_" ++ (upper (strip worker_role) ++ suffix) in
      strip (get_or (env.getenv name) [])

  unfoldable pub worker_registry_enabled : Bool
  unfolding text_eq lower strip
  worker_registry_enabled =
      let backend = lower (strip (getenv_or env "MEDIA_SHUTTLE_STORAGE_BACKEND" "memory")) in
      if bool_env env (str "MEDIA_SHUTTLE_WORKER_REGISTRY_ENABLED") (str "1")
      then text_eq backend (str "mongo")
      else false

  unfoldable pub worker_concurrency : Text → Result ℕ
  unfolding role_specific parse_int
  worker_concurrency worker_role =
      let raw =
        or_text (role_specific worker_role (str "_CONCURRENCY"))
          (getenv_or env "MEDIA_SHUTTLE_CORE_CONCURRENCY" "1") in
      map_result at_least_one (int_or_error (env.repr raw) (parse_int raw))

  unfoldable pub worker_hostname : Text → Text
  unfolding role_specific strip
  worker_hostname worker_role =
      let own = role_specific worker_role (str "_WORKER_HOSTNAME") in
      let global = strip (getenv_or env "MEDIA_SHUTTLE_CORE_WORKER_HOSTNAME" "") in
      if not (is_empty own)
      then own
      else if not (is_empty global)
      then global ++ (str "-" ++ worker_role)
      else str "core-worker-" ++ (worker_role ++ str "@media-shuttle-core")

  unfoldable pub worker_queues : Text → Text
  unfolding role_specific strip generate_queue_names
  worker_queues worker_role =
      let own = role_specific worker_role (str "_WORKER_QUEUES") in
      let global = strip (getenv_or env "MEDIA_SHUTTLE_CORE_WORKER_QUEUES" "") in
      if not (is_empty own)
      then own
      else if not (is_empty global)
      then global
      else generate_queue_names env worker_role

  unfoldable pub slot_of : Text → ℕ → Slot
  unfolding worker_queues worker_hostname strip_items split
  slot_of role concurrency = record {
    role = role;
    hostname = worker_hostname role;
    queues_csv = worker_queues role;
    queues = strip_items (split b',' (worker_queues role));
    concurrency = concurrency;
  }

  unfoldable pub worker_slot : Text → Result Slot
  unfolding worker_concurrency slot_of
  worker_slot role = map_result (slot_of role) (worker_concurrency role)

  abbrev and_slot : Result Slot → Result (List Slot) → Result (List Slot)
  and_slot (err e) rest = err e
  and_slot (ok slot) rest = map_result (λ slots. slot ∷ slots) rest

  -- `[_worker_slot(role) for role in roles]`
  unfoldable pub worker_slots : List Text → Result (List Slot)
  unfolding worker_slot
  worker_slots [] = ok []
  worker_slots (role ∷ roles) = and_slot (worker_slot role) (worker_slots roles)

  unfoldable pub resolve_roles : List Text
  unfolding lower strip text_eq
  resolve_roles =
      let role = lower (strip (getenv_or env "MEDIA_SHUTTLE_CORE_WORKER_ROLE" "all")) in
      if text_eq role (str "all")
      then str "parse" ∷ str "download" ∷ str "upload" ∷ str "control" ∷ []
      else role ∷ []

  -- `concurrency_override`, at least one, or else the role's own.
  unfoldable pub started_concurrency : Text → Option ℤ → Result ℕ
  unfolding worker_concurrency
  started_concurrency role none = worker_concurrency role
  started_concurrency role (some n) = ok (at_least_one n)

  -- The command line that `start_celery_process` gives to `Popen`.
  unfoldable pub celery_command : Text → ℕ → Text → Text → List Text
  unfolding show_nat
  celery_command role concurrency hostname queues =
      str "celery"
      ∷ str "-A"
      ∷ str "core.queue.tasks:celery_app"
      ∷ str "worker"
      ∷ str "--loglevel=INFO"
      ∷ str "--without-gossip"
      ∷ str "--pool=solo"
      ∷ (str "--hostname=" ++ hostname)
      ∷ (str "--queues=" ++ queues)
      ∷ (str "--concurrency=" ++ show_nat concurrency)
      ∷ []

  -- `worker_role or os.getenv(...)`, and each override or else what the environment says.
  unfoldable pub start_command : Option Text → Overrides → Result (List Text)
  unfolding lower strip started_concurrency worker_hostname worker_queues celery_command
  start_command worker_role given =
      let role = lower (
        strip (
          or_text (get_or worker_role [])
            (getenv_or env "MEDIA_SHUTTLE_CORE_WORKER_ROLE" "all"))) in
      let hostname = or_text (get_or given.hostname []) (worker_hostname role) in
      let queues = or_text (get_or given.queues []) (worker_queues role) in
      map_result (λ n. celery_command role n hostname queues)
        (started_concurrency role given.concurrency)
