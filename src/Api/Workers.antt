-- ===== src/Api/Workers.antt =====
-- media-shuttle-api/app/service.py: the operators' actions on workers. Each acts through the
-- control, and notes in the worker repository what was accepted.
pub mod Gives
pub mod Limits
pub mod LimitRecords
pub mod Listing
pub mod Records
pub mod Places
use media_shuttle.Prelude.{
  ℕ, Bool, true, false, not, ◌&&◌, ◌||◌, Option, none, some, List, [], ◌∷◌, ◌++◌, ℤ, pos,
  at_least_one, not_positive, all_of, get_or, max, is_some, if◌then◌else◌, zero, suc,
}
use media_shuttle.Py.Text.{
  Text, str, text_eq, text_in, strip, lower, or_text, is_empty, join, unique, has_char,
}
use media_shuttle.Py.Dict
use media_shuttle.Py.Exec.{Result, Exec, pure, ◌>>=◌, ◌>>◌}
use media_shuttle.Core.Env.{Env}
use media_shuttle.Core.Queues.{normalize_owner_node}
use media_shuttle.Api.Model.{WorkerRecord}
use media_shuttle.Api.Control.{ControlReply, WorkerControl}
use media_shuttle.Api.Store.{Api, utc_now_iso, get_worker, upsert_worker, patch_worker}

-- The replies, by the keys that they have.
pub data ActionReply : Type 0 where
  refused : (reason : Text) → ActionReply
  unsupported : (worker action reason : Text) → ActionReply
  commanded :
      (accepted : Bool) (action role node_id queue : Text) (concurrency : ℕ)
      (operation : ControlReply)
      → ActionReply
  handled :
      (accepted : Bool) (worker queue : Text) (concurrency : ℤ) (action : Text)
      (operations : List ControlReply)
      → ActionReply
  limited :
      (accepted : Bool) (worker task_type task_name rate_limit : Text) (operation : ControlReply)
      → ActionReply

-- `_managed_worker_hostname`
unfoldable pub managed_worker_hostname : Text → Text → Text
unfolding normalize_owner_node
managed_worker_hostname role node_id =
    str "core-worker-"
    ++ (role
        ++ (str "-managed-" ++ (normalize_owner_node (some node_id) ++ str "@media-shuttle-core")))

-- `int(after or desired)`: no number and zero count alike.
unfoldable pub after_or : Option ℕ → ℤ → ℤ
after_or none desired = desired
after_or (some zero) desired = desired
after_or (some (suc n)) desired = pos (suc n)

-- `WorkerRecord(hostname=hostname)`, with the three times that the default of a field reads.
unfoldable pub blank_worker : Text → Text → Text → Text → WorkerRecord
blank_worker hostname started heartbeat updated = record {
  hostname = hostname;
  role = [];
  queue = [];
  queues = [];
  status = str "UNKNOWN";
  concurrency = 1;
  desired_concurrency = 1;
  node_id = [];
  pid = none;
  exit_code = none;
  rate_limits = [];
  last_error = [];
  started_at = started;
  last_heartbeat_at = heartbeat;
  updated_at = updated;
}

module _ {W : Type 0} (env : Env W) (control : WorkerControl W) where
  abbrev pub in_control : {A : Type 0} → (W → A × W) → Exec (Api W) A
  in_control f a = let (x, w) = f a.world in (Result.ok x, record a { world = w })

  unfoldable pub new_worker : Text → Exec (Api W) WorkerRecord
  unfolding blank_worker
  new_worker hostname = do
    started ← utc_now_iso env
    heartbeat ← utc_now_iso env
    updated ← utc_now_iso env
    pure (blank_worker hostname started heartbeat updated)

  unfoldable pub or_new : Text → Option WorkerRecord → Exec (Api W) WorkerRecord
  unfolding new_worker
  or_new hostname none = new_worker hostname
  or_new hostname (some r) = pure r

  -- `self.worker_repository.get(hostname) or WorkerRecord(hostname=hostname)`
  unfoldable pub known_worker : Text → Exec (Api W) WorkerRecord
  unfolding or_new
  known_worker hostname = get_worker env hostname >>= or_new hostname

  -- What is noted of an accepted command.
  unfoldable pub note_command : Text → Text → Text → ℤ → Exec (Api W) (Unit {0})
  unfolding known_worker managed_worker_hostname
  note_command node role action desired = do
    let host = managed_worker_hostname role node
    current ← known_worker host
    now ← utc_now_iso env
    upsert_worker env (record current {
      hostname = host;
      role = role;
      status =
          if text_in action (str "start" ∷ str "restart" ∷ [])
          then str "STARTING"
          else str "STOPPING";
      desired_concurrency = at_least_one desired;
      node_id = node;
      updated_at = now;
    })

  unfoldable pub send_command : Text → Text → Text → ℤ → Text → Exec (Api W) ActionReply
  unfolding note_command
  send_command node role action desired queue = do
    out ← in_control (control.publish_control_command node role action (at_least_one desired) queue)
    (if out.accepted then note_command node role action desired else pure tt)
    pure (
        commanded out.accepted action role node (get_or out.queue queue) (at_least_one desired) out)

  unfoldable pub shut_down : Text → Text → ℤ → WorkerRecord → Exec (Api W) ActionReply
  shut_down worker queue desired current = do
    out ← in_control (control.shutdown worker)
    (if out.accepted
        then (do
          heartbeat ← utc_now_iso env
          updated ← utc_now_iso env
          upsert_worker env (record current {
            hostname = worker;
            status = str "SHUTDOWN";
            last_heartbeat_at = heartbeat;
            updated_at = updated;
          }))
        else pure tt)
    pure (handled out.accepted worker queue desired (str "shutdown") (out ∷ []))

  -- `... or WorkerRecord(hostname=worker, queues=queues, queue=",".join(queues))`
  unfoldable pub or_queued : Text → List Text → Option WorkerRecord → Exec (Api W) WorkerRecord
  unfolding new_worker
  or_queued worker queues (some r) = pure r
  or_queued worker queues none = do
    fresh ← new_worker worker
    pure (record fresh { queue = join (str ",") queues; queues = queues })

  -- The queue is added to the worker's list, once; the record is read again.
  unfoldable pub note_queue : Text → Text → WorkerRecord → Exec (Api W) WorkerRecord
  unfolding unique or_queued
  note_queue worker queue current = do
    let queues = unique (current.queues ++ queue ∷ [])
    now ← utc_now_iso env
    patch_worker env worker
        (λ r. record r { queue = join (str ",") queues; queues = queues; updated_at = now })
    found ← get_worker env worker
    or_queued worker queues found

  unfoldable pub add_queue_of :
      Text → Text → WorkerRecord → Exec (Api W) (List ControlReply × WorkerRecord)
  unfolding note_queue
  add_queue_of worker queue current = if is_empty queue then pure ([], current) else do
    out ← in_control (control.add_queue worker queue)
    if out.accepted
        then (do current' ← note_queue worker queue current; pure (out ∷ [], current'))
        else pure (out ∷ [], current)

  unfoldable pub note_concurrency : Text → ℤ → Option ℕ → WorkerRecord → Exec (Api W) (Unit {0})
  unfolding after_or
  note_concurrency worker desired after current = do
    found ← get_worker env worker
    now ← utc_now_iso env
    upsert_worker env (record (get_or found current) {
      hostname = worker;
      status = str "READY";
      concurrency = at_least_one (after_or after desired);
      desired_concurrency = at_least_one desired;
      updated_at = now;
    })

  -- The operator's wish is kept, so that it can be shown.
  unfoldable pub note_wish : Text → ℤ → WorkerRecord → Exec (Api W) (Unit {0})
  unfolding blank_worker
  note_wish worker desired current = do
    found ← get_worker env worker
    now ← utc_now_iso env
    if is_some found
        then patch_worker env worker
            (λ r. record r { desired_concurrency = at_least_one desired; updated_at = now })
        else (do
          started ← utc_now_iso env
          heartbeat ← utc_now_iso env
          upsert_worker env (record (blank_worker worker started heartbeat now) {
            queue = current.queue;
            queues = current.queues;
            status = or_text current.status (str "UNKNOWN");
            concurrency = max 1 current.concurrency;
            desired_concurrency = at_least_one desired;
          }))

  unfoldable pub adjust : Text → Text → ℤ → Text → WorkerRecord → Exec (Api W) ActionReply
  unfolding add_queue_of note_concurrency note_wish
  adjust worker queue desired action current = do
    (operations, current') ← add_queue_of worker queue current
    out ← in_control (control.set_concurrency worker desired)
    (if out.accepted
        then note_concurrency worker desired out.after current'
        else note_wish worker desired current')
    pure (
        handled (all_of (λ r. r.accepted) (operations ++ out ∷ [])) worker queue desired action
          (operations ++ out ∷ []))

  -- The actions on a worker that is named.
  unfoldable pub act_on : Text → Text → ℤ → Text → WorkerRecord → Exec (Api W) ActionReply
  unfolding shut_down adjust text_eq
  act_on worker queue desired action current =
      if text_eq action (str "start")
      then pure (unsupported worker action (str "start_not_supported_use_orchestrator"))
      else if text_eq action (str "shutdown") || not_positive desired
      then shut_down worker queue desired current
      else adjust worker queue desired action current

  unfoldable pub admin_worker_action :
      Text → Text → ℤ → Text → Text → Text → Exec (Api W) ActionReply
  unfolding send_command known_worker act_on strip lower text_in
  admin_worker_action worker queue desired action node_id role =
      let worker_key = strip worker in
      let queue_key = strip queue in
      let action_key = lower (strip (or_text action (str "set"))) in
      let role_key = lower (strip role) in
      let node_key = strip node_id in
      if text_in action_key (str "start" ∷ str "stop" ∷ str "restart" ∷ [])
      then if not (text_in role_key (str "parse" ∷ str "download" ∷ str "upload" ∷ []))
        then pure (refused (str "role_required"))
        else if is_empty node_key
        then pure (refused (str "node_id_required"))
        else send_command node_key role_key action_key desired queue_key
      else if is_empty worker_key
      then pure (refused (str "worker_required"))
      else known_worker worker_key >>= act_on worker_key queue_key desired action_key
