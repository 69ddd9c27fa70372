-- ===== src/Core/Control.antt =====
-- media-shuttle-core/core/queue/worker_control_runtime.py: the commands that start and stop the
-- managed worker processes of a node, one for each role. A process is known by its number.
pub mod Managed
pub mod Rounds
use media_shuttle.Prelude.{
  ℕ, zero, suc, ◌+◌, Bool, true, false, not, ◌&&◌, ◌||◌, Option, none, some, List, [], ◌∷◌, ◌++◌, ℤ,
  pos, at_least_one, ltb, get_or, if◌then◌else◌,
}
use media_shuttle.Py.Text.{Text, str, text_eq, text_in, strip, lower, is_empty}
use media_shuttle.Py.Dict
use media_shuttle.Py.Dict.{Dict}
use media_shuttle.Py.Exec.{Result, ok, err}
use media_shuttle.Core.Env.{Env}
use media_shuttle.Core.Queues.{normalize_owner_node, resolve_owner_node}

-- The operating system: `poll` gives the exit code of a process that ended; a time is counted in
-- tenths of a second.
pub record Processes (W : Type 0) : Type 0 where
  pub poll : ℕ → W → Option ℤ
  pub terminate : ℕ → W → W
  pub kill : ℕ → W → W
  pub sleep : W → W
  pub time : W → ℕ
  -- `start_celery_process(role, concurrency, hostname)`
  pub start : (role : Text) (concurrency : ℕ) (hostname : Text) → W → Result ℕ × W

pub record ManagedProc : Type 0 where
  pub role : Text
  pub proc : ℕ
  pub concurrency : ℕ
  pub started_at : ℕ

pub record Command : Type 0 where
  pub action : Text
  pub role : Text
  pub node_id : Text
  pub concurrency : Option ℤ

-- The dictionary `_PROCS`, with the world.
pub record Control (W : Type 0) : Type 0 where
  pub procs : Dict ManagedProc
  pub world : W

pub data ControlReply : Type 0 where
  refused : (reason action role : Text) → ControlReply
  mismatched : (action role node_id current_node : Text) → ControlReply
  accepted : (action role state : Text) (pid concurrency : Option ℕ) → ControlReply
  raised : (reason : Text) → ControlReply

-- `max(1, int(command.get("concurrency") or 1))`
unfoldable pub requested_concurrency : Option ℤ → ℕ
requested_concurrency none = 1
requested_concurrency (some n) = at_least_one n

abbrev pub allowed_roles : List Text
allowed_roles = str "parse" ∷ str "download" ∷ str "upload" ∷ []

module _ {W : Type 0} (env : Env W) (os : Processes W) where
  unfoldable pub managed_hostname : Text → Text
  managed_hostname role =
      let owner = resolve_owner_node env in
      if is_empty owner
      then str "core-worker-" ++ (role ++ str "-managed@media-shuttle-core")
      else str "core-worker-" ++ (role ++ (str "-managed-" ++ (owner ++ str "@media-shuttle-core")))

  record_of : Text → Option ManagedProc → Option ℤ → Control W → Option ManagedProc × Control W
  record_of role none code c = (none, c)
  record_of role (some slot) none c = (some slot, c)
  record_of role (some slot) (some code) c = (none, record c { procs = Dict.remove role c.procs })

  abbrev poll_slot : Option ManagedProc → W → Option ℤ
  poll_slot none w = none
  poll_slot (some slot) w = os.poll slot.proc w

  -- `_record`: the running process of a role; one that ended is forgotten.
  unfoldable pub running_record : Text → Control W → Option ManagedProc × Control W
  unfolding record_of
  running_record role c =
      let slot = Dict.get role c.procs in record_of role slot (poll_slot slot c.world) c

  -- The loop that waits for the end of a process, at most until the deadline.
  unfoldable pub wait_exit : ℕ → ℕ → ℕ → W → W
  wait_exit zero deadline pid w = w
  wait_exit (suc rounds) deadline pid w =
      let later = wait_exit rounds deadline pid (os.sleep w) in
      elim (os.poll pid w) [ none ↦ if ltb (os.time w) deadline then later else w | some code ↦ w ]

  -- Ten seconds are a hundred rounds.
  stop_process : ℕ → W → W
  unfolding wait_exit
  stop_process pid w =
      let asked = os.terminate pid w in
      let waited = wait_exit 100 (os.time asked + 100) pid asked in
      elim (os.poll pid waited) [ none ↦ os.kill pid waited | some code ↦ waited ]

  unfoldable pub stop_slot : Text → ManagedProc → Control W → Control W
  unfolding stop_process
  stop_slot role slot c = record {
    procs = Dict.remove role c.procs;
    world = stop_process slot.proc c.world;
  }

  started : Text → Text → ℕ → Result ℕ × W → Control W → ControlReply × Control W
  started shown role concurrency (err e, w) c = (raised e, record c { world = w })
  started shown role concurrency (ok pid, w) c = (
    accepted shown role (str "starting") (some pid) (some concurrency),
    record {
      procs =
          Dict.put role
            (record { role = role; proc = pid; concurrency = concurrency; started_at = os.time w })
            c.procs;
      world = w;
    },
  )

  -- `"start" if action in {"start", "restart"} else action`
  abbrev pub shown_action : Text → Text
  shown_action action =
      if text_in action (str "start" ∷ str "restart" ∷ []) then str "start" else action

  unfoldable pub start_slot : Text → Text → ℕ → Control W → ControlReply × Control W
  unfolding started managed_hostname
  start_slot action role concurrency c =
      started (shown_action action) role concurrency
        (os.start role concurrency (managed_hostname role) c.world) c

  -- The part under the lock, by the action and the running process.
  perform : Text → Text → ℕ → Option ManagedProc → Control W → ControlReply × Control W
  unfolding stop_slot start_slot text_eq
  perform action role concurrency none c =
      if text_eq action (str "status")
      then (accepted action role (str "stopped") none none, c)
      else start_slot action role concurrency c
  perform action role concurrency (some slot) c =
      if text_eq action (str "status")
      then (accepted action role (str "running") (some slot.proc) (some slot.concurrency), c)
      else if text_eq action (str "stop")
      then (accepted action role (str "stopped") none none, stop_slot role slot c)
      else if text_eq action (str "start")
      then (
        accepted action role (str "already_running") (some slot.proc) (some slot.concurrency),
        c,
      )
      else start_slot action role concurrency (stop_slot role slot c)

  locked : Text → Text → ℕ → Control W → ControlReply × Control W
  unfolding running_record perform
  locked action role concurrency c =
      let (slot, c') = running_record role c in perform action role concurrency slot c'

  unfoldable pub apply_worker_control : Command → Control W → ControlReply × Control W
  unfolding locked requested_concurrency text_in normalize_owner_node
  apply_worker_control command c =
      let action = lower (strip command.action) in
      let role = lower (strip command.role) in
      let node_id = normalize_owner_node (some command.node_id) in
      let current = normalize_owner_node (some (resolve_owner_node env)) in
      if not (text_in role allowed_roles)
      then (refused (str "unsupported_role") action role, c)
      else if not (is_empty node_id) && not (is_empty current) && not (text_eq node_id current)
      then (mismatched action role node_id current, c)
      else if not (text_in action (str "start" ∷ str "stop" ∷ str "restart" ∷ str "status" ∷ []))
      then (refused (str "unsupported_action") action role, c)
      else locked action role (requested_concurrency command.concurrency) c
