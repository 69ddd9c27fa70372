-- ===== src/Core/Supervisor.antt =====
-- media-shuttle-core/core/queue/worker_process.py: the supervisor, which starts a worker for each role
-- and stops them all when one ends or a signal comes. A process is known by its number, and a time is
-- counted in tenths of a second. A signal is looked for where the supervisor waits.
pub mod Reports
pub mod Shutdown
pub mod Ends
pub mod Stopped
pub mod Rounds
pub mod Run
pub mod Waits
use media_shuttle.Prelude.{
  ℕ, zero, suc, ◌+◌, ◌-◌, Bool, true, false, not, Option, none, some, List, [], ◌∷◌, ◌++◌, map, ℤ,
  pos, negsuc, ltb, leb, ◌==◌, if◌then◌else◌,
}
use media_shuttle.Py.Text.{Text, str}
use media_shuttle.Py.Number.{show_nat, show_int}
use media_shuttle.Py.Exec.{
  Result, ok, err, Exec, pure, raise, gets, update, ◌>>=◌, ◌>>◌, try_finally,
}
use media_shuttle.Core.Env.{Env}
use media_shuttle.Core.Contracts.{from_result}
use media_shuttle.Core.Queues.{resolve_owner_node}
use media_shuttle.Core.Workers.{Report}
use media_shuttle.Core.Control.{Processes}
use media_shuttle.Core.Slots.{
  Slot, worker_registry_enabled, resolve_roles, worker_slots, start_command,
}

-- What a wait ends with: a process and its exit code, or a signal's number, which is missing when
-- the supervisor's own handler did not note it.
pub data Waited : Type 0 where
  exited : (proc : ℕ) (code : ℤ) → Waited
  interrupted : (signum : Option ℕ) → Waited

-- What the supervisor uses beside the processes.
pub record Host (W : Type 0) : Type 0 where
  pub processes : Processes W
  -- `subprocess.Popen(command)`
  pub popen : List Text → Exec W ℕ
  -- `proc.wait()`, and `time.sleep(0.2)`, in which a signal may come
  pub wait : ℕ → W → Waited × W
  pub nap : W → Option (Option ℕ) × W
  -- `time.monotonic()`
  pub monotonic : W → ℕ
  -- `signal.Signals(signum).name`
  pub signal_name : ℕ → Option Text
  -- `upsert_worker` of the registry, `none` where its database cannot be opened
  pub mongo_upsert : Option (Report → Exec W (Unit {0}))

-- A slot with its process.
abbrev pub Running : Type 0
Running = Slot × ℕ

unfoldable pub signal_text : Option Text → ℕ → Text
unfolding show_nat
signal_text (some name) signum = str "signal=" ++ name
signal_text none signum = str "signal=" ++ show_nat signum

-- `"SHUTDOWN" if code == 0 else "CRASHED"`
unfoldable pub status_of_code : ℤ → Text
status_of_code (pos zero) = str "SHUTDOWN"
status_of_code (pos (suc n)) = str "CRASHED"
status_of_code (negsuc n) = str "CRASHED"

unfoldable pub reason_of_code : ℤ → Text
unfolding show_int
reason_of_code (pos zero) = []
reason_of_code (pos (suc n)) = str "exit_code=" ++ show_int (pos (suc n))
reason_of_code (negsuc n) = str "exit_code=" ++ show_int (negsuc n)

module _ {W : Type 0} (env : Env W) (host : Host W) where
  unfoldable pub signal_reason : Option ℕ → Text
  unfolding signal_text
  signal_reason none = str "signal=unknown"
  signal_reason (some signum) = signal_text (host.signal_name signum) signum

  abbrev poll : ℕ → W → Option ℤ
  poll proc w = host.processes.poll proc w

  abbrev polled : Option ℕ → W → Option ℤ
  polled none w = none
  polled (some proc) w = poll proc w

  upsert_with : Option (Report → Exec W (Unit {0})) → Report → Exec W (Unit {0})
  upsert_with none report = pure tt
  upsert_with (some upsert) report = upsert report

  -- `_build_worker_registry`
  unfoldable pub build_worker_registry : Option (Report → Exec W (Unit {0}))
  unfolding worker_registry_enabled
  build_worker_registry = if worker_registry_enabled env then host.mongo_upsert else none

  unfoldable pub upsert_worker : Slot → Option ℕ → Text → Text → Exec W (Unit {0})
  unfolding upsert_with resolve_owner_node build_worker_registry
  upsert_worker slot proc status reason w =
      upsert_with build_worker_registry
        (record {
          hostname = slot.hostname;
          role = slot.role;
          queues = slot.queues;
          concurrency = pos slot.concurrency;
          status = status;
          node_id = resolve_owner_node env;
          pid = proc;
          exit_code = polled proc w;
          reason = reason;
        })
        w
