-- ===== src/Core/Tasks/Signals/Told.antt =====
-- What the registry holds after a worker's signals.
use media_shuttle.Prelude.{ℕ, ◌≡◌, ◌≤◌, true, some, [], pos}
use media_shuttle.Py.Text.{Text, str, join}
use media_shuttle.Py.Exec.{Result, ok}
use media_shuttle.Core.Env.{Env}
use media_shuttle.Core.Collection.{Collection}
use media_shuttle.Core.Queues.{resolve_owner_node}
use media_shuttle.Core.Workers.Mongo.{StoredWorker, upsert_stored}
use media_shuttle.Core.Tasks.Signals.{
  Written, Opened, unopened, switched_off, opened, State, Instance, Signal, Connect,
  status_of_signal, role_from_hostname, queue_names_from_worker_instance, registry_enabled,
  connected, report_of,
}

module _ {C W : Type 0} (env : Env W) (connect : Connect C) (driver : W → Written × W) where
  -- The registry is open, or the first signal will open it.
  abbrev pub Opens : Collection StoredWorker C → Opened C → Type 0
  Opens collection unopened =
      (registry_enabled env connect driver ≡ true) × (connected env connect driver ≡ ok collection)
  Opens collection switched_off = ⊥
  Opens collection (opened other) = other ≡ collection

  -- The worker is stored as the signal says: with at least one slot, no process and no error.
  abbrev pub IsTold : Signal → Instance → Collection StoredWorker C → C → Type 0
  IsTold signal worker collection c =
      (d : StoredWorker) × (collection.find_one worker.hostname c ≡ some d)
      × (d.status ≡ some (status_of_signal signal))
      × (d.role ≡ some (role_from_hostname worker.hostname))
      × (d.queue ≡ some (join (str ",") (queue_names_from_worker_instance worker)))
      × (d.node_id ≡ some (resolve_owner_node env))
      × (d.last_error ≡ some [])
      × ((n : ℕ) × (d.concurrency ≡ some (pos n)) × (1 ≤ n))

  -- The state after a signal, when the registry can be opened and the driver answers.
  abbrev told : Signal → Instance → Collection StoredWorker C → W → State C W → State C W
  told signal worker collection w s = record {
    registry = opened collection;
    stored =
        (upsert_stored collection (env.iso (env.now s.world).0)
          (report_of env connect driver signal worker) s.stored).1;
    world = w;
  }

  -- No signal raised, and the last one's worker is stored as it says.
  abbrev pub Shown :
      Signal → Instance → Collection StoredWorker C → Result (Unit {0}) × State C W → Type 0
  Shown signal worker collection after =
      (after.0 ≡ ok tt) × IsTold signal worker collection after.1.stored
