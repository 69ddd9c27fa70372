-- ===== src/Core/Workers/Mongo.antt =====
-- media-shuttle-core/core/storage/worker_registry.py, `MongoWorkerRegistry`, over a collection. The service
-- for requests keeps its records of workers in the same collection: a field that may be missing is an
-- `Option`, and a key whose value is `None` counts as missing.
pub mod Wish
use media_shuttle.Prelude.{
  ℕ, zero, suc, max, Option, none, some, List, [], ◌∷◌, map, ℤ, pos, negsuc, at_least_one, get_or,
  map_option,
}
use media_shuttle.Py.Text.{Text, str, join, or_text}
use media_shuttle.Py.Dict.{Dict}
use media_shuttle.Core.Collection.{Collection}
use media_shuttle.Core.Workers.{Report, Call, reported, beaten}

pub record StoredWorker : Type 0 where
  pub hostname : Option Text
  pub role : Option Text
  pub queues : Option (List (Option Text))
  pub queue : Option Text
  pub status : Option Text
  pub concurrency : Option ℤ
  pub desired_concurrency : Option ℤ
  pub node_id : Option Text
  pub pid : Option ℕ
  pub exit_code : Option ℤ
  pub rate_limits : Option (Dict Text)
  pub last_error : Option Text
  pub started_at : Option Text
  pub last_heartbeat_at : Option Text
  pub updated_at : Option Text

-- `current.get("started_at") or now`, where `current` may be missing.
unfoldable pub start_or : Text → Option StoredWorker → Text
start_or now none = now
start_or now (some current) = or_text (get_or current.started_at []) now

-- `max(1, int(current.get("desired_concurrency") or max(1, int(concurrency))))`
unfoldable pub wish_or : ℤ → Option ℤ → ℕ
wish_or concurrency none = at_least_one concurrency
wish_or concurrency (some (pos zero)) = at_least_one concurrency
wish_or concurrency (some (pos (suc n))) = at_least_one (pos (suc n))
wish_or concurrency (some (negsuc n)) = at_least_one (negsuc n)

abbrev pub wish_of : Option StoredWorker → Option ℤ
wish_of none = none
wish_of (some current) = current.desired_concurrency

-- The document of a report, which replaces the one that is there.
unfoldable pub reported_document : Text → Report → Option StoredWorker → StoredWorker
unfolding start_or wish_or
reported_document now report current = record {
  hostname = some report.hostname;
  role = some report.role;
  queues = some (map some report.queues);
  queue = some (join (str ",") report.queues);
  status = some report.status;
  concurrency = some (pos (at_least_one report.concurrency));
  desired_concurrency = some (pos (wish_or report.concurrency (wish_of current)));
  node_id = some report.node_id;
  pid = report.pid;
  exit_code = report.exit_code;
  rate_limits = none;
  last_error = some report.reason;
  started_at = some (start_or now current);
  last_heartbeat_at = some now;
  updated_at = some now;
}

unfoldable pub beaten_document : Text → StoredWorker → StoredWorker
beaten_document now current = record current { last_heartbeat_at = some now; updated_at = some now }

module _ {C : Type 0} (collection : Collection StoredWorker C) where
  unfoldable pub upsert_stored : Text → Report → C → StoredWorker × C
  unfolding reported_document
  upsert_stored now report c =
      let document = reported_document now report (collection.find_one report.hostname c) in
      (document, collection.replace_one report.hostname document c)

  unfoldable pub replace_found : Text → Option StoredWorker → C → C
  replace_found hostname none c = c
  replace_found hostname (some document) c = collection.replace_one hostname document c

  unfoldable pub heartbeat_stored : Text → Text → C → Option StoredWorker × C
  unfolding beaten_document replace_found
  heartbeat_stored now hostname c =
      let document = map_option (beaten_document now) (collection.find_one hostname c) in
      (document, replace_found hostname document c)

  unfoldable pub get_stored : Text → C → Option StoredWorker
  get_stored hostname c = collection.find_one hostname c

  unfoldable pub stored_after : List Call → C → C
  unfolding upsert_stored heartbeat_stored
  stored_after [] c = c
  stored_after (reported now report ∷ calls) c = stored_after calls (upsert_stored now report c).1
  stored_after (beaten now hostname ∷ calls) c =
      stored_after calls (heartbeat_stored now hostname c).1
