-- ===== src/Core/Tasks.antt =====
-- media-shuttle-core/core/queue/tasks.py: the bodies of the broker's tasks. The state is that of
-- the pipeline with the messages that were sent to the broker, in order. A dictionary that the
-- code builds is a record; a key that only some of its builders write is an `Option`.
pub mod Retry
pub mod Failure
pub mod Signals
pub mod Finalize
pub mod Created
use media_shuttle.Prelude.{
  ℕ, ◌+◌, Bool, true, false, not, ◌&&◌, Option, none, some, List, [], ◌∷◌, ◌++◌, map, length, ℤ,
  pos, lt_int, keep_if, if◌then◌else◌, get_or,
}
use media_shuttle.Py.Text.{Text, str, is_empty, or_text}
use media_shuttle.Py.Number.{parse_int, int_or_error}
use media_shuttle.Py.Exec.{Result, ok, err, Exec, pure, raise, ◌>>=◌, ◌>>◌, try_except}
use media_shuttle.Core.Model.{
  TaskStatus, parsing, downloading, uploading, succeeded, failed, TaskPayload, ParsedSource,
  DownloadResult, UploadResult, Artifact, TaskRecord, Event,
}
use media_shuttle.Core.Env.{Env}
use media_shuttle.Core.Utils.{cleanup_local_download}
use media_shuttle.Core.Registry.{parse, download, upload}
use media_shuttle.Core.Repository.{RuntimePatch}
use media_shuttle.Core.Queues.{
  created_queue_key, retry_queue_key, download_queue_for_site, normalize_owner_node,
  resolve_owner_node,
}
use media_shuttle.Core.Pipeline
use media_shuttle.Core.Pipeline.{PipelineService, Sys, source_snapshot, require_sources}
use media_shuttle.Core.Service.{create_task_from_event}

-- One chain of a chord: a download, routed to its site's queue, then an upload.
pub record Chain : Type 0 where
  pub source : ParsedSource
  pub download_queue : Text
  pub task_id : Text
  pub target : Text
  pub destination : Text

-- What was handed to the broker.
pub data Sent : Type 0 where
  retry : (queue : Text) (event : Event) → Sent
  chord : (event : Event) (task_id : Text) (chains : List Chain) (callback_queue : Text) → Sent

-- The result of a task's body.
pub data Reply : Type 0 where
  retried : (task_id : Option Text) (attempt : ℕ) (reason : Text) → Reply
  gave_up : (task_id : Option Text) (attempt : ℕ) (reason : Text) → Reply
  scheduled : (task_id : Text) (attempt source_count : ℕ) → Reply
  finished : (task_id : Text) (attempt result_count : ℕ) (message : Text) → Reply

-- The packet that a download hands to an upload, and an upload to the end of the task.
pub record Packet : Type 0 where
  pub ok : Bool
  pub reason : Option Text
  pub location : Option Text
  pub download : Option DownloadResult
  pub source : ParsedSource
  pub owner_node : Option Text
  pub task_id : Text
  pub event : Event

pub record Node (R W : Type 0) : Type 0 where
  pub sys : Sys R W
  pub sent : List Sent

-- Whether the celery application can build signatures.
pub data App : Type 0 where
  with_signature without_signature : App

-- `a or b` for two optional texts, where an empty text counts as none.
abbrev pub or_folder : Option Text → Option Text → Option Text
or_folder none b = b
or_folder (some []) b = b
or_folder (some (c ∷ s)) b = some (c ∷ s)

abbrev pub download_text : (DownloadResult → Text) → Option DownloadResult → Text
download_text f none = []
download_text f (some d) = f d

abbrev pub download_folder : Option DownloadResult → Option Text
download_folder none = none
download_folder (some d) = d.remote_folder

unfoldable pub build_artifact : Packet → Artifact
build_artifact item = record {
  ok = item.ok;
  reason = get_or item.reason [];
  site = or_text item.source.site (download_text (λ d. d.site) item.download);
  page_url = item.source.page_url;
  declared_download_url = item.source.download_url;
  actual_download_url = download_text (λ d. d.source_url) item.download;
  file_name = or_text item.source.file_name (download_text (λ d. d.file_name) item.download);
  remote_folder = or_folder item.source.remote_folder (download_folder item.download);
  location = get_or item.location [];
  download = none;
}

-- `[item for item in upload_results if not item.get("ok")]`
unfoldable pub failed_results : List Packet → List Packet
failed_results items = keep_if (λ item. not item.ok) items

-- `[item["location"] for item in upload_results if item.get("location")]`
unfoldable pub result_locations : List Packet → List Text
result_locations [] = []
result_locations (item ∷ items) =
    let rest = result_locations items in
    let location = get_or item.location [] in if is_empty location then rest else location ∷ rest

module _ {R W : Type 0} (p : PipelineService R W) where
  -- A use of the pipeline's state alone.
  unfoldable pub in_sys : {A : Type 0} → Exec (Sys R W) A → Exec (Node R W) A
  in_sys m n = let (r, s) = m n.sys in (r, record n { sys = s })

  -- `int(os.getenv("MEDIA_SHUTTLE_MAX_RETRIES", "2"))`
  unfoldable pub max_retries : Result ℤ
  unfolding parse_int
  max_retries =
      let raw = get_or (p.env.getenv (str "MEDIA_SHUTTLE_MAX_RETRIES")) (str "2") in
      int_or_error (p.env.repr raw) (parse_int raw)

  -- The event of the next attempt: `if task_id: base["task_id"] = task_id`.
  unfoldable pub next_event : Event → Text → Option Text → Text → Event
  next_event event reason task_id updated_at = record event {
    attempt = some (get_or event.attempt 0 + 1);
    last_error = some reason;
    updated_at = some updated_at;
    task_id = or_folder task_id event.task_id;
  }

  downloaded_packet : Event → Text → ParsedSource → Text → DownloadResult → Packet
  downloaded_packet event task_id source owner result = record {
    ok = true;
    reason = none;
    location = none;
    download = some result;
    source = source_snapshot source;
    owner_node = some owner;
    task_id = task_id;
    event = event;
  }

  not_downloaded_packet : Event → Text → ParsedSource → Text → Text → Packet
  not_downloaded_packet event task_id source owner reason = record {
    ok = false;
    reason = some reason;
    location = none;
    download = none;
    source = source_snapshot source;
    owner_node = some owner;
    task_id = task_id;
    event = event;
  }

  unfoldable pub process_download_source_logic :
      Event → Text → ParsedSource → Option Text → Exec (Node R W) Packet
  unfolding downloaded_packet not_downloaded_packet
  process_download_source_logic event task_id source owner_node = do
    in_sys (Pipeline.update_status p task_id downloading [])
    let owner = or_text (normalize_owner_node owner_node) (resolve_owner_node p.env)
    try_except
        (do
          result ← in_sys (Pipeline.in_world p (download p.downloader_registry source))
          pure (downloaded_packet event task_id source owner result))
        (λ reason. pure (not_downloaded_packet event task_id source owner reason))

  uploaded_packet : Packet → Text → UploadResult → Packet
  uploaded_packet packet task_id uploaded = record packet {
    ok = true;
    reason = none;
    location = some uploaded.location;
    owner_node = none;
    task_id = task_id;
  }

  not_uploaded_packet : Packet → Text → Text → Packet
  not_uploaded_packet packet task_id reason = record packet {
    ok = false;
    reason = some reason;
    location = none;
    owner_node = none;
    task_id = task_id;
  }

  upload_packet : Packet → Text → Text → Text → DownloadResult → Exec (Node R W) Packet
  unfolding uploaded_packet not_uploaded_packet
  upload_packet packet task_id target destination result =
      try_except
        (do
          uploaded ←
              in_sys (Pipeline.in_world p (upload p.uploader_registry target result destination))
          in_sys (Pipeline.in_world p (cleanup_local_download p.env result.local_path))
          pure (uploaded_packet packet task_id uploaded))
        (λ reason. pure (not_uploaded_packet packet task_id reason))

  unfoldable pub process_upload_result_logic : Packet → Text → Text → Text → Exec (Node R W) Packet
  unfolding upload_packet
  process_upload_result_logic packet task_id target destination =
      if not packet.ok then pure packet else do
        in_sys (Pipeline.update_status p task_id uploading [])
        result ← Pipeline.or_raise (str "'download'") packet.download
        upload_packet packet task_id target destination result

-- The broker: `send_task`, or the call of a chord, which may raise.
abbrev pub Broker : Type 0 → Type 0
Broker W = Sent → Exec W (Unit {0})

module _ {R W : Type 0} (p : PipelineService R W) (broker : Broker W) where
  -- A call of the broker that hands a message over; it counts as sent even when the call raises.
  unfoldable pub send : Sent → Exec (Node R W) (Unit {0})
  send message n =
      let (r, w) = broker message n.sys.world in
      (r, record n { sys = record n.sys { world = w }; sent = n.sent ++ message ∷ [] })

  unfoldable pub route_failure : Event → Text → Option Text → Exec (Node R W) Reply
  unfolding next_event
  route_failure event reason task_id = do
    now ← in_sys p (Pipeline.read_clock p)
    let base = next_event p event reason task_id (p.env.iso now)
    let attempt = get_or event.attempt 0
    limit ← λ n. (max_retries p, n)
    if lt_int attempt limit
        then send (retry (retry_queue_key p.env) base)
          >> pure (retried base.task_id (attempt + 1) reason)
        else pure (gave_up base.task_id (attempt + 1) reason)

  finalize_failed : Event → Text → List Artifact → Text → Exec (Node R W) Reply
  unfolding route_failure
  finalize_failed event task_id artifacts reason = do
    in_sys p (Pipeline.update_status p task_id failed reason)
    in_sys p (
        Pipeline.update_runtime_fields p task_id
          (record { sources = none; artifacts = some artifacts; last_error = some reason }))
    route_failure event reason (some task_id)

  finalize_succeeded : Event → Text → List Artifact → List Text → Exec (Node R W) Reply
  finalize_succeeded event task_id artifacts locations = do
    let message = Pipeline.locations_message locations
    in_sys p (Pipeline.update_status p task_id succeeded message)
    in_sys p (
        Pipeline.update_runtime_fields p task_id
          (record { sources = none; artifacts = some artifacts; last_error = some [] }))
    pure (finished task_id (get_or event.attempt 0) (length locations) message)

  -- `failed[0].get("reason", "failed")` where one failed.
  finalize_with : Event → Text → List Artifact → List Text → List Packet → Exec (Node R W) Reply
  unfolding finalize_failed finalize_succeeded
  finalize_with event task_id artifacts locations [] =
      finalize_succeeded event task_id artifacts locations
  finalize_with event task_id artifacts locations (item ∷ _) =
      finalize_failed event task_id artifacts (get_or item.reason (str "failed"))

  unfoldable pub process_finalize_task_logic : List Packet → Event → Text → Exec (Node R W) Reply
  unfolding finalize_with build_artifact failed_results result_locations
  process_finalize_task_logic results event task_id =
      finalize_with event task_id (map build_artifact results) (result_locations results)
        (failed_results results)
