-- ===== src/Core/Pipeline.antt =====
-- media-shuttle-core/core/pipeline/service.py: a task from its address to the uploaded files, in
-- one process. The state is a repository with the world; `PipelineService` names the parts.
pub mod Frame
pub mod Triples
pub mod Delivery
use media_shuttle.Prelude.{
  ℕ, Bool, true, false, Option, none, some, List, [], ◌∷◌, ◌++◌, map, length, if◌then◌else◌,
}
use media_shuttle.Py.Text.{Text, str, join}
use media_shuttle.Py.Exec.{Result, Exec, pure, raise, ◌>>=◌, ◌>>◌}
use media_shuttle.Core.Model.{
  TaskStatus, parsing, downloading, uploading, succeeded, TaskPayload, ParsedSource, DownloadResult,
  UploadResult, Artifact, TaskRecord,
}
use media_shuttle.Core.Env.{Env}
use media_shuttle.Core.Utils.{cleanup_local_download}
use media_shuttle.Core.Registry.{
  ParserRegistry, DownloaderRegistry, UploaderRegistry, parse, download, upload,
}
use media_shuttle.Core.Repository.{RuntimePatch, TaskRepository}

pub record PipelineService (R W : Type 0) : Type 0 where
  pub repository : TaskRepository R
  pub env : Env W
  pub parser_registry : ParserRegistry W
  pub downloader_registry : DownloaderRegistry W
  pub uploader_registry : UploaderRegistry W

-- What the messages of the workers' broker hold is the business of `Core.Tasks`.
pub record Sys (R W : Type 0) : Type 0 where
  pub repo : R
  pub world : W

-- The file names and the times of the sources are kept, with an empty folder where none is named.
unfoldable pub source_snapshot : ParsedSource → ParsedSource
source_snapshot source = record {
  site = source.site;
  page_url = source.page_url;
  download_url = source.download_url;
  file_name = source.file_name;
  remote_folder = source.remote_folder;
  metadata = source.metadata;
}

unfoldable pub uploaded_artifact : ParsedSource → DownloadResult → UploadResult → Artifact
uploaded_artifact source result uploaded = record {
  ok = true;
  reason = [];
  site = source.site;
  page_url = source.page_url;
  declared_download_url = source.download_url;
  actual_download_url = result.source_url;
  file_name = source.file_name;
  remote_folder = source.remote_folder;
  location = uploaded.location;
  download = some result;
}

-- `raise` unless there is a value.
abbrev pub or_raise : {S A : Type 0} → Text → Option A → Exec S A
or_raise e (some a) = pure a
or_raise e none = raise e

abbrev pub require_sources : {S : Type 0} → List ParsedSource → Exec S (Unit {0})
require_sources [] = raise (str "no parsed source found")
require_sources (s ∷ sources) = pure tt

-- The locations in one text, one to a line.
unfoldable pub locations_message : List Text → Text
unfolding join
locations_message locations = join (str "\n") locations

module _ {R W : Type 0} (p : PipelineService R W) where
  -- A use of the world alone.
  unfoldable pub in_world : {A : Type 0} → Exec W A → Exec (Sys R W) A
  in_world m s = let (r, w) = m s.world in (r, record s { world = w })

  unfoldable pub read_clock : Exec (Sys R W) ℕ
  read_clock s = let (now, w) = p.env.now s.world in (Result.ok now, record s { world = w })

  unfoldable pub get_task : Text → Exec (Sys R W) (Option TaskRecord)
  get_task task_id s = (Result.ok (p.repository.get task_id s.repo), s)

  -- The operations of the repository read the clock.
  unfoldable pub update_status : Text → TaskStatus → Text → Exec (Sys R W) (Option TaskRecord)
  update_status task_id status message s =
      let (now, w) = p.env.now s.world in
      let (r, repo) = p.repository.update_status now task_id status message s.repo in
      (Result.ok r, record { repo = repo; world = w })

  unfoldable pub update_runtime_fields : Text → RuntimePatch → Exec (Sys R W) (Option TaskRecord)
  update_runtime_fields task_id patch s =
      let (now, w) = p.env.now s.world in
      let (r, repo) = p.repository.update_runtime_fields now task_id patch s.repo in
      (Result.ok r, record { repo = repo; world = w })

  unfoldable pub create_task : TaskRecord → Exec (Sys R W) (Unit {0})
  create_task r s = (Result.ok tt, record s { repo = p.repository.create r s.repo })

  -- The loop over the sources, with the artifacts and the locations of the uploads.
  unfoldable pub upload_sources :
      Text → TaskPayload → List ParsedSource → Exec (Sys R W) (List Artifact × List Text)
  upload_sources task_id payload [] = pure ([], [])
  upload_sources task_id payload (source ∷ sources) = do
    result ← in_world (download p.downloader_registry source)
    update_status task_id uploading []
    uploaded ← in_world (upload p.uploader_registry payload.target result payload.destination)
    in_world (cleanup_local_download p.env result.local_path)
    (artifacts, uploads) ← upload_sources task_id payload sources
    pure (uploaded_artifact source result uploaded ∷ artifacts, uploaded.location ∷ uploads)

  unfoldable pub run : Text → Exec (Sys R W) TaskRecord
  run task_id = do
    found ← get_task task_id
    task ← or_raise (p.env.repr (str "task not found: " ++ task_id)) found
    update_status task_id parsing []
    sources ← in_world (parse p.parser_registry task.payload.url)
    require_sources sources
    update_runtime_fields task_id (record {
      sources = some (map source_snapshot sources);
      artifacts = some [];
      last_error = some [];
    })
    update_status task_id downloading []
    (artifacts, uploads) ← upload_sources task_id task.payload sources
    done ← update_status task_id succeeded (locations_message uploads)
    update_runtime_fields task_id
        (record { sources = none; artifacts = some artifacts; last_error = some [] })
    or_raise (p.env.repr (str "task not found after update: " ++ task_id)) done
