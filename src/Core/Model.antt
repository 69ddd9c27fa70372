-- ===== src/Core/Model.antt =====
-- media-shuttle-core/core/enums.py and models.py: the values that the components exchange. A time
-- is a natural number (an instant); a dictionary that the code builds with fixed keys is a record,
-- where a key that may be missing is an `Option`.
use media_shuttle.Prelude.{ℕ, Bool, Option, List, [], ◌∷◌}
use media_shuttle.Py.Text.{Text, str}

pub data TaskStatus : Type 0 where
  queued parsing downloading uploading succeeded failed : TaskStatus

pub TaskStatus-discrete : Discrete TaskStatus
TaskStatus-discrete = hlevel

-- `status.value`
unfoldable pub status_value : TaskStatus → Text
status_value queued = str "QUEUED"
status_value parsing = str "PARSING"
status_value downloading = str "DOWNLOADING"
status_value uploading = str "UPLOADING"
status_value succeeded = str "SUCCEEDED"
status_value failed = str "FAILED"

pub data SourceSite : Type 0 where
  gofile bunkr cyberdrop cyberfile filester pixeldrain gd mega mediafire saint : SourceSite
  transferit turbo coomer ytdl generic : SourceSite

unfoldable pub site_value : SourceSite → Text
site_value gofile = str "GOFILE"
site_value bunkr = str "BUNKR"
site_value cyberdrop = str "CYBERDROP"
site_value cyberfile = str "CYBERFILE"
site_value filester = str "FILESTER"
site_value pixeldrain = str "PIXELDRAIN"
site_value gd = str "GD"
site_value mega = str "MEGA"
site_value mediafire = str "MEDIAFIRE"
site_value saint = str "SAINT"
site_value transferit = str "TRANSFERIT"
site_value turbo = str "TURBO"
site_value coomer = str "COOMER"
site_value ytdl = str "YTDL"
site_value generic = str "GENERIC"

unfoldable pub default_site_queue_suffixes : List Text
unfolding site_value
default_site_queue_suffixes =
    site_value gofile
    ∷ site_value bunkr
    ∷ site_value cyberdrop
    ∷ site_value cyberfile
    ∷ site_value filester
    ∷ site_value pixeldrain
    ∷ site_value gd
    ∷ site_value mega
    ∷ site_value mediafire
    ∷ site_value saint
    ∷ site_value transferit
    ∷ site_value turbo
    ∷ site_value coomer
    ∷ site_value ytdl
    ∷ site_value generic
    ∷ []

pub record TaskPayload : Type 0 where
  pub url : Text
  pub requester_id : Text
  pub target : Text
  pub destination : Text

-- A JSON value, as it stands in a parser's metadata.
mutual
  pub data Json : Type 0 where
    null : Json
    boolean : Bool → Json
    number : ℕ → Json
    string : Text → Json
    array : Items → Json
    object : Fields → Json

  pub data Items : Type 0 where
    nil : Items
    cons : Json → Items → Items

  pub data Fields : Type 0 where
    end : Fields
    field : Text → Json → Fields → Fields

pub record ParsedSource : Type 0 where
  pub site : Text
  pub page_url : Text
  pub download_url : Text
  pub file_name : Text
  pub remote_folder : Option Text
  pub metadata : Fields

pub record DownloadResult : Type 0 where
  pub site : Text
  pub source_url : Text
  pub local_path : Text
  pub size_bytes : ℕ
  pub file_name : Text
  pub remote_folder : Option Text

pub record UploadResult : Type 0 where
  pub location : Text

-- One entry of a task's `artifacts`. The pipeline adds the whole download, the workers do not.
pub record Artifact : Type 0 where
  pub ok : Bool
  pub reason : Text
  pub site : Text
  pub page_url : Text
  pub declared_download_url : Text
  pub actual_download_url : Text
  pub file_name : Text
  pub remote_folder : Option Text
  pub location : Text
  pub download : Option DownloadResult

pub record TaskRecord : Type 0 where
  pub task_id : Text
  pub idempotency_key : Text
  pub payload : TaskPayload
  pub status : TaskStatus
  pub message : Text
  pub sources : List ParsedSource
  pub artifacts : List Artifact
  pub last_error : Text
  pub created_at : ℕ
  pub updated_at : ℕ

-- A record as its constructor makes it from the first three fields and the current time, read
-- once for each default.
unfoldable pub new_record : Text → Text → TaskPayload → ℕ → ℕ → TaskRecord
new_record task_id key payload created updated = record {
  task_id = task_id;
  idempotency_key = key;
  payload = payload;
  status = queued;
  message = [];
  sources = [];
  artifacts = [];
  last_error = [];
  created_at = created;
  updated_at = updated;
}

-- The JSON dictionaries of a `task.created` event: a present field has the type that the schema
-- of specs/events gives it.
pub record EventPayload : Type 0 where
  pub url : Option Text
  pub requester_id : Option Text
  pub target : Option Text
  pub destination : Option Text

pub record Event : Type 0 where
  pub spec_version : Option Text
  pub task_id : Option Text
  pub task_type : Option Text
  pub idempotency_key : Option Text
  pub created_at : Option Text
  pub payload : Option EventPayload
  pub attempt : Option ℕ
  pub last_error : Option Text
  pub updated_at : Option Text
