-- ===== src/Core/Repository/Mongo.antt =====
-- media-shuttle-core/core/storage/repository.py, `MongoTaskRepository`, over a collection. A document's
-- field that may be missing is an `Option`; a field that is there has the type that the code writes.
-- In a list of dictionaries `none` stands for an item that is none.
pub mod Listing
pub mod RoundTrip
pub mod Refinement
use media_shuttle.Prelude.{
  ℕ, ◌++◌, Bool, true, false, Option, none, some, List, [], ◌∷◌, map, is_some, ◌||◌, not,
  if◌then◌else◌, get_or,
}
use media_shuttle.Py.Text.{Text, str, text_eq, replace}
use media_shuttle.Py.Exec.{Result, ok, err, Exec, pure, raise, ◌>>=◌, ◌>>◌}
use media_shuttle.Core.Env.{Env}
use media_shuttle.Core.Model.{
  TaskStatus, queued, parsing, downloading, uploading, succeeded, failed, status_value,
  ParsedSource, Artifact, TaskPayload, TaskRecord,
}
use media_shuttle.Core.Contracts.{from_result, index}
use media_shuttle.Core.Repository.{RuntimePatch, QueueStats}
use media_shuttle.Core.Collection.{Collection}

pub record TaskDocument : Type 0 where
  pub id : Text
  pub task_id : Option Text
  pub idempotency_key : Option Text
  pub status : Option Text
  pub message : Option Text
  pub sources : Option (List (Option ParsedSource))
  pub artifacts : Option (List (Option Artifact))
  pub last_error : Option Text
  pub requester_id : Option Text
  pub url : Option Text
  pub target : Option Text
  pub destination : Option Text
  pub created_at : Option Text
  pub updated_at : Option Text

-- `TaskStatus(text)`, with `none` for its `ValueError`.
unfoldable pub read_status : Text → Option TaskStatus
unfolding text_eq status_value
read_status s =
    if text_eq s (status_value queued)
    then some queued
    else if text_eq s (status_value parsing)
    then some parsing
    else if text_eq s (status_value downloading)
    then some downloading
    else if text_eq s (status_value uploading)
    then some uploading
    else if text_eq s (status_value succeeded)
    then some succeeded
    else if text_eq s (status_value failed)
    then some failed
    else none

-- `[item for item in items if isinstance(item, dict)]`
unfoldable pub dicts_of : {A : Type 0} → List (Option A) → List A
dicts_of [] = []
dicts_of (none ∷ items) = dicts_of items
dicts_of (some item ∷ items) = item ∷ dicts_of items

-- The query `{"status": status.value}`, and `{}` where no status is given.
unfoldable pub status_query : Option TaskStatus → TaskDocument → Bool
unfolding text_eq status_value
status_query none d = true
status_query (some status) d = elim d.status [
  | none ↦ false
  | some s ↦ text_eq s (status_value status)
]

-- `{"$set": {"status": ..., "message": ..., "updated_at": ...}}`
unfoldable pub set_status_fields : Text → TaskStatus → Text → TaskDocument → TaskDocument
set_status_fields now status message d = record d {
  status = some (status_value status);
  message = some message;
  updated_at = some now;
}

abbrev pub or_kept : {A : Type 0} → Option A → Option A → Option A
or_kept none kept = kept
or_kept (some a) kept = some a

abbrev pub patched_list :
    {A : Type 0} → Option (List A) → Option (List (Option A)) → Option (List (Option A))
patched_list none kept = kept
patched_list (some items) kept = some (map some items)

-- `{"$set": patch}` with the time.
unfoldable pub set_patch_fields : Text → RuntimePatch → TaskDocument → TaskDocument
set_patch_fields now patch d = record d {
  sources = patched_list patch.sources d.sources;
  artifacts = patched_list patch.artifacts d.artifacts;
  last_error = or_kept patch.last_error d.last_error;
  updated_at = some now;
}

-- `not patch`: no field is given.
unfoldable pub is_blank : RuntimePatch → Bool
is_blank patch = not (is_some patch.sources || is_some patch.artifacts || is_some patch.last_error)

module _ {W : Type 0} (env : Env W) where
  unfoldable pub to_document : TaskRecord → TaskDocument
  to_document r = record {
    id = r.task_id;
    task_id = some r.task_id;
    idempotency_key = some r.idempotency_key;
    status = some (status_value r.status);
    message = some r.message;
    sources = some (map some r.sources);
    artifacts = some (map some r.artifacts);
    last_error = some r.last_error;
    requester_id = some r.payload.requester_id;
    url = some r.payload.url;
    target = some r.payload.target;
    destination = some r.payload.destination;
    created_at = some (env.iso r.created_at);
    updated_at = some (env.iso r.updated_at);
  }

  -- `_parse_datetime` of a text.
  unfoldable pub parse_datetime : Text → Result ℕ
  parse_datetime raw = env.from_iso (replace b'Z' (str "+00:00") raw)

  -- The enumeration's constructor, with the text of its `ValueError`.
  unfoldable pub status_or_error : Text → Option TaskStatus → Result TaskStatus
  status_or_error s (some status) = ok status
  status_or_error s none = err (env.repr s ++ str " is not a valid TaskStatus")

  unfoldable pub read_document : {S : Type 0} → TaskDocument → Exec S TaskRecord
  unfolding parse_datetime status_or_error read_status dicts_of
  read_document d = do
    task_id ← index (str "task_id") d.task_id
    key ← index (str "idempotency_key") d.idempotency_key
    url ← index (str "url") d.url
    requester_id ← index (str "requester_id") d.requester_id
    target ← index (str "target") d.target
    destination ← index (str "destination") d.destination
    status_text ← index (str "status") d.status
    status ← from_result (status_or_error status_text (read_status status_text))
    created_text ← index (str "created_at") d.created_at
    created ← from_result (parse_datetime created_text)
    updated_text ← index (str "updated_at") d.updated_at
    updated ← from_result (parse_datetime updated_text)
    pure (record {
      task_id = task_id;
      idempotency_key = key;
      payload = record {
        url = url;
        requester_id = requester_id;
        target = target;
        destination = destination;
      };
      status = status;
      message = get_or d.message [];
      sources = dicts_of (get_or d.sources []);
      artifacts = dicts_of (get_or d.artifacts []);
      last_error = get_or d.last_error [];
      created_at = created;
      updated_at = updated;
    })

  unfoldable pub from_document : {S : Type 0} → Option TaskDocument → Exec S (Option TaskRecord)
  unfolding read_document
  from_document none = pure none
  from_document (some d) = do r ← read_document d; pure (some r)

  unfoldable pub from_documents : {S : Type 0} → List TaskDocument → Exec S (List TaskRecord)
  unfolding read_document
  from_documents [] = pure []
  from_documents (d ∷ docs) = do r ← read_document d; rest ← from_documents docs; pure (r ∷ rest)

  module _ {C : Type 0} (collection : Collection TaskDocument C) where
    unfoldable pub create : TaskRecord → Exec C (Unit {0})
    unfolding to_document
    create r c = (ok tt, collection.replace_one r.task_id (to_document r) c)

    unfoldable pub get : Text → Exec C (Option TaskRecord)
    unfolding from_document
    get task_id c = from_document (collection.find_one task_id c) c

    unfoldable pub list : Option TaskStatus → ℕ → Exec C (List TaskRecord)
    unfolding from_documents status_query
    list status limit c =
        from_documents (collection.find (status_query status) limit (λ d. d.created_at) c) c

    unfoldable pub update_status : ℕ → Text → TaskStatus → Text → Exec C (Option TaskRecord)
    unfolding get set_status_fields
    update_status now task_id status message c =
        get task_id
          (collection.update_one task_id (set_status_fields (env.iso now) status message) c)

    unfoldable pub queue_stats : C → QueueStats
    unfolding status_query
    queue_stats c = record {
      parse = collection.count_documents (status_query (some parsing)) c;
      download = collection.count_documents (status_query (some downloading)) c;
      upload = collection.count_documents (status_query (some uploading)) c;
    }

    unfoldable pub update_runtime_fields : ℕ → Text → RuntimePatch → Exec C (Option TaskRecord)
    unfolding get set_patch_fields is_blank
    update_runtime_fields now task_id patch c =
        if is_blank patch
        then get task_id c
        else get task_id (collection.update_one task_id (set_patch_fields (env.iso now) patch) c)
