-- ===== src/Core/Repository.antt =====
-- media-shuttle-core/core/storage/repository.py: what a task repository promises, as a record of
-- the operations and their laws. The current time comes in as an argument.
pub mod Memory
pub mod Mongo
use media_shuttle.Prelude.{
  ℕ, ◌≡◌, Bool, Option, none, some, List, if◌then◌else◌, map_option, get_or,
}
use media_shuttle.Py.Text.{Text, text_eq}
use media_shuttle.Core.Model.{TaskStatus, TaskRecord, ParsedSource, Artifact}

-- The optional keyword arguments of `update_runtime_fields`.
pub record RuntimePatch : Type 0 where
  pub sources : Option (List ParsedSource)
  pub artifacts : Option (List Artifact)
  pub last_error : Option Text

unfoldable pub set_status : ℕ → TaskStatus → Text → TaskRecord → TaskRecord
set_status now status message r = record r { status = status; message = message; updated_at = now }

unfoldable pub set_runtime_fields : ℕ → RuntimePatch → TaskRecord → TaskRecord
set_runtime_fields now patch r = record r {
  sources = get_or patch.sources r.sources;
  artifacts = get_or patch.artifacts r.artifacts;
  last_error = get_or patch.last_error r.last_error;
  updated_at = now;
}

-- How many tasks are in each of the three active states.
pub record QueueStats : Type 0 where
  pub parse : ℕ
  pub download : ℕ
  pub upload : ℕ

pub record TaskRepository (R : Type 0) : Type 0 where
  pub create : TaskRecord → R → R
  pub get : Text → R → Option TaskRecord
  pub update_status : ℕ → Text → TaskStatus → Text → R → Option TaskRecord × R
  pub update_runtime_fields : ℕ → Text → RuntimePatch → R → Option TaskRecord × R
  -- the operations, seen through `get`
  pub get-create :
      (r : TaskRecord) (j : Text) (s : R)
      → get j (create r s) ≡ (if text_eq r.task_id j then some r else get j s)
  pub get-update_status :
      (now : ℕ) (i : Text) (status : TaskStatus) (message : Text) (j : Text) (s : R)
      → get j (update_status now i status message s).1
        ≡ (if text_eq i j then map_option (set_status now status message) (get j s) else get j s)
  pub get-update_runtime_fields :
      (now : ℕ) (i : Text) (patch : RuntimePatch) (j : Text) (s : R)
      → get j (update_runtime_fields now i patch s).1
        ≡ (if text_eq i j then map_option (set_runtime_fields now patch) (get j s) else get j s)
  -- an update returns the record as it stands after it
  pub returns-update_status :
      (now : ℕ) (i : Text) (status : TaskStatus) (message : Text) (s : R)
      → (update_status now i status message s).0 ≡ get i (update_status now i status message s).1
  pub returns-update_runtime_fields :
      (now : ℕ) (i : Text) (patch : RuntimePatch) (s : R)
      → (update_runtime_fields now i patch s).0 ≡ get i (update_runtime_fields now i patch s).1
