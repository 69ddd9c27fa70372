-- ===== src/Core/Repository/Memory.antt =====
-- media-shuttle-core/core/storage/repository.py, `InMemoryTaskRepository`: one dictionary of
-- records, which the operations change under a lock. A caller never changes a record that it gave
-- to `create` or got back, so the references that the two sides share are not modelled.
use media_shuttle.Prelude.{
  ℕ, ◌≡◌, Bool, Option, none, some, List, arith, map_option, keep_if, take, length, leb,
}
use media_shuttle.Py.Text.{Text, text_eq}
use media_shuttle.Py.Text.Equality.{text_eq_refl}
use media_shuttle.Py.Dict
use media_shuttle.Py.Dict.{Dict, values}
use media_shuttle.Py.Sort.{sort}
use media_shuttle.Core.Model.{TaskStatus, parsing, downloading, uploading, status_value, TaskRecord}
use media_shuttle.Core.Repository.{
  RuntimePatch, QueueStats, TaskRepository, set_status, set_runtime_fields,
}

abbrev pub Items : Type 0
Items = Dict TaskRecord

unfoldable pub create : TaskRecord → Items → Items
create r items = Dict.put r.task_id r items

unfoldable pub get : Text → Items → Option TaskRecord
get task_id items = Dict.get task_id items

unfoldable pub update_status : ℕ → Text → TaskStatus → Text → Items → Option TaskRecord × Items
update_status now task_id status message items =
    let items' = Dict.modify task_id (set_status now status message) items in
    (map_option (set_status now status message) (Dict.get task_id items), items')

unfoldable pub update_runtime_fields : ℕ → Text → RuntimePatch → Items → Option TaskRecord × Items
update_runtime_fields now task_id patch items =
    let items' = Dict.modify task_id (set_runtime_fields now patch) items in
    (map_option (set_runtime_fields now patch) (Dict.get task_id items), items')

-- Newer records first; of two of one time, the one that was stored first.
unfoldable pub newer_record : TaskRecord → TaskRecord → Bool
newer_record a b = leb b.created_at a.created_at

-- `[item for item in values if item.status == status]`, or all where none is given.
unfoldable pub in_status : Option TaskStatus → List TaskRecord → List TaskRecord
unfolding text_eq status_value
in_status none records = records
in_status (some status) records =
    keep_if (λ r. text_eq (status_value r.status) (status_value status)) records

unfoldable pub list : Option TaskStatus → ℕ → Items → List TaskRecord
unfolding in_status newer_record
list status limit items = take limit (sort newer_record (in_status status (values items)))

unfoldable pub queue_stats : Items → QueueStats
unfolding in_status
queue_stats items = record {
  parse = length (in_status (some parsing) (values items));
  download = length (in_status (some downloading) (values items));
  upload = length (in_status (some uploading) (values items));
}

pub returns_modify :
    (i : Text) (f : TaskRecord → TaskRecord) (items : Items)
    → map_option f (Dict.get i items) ≡ Dict.get i (Dict.modify i f items)
returns_modify i f items = ground (arith, Dict.get-modify i i f items, text_eq_refl i)

-- The dictionary keeps the promises of a task repository.
unfoldable pub memory_repository : TaskRepository Items
unfolding create get update_status update_runtime_fields returns_modify
memory_repository = record {
  create = create;
  get = get;
  update_status = update_status;
  update_runtime_fields = update_runtime_fields;
  get-create = λ r j s. Dict.get-put r.task_id j r s;
  get-update_status =
      λ now i status message j s. Dict.get-modify i j (set_status now status message) s;
  get-update_runtime_fields =
      λ now i patch j s. Dict.get-modify i j (set_runtime_fields now patch) s;
  returns-update_status =
      λ now i status message s. returns_modify i (set_status now status message) s;
  returns-update_runtime_fields =
      λ now i patch s. returns_modify i (set_runtime_fields now patch) s;
}
