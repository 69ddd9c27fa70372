-- ===== src/Api/Store.antt =====
-- media-shuttle-api/app/repository.py (the in-memory repositories) and queue.py (the in-memory
-- publisher), in one state with the world. Records that are handed out are copies.
pub mod Order
pub mod Mongo
use media_shuttle.Prelude.{
  ℕ, Bool, true, false, not, Option, none, some, List, [], ◌∷◌, ◌++◌, length, take, keep_if,
  map_option, get_or, if◌then◌else◌,
}
use media_shuttle.Py.Text.{Text, str, text_eq, text_lt, is_empty}
use media_shuttle.Py.Dict
use media_shuttle.Py.Dict.{Dict, values}
use media_shuttle.Py.Sort.{sort}
use media_shuttle.Py.Exec.{Result, Exec, pure, ◌>>=◌, ◌>>◌}
use media_shuttle.Core.Env.{Env}
use media_shuttle.Core.Model.{Event}
use media_shuttle.Api.Model.{TaskRecord, WorkerRecord}

pub record Api (W : Type 0) : Type 0 where
  pub tasks : Dict TaskRecord
  pub events : List Event
  pub workers : Dict WorkerRecord
  pub world : W

-- Newer records first; of two of one time, the one that was stored first.
unfoldable pub newer : TaskRecord → TaskRecord → Bool
newer a b = not (text_lt a.created_at b.created_at)

unfoldable pub fresher : WorkerRecord → WorkerRecord → Bool
fresher a b = not (text_lt a.updated_at b.updated_at)

-- `if status: values = [item for item in values if item.status == status]`
unfoldable pub with_status : Option Text → List TaskRecord → List TaskRecord
with_status none items = items
with_status (some []) items = items
with_status (some (c ∷ s)) items = keep_if (λ t. text_eq t.status (c ∷ s)) items

unfoldable pub workers_with_status : Option Text → List WorkerRecord → List WorkerRecord
workers_with_status none items = items
workers_with_status (some []) items = items
workers_with_status (some (c ∷ s)) items = keep_if (λ t. text_eq t.status (c ∷ s)) items

unfoldable pub list_tasks : Option Text → ℕ → Dict TaskRecord → List TaskRecord
unfolding with_status newer
list_tasks status limit items = take limit (sort newer (with_status status (values items)))

unfoldable pub list_workers : Option Text → ℕ → Dict WorkerRecord → List WorkerRecord
unfolding workers_with_status fresher
list_workers status limit items =
    take limit (sort fresher (workers_with_status status (values items)))

-- The numbers of tasks in the three active states.
pub record Stats : Type 0 where
  pub parse : ℕ
  pub download : ℕ
  pub upload : ℕ

unfoldable pub stats : Dict TaskRecord → Stats
stats items = record {
  parse = length (keep_if (λ t. text_eq t.status (str "PARSING")) (values items));
  download = length (keep_if (λ t. text_eq t.status (str "DOWNLOADING")) (values items));
  upload = length (keep_if (λ t. text_eq t.status (str "UPLOADING")) (values items));
}

unfoldable pub mark : Text → Text → Text → TaskRecord → TaskRecord
mark now status message r = record r { status = status; message = message; updated_at = now }

module _ {W : Type 0} (env : Env W) where
  unfoldable pub utc_now_iso : Exec (Api W) Text
  utc_now_iso a =
      let (now, w) = env.now a.world in (Result.ok (env.iso now), record a { world = w })

  unfoldable pub create : TaskRecord → Exec (Api W) (Unit {0})
  create r a = (Result.ok tt, record a { tasks = Dict.put r.task_id r a.tasks })

  unfoldable pub get_task : Text → Exec (Api W) (Option TaskRecord)
  get_task task_id a = (Result.ok (Dict.get task_id a.tasks), a)

  unfoldable pub update_status : Text → Text → Text → Exec (Api W) (Option TaskRecord)
  unfolding mark
  update_status task_id status message a =
      let (now, w) = env.now a.world in
      let f = mark (env.iso now) status message in
      (
        Result.ok (map_option f (Dict.get task_id a.tasks)),
        record a { tasks = Dict.modify task_id f a.tasks; world = w },
      )

  unfoldable pub publish_created_event : Event → Exec (Api W) (Unit {0})
  publish_created_event event a = (Result.ok tt, record a { events = a.events ++ event ∷ [] })

  unfoldable pub get_worker : Text → Exec (Api W) (Option WorkerRecord)
  get_worker hostname a = (Result.ok (Dict.get hostname a.workers), a)

  unfoldable pub upsert_worker : WorkerRecord → Exec (Api W) (Unit {0})
  upsert_worker r a = (Result.ok tt, record a { workers = Dict.put r.hostname r a.workers })

  -- `patch`: the fields are given anew by `f`; a missing worker stays missing.
  unfoldable pub patch_worker : Text → (WorkerRecord → WorkerRecord) → Exec (Api W) (Unit {0})
  patch_worker hostname f a =
      (Result.ok tt, record a { workers = Dict.modify hostname f a.workers })
