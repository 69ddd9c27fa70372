-- ===== src/Witness/Repository.antt =====
-- The theorems on the repositories at the inputs of `Samples`.
use media_shuttle.Prelude.{
  ℕ, ◌≡◌, ◌≤◌, refl, none, some, [], ◌∷◌, List, map_option, Bool, true, false, if◌then◌else◌, All,
  length, arith,
}
use media_shuttle.Py.Text.{str, text_eq}
use media_shuttle.Py.Exec.{ok}
use media_shuttle.Py.Dict
use media_shuttle.Py.Dict.{Dict}
use media_shuttle.Core.Model.{queued, uploading, TaskRecord}
use media_shuttle.Core.Repository.Memory.{Items}
use media_shuttle.Core.Repository.Mongo.{TaskDocument, to_document, from_document, is_blank, list}
use media_shuttle.Core.Repository.Mongo.Listing.{IsAsked, list-IsAsked}
use media_shuttle.Core.Repository.Mongo.RoundTrip.{from_document-to_document}
use media_shuttle.Core.Repository.Mongo.Refinement.{
  RepositoryCall, create, get, update_status, update_runtime_fields, memory_calls, mongo_calls,
  Shows, mongo_calls-agrees,
}
use media_shuttle.Samples.{task, source}
use media_shuttle.Samples.Collection.{dated_env, dict_collection, zeros_dated}

from_document-to_document_example :
    from_document dated_env {S = ℕ} (some (to_document dated_env task)) 3 ≡ (ok (some task), 3)
from_document-to_document_example = from_document-to_document dated_env zeros_dated task 3

abbrev calls : List RepositoryCall
calls =
    create task
    ∷ update_status 4 (str "t1") uploading (str "uploading")
    ∷ update_runtime_fields 5 (str "t1")
        (record { sources = some (source ∷ []); artifacts = none; last_error = some (str "e") })
    ∷ get (str "t2")
    ∷ []

nothing_held : Shows dated_env dict_collection [] []
unfolding dict_collection Dict.get
nothing_held j = refl

mongo_calls-agrees_example :
    (c' : Dict TaskDocument) × (mongo_calls dated_env dict_collection calls []
      ≡ (ok (memory_calls calls []).0, c'))
    × Shows dated_env dict_collection c' (memory_calls calls []).1
unfolding is_blank
mongo_calls-agrees_example =
    mongo_calls-agrees dated_env dict_collection zeros_dated calls [] []
      (tt, (tt, (refl, (tt, tt)))) nothing_held

-- A collection that holds the document of one task.
abbrev stored : Dict TaskDocument
stored = (str "t1", to_document dated_env task) ∷ []

abbrev one_task : Items
one_task = (str "t1", task) ∷ []

one_held : Shows dated_env dict_collection stored one_task
unfolding dict_collection Dict.get
one_held j = shown (text_eq (str "t1") j)
  where
    shown :
        (b : Bool)
        → (if b then some (to_document dated_env task) else none)
          ≡ map_option (to_document dated_env) (if b then some task else none)
    shown true = refl
    shown false = refl

list-IsAsked_example :
    (records : List TaskRecord) × (list dated_env dict_collection (some queued) 20 stored
      ≡ (ok records, stored))
    × (length records ≤ 20)
    × All (IsAsked one_task (some queued)) records
list-IsAsked_example =
    list-IsAsked dated_env dict_collection zeros_dated (some queued) 20 stored one_task
      (omega arith) one_held
