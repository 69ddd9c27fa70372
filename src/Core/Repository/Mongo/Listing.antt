-- ===== src/Core/Repository/Mongo/Listing.antt =====
-- The list of tasks that the repository over a collection gives.
use media_shuttle.Prelude.{
  ℕ, ◌≡◌, ◌≤◌, refl, sym, ap, subst, ◌∙◌, true, Option, none, some, List, [], ◌∷◌, map_option, All,
  length, suc,
}
use media_shuttle.Py.Text.{Text, str, replace, text_eq}
use media_shuttle.Py.Exec.{ok, ◌>>=◌}
use media_shuttle.Py.Dict
use media_shuttle.Core.Env.{Env}
use media_shuttle.Core.Model.{TaskStatus, status_value, TaskRecord}
use media_shuttle.Core.Collection.{Collection}
use media_shuttle.Core.Repository.Memory.{Items}
use media_shuttle.Core.Repository.Mongo.{
  TaskDocument, to_document, from_documents, status_query, list,
}
use media_shuttle.Core.Repository.Mongo.RoundTrip.{read_document-to_document}
use media_shuttle.Core.Repository.Mongo.Refinement.{Shows}

-- The record is one of the items, in the status that is asked for.
pub data IsAsked (items : Items) (status : Option TaskStatus) (r : TaskRecord) : Type 0 where
  is_asked :
      (i : Text)
      → Dict.get i items ≡ some r
      → ((asked : TaskStatus)
          → status ≡ some asked
          → text_eq (status_value r.status) (status_value asked) ≡ true)
      → IsAsked items status r

module _ {W C : Type 0} (env : Env W) (collection : Collection TaskDocument C)
    (dated : (n : ℕ) → env.from_iso (replace b'Z' (str "+00:00") (env.iso n)) ≡ ok n) where
  -- What reading some documents gives.
  unfoldable Reads : Items → Option TaskStatus → List TaskDocument → C → Type 0
  Reads items status docs c =
      (records : List TaskRecord) × (from_documents env docs c ≡ (ok records, c))
      × (length records ≡ length docs)
      × All (IsAsked items status) records

  read_none : (items : Items) (status : Option TaskStatus) (c : C) → Reads items status [] c
  unfolding from_documents Reads
  read_none items status c = ([], refl, refl, tt)

  read_more :
      (r : TaskRecord) (docs : List TaskDocument) (items : Items) (status : Option TaskStatus)
      (c : C)
      → IsAsked items status r
      → Reads items status docs c
      → Reads items status (to_document env r ∷ docs) c
  unfolding from_documents Reads ◌>>=◌
  read_more r docs items status c asked (records, e, same, h) =
      (r ∷ records, rw (read_document-to_document env dated r c, e), ap suc same, (asked, h))

  abbrev Found : Option TaskStatus → C → TaskDocument → Type 0
  Found status c d =
      (status_query status d ≡ true) × ((i : Text) × (collection.find_one i c ≡ some d))

  asked-status :
      (status : Option TaskStatus) (r : TaskRecord)
      → status_query status (to_document env r) ≡ true
      → (asked : TaskStatus) → status ≡ some asked
      → text_eq (status_value r.status) (status_value asked) ≡ true
  unfolding status_query to_document
  asked-status status r fits asked e = subst (λ o. status_query o (to_document env r) ≡ true) e fits

  -- A stored document is the document of an item.
  stored-item :
      (o : Option TaskRecord) (d : TaskDocument)
      → map_option (to_document env) o ≡ some d
      → (r : TaskRecord) × (o ≡ some r) × (to_document env r ≡ d)
  stored-item none d e = cc e
  stored-item (some r) d e = (r, refl, cc e)

  read_stored :
      (docs : List TaskDocument) (status : Option TaskStatus) (c : C) (items : Items)
      → Shows env collection c items
      → All (Found status c) docs
      → Reads items status docs c
  read_stored [] status c items shows found = read_none items status c
  read_stored (d ∷ docs) status c items shows ((fits, (i, e)), found) =
      let (r, there, same) = stored-item (Dict.get i items) d (sym (shows i) ∙ e) in
      subst (λ d'. Reads items status (d' ∷ docs) c) same
        (read_more r docs items status c
          (is_asked i there
            (asked-status status r (subst (λ d'. status_query status d' ≡ true) (sym same) fits)))
          (read_stored docs status c items shows found))

  -- The list of a repository over a collection that holds the documents of some records is made of
  -- those records that are in the status that is asked for, unchanged, and is not longer than the
  -- limit, if the limit is not zero and Python reads back the times that it writes.
  pub list-IsAsked :
      (status : Option TaskStatus) (limit : ℕ) (c : C) (items : Items)
      → 1 ≤ limit
      → Shows env collection c items
      → (records : List TaskRecord) × (list env collection status limit c ≡ (ok records, c))
        × (length records ≤ limit)
        × All (IsAsked items status) records
  unfolding list Reads
  list-IsAsked status limit c items positive shows =
      let query = status_query status in
      let docs = collection.find query limit (λ d. d.created_at) c in
      let (records, e, same, asked) =
        read_stored docs status c items shows
          (collection.find_stored query limit (λ d. d.created_at) c) in
      (
        records,
        e,
        subst (λ n. n ≤ limit) (sym same)
            (collection.find_limited query limit (λ d. d.created_at) c positive),
        asked,
      )
