-- ===== src/Core/Repository/Mongo/RoundTrip.antt =====
-- A record that is written as a document is read back.
use media_shuttle.Prelude.{ℕ, ◌≡◌, refl, ap, List, [], ◌∷◌, some, map}
use media_shuttle.Py.Text.{str, replace, text_eq}
use media_shuttle.Py.Exec.{ok, ◌>>=◌}
use media_shuttle.Core.Env.{Env}
use media_shuttle.Core.Model.{
  TaskStatus, queued, parsing, downloading, uploading, succeeded, failed, status_value, TaskRecord,
}
use media_shuttle.Core.Repository.Mongo.{
  read_status, dicts_of, to_document, parse_datetime, status_or_error, read_document, from_document,
}

pub read_status-status_value : (s : TaskStatus) → read_status (status_value s) ≡ some s
unfolding read_status status_value text_eq
read_status-status_value queued = refl
read_status-status_value parsing = refl
read_status-status_value downloading = refl
read_status-status_value uploading = refl
read_status-status_value succeeded = refl
read_status-status_value failed = refl

pub dicts_of-map : {A : Type 0} (items : List A) → dicts_of (map some items) ≡ items
unfolding dicts_of
dicts_of-map [] = refl
dicts_of-map (item ∷ items) = ap (λ l. item ∷ l) (dicts_of-map items)

module _ {W : Type 0} (env : Env W)
    (dated : (n : ℕ) → env.from_iso (replace b'Z' (str "+00:00") (env.iso n)) ≡ ok n) where
  pub read_document-to_document :
      {S : Type 0} (r : TaskRecord) (s : S) → read_document env (to_document env r) s ≡ (ok r, s)
  unfolding read_document to_document parse_datetime status_or_error ◌>>=◌
  read_document-to_document r s = rw (
    read_status-status_value r.status,
    dated r.created_at,
    dated r.updated_at,
    dicts_of-map r.sources,
    dicts_of-map r.artifacts,
  )

  -- A record that is written as a document is read back as it was, if Python reads back the times
  -- that it writes.
  pub from_document-to_document :
      {S : Type 0} (r : TaskRecord) (s : S)
      → from_document env (some (to_document env r)) s ≡ (ok (some r), s)
  unfolding from_document ◌>>=◌
  from_document-to_document r s = rw (read_document-to_document r s)
