-- ===== src/Core/Pipeline/Delivery.antt =====
-- What a run of the pipeline delivers, for every answer of the providers.
use media_shuttle.Prelude.{ℕ, ◌≡◌, ◌∙◌, refl, ap, true, Option, none, some, List, [], ◌∷◌, map, All}
use media_shuttle.Py.Text.{Text}
use media_shuttle.Py.Exec.Triple.{Triple, Triple-pure, Triple-raise, Triple-bind, Triple-given}
use media_shuttle.Core.Model.{
  TaskStatus, downloading, uploading, succeeded, TaskPayload, ParsedSource, DownloadResult,
  UploadResult, Artifact, TaskRecord,
}
use media_shuttle.Core.Repository.{set_status, set_runtime_fields}
use media_shuttle.Core.Pipeline.{
  PipelineService, Sys, get_task, update_runtime_fields, or_raise, require_sources, upload_sources,
  run, source_snapshot, uploaded_artifact, locations_message,
}
use media_shuttle.Core.Pipeline.Triples.{
  Stored, Present, get_after_fields, Triple-update_status, Triple-set_status,
  Triple-update_runtime_fields, Triple-in_world,
}

-- One artifact for each source, in order, and each of them uploaded.
pub record IsUploaded (sources : List ParsedSource) (artifacts : List Artifact) : Type 0 where
  pub each_source : map (λ a. a.declared_download_url) artifacts ≡ map (λ s. s.download_url) sources
  pub each_ok : All (λ a. a.ok ≡ true) artifacts

pub record IsDelivered (r : TaskRecord) : Type 0 where
  pub status : r.status ≡ succeeded
  pub uploaded : IsUploaded r.sources r.artifacts
  pub message : r.message ≡ locations_message (map (λ a. a.location) r.artifacts)
  pub no_error : r.last_error ≡ []

module _ {R W : Type 0} (p : PipelineService R W) (i : Text) where
  -- What the record holds from the parsing on.
  abbrev Parsed : List ParsedSource → TaskRecord → Type 0
  Parsed sources r = (r.sources ≡ sources) × (r.artifacts ≡ []) × (r.last_error ≡ [])

  keep-Parsed :
      (all : List ParsedSource) (status : TaskStatus) (now : ℕ) (r : TaskRecord)
      → Parsed all r
      → Parsed all (set_status now status [] r)
  unfolding set_status
  keep-Parsed all status now r k = k

  cons-IsUploaded :
      (s : ParsedSource) (d : DownloadResult) (u : UploadResult) (sources : List ParsedSource)
      (artifacts : List Artifact)
      → IsUploaded sources artifacts
      → IsUploaded (s ∷ sources) (uploaded_artifact s d u ∷ artifacts)
  unfolding uploaded_artifact
  cons-IsUploaded s d u sources artifacts h = record {
    each_source = ap (◌∷◌ s.download_url) h.each_source;
    each_ok = (refl, h.each_ok);
  }

  -- The artifacts and locations of a loop that ended.
  abbrev Collected : List ParsedSource → List Artifact × List Text → Type 0
  Collected sources (artifacts, uploads) =
      IsUploaded sources artifacts × (uploads ≡ map (λ a. a.location) artifacts)

  Triple-upload_sources :
      (all : List ParsedSource) (payload : TaskPayload) (sources : List ParsedSource)
      → Triple
          (Stored p i (Parsed all))
          (upload_sources p i payload sources)
          (λ c s. Stored p i (Parsed all) s × Collected sources c)
          (Present p i)
  unfolding upload_sources uploaded_artifact
  Triple-upload_sources all payload [] =
      Triple-pure _ λ s h. (h, (record { each_source = refl; each_ok = tt }, refl))
  Triple-upload_sources all payload (source ∷ sources) =
      Triple-bind _ _ (Triple-in_world p i _) λ result.
        Triple-bind _ _ (Triple-set_status p i (Parsed all) _ _ (keep-Parsed all uploading)) λ _.
          Triple-bind _ _ (Triple-in_world p i _) λ uploaded.
            Triple-bind _ _ (Triple-in_world p i _) λ _.
              Triple-bind _ _ (Triple-upload_sources all payload sources) λ c. Triple-pure _ λ s h.
                (
                  h.0,
                  (
                    cons-IsUploaded source result uploaded sources c.0 h.1.0,
                    ap (◌∷◌ uploaded.location) h.1.1,
                  ),
                )

  -- What a run returns: the record as it was when the status became SUCCEEDED.
  abbrev pub Returned : TaskRecord → Sys R W → Type 0
  Returned t s =
      (r : TaskRecord) × (p.repository.get i s.repo ≡ some r)
      × IsDelivered r
      × (t.status ≡ succeeded)
      × (t.message ≡ r.message)
      × (t.artifacts ≡ [])

  map-source_snapshot : (sources : List ParsedSource) → map source_snapshot sources ≡ sources
  unfolding source_snapshot
  map-source_snapshot [] = refl
  map-source_snapshot (s ∷ sources) = ap (◌∷◌ s) (map-source_snapshot sources)

  -- The status is written, the artifacts are not yet; `o` is what the write returned.
  abbrev Marked : List ParsedSource → List Text → TaskRecord → Type 0
  Marked all uploads r =
      Parsed all r × (r.status ≡ succeeded) × (r.message ≡ locations_message uploads)

  abbrev OnSome : (TaskRecord → Type 0) → Option TaskRecord → Type 0
  OnSome P none = ⊥
  OnSome P (some t) = P t

  abbrev Handed : Option TaskRecord → Sys R W → Type 0
  Handed o s =
      (r : TaskRecord) × (p.repository.get i s.repo ≡ some r)
      × IsDelivered r
      × OnSome (λ t. (t.status ≡ succeeded) × (t.message ≡ r.message) × (t.artifacts ≡ [])) o

  mark :
      (all : List ParsedSource) (uploads : List Text) (now : ℕ) (r : TaskRecord)
      → Parsed all r
      → Marked all uploads (set_status now succeeded (locations_message uploads) r)
  unfolding set_status
  mark all uploads now r k = (k, refl, refl)

  deliver :
      (all : List ParsedSource) (c : List Artifact × List Text) (now : ℕ) (r : TaskRecord)
      → Collected all c
      → Marked all c.1 r
      → IsDelivered (
          set_runtime_fields now
            (record { sources = none; artifacts = some c.0; last_error = some [] })
            r)
  unfolding set_runtime_fields
  deliver all c now r k m = record {
    status = m.1;
    uploaded = rw m.0.0 k.0;
    message = m.2 ∙ ap locations_message k.1;
    no_error = refl;
  }

  Triple-artifacts :
      (all : List ParsedSource) (c : List Artifact × List Text) (o : Option TaskRecord)
      → Collected all c
      → Triple
          (λ s.
            (r : TaskRecord) × (p.repository.get i s.repo ≡ some r)
            × Marked all c.1 r
            × (o ≡ some r))
          (update_runtime_fields p i
            (record { sources = none; artifacts = some c.0; last_error = some [] }))
          (λ _. Handed o)
          (Present p i)
  unfolding update_runtime_fields set_runtime_fields
  Triple-artifacts all c o k = record {
    at = λ s t.
        let (r, e, m, q) = t in
        let now = (p.env.now s.world).0 in
        (
          _,
          get_after_fields p i now _ s.repo r e,
          deliver all c now r k m,
          rw q (m.1, refl, m.0.1),
        );
  }

  Triple-hand_over :
      (e : Text) (o : Option TaskRecord) → Triple (Handed o) (or_raise e o) Returned (Present p i)
  Triple-hand_over e none = Triple-raise e λ s h. absurd h.3
  Triple-hand_over e (some t) = Triple-pure t λ s h. (h.0, h.1, h.2, h.3.0, h.3.1, h.3.2)

  Triple-or_raise :
      (e : Text) (o : Option TaskRecord)
      → Triple (Stored p i (λ _. Unit)) (or_raise e o) (λ _. Stored p i (λ _. Unit)) (Present p i)
  Triple-or_raise e none = Triple-raise e λ s h. h
  Triple-or_raise e (some t) = Triple-pure t λ s h. h

  Triple-require_sources :
      (sources : List ParsedSource)
      → Triple
          (Stored p i (λ _. Unit))
          (require_sources sources)
          (λ _. Stored p i (λ _. Unit))
          (Present p i)
  Triple-require_sources [] = Triple-raise _ λ s h. h
  Triple-require_sources (s ∷ sources) = Triple-pure tt λ s h. h

  Triple-get_task :
      Triple (Stored p i (λ _. Unit)) (get_task p i) (λ _. Stored p i (λ _. Unit)) (Present p i)
  unfolding get_task
  Triple-get_task = record { at = λ s h. h }

  fields-Parsed :
      (sources : List ParsedSource) (now : ℕ) (r : TaskRecord)
      → Parsed sources (
          set_runtime_fields now
            (record {
              sources = some (map source_snapshot sources);
              artifacts = some [];
              last_error = some [];
            })
            r)
  unfolding set_runtime_fields
  fields-Parsed sources now r = (map-source_snapshot sources, refl, refl)

  pub Triple-run : Triple (Stored p i (λ _. Unit)) (run p i) Returned (Present p i)
  unfolding run
  Triple-run = Triple-bind _ _ Triple-get_task λ found.
      Triple-bind _ _ (Triple-or_raise _ found) λ task.
        Triple-bind _ _ (Triple-set_status p i (λ _. Unit) _ _ (λ now r k. tt)) λ _.
          Triple-bind _ _ (Triple-in_world p i _) λ sources.
            Triple-bind _ _ (Triple-require_sources sources) λ _.
              Triple-bind _ _
                (Triple-update_runtime_fields p i (Parsed sources) _
                  (λ now r k. fields-Parsed sources now r))
                λ _.
                  Triple-bind _ _
                    (Triple-set_status p i (Parsed sources) _ _ (keep-Parsed sources downloading))
                    λ _. Triple-bind _ _ (Triple-upload_sources sources _ sources) λ c.
                      Triple-given _ λ k.
                        Triple-bind _ _
                          (Triple-update_status p i (Marked sources c.1) _ _
                            (λ now r h. mark sources c.1 now r h))
                          λ o.
                            Triple-bind _ _ (Triple-artifacts sources c o k)
                              λ _. Triple-hand_over _ o
