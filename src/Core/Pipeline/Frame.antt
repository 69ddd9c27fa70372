-- ===== src/Core/Pipeline/Frame.antt =====
-- Which tasks a run of the pipeline changes.
use media_shuttle.Prelude.{◌≡◌, ◌≢◌, refl, false, Option, none, some, List, [], ◌∷◌, arith}
use media_shuttle.Py.Text.{Text, text_eq}
use media_shuttle.Py.Text.Equality.{text_eq_iff}
use media_shuttle.Py.Exec.{Exec}
use media_shuttle.Py.Exec.Keeps.{Keeps, Keeps-pure, Keeps-raise, Keeps-bind}
use media_shuttle.Core.Model.{TaskStatus, TaskPayload, ParsedSource, TaskRecord}
use media_shuttle.Core.Repository.{RuntimePatch}
use media_shuttle.Core.Pipeline.{
  PipelineService, Sys, in_world, get_task, update_status, update_runtime_fields, or_raise,
  require_sources, upload_sources, run,
}

pub text_eq_of_ne : (i j : Text) → i ≢ j → text_eq i j ≡ false
text_eq_of_ne i j h = ground (arith, text_eq_iff i j)

module _ {S A : Type 0} {P : S → Type 0} where
  pub Keeps-or_raise : (e : Text) (o : Option A) → Keeps P (or_raise e o)
  Keeps-or_raise e none = Keeps-raise e
  Keeps-or_raise e (some a) = Keeps-pure a

module _ {S : Type 0} {P : S → Type 0} where
  pub Keeps-require_sources : (sources : List ParsedSource) → Keeps P (require_sources sources)
  Keeps-require_sources [] = Keeps-raise _
  Keeps-require_sources (s ∷ sources) = Keeps-pure tt

module _ {R W : Type 0} (p : PipelineService R W) (i j : Text) (v : Option TaskRecord)
    (other : i ≢ j) where
  -- Task `j` is as it was.
  abbrev pub Untouched : Sys R W → Type 0
  Untouched s = p.repository.get j s.repo ≡ v

  pub Keeps-in_world : {A : Type 0} (m : Exec W A) → Keeps Untouched (in_world p m)
  unfolding in_world
  Keeps-in_world m = record { at = λ s h. h }

  pub Keeps-get_task : (k : Text) → Keeps Untouched (get_task p k)
  unfolding get_task
  Keeps-get_task k = record { at = λ s h. h }

  pub Keeps-update_status :
      (status : TaskStatus) (message : Text) → Keeps Untouched (update_status p i status message)
  unfolding update_status
  Keeps-update_status status message = record {
    at = λ s h. rw p.repository.get-update_status (rw (text_eq_of_ne i j other) h);
  }

  pub Keeps-update_runtime_fields :
      (patch : RuntimePatch) → Keeps Untouched (update_runtime_fields p i patch)
  unfolding update_runtime_fields
  Keeps-update_runtime_fields patch = record {
    at = λ s h. rw p.repository.get-update_runtime_fields (rw (text_eq_of_ne i j other) h);
  }

  ruleset keeps = (
    Keeps-in_world, Keeps-get_task, Keeps-update_status, Keeps-update_runtime_fields,
    Keeps-or_raise, Keeps-require_sources, Keeps-pure, Keeps-bind,
  )

  Keeps-upload_sources :
      (payload : TaskPayload) (sources : List ParsedSource)
      → Keeps Untouched (upload_sources p i payload sources)
  unfolding upload_sources
  Keeps-upload_sources payload [] = Keeps-pure _
  Keeps-upload_sources payload (source ∷ sources) = Keeps-bind _ _ (Keeps-in_world _) λ result.
      Keeps-bind _ _ (Keeps-update_status _ _) λ _. Keeps-bind _ _ (Keeps-in_world _) λ uploaded.
        Keeps-bind _ _ (Keeps-in_world _)
          λ _. Keeps-bind _ _ (Keeps-upload_sources payload sources) λ _. Keeps-pure _

  pub Keeps-run : Keeps Untouched (run p i)
  unfolding run
  Keeps-run = search (keeps, Keeps-upload_sources) depth 20

-- A run of one task leaves every other task as it was, also when it ends by an exception.
pub get-run_other :
    {R W : Type 0} (p : PipelineService R W) (i j : Text) (s : Sys R W)
    → i ≢ j
    → p.repository.get j (run p i s).1.repo ≡ p.repository.get j s.repo
get-run_other p i j s other = (Keeps-run p i j (p.repository.get j s.repo) other).at s refl
