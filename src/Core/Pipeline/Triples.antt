-- ===== src/Core/Pipeline/Triples.antt =====
-- What the operations of `Core.Pipeline` do to one stored task, as conditions before and after.
use media_shuttle.Prelude.{ℕ, ◌≡◌, ◌∙◌, ap, some, map_option}
use media_shuttle.Py.Text.{Text}
use media_shuttle.Py.Text.Equality.{text_eq_refl}
use media_shuttle.Py.Exec.{Exc, Result, ok, err, Exec}
use media_shuttle.Py.Exec.Triple.{Post, Triple}
use media_shuttle.Core.Model.{TaskStatus, TaskRecord}
use media_shuttle.Core.Repository.{RuntimePatch, set_status, set_runtime_fields}
use media_shuttle.Core.Pipeline.{
  PipelineService, Sys, in_world, update_status, update_runtime_fields,
}

module _ {R W : Type 0} (p : PipelineService R W) (i : Text) where
  -- Task `i` is stored, and its record has the property.
  abbrev pub Stored : (TaskRecord → Type 0) → Sys R W → Type 0
  Stored P s = (r : TaskRecord) × (p.repository.get i s.repo ≡ some r) × P r

  pub get_after_status :
      (now : ℕ) (status : TaskStatus) (message : Text) (repo : R) (r : TaskRecord)
      → p.repository.get i repo ≡ some r
      → p.repository.get i (p.repository.update_status now i status message repo).1
        ≡ some (set_status now status message r)
  get_after_status now status message repo r e =
      p.repository.get-update_status now i status message i repo
      ∙ rw (text_eq_refl i) (ap (map_option (set_status now status message)) e)

  pub get_after_fields :
      (now : ℕ) (patch : RuntimePatch) (repo : R) (r : TaskRecord)
      → p.repository.get i repo ≡ some r
      → p.repository.get i (p.repository.update_runtime_fields now i patch repo).1
        ≡ some (set_runtime_fields now patch r)
  get_after_fields now patch repo r e =
      p.repository.get-update_runtime_fields now i patch i repo
      ∙ rw (text_eq_refl i) (ap (map_option (set_runtime_fields now patch)) e)

  module _ {P : TaskRecord → Type 0} (Q : TaskRecord → Type 0) {E : Exc → Sys R W → Type 0} where
    pub Triple-update_status :
        (status : TaskStatus) (message : Text)
        → ((now : ℕ) (r : TaskRecord) → P r → Q (set_status now status message r))
        → Triple
            (Stored P)
            (update_status p i status message)
            (λ o s. (r : TaskRecord) × (p.repository.get i s.repo ≡ some r) × Q r × (o ≡ some r))
            E
    unfolding update_status
    Triple-update_status status message h = record {
      at = λ s t.
          let now = (p.env.now s.world).0 in
          let (r, e, k) = t in
          let after = get_after_status now status message s.repo r e in
          (
            set_status now status message r,
            after,
            h now r k,
            p.repository.returns-update_status now i status message s.repo ∙ after,
          );
    }

    pub Triple-set_status :
        (status : TaskStatus) (message : Text)
        → ((now : ℕ) (r : TaskRecord) → P r → Q (set_status now status message r))
        → Triple (Stored P) (update_status p i status message) (λ _. Stored Q) E
    unfolding update_status
    Triple-set_status status message h = record {
      at = λ s t.
          let (r, e, k) = t in
          let now = (p.env.now s.world).0 in
          (
            set_status now status message r,
            get_after_status now status message s.repo r e,
            h now r k,
          );
    }

    pub Triple-update_runtime_fields :
        (patch : RuntimePatch)
        → ((now : ℕ) (r : TaskRecord) → P r → Q (set_runtime_fields now patch r))
        → Triple (Stored P) (update_runtime_fields p i patch) (λ _. Stored Q) E
    unfolding update_runtime_fields
    Triple-update_runtime_fields patch h = record {
      at = λ s t.
          let now = (p.env.now s.world).0 in
          let (r, e, k) = t in
          (set_runtime_fields now patch r, get_after_fields now patch s.repo r e, h now r k);
    }

  -- The record is there, whatever it holds.
  abbrev pub Present : Exc → Sys R W → Type 0
  Present e = Stored (λ _. Unit)

  module _ {P : TaskRecord → Type 0} where
    forget : (s : Sys R W) → Stored P s → Stored (λ _. Unit) s
    forget s (r, e, k) = (r, e, tt)

    Post-in_world :
        {A : Type 0} (r : Result A) (s : Sys R W) → Stored P s → Post (λ _. Stored P) Present r s
    Post-in_world (ok a) s h = h
    Post-in_world (err e) s h = forget s h

    pub Triple-in_world :
        {A : Type 0} (m : Exec W A) → Triple (Stored P) (in_world p m) (λ _. Stored P) Present
    unfolding in_world
    Triple-in_world m = record { at = λ s h. Post-in_world (m s.world).0 _ h }
