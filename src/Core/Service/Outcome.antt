-- ===== src/Core/Service/Outcome.antt =====
-- How `run_task` ends, for every answer of the providers.
use media_shuttle.Prelude.{◌≡◌, refl, ◌⊎◌, inl, inr, ◌∙◌, sym, Option, none, some}
use media_shuttle.Py.Text.{Text}
use media_shuttle.Py.Exec.{Exc, ok}
use media_shuttle.Py.Exec.Triple.{
  Triple, Triple-pure, Triple-raise, Triple-bind, Triple-try_except, Triple-weaken, Triple-returns,
}
use media_shuttle.Core.Model.{failed, TaskRecord}
use media_shuttle.Core.Repository.{set_status, set_runtime_fields}
use media_shuttle.Core.Pipeline.{PipelineService, Sys, update_runtime_fields, or_raise}
use media_shuttle.Core.Pipeline.Triples.{Stored, Present, get_after_fields, Triple-update_status}
use media_shuttle.Core.Pipeline.Delivery.{IsDelivered, Returned, Triple-run}
use media_shuttle.Core.Service.{record_failure, run_task}

module _ {R W : Type 0} (p : PipelineService R W) (i : Text) where
  -- The stored record is a delivered or a failed one, and `t` agrees with it.
  abbrev pub Settled : TaskRecord → Sys R W → Type 0
  Settled t s =
      (r : TaskRecord) × (p.repository.get i s.repo ≡ some r)
      × (t.status ≡ r.status)
      × (t.message ≡ r.message)
      × (IsDelivered r ⊎ ((r.status ≡ failed) × (r.last_error ≡ r.message)))

  abbrev Never : Exc → Sys R W → Type 0
  Never e s = ⊥

  abbrev OnSome : (TaskRecord → Type 0) → Option TaskRecord → Type 0
  OnSome P none = ⊥
  OnSome P (some t) = P t

  abbrev Failing : Exc → Option TaskRecord → Sys R W → Type 0
  Failing e o s =
      (r : TaskRecord) × (p.repository.get i s.repo ≡ some r)
      × (r.status ≡ failed)
      × (r.message ≡ e)
      × (r.last_error ≡ e)
      × OnSome (λ t. (t.status ≡ failed) × (t.message ≡ e)) o

  Triple-last_error :
      (e : Exc) (o : Option TaskRecord)
      → Triple
          (λ s.
            (r : TaskRecord) × (p.repository.get i s.repo ≡ some r)
            × ((r.status ≡ failed) × (r.message ≡ e))
            × (o ≡ some r))
          (update_runtime_fields p i
            (record { sources = none; artifacts = none; last_error = some e }))
          (λ _. Failing e o)
          Never
  unfolding update_runtime_fields set_runtime_fields
  Triple-last_error e o = record {
    at = λ s t.
        let (r, stored, m, q) = t in
        (_, get_after_fields p i (p.env.now s.world).0 _ s.repo r stored, m.0, m.1, refl, rw q m);
  }

  Triple-reported :
      (e : Exc) (o : Option TaskRecord) → Triple (Failing e o) (or_raise e o) Settled Never
  Triple-reported e none = Triple-raise e λ s h. h.5
  Triple-reported e (some t) = Triple-pure t λ s (r, stored, failing, message, last_error, same). (
    r,
    stored,
    same.0 ∙ sym failing,
    same.1 ∙ sym message,
    inr (failing, last_error ∙ sym message),
  )

  Triple-record_failure : (e : Exc) → Triple (Present p i e) (record_failure p i e) Settled Never
  unfolding record_failure set_status
  Triple-record_failure e =
      Triple-bind _ _
        (Triple-update_status p i (λ r. (r.status ≡ failed) × (r.message ≡ e)) failed e
          (λ now r _. (refl, refl)))
        λ o. Triple-bind _ _ (Triple-last_error e o) λ _. Triple-reported e o

  Returned-Settled : (t : TaskRecord) (s : Sys R W) → Returned p i t s → Settled t s
  Returned-Settled t s (r, stored, delivered, status, message, artifacts) =
      (r, stored, status ∙ sym delivered.status, message, inl delivered)

  Triple-run_task : Triple (Stored p i (λ _. Unit)) (run_task p i) Settled Never
  unfolding run_task
  Triple-run_task =
      Triple-try_except _ _ (Triple-weaken _ Returned-Settled (Triple-run p i))
        Triple-record_failure

  -- `run_task` on a stored task never raises, whatever the providers do. It leaves the task either
  -- SUCCEEDED (one uploaded artifact for each source, in order, the message their locations, no
  -- error) or FAILED with one reason as its message and last error, and it returns a record with
  -- the status and the message that are stored.
  pub run_task-Settled :
      (s : Sys R W) (r : TaskRecord)
      → p.repository.get i s.repo ≡ some r
      → (t : TaskRecord) × (s' : Sys R W) × (run_task p i s ≡ (ok t, s')) × Settled t s'
  run_task-Settled s r stored = Triple-returns (run_task p i) Triple-run_task s (r, stored, tt)
