-- ===== src/Api/Service/RetryOne.antt =====
-- The retry of one task by an operator.
use media_shuttle.Prelude.{
  inl, inr, Option-cases, ℕ, ◌≡◌, refl, ap, ◌∙◌, true, false, Option, none, some, [], ◌∷◌, ◌++◌, ℤ,
  map_option, if◌then◌else◌,
}
use media_shuttle.Py.Exec.Bind.{ok->>=}
use media_shuttle.Py.Text.{Text, str, text_eq}
use media_shuttle.Py.Dict
use media_shuttle.Py.Dict.{Dict, values}
use media_shuttle.Py.Exec.{ok}
use media_shuttle.Core.Env.{Env}
use media_shuttle.Core.Model.{Event}
use media_shuttle.Api.Model.{TaskRecord}
use media_shuttle.Api.Store.{get_task, Api}
use media_shuttle.Api.Service.{RetryReply, refuse, retry_found, requeue, admin_retry_action}
use media_shuttle.Api.Service.Retry.{status_of, HasFailed, requeue_lem}

module _ {W : Type 0} (env : Env W) where
  -- An operator's retry of one stored task that has FAILED, in whatever mode: one event for it joins
  -- the queue, it is QUEUED, and no other task's status changes.
  pub admin_retry_action_one :
      (mode : Text) (c : ℕ) (id : Text) (limit : ℤ) (a : Api W) (task : TaskRecord)
      → Dict.get (c ∷ id) a.tasks ≡ some task
      → HasFailed task
      → (e : Event) × (a' : Api W) × (admin_retry_action env mode (some (c ∷ id)) limit a ≡ (
        ok (record {
          accepted = true;
          reason = [];
          retried = 1;
          skipped = 0;
          task_ids = task.task_id ∷ [];
        }),
        a',
      ))
        × (a'.events ≡ a.events ++ e ∷ [])
        × (e.task_id ≡ some task.task_id)
        × ((j : Text)
            → status_of j a' ≡ (
                if text_eq task.task_id j
                then map_option (λ _. str "QUEUED") (status_of j a)
                else status_of j a))
  unfolding admin_retry_action retry_found get_task
  admin_retry_action_one mode c id limit a task stored failed =
      let (e, a', run, events, named, statuses) = requeue_lem env task a in
      (
        e,
        a',
        ok->>= (get_task env (c ∷ id)) (retry_found env) a a (some task)
              (ap (λ o. (ok o, a)) stored)
            ∙ rw failed (ok->>= (requeue env task) _ a a' tt run),
        events,
        named,
        statuses,
      )

  refused_step :
      (mode : Text) (c : ℕ) (id : Text) (limit : ℤ) (a : Api W) (o : Option TaskRecord)
      {reply : RetryReply}
      → Dict.get (c ∷ id) a.tasks ≡ o
      → retry_found env o a ≡ (ok reply, a)
      → admin_retry_action env mode (some (c ∷ id)) limit a ≡ (ok reply, a)
  unfolding admin_retry_action get_task
  refused_step mode c id limit a o stored run =
      ok->>= (get_task env (c ∷ id)) (retry_found env) a a o (ap (λ o. (ok o, a)) stored) ∙ run

  -- A retry of one task that is not stored, or has not FAILED, is refused and changes nothing.
  pub admin_retry_action_refused :
      (mode : Text) (c : ℕ) (id : Text) (limit : ℤ) (a : Api W)
      → ((task : TaskRecord)
          → Dict.get (c ∷ id) a.tasks ≡ some task
          → text_eq task.status (str "FAILED") ≡ false)
      → (reply : RetryReply) × (admin_retry_action env mode (some (c ∷ id)) limit a ≡ (ok reply, a))
        × (reply.accepted ≡ false)
        × (reply.retried ≡ 0)
  unfolding retry_found
  admin_retry_action_refused mode c id limit a other =
      elim (Option-cases (Dict.get (c ∷ id) a.tasks)) [
        | inl missing ↦ (_, refused_step mode c id limit a none missing refl, refl, refl)
        | inr (task, stored) ↦ (
          refuse env (str "task_not_failed") 1,
          refused_step mode c id limit a (some task) stored (rw (other task stored) refl),
          refl,
          refl,
        )
      ]
