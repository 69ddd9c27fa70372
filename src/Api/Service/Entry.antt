-- ===== src/Api/Service/Entry.antt =====
-- The entry of a task: what `create_parse_task` stores and queues.
use media_shuttle.Prelude.{ℕ, ◌≡◌, refl, ap, subst, Bool, some, List, [], ◌∷◌, ◌++◌}
use media_shuttle.Py.Text.{Text, str, replace, text_eq, strip, is_empty}
use media_shuttle.Py.Dict
use media_shuttle.Py.Exec.{Exc, Result, ok, err, pure, ◌>>=◌, ◌>>◌}
use media_shuttle.Py.Exec.Keeps.{Keeps, Keeps-pure, Keeps-raise, Keeps-if, Keeps-bind}
use media_shuttle.Py.Exec.Triple.{Post, Triple, Triple-bind, Triple-given}
use media_shuttle.Core.Env.{Env}
use media_shuttle.Core.Model.{Event}
use media_shuttle.Core.Utils.{make_idempotency_key}
use media_shuttle.Core.Contracts.{from_result, guard, validate_task_created_event}
use media_shuttle.Api.Model.{CreateTaskRequest, TaskRecord}
use media_shuttle.Api.Contracts.{
  require_filled, validate_telegram_destination, validate_create_request,
}
use media_shuttle.Api.Contracts.Agreement.{validate_create_request-agrees}
use media_shuttle.Api.Store.{Api, utc_now_iso, create, publish_created_event}
use media_shuttle.Api.Service.{
  created_event, queued_record, new_task_id, create_parse_task, request_of,
}

module _ {S : Type 0} {P : S → Type 0} where
  Keeps-require_filled : (items : List (Text × Text)) → Keeps P (require_filled items)
  unfolding require_filled
  Keeps-require_filled [] = Keeps-pure tt
  Keeps-require_filled ((key, value) ∷ rest) =
      Keeps-if (is_empty (strip value)) _ _ (Keeps-raise _) (Keeps-require_filled rest)

  Keeps-from_result : {A : Type 0} (r : Result A) → Keeps P (from_result r)
  Keeps-from_result r = record { at = λ s h. h }

  Keeps-guard : (b : Bool) (e : Exc) → Keeps P (guard b e)
  Keeps-guard b e = Keeps-if b _ _ (Keeps-pure tt) (Keeps-raise e)

module _ {W : Type 0} (env : Env W) (request : CreateTaskRequest) where
  Keeps-validate : {S : Type 0} {P : S → Type 0} → Keeps P (validate_create_request env request)
  unfolding validate_create_request validate_telegram_destination
  Keeps-validate =
      Keeps-bind _ _
        (Keeps-require_filled (
          (str "url", request.url)
          ∷ (str "requester_id", request.requester_id)
          ∷ (str "target", request.target)
          ∷ (str "destination", request.destination)
          ∷ []))
        λ _. Keeps-bind _ _ (Keeps-guard _ _) λ _.
          Keeps-if (text_eq request.target (str "TELEGRAM")) _ _
            (Keeps-bind _ _ (Keeps-from_result _) λ parsed. Keeps-guard _ _) (Keeps-pure tt)

  module _ (a : Api W) where
    -- Nothing was stored or queued.
    abbrev pub Same : Api W → Type 0
    Same s = (s.tasks ≡ a.tasks) × (s.events ≡ a.events)

    abbrev Accepted : Type 0
    Accepted = (x : Api W) × ((validate_create_request env request x).0 ≡ ok tt)

    checked :
        (r : Result (Unit {0})) (s s' : Api W)
        → (validate_create_request env request s).0 ≡ r
        → Same s'
        → Post (λ _ t. Same t × Accepted) (λ _. Same) r s'
    checked (ok u) s s' e h = (h, (s, e))
    checked (err x) s s' e h = h

    Triple-validate :
        Triple Same (validate_create_request env request) (λ _ t. Same t × Accepted) (λ _. Same)
    Triple-validate = record { at = λ s h. checked _ s _ refl ((Keeps-validate {P = Same}).at s h) }

    -- One queued event, which the core accepts, for the record that was stored and returned.
    pub record IsEntered (t : TaskRecord) (s : Api W) : Type 0 where
      pub stored : Dict.get t.task_id s.tasks ≡ some t
      pub status : t.status ≡ str "QUEUED"
      pub asked : request_of t ≡ request
      pub event : Event
      pub queued : s.events ≡ a.events ++ event ∷ []
      pub named : event.task_id ≡ some t.task_id
      pub valid : validate_task_created_event env {S = Unit {0}} event tt ≡ (ok tt, tt)

    -- The end of a request: on an exception the tasks and the queue are as before.
    abbrev pub Ended : Result TaskRecord → Api W → Type 0
    Ended r s = Post IsEntered (λ _. Same) r s

    module _
        (dated : (n : ℕ)
          → (t : ℕ) × (env.from_iso (replace b'Z' (str "+00:00") (env.iso n)) ≡ ok t)) where
      Triple-store :
          (task_id key : Text)
          → Accepted
          → Triple Same
              (do
                timestamp ← utc_now_iso env
                create env (queued_record task_id key timestamp request)
                publish_created_event env (created_event task_id key timestamp request)
                pure (queued_record task_id key timestamp request))
              IsEntered
              (λ _. Same)
      unfolding utc_now_iso create publish_created_event queued_record created_event ◌>>=◌
      Triple-store task_id key (x, accepted) = record {
        at = λ s h.
            let now = (env.now s.world).0 in
            let (time, read) = dated now in
            record {
              stored =
                  Dict.get-put_self task_id (queued_record task_id key (env.iso now) request)
                    s.tasks;
              status = refl;
              asked = refl;
              event = created_event task_id key (env.iso now) request;
              queued = ap (λ es. es ++ created_event task_id key (env.iso now) request ∷ []) h.1;
              named = refl;
              valid =
                  validate_create_request-agrees env request task_id key (env.iso now) time x tt
                    accepted read;
            };
      }

      Triple-new_task_id : Triple Same (new_task_id env) (λ _. Same) (λ _. Same)
      unfolding new_task_id
      Triple-new_task_id = record { at = λ s h. h }

      Triple-key : (r : Result Text) → Triple Same (from_result r) (λ _. Same) (λ _. Same)
      Triple-key (ok k) = record { at = λ s h. h }
      Triple-key (err e) = record { at = λ s h. h }

      Triple-create_parse_task : Triple Same (create_parse_task env request) IsEntered (λ _. Same)
      unfolding create_parse_task
      Triple-create_parse_task = Triple-bind _ _ Triple-validate λ _. Triple-given _ λ accepted.
          Triple-bind _ _ Triple-new_task_id λ task_id.
            Triple-bind _ _ (Triple-key (make_idempotency_key env request.url request.requester_id))
              λ key. Triple-store task_id key accepted

run-returns :
    {W : Type 0} (env : Env W) (request : CreateTaskRequest) (key : Text) (a : Api W)
    → validate_create_request env request a ≡ (ok tt, a)
    → make_idempotency_key env request.url request.requester_id ≡ ok key
    → (t : TaskRecord) × (a' : Api W) × (create_parse_task env request a ≡ (ok t, a'))
unfolding create_parse_task new_task_id utc_now_iso create publish_created_event ◌>>=◌
run-returns env request key a valid made = rw (valid, made) (_, _, refl)

-- The entry of a task, if Python reads back the times that it writes. When it returns, the record
-- that it returns is stored under its id, QUEUED and with the fields of the request, and one event
-- that names it and that the core accepts has joined the queue. When it raises, the stored tasks
-- and the queue are as they were.
pub create_parse_task-Ended :
    {W : Type 0} (env : Env W) (request : CreateTaskRequest) (a : Api W)
    → ((n : ℕ) → (t : ℕ) × (env.from_iso (replace b'Z' (str "+00:00") (env.iso n)) ≡ ok t))
    → Ended env request a (create_parse_task env request a).0 (create_parse_task env request a).1
create_parse_task-Ended env request a dated =
    (Triple-create_parse_task env request a dated).at a (refl, refl)

-- A request that passes the checks, with an address that Python can split, is entered if Python reads
-- back the times that it writes: the call returns, the record that it returns is stored under its id,
-- QUEUED and with the fields of the request, and one event that names it and that the core accepts has
-- joined the queue.
pub create_parse_task-returns :
    {W : Type 0} (env : Env W) (request : CreateTaskRequest) (key : Text) (a : Api W)
    → validate_create_request env request a ≡ (ok tt, a)
    → make_idempotency_key env request.url request.requester_id ≡ ok key
    → ((n : ℕ) → (t : ℕ) × (env.from_iso (replace b'Z' (str "+00:00") (env.iso n)) ≡ ok t))
    → (t : TaskRecord) × (a' : Api W) × (create_parse_task env request a ≡ (ok t, a'))
      × IsEntered env request a t a'
create_parse_task-returns env request key a valid made dated =
    let (t, a', e) = run-returns env request key a valid made in
    (
      t,
      a',
      e,
      subst (λ x. Ended env request a x.0 x.1) e (create_parse_task-Ended env request a dated),
    )
