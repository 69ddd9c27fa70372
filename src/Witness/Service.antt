-- ===== src/Witness/Service.antt =====
-- The theorems on the service at the inputs of `Samples.Service`.
use mathlib.Core.Bool.{false≢true}
use media_shuttle.Prelude.{
  ◌∙◌, ◌++◌, ap, is_some, sym, false, map_option, if◌then◌else◌, ℕ, ◌≡◌, ◌≤◌, refl, none, some, pos,
  [], ◌∷◌, All, true, arith, List, map, length, clamp_to,
}
use media_shuttle.Py.Text.{Text, str, text_in, text_eq, lower, strip, or_text, has_char, strip_char}
use media_shuttle.Py.Dict
use media_shuttle.Py.Dict.{values}
use media_shuttle.Py.Exec.{ok, ◌>>=◌}
use media_shuttle.Core.Model.{Event}
use media_shuttle.Core.Contracts.{
  validate_task_created_event, is_telegram_chat, is_chat_username, is_word, is_chat_id, is_digits,
}
use media_shuttle.Core.Utils.{make_idempotency_key, normalize_url}
use media_shuttle.Api.Model.{TaskRecord, WorkerRecord}
use media_shuttle.Api.Contracts.{
  validate_create_request, require_filled, validate_telegram_destination,
}
use media_shuttle.Api.Contracts.Agreement.{validate_create_request-agrees}
use media_shuttle.Api.Store.{Api, list_tasks}
use media_shuttle.Api.Store.Order.{IsNewest, list_tasks-IsNewest}
use media_shuttle.Api.Service.{RetryReply, created_event, create_parse_task, admin_retry_action}
use media_shuttle.Api.Service.Retry.{status_of, IsRetried, admin_retry_action-IsRetried}
use media_shuttle.Api.Service.Entry.{
  create_parse_task-returns, IsEntered, Ended, create_parse_task-Ended,
}
use media_shuttle.Api.Workers.{ActionReply, admin_worker_action}
use media_shuttle.Api.Workers.Listing.{list_workers, list_workers-Kept}
use media_shuttle.Api.Workers.Gives.{IsSound, Kept}
use media_shuttle.Api.Workers.Records.{admin_worker_action-Kept}
use media_shuttle.Samples.{env}
use media_shuttle.Samples.Service.{failed_task, request, api, control}
use media_shuttle.Api.Workers.Limits.{admin_rate_limit_action}
use media_shuttle.Api.Workers.LimitRecords.{admin_rate_limit_action-Kept}
use media_shuttle.Api.Service.RetryOne.{admin_retry_action_one, admin_retry_action_refused}

request_valid : (validate_create_request env request api).0 ≡ ok tt
unfolding validate_create_request require_filled text_in text_eq strip validate_telegram_destination
    is_telegram_chat strip_char has_char is_chat_id is_chat_username is_word is_digits ◌>>=◌
request_valid = refl

validate_create_request-agrees_example :
    validate_task_created_event env
      (created_event (str "t3") (str "k3") (str "2026-01-03T00:00:00Z") request)
      api
    ≡ (ok tt, api)
validate_create_request-agrees_example =
    validate_create_request-agrees env request (str "t3") (str "k3") (str "2026-01-03T00:00:00Z") 7
      api api request_valid refl

failed_known :
    text_in (lower (strip (or_text [] (str "failed")))) (str "failed" ∷ str "both" ∷ []) ≡ true
unfolding text_in text_eq lower strip
failed_known = refl

admin_retry_action-IsRetried_example :
    let items = list_tasks (some (str "FAILED")) (clamp_to 200 (pos 0)) api.tasks in
    (length items ≤ 200)
    × ((new : List Event) × (a' : Api ℕ) × (admin_retry_action env [] none (pos 0) api ≡ (
      ok (record {
        accepted = true;
        reason = [];
        retried = length items;
        skipped = 0;
        task_ids = map (λ t. t.task_id) items;
      }),
      a',
    ))
        × IsRetried env items api a' new)
admin_retry_action-IsRetried_example = admin_retry_action-IsRetried env [] (pos 0) api failed_known

create_parse_task-Ended_example :
    Ended env request api
      (create_parse_task env request api).0
      (create_parse_task env request api).1
create_parse_task-Ended_example = create_parse_task-Ended env request api (λ n. (7, refl))

list_tasks-IsNewest_example :
    IsNewest
      (some (str "FAILED"))
      1
      (values api.tasks)
      (list_tasks (some (str "FAILED")) 1 api.tasks)
list_tasks-IsNewest_example = list_tasks-IsNewest (some (str "FAILED")) 1 api.tasks

api-IsSound : All IsSound api.workers
api-IsSound = (record { own_name = refl; busy = omega arith; wanted = omega arith }, tt)

admin_worker_action-Kept_example :
    (reply : ActionReply) × (a' : Api ℕ) × (admin_worker_action env control
        (str "w1")
        (str "q2")
        (pos 3)
        (str "set")
        []
        []
        api
      ≡ (ok reply, a'))
    × Kept api.tasks api.events a'
admin_worker_action-Kept_example =
    admin_worker_action-Kept env control (str "w1") (str "q2") (pos 3) (str "set") [] [] api
      api-IsSound

admin_rate_limit_action-Kept_example :
    (reply : ActionReply) × (a' : Api ℕ) × (admin_rate_limit_action env control
        (str "w1")
        (str "parse")
        (str "5/m")
        api
      ≡ (ok reply, a'))
    × Kept api.tasks api.events a'
admin_rate_limit_action-Kept_example =
    admin_rate_limit_action-Kept env control (str "w1") (str "parse") (str "5/m") api api-IsSound

list_workers-Kept_example :
    (out : List WorkerRecord) × (a' : Api ℕ) × (list_workers env control none (pos 9000) true api
      ≡ (ok out, a'))
    × Kept api.tasks api.events a'
    × (length out ≤ 500)
list_workers-Kept_example = list_workers-Kept env control none (pos 9000) true api api-IsSound

request_passes : validate_create_request env request api ≡ (ok tt, api)
unfolding validate_create_request require_filled text_in text_eq strip validate_telegram_destination
    is_telegram_chat strip_char has_char is_chat_id is_chat_username is_word is_digits ◌>>=◌
request_passes = refl

key_made : make_idempotency_key env request.url request.requester_id ≡ ok (str "/@channel::u1")
unfolding make_idempotency_key normalize_url strip
key_made = refl

create_parse_task-returns_example :
    (t : TaskRecord) × (a' : Api ℕ) × (create_parse_task env request api ≡ (ok t, a'))
    × IsEntered env request api t a'
create_parse_task-returns_example =
    create_parse_task-returns env request (str "/@channel::u1") api request_passes key_made
      (λ n. (7, refl))

t2_stored : Dict.get (str "t2") api.tasks ≡ some (failed_task (str "t2") (str "2026-01-02"))
unfolding Dict.get text_eq
t2_stored = refl

t2_failed : text_eq (str "FAILED") (str "FAILED") ≡ true
unfolding text_eq
t2_failed = refl

admin_retry_action_one_example :
    (e : Event) × (a' : Api ℕ) × (admin_retry_action env [] (some (str "t2")) (pos 20) api ≡ (
      ok (record {
        accepted = true;
        reason = [];
        retried = 1;
        skipped = 0;
        task_ids = str "t2" ∷ [];
      }),
      a',
    ))
    × (a'.events ≡ api.events ++ e ∷ [])
    × (e.task_id ≡ some (str "t2"))
    × ((j : Text)
        → status_of j a' ≡ (
            if text_eq (str "t2") j
            then map_option (λ _. str "QUEUED") (status_of j api)
            else status_of j api))
admin_retry_action_one_example =
    admin_retry_action_one env [] b't' (str "2") (pos 20) api
      (failed_task (str "t2") (str "2026-01-02")) t2_stored t2_failed

t9_absent : Dict.get (str "t9") api.tasks ≡ none
unfolding Dict.get text_eq
t9_absent = refl

t9_not_failed :
    (task : TaskRecord)
    → Dict.get (str "t9") api.tasks ≡ some task
    → text_eq task.status (str "FAILED") ≡ false
t9_not_failed task stored = absurd (false≢true (ap is_some (sym t9_absent ∙ stored)))

admin_retry_action_refused_example :
    (reply : RetryReply) × (admin_retry_action env [] (some (str "t9")) (pos 20) api
      ≡ (ok reply, api))
    × (reply.accepted ≡ false)
    × (reply.retried ≡ 0)
admin_retry_action_refused_example =
    admin_retry_action_refused env [] b't' (str "9") (pos 20) api t9_not_failed
