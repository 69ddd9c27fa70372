-- ===== src/Api/Service/Retry.antt =====
-- The retry of failed tasks by an operator.
use media_shuttle.Prelude.{
  ℕ, ◌≤◌, ◌≡◌, refl, sym, ap, ◌∙◌, Bool, true, false, Option, none, some, List, [], ◌∷◌, ◌++◌, map,
  arith, All, All-take, All-keep_if, clamp_to-le, length, length-map, length-take_le, ℤ, clamp_to,
  map_option, if◌then◌else◌,
}
use mathlib.Core.List.{append_assoc, append-nil}
use mathlib.Core.Path.{ap₂}
use media_shuttle.Py.Text.Equality.{text_eq_iff}
use media_shuttle.Py.Exec.Bind.{ok->>=}
use media_shuttle.Py.Text.{Text, str, text_eq, text_in, lower, strip, or_text}
use media_shuttle.Py.Dict
use media_shuttle.Py.Dict.{Dict, values}
use media_shuttle.Py.Sort.{All-sort}
use media_shuttle.Py.Exec.{ok, ◌>>=◌}
use media_shuttle.Core.Env.{Env}
use media_shuttle.Core.Model.{Event}
use media_shuttle.Api.Model.{TaskRecord}
use media_shuttle.Api.Store.{
  Api, newer, with_status, list_tasks, utc_now_iso, update_status, publish_created_event, mark,
}
use media_shuttle.Api.Service.{
  created_event, build_created_event, requeue, retry_items, retry_failed, admin_retry_action,
}

abbrev pub status_of : {W : Type 0} → Text → Api W → Option Text
status_of j a = map_option (λ r. r.status) (Dict.get j a.tasks)

-- The status of a task after the tasks `ids` were queued again.
abbrev pub requeued : List Text → Text → Option Text → Option Text
requeued ids j before = if text_in j ids then map_option (λ _. str "QUEUED") before else before

abbrev pub HasFailed : TaskRecord → Type 0
HasFailed t = text_eq t.status (str "FAILED") ≡ true

mark_status :
    (now status message : Text) (b : Bool) (o : Option TaskRecord)
    → map_option (λ r. r.status) (if b then map_option (mark now status message) o else o) ≡ (
        if b
        then map_option (λ _. status) (map_option (λ r. r.status) o)
        else map_option (λ r. r.status) o)
unfolding mark
mark_status now status message true none = refl
mark_status now status message true (some r) = refl
mark_status now status message false o = refl

modify_status :
    (now status message i j : Text) (d : Dict TaskRecord)
    → map_option (λ r. r.status) (Dict.get j (Dict.modify i (mark now status message) d)) ≡ (
        if text_eq i j
        then map_option (λ _. status) (map_option (λ r. r.status) (Dict.get j d))
        else map_option (λ r. r.status) (Dict.get j d))
modify_status now status message i j d =
    ap (map_option (λ r. r.status)) (Dict.get-modify i j (mark now status message) d)
    ∙ mark_status now status message (text_eq i j) (Dict.get j d)

requeued-cons :
    (i : Text) (ids : List Text) (j : Text) (o : Option Text)
    → requeued ids j (if text_eq i j then map_option (λ _. str "QUEUED") o else o)
      ≡ requeued (i ∷ ids) j o
unfolding text_in
requeued-cons i ids j none = ground (arith, text_eq_iff i j, text_eq_iff j i)
requeued-cons i ids j (some st) = ground (arith, text_eq_iff i j, text_eq_iff j i)

module _ {W : Type 0} (env : Env W) where
  -- What one call does: it returns, queues one event for the task, and marks it.
  pub requeue_lem :
      (task : TaskRecord) (a : Api W)
      → (e : Event) × (a' : Api W) × (requeue env task a ≡ (ok tt, a'))
        × (a'.events ≡ a.events ++ e ∷ [])
        × (e.task_id ≡ some task.task_id)
        × ((j : Text)
            → status_of j a' ≡ (
                if text_eq task.task_id j
                then map_option (λ _. str "QUEUED") (status_of j a)
                else status_of j a))
  unfolding requeue build_created_event created_event update_status publish_created_event
      utc_now_iso mark ◌>>=◌
  requeue_lem task a = (_, _, refl, refl, refl, λ j. modify_status _ _ _ task.task_id j a.tasks)

  -- What the loop does on failed items.
  pub record IsRetried (items : List TaskRecord) (a a' : Api W) (new : List Event) : Type 0 where
    pub events : a'.events ≡ a.events ++ new
    pub of_items : map (λ e. e.task_id) new ≡ map (λ t. some t.task_id) items
    pub statuses :
        (j : Text) → status_of j a' ≡ requeued (map (λ t. t.task_id) items) j (status_of j a)

  retry_items_lem :
      (items : List TaskRecord) (a : Api W)
      → All HasFailed items
      → (new : List Event) × (a' : Api W) × (retry_items env items a
          ≡ (ok (0, map (λ t. t.task_id) items), a'))
        × IsRetried items a a' new
  unfolding retry_items text_in
  retry_items_lem [] a h = (
    [],
    a,
    refl,
    record { events = sym (append-nil a.events); of_items = refl; statuses = λ j. refl },
  )
  retry_items_lem (item ∷ items) a h =
      let (e, b, one, queued, named, marked) = requeue_lem item a in
      let (new, a', more, done) = retry_items_lem items b h.1 in
      (
        e ∷ new,
        a',
        rw h.0
            (ok->>= (requeue env item) _ a b tt one ∙ ok->>= (retry_items env items) _ b a' _ more),
        record {
          events = done.events ∙ ap (λ es. es ++ new) queued ∙ append_assoc a.events (e ∷ []) new;
          of_items = ap₂ ◌∷◌ named done.of_items;
          statuses = λ j.
              done.statuses j
              ∙ ap (requeued (map (λ t. t.task_id) items) j) (marked j)
              ∙ requeued-cons item.task_id (map (λ t. t.task_id) items) j (status_of j a);
        },
      )

  listed_failed :
      (limit : ℕ) (d : Dict TaskRecord) → All HasFailed (list_tasks (some (str "FAILED")) limit d)
  unfolding list_tasks with_status
  listed_failed limit d =
      All-take HasFailed limit _ (All-sort newer HasFailed _ (All-keep_if _ (values d)))

  length-listed :
      (status : Option Text) (limit : ℕ) (d : Dict TaskRecord)
      → length (list_tasks status limit d) ≤ limit
  unfolding list_tasks
  length-listed status limit d = length-take_le limit _

  -- An operator's retry without a task id, in a mode that is known: it queues again exactly the
  -- failed tasks that the listing gives, at most 200. One event per task joins the queue, in that order; those tasks are QUEUED, no other task's
  -- status changes, and none is skipped.
  pub admin_retry_action-IsRetried :
      (mode : Text) (limit : ℤ) (a : Api W)
      → text_in (lower (strip (or_text mode (str "failed")))) (str "failed" ∷ str "both" ∷ [])
        ≡ true
      → let items = list_tasks (some (str "FAILED")) (clamp_to 200 limit) a.tasks in
        (length items ≤ 200)
        × ((new : List Event) × (a' : Api W) × (admin_retry_action env mode none limit a ≡ (
          ok (record {
            accepted = true;
            reason = [];
            retried = length items;
            skipped = 0;
            task_ids = map (λ t. t.task_id) items;
          }),
          a',
        ))
            × IsRetried items a a' new)
  unfolding admin_retry_action retry_failed
  admin_retry_action-IsRetried mode limit a known =
      let items = list_tasks (some (str "FAILED")) (clamp_to 200 limit) a.tasks in
      let (new, a', run, done) =
        retry_items_lem items a (listed_failed (clamp_to 200 limit) a.tasks) in
      (
        omega (
          arith,
          length-listed (some (str "FAILED")) (clamp_to 200 limit) a.tasks,
          clamp_to-le 200 limit,
        ),
        (
          new,
          a',
          rw known (
              ok->>= (retry_items env items) _ a a' _ run ∙ rw (length-map (λ t. t.task_id) items)),
          done,
        ),
      )
