-- ===== src/Core/Runtime.antt =====
-- media-shuttle-core/core/runtime.py (`CoreRuntime` over the in-memory queues), with
-- core/queue/consumer.py and publisher.py: one loop takes events from the retry queue first and
-- from the created queue next. The publisher writes to the very list that the retry consumer
-- reads, so the two are one queue here.
pub mod Drain
use media_shuttle.Prelude.{
  ℕ, zero, suc, ◌+◌, Bool, true, false, Option, none, some, List, [], ◌∷◌, ◌++◌, ℤ, lt_int, max,
  if◌then◌else◌, get_or,
}
use media_shuttle.Py.Text.{Text, str, text_eq}
use media_shuttle.Py.Exec.{Result, ok, err}
use media_shuttle.Core.Model.{Event, TaskRecord, status_value}
use media_shuttle.Core.Pipeline.{PipelineService, Sys}
use media_shuttle.Core.Service.{handle_event}
use media_shuttle.Core.Tasks.{next_event}

-- The part of the configuration that the loop reads.
pub record RuntimeConfig : Type 0 where
  pub max_retries : ℤ
  pub concurrency : ℕ

pub record Runtime (R W : Type 0) : Type 0 where
  pub sys : Sys R W
  pub created : List Event
  pub retry : List Event

pub data Reply : Type 0 where
  retried : (task_id : Option Text) (attempt : ℕ) (reason : Text) → Reply
  gave_up : (task_id : Option Text) (attempt : ℕ) (reason : Text) → Reply
  succeeded : (attempt : ℕ) (result : TaskRecord) → Reply

-- `_items.pop(0)`, if there is one.
abbrev pub pop : List Event → Option (Event × List Event)
pop [] = none
pop (e ∷ es) = some (e, es)

module _ {R W : Type 0} (p : PipelineService R W) (config : RuntimeConfig) where
  pop_created : Runtime R W → Option (Event × List Event) → Option Event × Runtime R W
  pop_created rt none = (none, rt)
  pop_created rt (some (e, rest)) = (some e, record rt { created = rest })

  pop_retry : Runtime R W → Option (Event × List Event) → Option Event × Runtime R W
  unfolding pop_created
  pop_retry rt none = pop_created rt (pop rt.created)
  pop_retry rt (some (e, rest)) = (some e, record rt { retry = rest })

  unfoldable pub pop_next_event : Runtime R W → Option Event × Runtime R W
  unfolding pop_retry
  pop_next_event rt = pop_retry rt (pop rt.retry)

  unfoldable pub route_failure : Event → Text → Option Text → Runtime R W → Reply × Runtime R W
  route_failure event reason task_id rt =
      let (now, w) = p.env.now rt.sys.world in
      let base = next_event p event reason task_id (p.env.iso now) in
      let attempt = get_or event.attempt 0 in
      let rt' = record rt { sys = record rt.sys { world = w } } in
      if lt_int attempt config.max_retries
      then (
        retried base.task_id (attempt + 1) reason,
        record rt' { retry = rt'.retry ++ base ∷ [] },
      )
      else (gave_up base.task_id (attempt + 1) reason, rt')

  -- What becomes of the worker's result: an exception, a failed task, or a task that is done.
  settle : Event → Result TaskRecord → Runtime R W → Reply × Runtime R W
  unfolding route_failure
  settle event (err reason) rt = route_failure event reason event.task_id rt
  settle event (ok result) rt =
      if text_eq (status_value result.status) (str "FAILED")
      then route_failure event result.message (some result.task_id) rt
      else (succeeded (get_or event.attempt 0) result, rt)

  unfoldable pub process_event : Event → Runtime R W → Reply × Runtime R W
  unfolding settle
  process_event event rt =
      let (result, sys) = handle_event p event rt.sys in
      settle event result (record rt { sys = sys })

  process_popped : Option Event × Runtime R W → Option Reply × Runtime R W
  unfolding process_event
  process_popped (none, rt) = (none, rt)
  process_popped (some event, rt) = let (reply, rt') = process_event event rt in (some reply, rt')

  unfoldable pub process_one : Runtime R W → Option Reply × Runtime R W
  unfolding process_popped pop_next_event
  process_one rt = process_popped (pop_next_event rt)

  -- One worker's share of `run_workers_once`: it stops early where the queues are empty.
  unfoldable pub consume_n : ℕ → Runtime R W → List Reply × Runtime R W
  unfolding process_one
  consume_n zero rt = ([], rt)
  consume_n (suc steps) rt =
      let (reply, rt') = process_one rt in
      let rest = consume_n steps rt' in
      elim reply [ none ↦ ([], rt') | some r ↦ (r ∷ rest.0, rest.1) ]

  -- The workers of the pool, one behind the other.
  run_pool : ℕ → ℕ → Runtime R W → List Reply × Runtime R W
  unfolding consume_n
  run_pool steps zero rt = ([], rt)
  run_pool steps (suc workers) rt =
      let (replies, rt') = consume_n steps rt in
      let rest = run_pool steps workers rt' in (replies ++ rest.0, rest.1)

  -- The source counts the replies.
  unfoldable pub run_workers_once : ℕ → Runtime R W → List Reply × Runtime R W
  unfolding run_pool
  run_workers_once steps_per_worker rt =
      run_pool (max 1 steps_per_worker) (max 1 config.concurrency) rt
