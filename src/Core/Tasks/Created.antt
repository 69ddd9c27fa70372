-- ===== src/Core/Tasks/Created.antt =====
-- media-shuttle-core/core/queue/tasks.py: the body of the first task, which reads an event, parses
-- its source and hands the sources on.
use media_shuttle.Prelude.{Option, none, some, List, [], ◌∷◌, map, length, get_or}
use media_shuttle.Py.Text.{Text}
use media_shuttle.Py.Exec.{Exec, pure, ◌>>=◌, ◌>>◌, try_except}
use media_shuttle.Core.Model.{parsing, downloading, failed, ParsedSource, Event}
use media_shuttle.Core.Registry.{parse}
use media_shuttle.Core.Queues.{created_queue_key, download_queue_for_site}
use media_shuttle.Core.Pipeline
use media_shuttle.Core.Pipeline.{PipelineService, Sys, source_snapshot, require_sources}
use media_shuttle.Core.Service.{create_task_from_event}
use media_shuttle.Core.Tasks.{
  Chain, chord, Reply, scheduled, Packet, Node, App, with_signature, without_signature, in_sys,
  Broker, send, route_failure, process_download_source_logic, process_upload_result_logic,
  process_finalize_task_logic,
}

module _ {R W : Type 0} (p : PipelineService R W) (broker : Broker W) where
  -- The loop that runs the two steps of each source here and now.
  unfoldable pub run_sources :
      Event → Text → List ParsedSource → Text → Text → Exec (Node R W) (List Packet)
  unfolding process_download_source_logic process_upload_result_logic
  run_sources event task_id [] target destination = pure []
  run_sources event task_id (source ∷ sources) target destination = do
    packet ← process_download_source_logic p event task_id source none
    result ← process_upload_result_logic p packet task_id target destination
    results ← run_sources event task_id sources target destination
    pure (result ∷ results)

  chain_of : Text → Text → Text → ParsedSource → Chain
  chain_of task_id target destination source = record {
    source = source;
    download_queue = download_queue_for_site p.env source.site;
    task_id = task_id;
    target = target;
    destination = destination;
  }

  -- `none` says that the end of the task is left to the chord's callback.
  unfoldable pub schedule_source_pipelines :
      App → Event → Text → List ParsedSource → Text → Text → Exec (Node R W) (Option Reply)
  unfolding run_sources process_finalize_task_logic chain_of
  schedule_source_pipelines without_signature event task_id sources target destination = do
    results ← run_sources event task_id sources target destination
    reply ← process_finalize_task_logic p broker results event task_id
    pure (some reply)
  schedule_source_pipelines with_signature event task_id sources target destination = do
    send p broker (
        chord event task_id (map (chain_of task_id target destination) sources)
          (created_queue_key p.env))
    pure none

  unfoldable pub reply_or_scheduled :
      Event → Text → List ParsedSource → Option Reply → Exec (Node R W) Reply
  reply_or_scheduled event task_id sources (some reply) = pure reply
  reply_or_scheduled event task_id sources none =
      pure (scheduled task_id (get_or event.attempt 0) (length sources))

  -- The `try` of `process_created_event_logic`.
  unfoldable pub start_task : App → Event → Exec (Node R W) Reply
  unfolding schedule_source_pipelines reply_or_scheduled
  start_task app event = do
    task ← in_sys p (create_task_from_event p event)
    in_sys p (Pipeline.update_status p task.task_id parsing [])
    sources ← in_sys p (Pipeline.in_world p (parse p.parser_registry task.payload.url))
    require_sources sources
    in_sys p (
        Pipeline.update_runtime_fields p task.task_id (record {
          sources = some (map source_snapshot sources);
          artifacts = some [];
          last_error = some [];
        }))
    in_sys p (Pipeline.update_status p task.task_id downloading [])
    immediate ←
        schedule_source_pipelines app event task.task_id sources task.payload.target
          task.payload.destination
    reply_or_scheduled event task.task_id sources immediate

  -- `if task_id:` of the handler, with the id that the event names.
  unfoldable pub mark_failed : Option Text → Text → Exec (Node R W) (Unit {0})
  mark_failed (some (c ∷ t)) reason = do
    in_sys p (Pipeline.update_status p (c ∷ t) failed reason)
    in_sys p (
        Pipeline.update_runtime_fields p (c ∷ t)
          (record { sources = none; artifacts = none; last_error = some reason }))
    pure tt
  mark_failed _ reason = pure tt

  unfoldable pub process_created_event_logic : App → Event → Exec (Node R W) Reply
  unfolding start_task mark_failed route_failure
  process_created_event_logic app event = try_except (start_task app event) λ reason.
      mark_failed event.task_id reason >> route_failure p broker event reason event.task_id
