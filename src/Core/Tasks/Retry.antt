-- ===== src/Core/Tasks/Retry.antt =====
-- The retries that the tasks' bodies hand to the broker.
use media_shuttle.Prelude.{
  ℕ, ◌+◌, ◌≤◌, ◌<◌, ◌≡◌, true, inl, inr, Option, none, some, List, [], ◌∷◌, arith, map, All,
  All-append, ℤ, pos, negsuc, lt_int, Bool-cases, get_or,
}
use media_shuttle.Py.Text.{Text, str}
use media_shuttle.Py.Exec.{ok, Exec}
use media_shuttle.Py.Exec.Keeps.{
  Keeps, Keeps-pure, Keeps-bind, Keeps-bind_known, Keeps-if, Keeps-try_except,
}
use media_shuttle.Core.Model.{ParsedSource, Artifact, Event}
use media_shuttle.Core.Pipeline.{PipelineService, Sys}
use media_shuttle.Core.Pipeline.Frame.{Keeps-require_sources, Keeps-or_raise}
use media_shuttle.Core.Tasks.{
  App, Broker, with_signature, without_signature, Node, Sent, retry, chord, Reply, Packet, in_sys,
  send, max_retries, next_event, route_failure, process_download_source_logic,
  process_upload_result_logic, upload_packet, finalize_failed, finalize_succeeded, finalize_with,
  process_finalize_task_logic, build_artifact, failed_results, result_locations,
}
use media_shuttle.Core.Tasks.Created.{
  run_sources, schedule_source_pipelines, reply_or_scheduled, start_task, mark_failed,
  process_created_event_logic,
}

-- `n` is at most the limit.
abbrev pub LeInt : ℕ → ℤ → Type 0
LeInt n (pos limit) = n ≤ limit
LeInt n (negsuc limit) = ⊥

-- A retry that is on its way has an attempt number, from 1 up to the limit.
abbrev pub IsWithin : ℤ → Sent → Type 0
IsWithin limit (retry queue event) =
    (0 < get_or event.attempt 0) × LeInt (get_or event.attempt 0) limit
IsWithin limit (chord event task_id chains callback_queue) = Unit

module _ {R W : Type 0} (p : PipelineService R W) (broker : Broker W) (limit : ℤ)
    (configured : max_retries p ≡ ok limit) where
  abbrev pub AllWithin : Node R W → Type 0
  AllWithin n = All (IsWithin limit) n.sent

  Keeps-in_sys : {A : Type 0} (m : Exec (Sys R W) A) → Keeps AllWithin (in_sys p m)
  unfolding in_sys
  Keeps-in_sys m = record { at = λ n h. h }

  Keeps-send : (message : Sent) → IsWithin limit message → Keeps AllWithin (send p broker message)
  unfolding send
  Keeps-send message w = record {
    at = λ n h. All-append (IsWithin limit) n.sent (message ∷ []) h (w, tt);
  }

  lt→LeInt : (n : ℕ) (z : ℤ) → lt_int n z ≡ true → LeInt (n + 1) z
  lt→LeInt n (pos m) h = ground arith
  lt→LeInt n (negsuc m) h = ground arith

  pub Keeps-route_failure :
      (event : Event) (reason : Text) (task_id : Option Text)
      → Keeps AllWithin (route_failure p broker event reason task_id)
  unfolding route_failure next_event
  Keeps-route_failure event reason task_id = Keeps-bind _ _ (Keeps-in_sys _) λ now.
      Keeps-bind_known _ _ limit configured
        (elim (Bool-cases (lt_int (get_or event.attempt 0) limit)) [
          | inl more ↦ rw more (
              Keeps-bind _ _
                (Keeps-send _ (omega arith, lt→LeInt (get_or event.attempt 0) limit more))
                λ _. Keeps-pure _)
          | inr done ↦ rw done (Keeps-pure _)
        ])

  Keeps-finalize_with :
      (event : Event) (task_id : Text) (artifacts : List Artifact) (locations : List Text)
      (failures : List Packet)
      → Keeps AllWithin (finalize_with p broker event task_id artifacts locations failures)
  unfolding finalize_with finalize_failed finalize_succeeded
  Keeps-finalize_with event task_id artifacts locations [] =
      Keeps-bind _ _ (Keeps-in_sys _) λ _. Keeps-bind _ _ (Keeps-in_sys _) λ _. Keeps-pure _
  Keeps-finalize_with event task_id artifacts locations (item ∷ _) =
      Keeps-bind _ _ (Keeps-in_sys _) λ _.
        Keeps-bind _ _ (Keeps-in_sys _)
          λ _. Keeps-route_failure event (get_or item.reason (str "failed")) (some task_id)

  pub Keeps-process_finalize_task_logic :
      (results : List Packet) (event : Event) (task_id : Text)
      → Keeps AllWithin (process_finalize_task_logic p broker results event task_id)
  unfolding process_finalize_task_logic
  Keeps-process_finalize_task_logic results event task_id =
      Keeps-finalize_with event task_id (map build_artifact results) (result_locations results)
        (failed_results results)

  pub Keeps-process_download_source_logic :
      (event : Event) (task_id : Text) (source : ParsedSource) (owner_node : Option Text)
      → Keeps AllWithin (process_download_source_logic p event task_id source owner_node)
  unfolding process_download_source_logic
  Keeps-process_download_source_logic event task_id source owner_node =
      Keeps-bind _ _ (Keeps-in_sys _) λ _.
        Keeps-try_except _ _ (Keeps-bind _ _ (Keeps-in_sys _) λ _. Keeps-pure _) (λ _. Keeps-pure _)

  pub Keeps-process_upload_result_logic :
      (packet : Packet) (task_id target destination : Text)
      → Keeps AllWithin (process_upload_result_logic p packet task_id target destination)
  unfolding process_upload_result_logic upload_packet
  Keeps-process_upload_result_logic packet task_id target destination =
      Keeps-if _ _ _ (Keeps-pure _) (
        Keeps-bind _ _ (Keeps-in_sys _) λ _. Keeps-bind _ _ (Keeps-or_raise _ _) λ result.
          Keeps-try_except _ _
            (Keeps-bind _ _ (Keeps-in_sys _) λ _. Keeps-bind _ _ (Keeps-in_sys _) λ _. Keeps-pure _)
            (λ _. Keeps-pure _))

  Keeps-run_sources :
      (event : Event) (task_id : Text) (sources : List ParsedSource) (target destination : Text)
      → Keeps AllWithin (run_sources p broker event task_id sources target destination)
  unfolding run_sources
  Keeps-run_sources event task_id [] target destination = Keeps-pure _
  Keeps-run_sources event task_id (source ∷ sources) target destination =
      Keeps-bind _ _ (Keeps-process_download_source_logic event task_id source none) λ packet.
        Keeps-bind _ _ (Keeps-process_upload_result_logic packet task_id target destination)
          λ result.
            Keeps-bind _ _ (Keeps-run_sources event task_id sources target destination)
              λ _. Keeps-pure _

  Keeps-schedule :
      (app : App) (event : Event) (task_id : Text) (sources : List ParsedSource)
      (target destination : Text)
      → Keeps AllWithin
          (schedule_source_pipelines p broker app event task_id sources target destination)
  unfolding schedule_source_pipelines
  Keeps-schedule without_signature event task_id sources target destination =
      Keeps-bind _ _ (Keeps-run_sources event task_id sources target destination) λ results.
        Keeps-bind _ _ (Keeps-process_finalize_task_logic results event task_id) λ _. Keeps-pure _
  Keeps-schedule with_signature event task_id sources target destination =
      Keeps-bind _ _ (Keeps-send _ tt) λ _. Keeps-pure _

  Keeps-reply_or_scheduled :
      (event : Event) (task_id : Text) (sources : List ParsedSource) (o : Option Reply)
      → Keeps AllWithin (reply_or_scheduled p broker event task_id sources o)
  unfolding reply_or_scheduled
  Keeps-reply_or_scheduled event task_id sources none = Keeps-pure _
  Keeps-reply_or_scheduled event task_id sources (some r) = Keeps-pure _

  Keeps-start_task : (app : App) (event : Event) → Keeps AllWithin (start_task p broker app event)
  unfolding start_task
  Keeps-start_task app event = Keeps-bind _ _ (Keeps-in_sys _) λ task.
      Keeps-bind _ _ (Keeps-in_sys _) λ _. Keeps-bind _ _ (Keeps-in_sys _) λ sources.
        Keeps-bind _ _ (Keeps-require_sources sources) λ _. Keeps-bind _ _ (Keeps-in_sys _) λ _.
          Keeps-bind _ _ (Keeps-in_sys _) λ _.
            Keeps-bind _ _
              (Keeps-schedule app event task.task_id sources task.payload.target
                task.payload.destination)
              λ immediate. Keeps-reply_or_scheduled event task.task_id sources immediate

  Keeps-mark_failed :
      (task_id : Option Text) (reason : Text)
      → Keeps AllWithin (mark_failed p broker task_id reason)
  unfolding mark_failed
  Keeps-mark_failed none reason = Keeps-pure tt
  Keeps-mark_failed (some []) reason = Keeps-pure tt
  Keeps-mark_failed (some (c ∷ t)) reason =
      Keeps-bind _ _ (Keeps-in_sys _) λ _. Keeps-bind _ _ (Keeps-in_sys _) λ _. Keeps-pure tt

  -- Whatever an event holds and whatever the providers do, the body of the first task hands the
  -- broker no retry whose attempt number is beyond the limit, if none was there before; each retry
  -- has a number of at least one, so no event is retried without end.
  pub process_created_event_logic-AllWithin :
      (app : App) (event : Event) (n : Node R W)
      → AllWithin n
      → AllWithin (process_created_event_logic p broker app event n).1
  unfolding process_created_event_logic
  process_created_event_logic-AllWithin app event n =
      (Keeps-try_except _ _ (Keeps-start_task app event) λ reason.
          Keeps-bind _ _ (Keeps-mark_failed event.task_id reason)
            λ _. Keeps-route_failure event reason event.task_id).at
        n
