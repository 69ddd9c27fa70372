-- ===== src/Core/Tasks/Finalize.antt =====
-- What the last task of a chord leaves behind.
use media_shuttle.Prelude.{◌≡◌, refl, some, List, [], ◌∷◌, map, length, ℤ, get_or}
use media_shuttle.Py.Text.{Text, str}
use media_shuttle.Py.Exec.{Result, ok, err}
use media_shuttle.Py.Exec.Triple.{Triple, Triple-pure, Triple-bind, Ending-weaken, Ending-at}
use media_shuttle.Core.Model.{succeeded, failed, Artifact, TaskRecord, Event}
use media_shuttle.Core.Repository.{set_status, set_runtime_fields}
use media_shuttle.Core.Pipeline.{PipelineService, locations_message}
use media_shuttle.Core.Pipeline.Triples.{Stored, Triple-set_status, Triple-update_runtime_fields}
use media_shuttle.Core.Tasks.{
  Broker, Sent, Node, Packet, Reply, finished, max_retries, finalize_failed, finalize_succeeded,
  finalize_with, process_finalize_task_logic, build_artifact, failed_results, result_locations,
}
use media_shuttle.Core.Tasks.Failure.{Answered, Triple-in_sys, Triple-route_failure}

-- The record of a task whose uploads all succeeded, and the reply.
pub record IsDone (event : Event) (task_id : Text) (built : List Artifact) (locations : List Text)
    (r : TaskRecord) (result : Result Reply) : Type 0 where
  pub status : r.status ≡ succeeded
  pub artifacts : r.artifacts ≡ built
  pub message : r.message ≡ locations_message locations
  pub no_error : r.last_error ≡ []
  pub answer :
      result
      ≡ ok (
          finished task_id
            (get_or event.attempt 0)
            (length locations)
            (locations_message locations))

module _ {R W : Type 0} (p : PipelineService R W) (broker : Broker W) where
  -- The record of a task with a failed step, and the reply.
  pub record IsRejected (built : List Artifact) (reason : Text) (r : TaskRecord)
      (result : Result Reply) (sent : List Sent) : Type 0 where
    pub status : r.status ≡ failed
    pub artifacts : r.artifacts ≡ built
    pub message : r.message ≡ reason
    pub error : r.last_error ≡ reason
    pub answer : Answered p broker reason result sent

  -- By the list of the failed steps.
  abbrev pub Concluded :
      Event
      → Text
      → List Artifact
      → List Text
      → List Packet
      → TaskRecord
      → Result Reply
      → List Sent
      → Type 0
  Concluded event task_id artifacts locations [] r result sent =
      IsDone event task_id artifacts locations r result
  Concluded event task_id artifacts locations (item ∷ _) r result sent =
      IsRejected artifacts (get_or item.reason (str "failed")) r result sent

module _ {R W : Type 0} (p : PipelineService R W) (broker : Broker W) (limit : ℤ)
    (configured : max_retries p ≡ ok limit) where
  -- The task is stored as failed.
  abbrev Failed : Text → List Artifact → Text → R → Type 0
  Failed i artifacts reason repo =
      (r : TaskRecord) × (p.repository.get i repo ≡ some r)
      × ((r.status ≡ failed)
          × (r.message ≡ reason)
          × (r.artifacts ≡ artifacts)
          × (r.last_error ≡ reason))

  abbrev Ends :
      Text → Event → List Artifact → List Text → List Packet → Result Reply → Node R W → Type 0
  Ends i event artifacts locations failures result n =
      (r : TaskRecord) × (p.repository.get i n.sys.repo ≡ some r)
      × Concluded p broker event i artifacts locations failures r result n.sent

  Triple-finalize_with :
      (i : Text) (event : Event) (artifacts : List Artifact) (locations : List Text)
      (failures : List Packet)
      → Triple
          (λ n. Stored p i (λ _. Unit) n.sys)
          (finalize_with p broker event i artifacts locations failures)
          (λ reply. Ends i event artifacts locations failures (ok reply))
          (λ e. Ends i event artifacts locations failures (err e))
  unfolding finalize_with finalize_failed finalize_succeeded set_status set_runtime_fields
  Triple-finalize_with i event artifacts locations [] =
      Triple-bind _ _
        (Triple-in_sys p _ _ _ _ (
          Triple-set_status p i
            (λ r. (r.status ≡ succeeded) × (r.message ≡ locations_message locations)) _ _
            (λ now r _. (refl, refl))))
        λ _.
          Triple-bind _ _
            (Triple-in_sys p _ _ _ _ (
              Triple-update_runtime_fields p i
                (λ r.
                  (r.status ≡ succeeded)
                  × (r.message ≡ locations_message locations)
                  × (r.artifacts ≡ artifacts)
                  × (r.last_error ≡ []))
                _ (λ now r h. (h.0, h.1, refl, refl))))
            λ _. Triple-pure _ λ n h. (
              h.0,
              h.1,
              record {
                status = h.2.0;
                artifacts = h.2.2;
                message = h.2.1;
                no_error = h.2.3;
                answer = refl;
              },
            )
  Triple-finalize_with i event artifacts locations (item ∷ rest) =
      let reason = get_or item.reason (str "failed") in
      Triple-bind _ _
        (Triple-in_sys p _ _ _ _ (
          Triple-set_status p i (λ r. (r.status ≡ failed) × (r.message ≡ reason)) _ _
            (λ now r _. (refl, refl))))
        λ _.
          Triple-bind _ _
            (Triple-in_sys p _ _ _ _ (
              Triple-update_runtime_fields p i
                (λ r.
                  (r.status ≡ failed)
                  × (r.message ≡ reason)
                  × (r.artifacts ≡ artifacts)
                  × (r.last_error ≡ reason))
                _ (λ now r h. (h.0, h.1, refl, refl))))
            λ _.
              Ending-weaken
                (λ result n.
                  Failed i artifacts reason n.sys.repo × Answered p broker reason result n.sent)
                (Ends i event artifacts locations (item ∷ rest)) _
                (λ result n h. (
                  h.0.0,
                  h.0.1,
                  record {
                    status = h.0.2.0;
                    artifacts = h.0.2.2;
                    message = h.0.2.1;
                    error = h.0.2.3;
                    answer = h.1;
                  },
                ))
                (Triple-route_failure p broker limit configured (Failed i artifacts reason) event
                  reason (some i))

-- The end of a stored task, with a limit on retries that is a number. If every step succeeded, it
-- returns, and the task is SUCCEEDED with the locations as its message and no error. If not, the task
-- is FAILED with the reason of the first failed step as message and last error, and either the reply
-- names that reason, or an exception of the broker goes on. Unless the task is given up, the last
-- message to the broker is a retry for that reason, which the broker took or at which it raised. Either way the task holds one artifact for each result.
pub process_finalize_task_logic-Concluded :
    {R W : Type 0} (p : PipelineService R W) (broker : Broker W) (limit : ℤ) (i : Text)
    (results : List Packet) (event : Event) (n : Node R W) (r : TaskRecord)
    → max_retries p ≡ ok limit
    → p.repository.get i n.sys.repo ≡ some r
    → let (result, n') = process_finalize_task_logic p broker results event i n in
      (r' : TaskRecord) × (p.repository.get i n'.sys.repo ≡ some r')
      × Concluded p broker event i
          (map build_artifact results)
          (result_locations results)
          (failed_results results)
          r'
          result
          n'.sent
unfolding process_finalize_task_logic
process_finalize_task_logic-Concluded p broker limit i results event n r configured stored =
    Ending-at
      (Ends p broker limit configured i event (map build_artifact results)
        (result_locations results) (failed_results results))
      _
      (Triple-finalize_with p broker limit configured i event (map build_artifact results)
        (result_locations results) (failed_results results))
      n (r, stored, tt)
