-- ===== src/Witness/Core.antt =====
-- The theorems of the core at the inputs of `Samples`.
use mathlib.Core.Bool.{false≢true}
use media_shuttle.Prelude.{
  true, none, [], ◌∷◌, map, pos, ℕ, ◌+◌, ◌≤◌, ◌≡◌, ◌≢◌, refl, ◌∙◌, false, some, arith, length,
}
use media_shuttle.Py.Text.{str, text_eq}
use media_shuttle.Py.Text.Equality.{text_eq_iff}
use media_shuttle.Py.Exec.{ok, err}
use media_shuttle.Core.Model.{TaskRecord}
use media_shuttle.Py.Dict
use media_shuttle.Core.Repository.Memory.{Items, get, memory_repository}
use media_shuttle.Core.Pipeline.{Sys, run}
use media_shuttle.Core.Pipeline.Frame.{get-run_other}
use media_shuttle.Core.Service.{run_task}
use media_shuttle.Core.Service.Outcome.{Settled, run_task-Settled}
use media_shuttle.Core.Runtime.{consume_n}
use media_shuttle.Core.Runtime.Drain.{pending, count_final, consume_n-drains}
use media_shuttle.Core.Tasks.{
  Broker, max_retries, Packet, Node, without_signature, process_finalize_task_logic, build_artifact,
  result_locations, failed_results,
}
use media_shuttle.Core.Tasks.Created.{process_created_event_logic}
use media_shuttle.Core.Tasks.Retry.{AllWithin, process_created_event_logic-AllWithin}
use media_shuttle.Core.Tasks.Finalize.{Concluded, process_finalize_task_logic-Concluded}
use media_shuttle.Py.Number.{parse_int}
use media_shuttle.Samples.{source, downloaded, event, pipeline, sys, task, config, runtime}

task_stored : pipeline.repository.get (str "t1") sys.repo ≡ some task
unfolding memory_repository get text_eq Dict.get
task_stored = refl

tests_apart : false ≡ text_eq (str "t1") (str "t2")
unfolding text_eq
tests_apart = refl

t1-ne-t2 : str "t1" ≢ str "t2"
t1-ne-t2 e = false≢true (tests_apart ∙ (text_eq_iff (str "t1") (str "t2")).1 e)

run_task-Settled_example :
    (t : TaskRecord) × (s' : Sys Items ℕ) × (run_task pipeline (str "t1") sys ≡ (ok t, s'))
    × Settled pipeline (str "t1") t s'
run_task-Settled_example = run_task-Settled pipeline (str "t1") sys task task_stored

get-run_other_example :
    pipeline.repository.get (str "t2") (run pipeline (str "t1") sys).1.repo
    ≡ pipeline.repository.get (str "t2") sys.repo
get-run_other_example = get-run_other pipeline (str "t1") (str "t2") sys t1-ne-t2

consume_n-drains_example :
    (pending pipeline config (consume_n pipeline config 3 runtime).1 ≡ 0)
    × (count_final (consume_n pipeline config 3 runtime).0 ≡ 1)
    × (length (consume_n pipeline config 3 runtime).0 ≤ 3)
consume_n-drains_example = consume_n-drains pipeline config 3 runtime (omega arith)

two_retries : max_retries pipeline ≡ ok (pos 2)
unfolding max_retries parse_int
two_retries = refl

-- One source that was uploaded, and one whose download failed.
abbrev packet : Packet
packet = record {
  ok = true;
  reason = none;
  location = some (str "rclone://a.bin");
  download = some downloaded;
  source = source;
  owner_node = none;
  task_id = str "t1";
  event = event;
}

abbrev failed_packet : Packet
failed_packet = record packet { ok = false; reason = some (str "download failed"); location = none }

abbrev node : Node Items ℕ
node = record { sys = sys; sent = [] }

-- A broker that is down.
abbrev broker : Broker ℕ
broker message w = (err (str "broker is down"), w + 1)

process_finalize_task_logic-Concluded_example :
    let (result, n') =
      process_finalize_task_logic pipeline broker
        (packet ∷ failed_packet ∷ [])
        event
        (str "t1")
        node in
    (r' : TaskRecord) × (pipeline.repository.get (str "t1") n'.sys.repo ≡ some r')
    × Concluded pipeline broker event
        (str "t1")
        (map build_artifact (packet ∷ failed_packet ∷ []))
        (result_locations (packet ∷ failed_packet ∷ []))
        (failed_results (packet ∷ failed_packet ∷ []))
        r'
        result
        n'.sent
process_finalize_task_logic-Concluded_example =
    process_finalize_task_logic-Concluded pipeline broker (pos 2) (str "t1")
      (packet ∷ failed_packet ∷ []) event node task two_retries task_stored

process_created_event_logic-AllWithin_example :
    AllWithin pipeline broker
      (pos 2)
      two_retries
      (process_created_event_logic pipeline broker without_signature event node).1
process_created_event_logic-AllWithin_example =
    process_created_event_logic-AllWithin pipeline broker (pos 2) two_retries without_signature
      event node tt
