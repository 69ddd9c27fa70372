-- ===== src/Witness/Queues.antt =====
-- The theorems on queues and managed workers at the inputs of `Samples`.
use media_shuttle.Prelude.{◌≡◌, refl, none, some, inl, inr, pos, [], ◌∷◌, In, false, true, arith}
use media_shuttle.Py.Text.{
  Text, has_char, str, upper, or_text, strip, lower, split, strip_items, is_empty, text_in, text_eq,
}
use media_shuttle.Py.Dict
use media_shuttle.Core.Model.{SourceSite, site_value}
use media_shuttle.Core.Queues.{
  download_queue_prefix, upload_queue_prefix, upload_affinity_enabled, upload_queue_for_target,
  normalize_owner_node, resolve_owner_node, download_queue_for_site, csv_env,
  worker_control_queue_prefix,
}
use media_shuttle.Core.Queues.Nodes.{normalize_owner_node_idempotent}
use media_shuttle.Core.Queues.Routes.{upload_targets}
use media_shuttle.Core.Queues.Router.{task_upload_result, dictionary, other, route_task}
use media_shuttle.Core.Utils.{bool_env}
use media_shuttle.Core.Slots.{role_specific}
use media_shuttle.Core.Slots.Reads.{IsUnset, Reads, route_task-Reads, download_queue_for_site-Reads}
use media_shuttle.Core.Control.{
  Command, apply_worker_control, managed_hostname, allowed_roles, requested_concurrency,
  shown_action,
}
use media_shuttle.Core.Control.Managed.{
  AllOwn, apply_worker_control-AllOwn, IsHere, IsStarted, apply_worker_control-IsStarted,
}
use media_shuttle.Api.Control.{control_message, control_queue}
use media_shuttle.Api.Workers.{managed_worker_hostname}
use media_shuttle.Api.Workers.Places.{managed_hostname-agrees, control_message-Reads, node_message}
use media_shuttle.Samples.{env}
use media_shuttle.Samples.Service.{named_env, processes, managed}

normalize_owner_node_idempotent_example :
    normalize_owner_node (some (normalize_owner_node (some (str " node 1.a"))))
    ≡ normalize_owner_node (some (str " node 1.a"))
normalize_owner_node_idempotent_example = normalize_owner_node_idempotent (some (str " node 1.a"))

download-IsUnset : IsUnset env (str "download")
unfolding role_specific upper strip
download-IsUnset = (refl, refl)

mega_plain : has_char b',' (download_queue_for_site env (site_value SourceSite.mega)) ≡ false
unfolding has_char download_queue_for_site download_queue_prefix site_value upper
mega_plain = refl

download_queue_for_site-Reads_example :
    Reads env (str "download") (download_queue_for_site env (site_value SourceSite.mega))
download_queue_for_site-Reads_example =
    download_queue_for_site-Reads env SourceSite.mega refl download-IsUnset mega_plain

rclone_listed : In (upper (or_text (str "rclone") (str "RCLONE"))) (upload_targets env)
unfolding upper csv_env strip_items split strip
rclone_listed = inl refl

upload-IsUnset : IsUnset env (str "upload")
unfolding role_specific upper strip
upload-IsUnset = (refl, refl)

rclone_plain :
    has_char b',' (upload_queue_for_target env (str "rclone") (some (resolve_owner_node env)))
    ≡ false
unfolding has_char upload_queue_for_target upload_queue_prefix resolve_owner_node
    normalize_owner_node upload_affinity_enabled bool_env upper strip lower
rclone_plain = refl

route_task-Reads_example :
    (queue : Text) × (route_task env task_upload_result
        (dictionary (some (resolve_owner_node env)) (str "{}")
          ∷ other (str "t1")
          ∷ other (str "rclone")
          ∷ other (str "d:")
          ∷ [])
        none
      ≡ some queue)
    × Reads env (str "upload") queue
route_task-Reads_example =
    route_task-Reads env (str "{}") (str "t1") (str "rclone") (str "d:") rclone_listed
      upload-IsUnset rclone_plain

abbrev restart : Command
restart = record {
  action = str "restart";
  role = str "Parse";
  node_id = [];
  concurrency = some (pos 0);
}

managed-AllOwn : AllOwn env processes managed
unfolding text_in text_eq
managed-AllOwn = (record { allowed = refl; same_role = refl; busy = omega arith }, tt)

apply_worker_control-AllOwn_example :
    AllOwn env processes (apply_worker_control env processes restart managed).1
apply_worker_control-AllOwn_example =
    apply_worker_control-AllOwn env processes restart managed managed-AllOwn

no_upload : Dict.get (lower (strip (str "upload"))) managed.procs ≡ none
unfolding Dict.get lower strip text_eq
no_upload = refl

abbrev stop_upload : Command
stop_upload = record {
  action = str " Stop";
  role = str "upload";
  node_id = str "node 1";
  concurrency = some (pos 3);
}

upload_allowed : text_in (lower (strip (str "upload"))) allowed_roles ≡ true
unfolding text_in lower strip text_eq
upload_allowed = refl

this_node : IsHere env processes (str "node 1")
unfolding resolve_owner_node normalize_owner_node strip upper
this_node = inr refl

stop_asked : In (lower (strip (str " Stop"))) (str "start" ∷ str "stop" ∷ str "restart" ∷ [])
unfolding lower strip
stop_asked = inr (inl refl)

apply_worker_control-IsStarted_example :
    IsStarted env processes
      (shown_action env processes (lower (strip (str " Stop"))))
      (lower (strip (str "upload")))
      (requested_concurrency (some (pos 3)))
      44
      5
      managed
      (apply_worker_control env processes stop_upload managed)
apply_worker_control-IsStarted_example =
    apply_worker_control-IsStarted env processes stop_upload managed 44 5 upload_allowed this_node
      stop_asked no_upload refl

named : is_empty (normalize_owner_node (some (strip (str "node 1")))) ≡ false
unfolding normalize_owner_node strip upper
named = refl

managed_hostname-agrees_example :
    managed_hostname named_env processes (str "parse")
    ≡ managed_worker_hostname (str "parse") (strip (str "node 1"))
unfolding text_eq
managed_hostname-agrees_example =
    managed_hostname-agrees named_env processes (str "parse") (str "node 1") refl named

blank : is_empty (strip (str " ")) ≡ true
unfolding strip
blank = refl

control-IsUnset : IsUnset named_env (str "control")
unfolding role_specific upper strip text_eq
control-IsUnset = (refl, refl)

control_plain :
    has_char b','
      (node_message named_env
        (str "apply")
        (str "node 1")
        (str "parse")
        (str "start")
        (pos 2)
        (str " ")
        (str "2026-01-01")).queue
    ≡ false
unfolding has_char control_message control_queue worker_control_queue_prefix normalize_owner_node
    strip upper text_eq
control_plain = refl

control_message-Reads_example :
    let message =
      node_message named_env
        (str "apply")
        (str "node 1")
        (str "parse")
        (str "start")
        (pos 2)
        (str " ")
        (str "2026-01-01") in
    Reads named_env (str "control") message.queue × (message.node_id ≡ resolve_owner_node named_env)
unfolding text_eq
control_message-Reads_example =
    control_message-Reads named_env (str "apply") (str "node 1") (str "parse") (str "start") (pos 2)
      (str " ") (str "2026-01-01") refl named blank control-IsUnset control_plain
