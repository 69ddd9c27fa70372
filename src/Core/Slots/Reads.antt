-- ===== src/Core/Slots/Reads.antt =====
-- Which queues a worker reads: `--queues=` of its command line, which Celery splits at the commas
-- (media-shuttle-core/core/queue/worker_process.py), and what the broker routes to them
-- (queue/celery_app.py, queue/tasks.py).
use media_shuttle.Prelude.{◌≡◌, refl, true, false, none, some, [], ◌∷◌, In}
use media_shuttle.Py.Text.{
  Text, str, split, strip, lower, upper, or_text, is_empty, has_char, text_eq,
}
use media_shuttle.Py.Text.Lists.{In-unique, In-split_join}
use media_shuttle.Core.Env.{Env}
use media_shuttle.Core.Model.{SourceSite, site_value}
use media_shuttle.Core.Queues.{
  getenv_or, queues_of_role, generate_queue_names, generate_upload_queue_names,
  generate_download_queue_names, generate_control_queue_names, upload_queue_for_target,
  download_queue_for_site, resolve_owner_node,
}
use media_shuttle.Core.Queues.Routes.{
  upload_targets, upload_queue_for_target-In, download_queue_for_site-In,
}
use media_shuttle.Core.Queues.Router.{
  task_upload_result, dictionary, other, shown_of, owner_of, target_of, route_task,
}
use media_shuttle.Core.Slots.{role_specific, worker_queues}

module _ {W : Type 0} (env : Env W) where
  -- A worker of the role reads the queue.
  abbrev pub Reads : Text → Text → Type 0
  Reads role queue = In queue (split b',' (worker_queues env role))

  -- No variable of the environment replaces the queues of the role.
  abbrev pub IsUnset : Text → Type 0
  IsUnset role =
      (is_empty (role_specific env role (str "_WORKER_QUEUES")) ≡ true)
      × (is_empty (strip (getenv_or env "MEDIA_SHUTTLE_CORE_WORKER_QUEUES" "")) ≡ true)

  role-Reads :
      (role queue : Text)
      → IsUnset role
      → has_char b',' queue ≡ false
      → In queue (queues_of_role env (lower (strip role)))
      → Reads role queue
  unfolding worker_queues generate_queue_names
  role-Reads role queue (own, shared) plain listed =
      rw (own, shared) (In-split_join queue _ plain (In-unique queue _ listed))

  upload-Reads :
      (queue : Text)
      → IsUnset (str "upload")
      → has_char b',' queue ≡ false
      → In queue (generate_upload_queue_names env)
      → Reads (str "upload") queue
  unfolding queues_of_role lower strip text_eq
  upload-Reads queue unset plain listed = role-Reads (str "upload") queue unset plain listed

  download-Reads :
      (queue : Text)
      → IsUnset (str "download")
      → has_char b',' queue ≡ false
      → In queue (generate_download_queue_names env)
      → Reads (str "download") queue
  unfolding queues_of_role lower strip text_eq
  download-Reads queue unset plain listed = role-Reads (str "download") queue unset plain listed

  pub control-Reads :
      (queue : Text)
      → IsUnset (str "control")
      → has_char b',' queue ≡ false
      → In queue (generate_control_queue_names env)
      → Reads (str "control") queue
  unfolding queues_of_role lower strip text_eq
  control-Reads queue unset plain listed = role-Reads (str "control") queue unset plain listed

  -- The upload that follows a download, called with the packet that names this node, a task, a target
  -- and a destination, is routed to a queue that the upload worker of this node reads, with or without
  -- affinity, for every target among the configured ones: if no variable of the environment replaces
  -- the queues of upload workers, and there is no comma in the queue's name.
  pub route_task-Reads :
      (shown task_id target destination : Text)
      → In (upper (or_text target (str "RCLONE"))) (upload_targets env)
      → IsUnset (str "upload")
      → has_char b',' (upload_queue_for_target env target (some (resolve_owner_node env))) ≡ false
      → (queue : Text) × (route_task env task_upload_result
            (dictionary (some (resolve_owner_node env)) shown
              ∷ other task_id
              ∷ other target
              ∷ other destination
              ∷ [])
            none
          ≡ some queue)
        × Reads (str "upload") queue
  unfolding route_task target_of owner_of shown_of
  route_task-Reads shown task_id target destination h unset plain =
      (_, refl, upload-Reads _ unset plain (upload_queue_for_target-In env target h))

  -- With the default list of sites, the queue of every known site is read by the download workers, if
  -- no variable of the environment replaces their queues, and there is no comma in the queue's name.
  pub download_queue_for_site-Reads :
      (site : SourceSite)
      → env.getenv (str "MEDIA_SHUTTLE_SITE_QUEUE_SUFFIXES") ≡ none
      → IsUnset (str "download")
      → has_char b',' (download_queue_for_site env (site_value site)) ≡ false
      → Reads (str "download") (download_queue_for_site env (site_value site))
  download_queue_for_site-Reads site default unset plain =
      download-Reads _ unset plain (download_queue_for_site-In env site default)
