-- ===== src/Api/Workers/Limits.antt =====
-- media-shuttle-api/app/service.py, `admin_rate_limit_action`.
use media_shuttle.Prelude.{[], if◌then◌else◌}
use media_shuttle.Py.Text.{Text, str, text_eq, strip, lower, is_empty, has_char}
use media_shuttle.Py.Dict
use media_shuttle.Py.Exec.{Exec, pure, ◌>>=◌, ◌>>◌}
use media_shuttle.Core.Env.{Env}
use media_shuttle.Api.Control.{WorkerControl}
use media_shuttle.Api.Store.{Api, utc_now_iso, upsert_worker}
use media_shuttle.Api.Workers.{ActionReply, refused, limited, in_control, known_worker}

-- `_resolve_task_name`
unfoldable pub resolve_task_name : Text → Text
unfolding strip lower text_eq has_char
resolve_task_name task_type =
    let key = lower (strip task_type) in
    if text_eq key (str "parse")
    then str "core.queue.tasks.process_created_event"
    else if text_eq key (str "download")
    then str "core.queue.tasks.process_download_source"
    else if text_eq key (str "upload")
    then str "core.queue.tasks.process_upload_result"
    else if text_eq key (str "finalize")
    then str "core.queue.tasks.process_finalize_task"
    else if has_char b'.' task_type
    then strip task_type
    else []

module _ {W : Type 0} (env : Env W) (control : WorkerControl W) where
  unfoldable pub note_limit : Text → Text → Text → Exec (Api W) (Unit {0})
  unfolding known_worker
  note_limit worker task_name rate_limit = do
    current ← known_worker env control worker
    now ← utc_now_iso env
    upsert_worker env (record current {
      hostname = worker;
      rate_limits = Dict.put task_name rate_limit current.rate_limits;
      updated_at = now;
    })

  unfoldable pub set_limit : Text → Text → Text → Text → Exec (Api W) ActionReply
  unfolding note_limit
  set_limit worker task_type task_name rate_limit = do
    out ← in_control env control (control.set_rate_limit worker task_name rate_limit)
    (if out.accepted then note_limit worker task_name rate_limit else pure tt)
    pure (limited out.accepted worker task_type task_name rate_limit out)

  unfoldable pub admin_rate_limit_action : Text → Text → Text → Exec (Api W) ActionReply
  unfolding set_limit resolve_task_name strip
  admin_rate_limit_action worker task_type rate_limit =
      let worker_key = strip worker in
      let task_key = strip task_type in
      let task_name = resolve_task_name task_key in
      if is_empty worker_key
      then pure (refused (str "worker_required"))
      else if is_empty task_name
      then pure (refused (str "task_type_required"))
      else if is_empty rate_limit
      then pure (refused (str "rate_limit_required"))
      else set_limit worker_key task_key task_name rate_limit
