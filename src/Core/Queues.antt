-- ===== src/Core/Queues.antt =====
-- The names of the broker's queues: media-shuttle-core/core/queue/tasks.py (the sender's side),
-- celery_app.py (the queue of an upload) and worker_process.py (the queues that a worker reads).
pub mod Nodes
pub mod Routes
pub mod Router
use media_shuttle.Prelude.{
  ℕ, String, Bool, true, false, not, ◌&&◌, ◌||◌, Option, some, List, [], ◌∷◌, ◌++◌, map, ◌==◌,
  if◌then◌else◌, get_or,
}
use media_shuttle.Py.Text.{
  Text, str, strip, upper, lower, is_empty, or_text, in_range, join, split, strip_items, unique,
  text_eq,
}
use media_shuttle.Core.Model.{default_site_queue_suffixes}
use media_shuttle.Core.Env.{Env}
use media_shuttle.Core.Utils.{bool_env}

-- `[A-Za-z0-9_-]`
unfoldable pub is_node_char : ℕ → Bool
is_node_char c =
    in_range b'A' b'Z' c || in_range b'a' b'z' c || in_range b'0' b'9' c || c == b'_' || c == b'-'

-- `re.sub(r"[^A-Za-z0-9_-]+", "_", s)`: a run of other characters becomes one `_`; `in_run` says
-- that the character in front was one of a run.
unfoldable pub sub_runs : Bool → Text → Text
unfolding is_node_char
sub_runs in_run [] = []
sub_runs in_run (c ∷ s) =
    let kept = c ∷ sub_runs false s in
    let run = sub_runs true s in if is_node_char c then kept else if in_run then run else b'_' ∷ run

unfoldable pub normalize_owner_node : Option Text → Text
unfolding sub_runs
normalize_owner_node raw =
    let value = strip (get_or raw []) in if is_empty value then [] else upper (sub_runs false value)

module _ {W : Type 0} (env : Env W) where
  -- `os.getenv(name, default)`
  abbrev pub getenv_or : String → String → Text
  getenv_or name default = get_or (env.getenv (str name)) (str default)

  -- The name that a node is given, or else that of its host.
  abbrev pub node_name : Text
  node_name =
      let explicit = strip (getenv_or "MEDIA_SHUTTLE_NODE_ID" "") in
      if is_empty explicit then env.hostname else explicit

  unfoldable pub resolve_owner_node : Text
  unfolding normalize_owner_node
  resolve_owner_node = normalize_owner_node (some node_name)

  unfoldable pub created_queue_key : Text
  created_queue_key = getenv_or "MEDIA_SHUTTLE_CREATED_QUEUE_KEY" "media_shuttle:task_created"

  unfoldable pub retry_queue_key : Text
  retry_queue_key = getenv_or "MEDIA_SHUTTLE_RETRY_QUEUE_KEY" "media_shuttle:task_retry"

  unfoldable pub download_queue_prefix : Text
  download_queue_prefix = getenv_or "MEDIA_SHUTTLE_DOWNLOAD_QUEUE_KEY" "media_shuttle:task_download"

  unfoldable pub upload_queue_prefix : Text
  upload_queue_prefix = getenv_or "MEDIA_SHUTTLE_UPLOAD_QUEUE_KEY" "media_shuttle:task_upload"

  unfoldable pub worker_control_queue_prefix : Text
  worker_control_queue_prefix =
      getenv_or "MEDIA_SHUTTLE_WORKER_CONTROL_QUEUE_KEY" "media_shuttle:worker_control"

  unfoldable pub download_queue_for_site : Text → Text
  unfolding download_queue_prefix
  download_queue_for_site site =
      download_queue_prefix ++ (str "@" ++ upper (or_text site (str "GENERIC")))

  unfoldable pub upload_affinity_enabled : Bool
  upload_affinity_enabled = bool_env env (str "MEDIA_SHUTTLE_UPLOAD_AFFINITY") (str "1")

  -- Where the router sends an upload.
  unfoldable pub upload_queue_for_target : Text → Option Text → Text
  unfolding upload_queue_prefix upload_affinity_enabled normalize_owner_node
  upload_queue_for_target target owner_node =
      let suffix = upper (or_text target (str "RCLONE")) in
      let queue = upload_queue_prefix ++ (str "@" ++ suffix) in
      let owner = normalize_owner_node owner_node in
      if not (is_empty owner) && upload_affinity_enabled then queue ++ (str "@" ++ owner) else queue

  -- `[item.strip().upper() for item in raw.split(",") if item.strip()]`
  unfoldable pub csv_env : Text → Text → List Text
  unfolding strip_items
  csv_env name default = map upper (strip_items (split b',' (get_or (env.getenv name) default)))

  unfoldable pub generate_parse_queue_names : List Text
  unfolding retry_queue_key created_queue_key
  generate_parse_queue_names = retry_queue_key ∷ created_queue_key ∷ []

  unfoldable pub generate_download_queue_names : List Text
  unfolding csv_env download_queue_prefix
  generate_download_queue_names =
      map (λ site. download_queue_prefix ++ (str "@" ++ site))
        (csv_env (str "MEDIA_SHUTTLE_SITE_QUEUE_SUFFIXES")
          (join (str ",") default_site_queue_suffixes))

  unfoldable pub generate_upload_queue_names : List Text
  unfolding csv_env upload_queue_prefix upload_affinity_enabled resolve_owner_node
  generate_upload_queue_names =
      let targets = csv_env (str "MEDIA_SHUTTLE_UPLOAD_QUEUE_SUFFIXES") (str "RCLONE,TELEGRAM") in
      let queues = map (λ target. upload_queue_prefix ++ (str "@" ++ target)) targets in
      let owner = resolve_owner_node in
      let own =
        map (λ target. upload_queue_prefix ++ (str "@" ++ (target ++ (str "@" ++ owner))))
          targets in
      if upload_affinity_enabled && not (is_empty owner) then queues ++ own else queues

  unfoldable pub generate_control_queue_names : List Text
  unfolding worker_control_queue_prefix resolve_owner_node
  generate_control_queue_names =
      let prefix = worker_control_queue_prefix in
      let owner = resolve_owner_node in
      if is_empty owner then prefix ∷ [] else prefix ∷ (prefix ++ (str "@" ++ owner)) ∷ []

  -- The queues of a role, each once, in one text.
  unfoldable pub queues_of_role : Text → List Text
  unfolding generate_parse_queue_names generate_download_queue_names generate_upload_queue_names
      generate_control_queue_names text_eq
  queues_of_role role =
      if text_eq role (str "parse")
      then generate_parse_queue_names
      else if text_eq role (str "download")
      then generate_download_queue_names
      else if text_eq role (str "upload")
      then generate_upload_queue_names
      else if text_eq role (str "control")
      then generate_control_queue_names
      else generate_parse_queue_names
        ++ (generate_download_queue_names ++ generate_upload_queue_names)

  unfoldable pub generate_queue_names : Text → Text
  unfolding queues_of_role unique
  generate_queue_names worker_role =
      join (str ",") (unique (queues_of_role (lower (strip worker_role))))
