-- ===== src/Core/Downloads.antt =====
-- media-shuttle-core/core/providers/downloaders_sites/common.py and user_agents.py: where a download is put,
-- how it is fetched, and what is left when that fails.
pub mod Live
pub mod Builtin
use media_shuttle.Prelude.{
  ℕ, Bool, true, false, not, ◌++◌, ◌==◌, Option, none, some, List, [], ◌∷◌, take, length, get_or,
  if◌then◌else◌,
}
use media_shuttle.Py.Text.{Text, str, strip, strip_items, is_empty, or_text, grow}
use media_shuttle.Py.Dict
use media_shuttle.Py.Dict.{Dict}
use media_shuttle.Py.Exec.{Result, ok, Exec, pure, raise, ◌>>=◌, ◌>>◌, try_except}
use media_shuttle.Core.Env.{Env}
use media_shuttle.Core.Utils.{cleanup_local_download}
use media_shuttle.Core.Model.{ParsedSource, DownloadResult}

abbrev pub Headers : Type 0
Headers = Dict Text

-- What a request gives: the content, an answer with an error status, or no answer.
pub data Fetched : Type 0 where
  fetched : (content : List ℕ) → Fetched
  refused : (status : ℕ) (reason : Text) → Fetched
  broken : (reason : Text) → Fetched

-- What is on the disk after a request.
pub data Saved : Type 0 where
  saved : (size : ℕ) → Saved
  turned_away : (status : ℕ) (reason : Text) → Saved

-- What a download gives: a result, or the error status of the answer.
pub data Attempt : Type 0 where
  downloaded : DownloadResult → Attempt
  denied : (status : ℕ) (reason : Text) → Attempt

-- The disk, the network and Python's libraries.
pub record Machine (W : Type 0) : Type 0 where
  -- `Path(text).mkdir(parents=True, exist_ok=True)` and `str(Path(folder) / name)`
  pub mkdir : Text → Exec W (Unit {0})
  pub join_path : (folder name : Text) → Text
  pub write_bytes : Text → List ℕ → Exec W (Unit {0})
  pub encode : Text → List ℕ
  -- `hashlib.sha1(text.encode()).hexdigest()`
  pub sha1 : Text → Text
  -- `httpx.request("GET", url, headers)`, with `raise_for_status`
  pub http_get : (url : Text) → Headers → W → Fetched × W
  pub random_choice : List Text → W → Text × W
  -- the browsers that are named in user_agents.py
  pub default_user_agents : List Text

-- `raw.split("||")`
unfoldable pub split_bars : Text → List Text
split_bars [] = [] ∷ []
split_bars (c ∷ []) = (c ∷ []) ∷ []
split_bars (c ∷ d ∷ s) =
    let later = split_bars (d ∷ s) in
    let behind = split_bars s in
    if c == b'|' then (if d == b'|' then [] ∷ behind else grow c later) else grow c later

-- `file_name`, `site` and the place of a source, with what was downloaded.
unfoldable pub build_result : ParsedSource → Text → ℕ → Text → DownloadResult
build_result source output size source_url = record {
  site = source.site;
  source_url = or_text source_url source.download_url;
  local_path = output;
  size_bytes = size;
  file_name = source.file_name;
  remote_folder = source.remote_folder;
}

module _ {W : Type 0} (env : Env W) (machine : Machine W) where
  unfoldable pub env_user_agents : List Text
  unfolding split_bars strip_items strip
  env_user_agents =
      let raw = strip (get_or (env.getenv (str "MEDIA_SHUTTLE_USER_AGENTS")) []) in
      if is_empty raw then [] else strip_items (split_bars raw)

  abbrev or_default : List Text → List Text
  or_default [] = machine.default_user_agents
  or_default (agent ∷ agents) = agent ∷ agents

  unfoldable pub get_random_user_agent : Exec W Text
  unfolding env_user_agents strip
  get_random_user_agent w =
      let explicit = strip (get_or (env.getenv (str "MEDIA_SHUTTLE_USER_AGENT")) []) in
      let (agent, w') = machine.random_choice (or_default env_user_agents) w in
      if is_empty explicit then (ok agent, w') else (ok explicit, w)

  unfoldable pub with_random_user_agent : Headers → Exec W Headers
  unfolding get_random_user_agent
  with_random_user_agent headers =
      if is_empty (get_or (Dict.get (str "User-Agent") headers) [])
      then (do agent ← get_random_user_agent; pure (Dict.put (str "User-Agent") agent headers))
      else pure headers

  unfoldable pub download_dir : Exec W Text
  download_dir = do
    let path = get_or (env.getenv (str "MEDIA_SHUTTLE_DOWNLOAD_DIR")) (str "/tmp/media-shuttle")
    machine.mkdir path
    pure path

  unfoldable pub materialize_path : ParsedSource → Exec W Text
  unfolding download_dir
  materialize_path source = do
    folder ← download_dir
    let task_dir = machine.join_path folder (take 16 (machine.sha1 source.download_url))
    machine.mkdir task_dir
    pure (machine.join_path task_dir (str "tmp.part"))

  unfoldable pub write_mock_file : Text → ParsedSource → Exec W ℕ
  write_mock_file path source = do
    let payload =
        machine.encode
          (str "site=" ++ (source.site ++ (str ";url=" ++ (source.download_url ++ str "\n"))))
    machine.write_bytes path payload
    pure (length payload)

  -- `except Exception: cleanup_local_download(str(output)); raise`
  unfoldable pub clean_and_raise : {A : Type 0} → Text → Text → Exec W A
  clean_and_raise output reason = do cleanup_local_download env output; raise reason

  unfoldable pub download_mock : ParsedSource → Exec W DownloadResult
  unfolding materialize_path write_mock_file build_result clean_and_raise
  download_mock source = do
    output ← materialize_path source
    try_except (do size ← write_mock_file output source; pure (build_result source output size []))
        (clean_and_raise output)

  -- The rest of `http_download` after the request.
  unfoldable pub store : Text → Fetched → Exec W Saved
  store path (fetched content) = do machine.write_bytes path content; pure (saved (length content))
  store path (refused status reason) = pure (turned_away status reason)
  store path (broken reason) = raise reason

  unfoldable pub settle_attempt : ParsedSource → Text → Text → Saved → Exec W Attempt
  unfolding build_result
  settle_attempt source output url (saved size) =
      pure (downloaded (build_result source output size url))
  settle_attempt source output url (turned_away status reason) = do
    cleanup_local_download env output
    pure (denied status reason)

  -- `download_live_generic`, with the status of an `HTTPStatusError` kept.
  unfoldable pub attempt_download : ParsedSource → Headers → Text → Exec W Attempt
  unfolding materialize_path with_random_user_agent store settle_attempt clean_and_raise
  attempt_download source headers actual_url = do
    let url = or_text actual_url source.download_url
    output ← materialize_path source
    merged ← try_except (with_random_user_agent headers) (clean_and_raise output)
    answer ← λ w. (let (a, w') = machine.http_get url merged w in (ok a, w'))
    done ← try_except (store output answer) (clean_and_raise output)
    settle_attempt source output url done

  unfoldable pub or_raise : Attempt → Exec W DownloadResult
  or_raise (downloaded result) = pure result
  or_raise (denied status reason) = raise reason

  unfoldable pub download_live_generic : ParsedSource → Headers → Text → Exec W DownloadResult
  unfolding attempt_download or_raise
  download_live_generic source headers actual_url = do
    attempt ← attempt_download source headers actual_url
    or_raise attempt
