-- ===== src/Core/Uploads/Telegram.antt =====
-- media-shuttle-core/core/providers/uploaders_sites/telegram.py: the upload to a chat, with one client that
-- is kept between uploads and given up when its connection is lost.
use media_shuttle.Prelude.{
  ℕ, zero, suc, ℤ, Bool, true, false, not, ◌&&◌, ◌||◌, ◌++◌, Option, none, some, List, [], ◌∷◌,
  get_or, if◌then◌else◌,
}
use media_shuttle.Py.Text.{
  Text, str, text_eq, text_in, strip, strip_char, has_char, join, is_empty, or_text,
}
use media_shuttle.Py.Number.{parse_int, show_nat, show_int}
use media_shuttle.Py.Exec.{Result, ok, Exec, pure, raise, gets, ◌>>=◌, ◌>>◌, try_except}
use media_shuttle.Core.Env.{Env}
use media_shuttle.Core.Contracts.{from_result, guard, is_chat_id, is_chat_username}
use media_shuttle.Core.Model.{DownloadResult, UploadResult}

-- The message that Telegram gives back.
pub record Message : Type 0 where
  pub id : Option ℕ
  pub message_id : Option ℕ
  pub chat_id : Option ℤ

-- An exception is known by the names of the classes of its chain, its own first.
pub data Sending : Type 0 where
  sent : Message → Sending
  lost : (is_connection_error : Bool) (names : List Text) (reason : Text) → Sending

-- The library pyrogram, with clients of a type `K`.
pub record Pyrogram (K W : Type 0) : Type 0 where
  pub new_client : (session_name : Text) (api_id : ℤ) (api_hash bot_token workdir : Text) → Exec W K
  pub start : K → Exec W (Unit {0})
  pub stop : K → Exec W (Unit {0})
  pub send_document : K → (chat_id document : Text) (caption : Option Text) → W → Sending × W
  -- `template.format(...)` and `Path(text).is_file()`
  pub format : Text → List (Text × Text) → Result Text
  pub is_local_file : Text → W → Bool

-- The module's `_TELEGRAM_CLIENT`, with the world.
pub record Telegram (K W : Type 0) : Type 0 where
  pub client : Option K
  pub world : W

abbrev pub client_invalidation_error_names : List Text
client_invalidation_error_names =
    str "AuthKeyDuplicated"
    ∷ str "ConnectionError"
    ∷ str "ConnectionLost"
    ∷ str "ConnectionResetError"
    ∷ str "BrokenPipeError"
    ∷ str "ConnectionAbortedError"
    ∷ str "ConnectionRefusedError"
    ∷ str "NetworkError"
    ∷ str "TimeoutError"
    ∷ str "TransportError"
    ∷ []

-- The loop of `_should_invalidate_telegram_client` over the chain.
unfoldable pub should_invalidate : List Text → Bool
unfolding text_in
should_invalidate [] = false
should_invalidate (name ∷ names) =
    let later = should_invalidate names in
    if text_in name client_invalidation_error_names then true else later

-- `getattr(message, "id", None) or getattr(message, "message_id", None)`
unfoldable pub number_of_message : Message → Option ℕ
number_of_message message = elim message.id [
  | some n ↦ elim n [ zero ↦ message.message_id | suc m ↦ some (suc m) ]
  | none ↦ message.message_id
]

abbrev pub chat_shown : Option ℤ → Text → Text
chat_shown none chat_ref = chat_ref
chat_shown (some chat_id) chat_ref = show_int chat_id

-- `name` where the value is missing.
abbrev missing_name : Text → Text → List Text → List Text
missing_name name [] names = name ∷ names
missing_name name (c ∷ value) names = names

module _ {W : Type 0} (env : Env W) where
  unfoldable pub parse_telegram_destination : {S : Type 0} → Text → Exec S Text
  unfolding strip strip_char has_char text_eq is_chat_id is_chat_username
  parse_telegram_destination destination = do
    let raw = strip destination
    guard (not (is_empty raw)) (str "telegram destination is required")
    parsed ← from_result (env.urlsplit raw)
    guard (text_eq parsed.scheme (str "tg") && text_eq parsed.netloc (str "chat"))
        (str "telegram destination must use tg://chat/<chat_ref>")
    let chat_ref = strip (env.unquote (strip_char b'/' parsed.path))
    guard (not (is_empty chat_ref)) (str "telegram destination chat_ref is required")
    guard (not (has_char b'/' chat_ref)) (str "telegram destination must target a single chat")
    guard (is_chat_id env chat_ref || is_chat_username chat_ref)
        (str "telegram destination chat_ref must be @username or numeric chat id")
    pure chat_ref

  -- `_env`
  unfoldable pub env_or : Text → Text → Text
  unfolding strip
  env_or name fallback =
      or_text (strip (get_or (env.getenv name) [])) (strip (get_or (env.getenv fallback) []))

  integer_or_raise : {S : Type 0} → Option ℤ → Exec S ℤ
  integer_or_raise none = raise (str "MEDIA_SHUTTLE_TG_API_ID must be an integer")
  integer_or_raise (some n) = pure n

  unfoldable pub telegram_credentials : {S : Type 0} → Exec S (ℤ × Text × Text)
  unfolding env_or join parse_int integer_or_raise
  telegram_credentials = do
    let api_id_raw = env_or (str "MEDIA_SHUTTLE_TG_API_ID") (str "TELEGRAM_API_ID")
    let api_hash = env_or (str "MEDIA_SHUTTLE_TG_API_HASH") (str "TELEGRAM_API_HASH")
    let bot_token = env_or (str "MEDIA_SHUTTLE_TG_BOT_TOKEN") (str "TELEGRAM_BOT_TOKEN")
    let missing = missing_name (str "MEDIA_SHUTTLE_TG_API_ID") api_id_raw (
        missing_name (str "MEDIA_SHUTTLE_TG_API_HASH") api_hash
          (missing_name (str "MEDIA_SHUTTLE_TG_BOT_TOKEN") bot_token []))
    guard (is_empty (join (str ", ") missing))
        (str "telegram uploader requires env vars: " ++ join (str ", ") missing)
    api_id ← integer_or_raise (parse_int api_id_raw)
    pure (api_id, api_hash, bot_token)

  module _ {K : Type 0} (lib : Pyrogram K W) where
    -- An action on the world alone.
    abbrev pub in_world : {A : Type 0} → Exec W A → Exec (Telegram K W) A
    in_world action t = let (r, w) = action t.world in (r, record t { world = w })

    unfoldable pub build_caption : {S : Type 0} → DownloadResult → Exec S (Option Text)
    unfolding strip
    build_caption download =
        let template = strip (
          get_or (env.getenv (str "MEDIA_SHUTTLE_TG_UPLOAD_CAPTION_TEMPLATE"))
            (str "{file_name}")) in
        if is_empty template then pure none else (do
          caption ← from_result (
              lib.format template (
                (str "file_name", download.file_name)
                ∷ (str "site", download.site)
                ∷ (str "source_url", download.source_url)
                ∷ []))
          pure (some caption))

    unfoldable pub build_telegram_client : Exec (Telegram K W) K
    unfolding telegram_credentials strip
    build_telegram_client = do
      (api_id, api_hash, bot_token) ← telegram_credentials
      let session_name =
          or_text
            (strip (
              get_or (env.getenv (str "MEDIA_SHUTTLE_TG_SESSION_NAME"))
                (str "media-shuttle-core-uploader")))
            (str "media-shuttle-core-uploader")
      let workdir =
          or_text
            (strip
              (get_or (env.getenv (str "MEDIA_SHUTTLE_TG_WORKDIR")) (str "/tmp/media-shuttle-tg")))
            (str "/tmp/media-shuttle-tg")
      in_world (lib.new_client session_name api_id api_hash bot_token workdir)

    unfoldable pub keep_client : K → Exec (Telegram K W) K
    keep_client client t = (ok client, record t { client = some client })

    unfoldable pub get_telegram_client : Exec (Telegram K W) K
    unfolding build_telegram_client keep_client
    get_telegram_client t = elim t.client [
      | some client ↦ (ok client, t)
      | none ↦
          (do client ← build_telegram_client; in_world (lib.start client); keep_client client) t
    ]

    -- An exception of `stop` is dropped.
    unfoldable pub close_telegram_client : Exec (Telegram K W) (Unit {0})
    close_telegram_client t =
        let emptied = record t { client = none } in
        elim t.client [
          | none ↦ (ok tt, emptied)
          | some client ↦ try_except (in_world (lib.stop client)) (λ _. pure tt) emptied
        ]

    -- What is done with an answer of `send_document`.
    unfoldable pub settle_sending : Text → Sending → Exec (Telegram K W) UploadResult
    unfolding close_telegram_client should_invalidate number_of_message show_nat show_int
    settle_sending chat_ref (lost is_connection_error names reason) =
        if is_connection_error || should_invalidate names
        then (do close_telegram_client; raise reason)
        else raise reason
    settle_sending chat_ref (sent message) = elim (number_of_message message) [
      | none ↦ raise (str "telegram upload returned no message id")
      | some n ↦ pure (record {
        location =
            str "telegram://chat/"
            ++ (chat_shown message.chat_id chat_ref ++ (str "/message/" ++ show_nat n));
      })
    ]

    unfoldable pub upload_telegram_live : DownloadResult → Text → Exec (Telegram K W) UploadResult
    unfolding parse_telegram_destination get_telegram_client build_caption settle_sending
    upload_telegram_live download destination = do
      there ← gets (λ t. lib.is_local_file download.local_path t.world)
      guard there (str "downloaded file not found: " ++ download.local_path)
      chat_ref ← parse_telegram_destination destination
      client ← get_telegram_client
      caption ← build_caption download
      answer ← in_world (λ w.
          (let (a, w') = lib.send_document client chat_ref download.local_path caption w in
            (ok a, w')))
      settle_sending chat_ref answer
