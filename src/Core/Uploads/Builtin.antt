-- ===== src/Core/Uploads/Builtin.antt =====
-- media-shuttle-core/core/providers/uploaders_builtin.py: the uploaders that a registry starts with.
use media_shuttle.Prelude.{List, [], ◌∷◌, ◌++◌, if◌then◌else◌}
use media_shuttle.Py.Text.{Text, str, text_eq}
use media_shuttle.Py.Exec.{Exec, pure}
use media_shuttle.Core.Env.{Env}
use media_shuttle.Core.Model.{DownloadResult, UploadResult}
use media_shuttle.Core.Registry.{Provider}
use media_shuttle.Core.Uploads.{Shell, upload_rclone_mock, upload_rclone_live, upload_telegram_mock}
use media_shuttle.Core.Uploads.Telegram.{Pyrogram, Telegram, in_world, upload_telegram_live}

abbrev pub UploadProvider : Type 0 → Type 0
UploadProvider W = Provider W Text (DownloadResult × Text) UploadResult

-- `lambda target: target == UploadTarget.….value`
unfoldable pub target_provider :
    {W : Type 0}
    → Text
    → Text
    → Text
    → (DownloadResult → Text → Exec W UploadResult)
    → UploadProvider W
unfolding text_eq
target_provider name mode value uploader = record {
  name = name;
  mode = mode;
  matcher = λ target. pure (text_eq target value);
  action = λ given. uploader given.0 given.1;
}

module _ {K W : Type 0} (env : Env W) (shell : Shell W) (lib : Pyrogram K W) where
  -- In the state of the Telegram upload.
  lifted :
      (DownloadResult → Text → Exec W UploadResult)
      → DownloadResult
      → Text
      → Exec (Telegram K W) UploadResult
  lifted uploader download destination = in_world env lib (uploader download destination)

  unfoldable pub live_uploaders : List (UploadProvider (Telegram K W))
  unfolding target_provider lifted upload_rclone_live upload_telegram_live
  live_uploaders =
      target_provider (str "rclone_live") (str "live") (str "RCLONE")
        (lifted (upload_rclone_live env shell))
      ∷ target_provider (str "telegram_live") (str "live") (str "TELEGRAM")
          (upload_telegram_live env lib)
      ∷ []

  unfoldable pub mock_uploaders : List (UploadProvider (Telegram K W))
  unfolding target_provider lifted upload_rclone_mock upload_telegram_mock
  mock_uploaders =
      target_provider (str "rclone_mock") (str "mock") (str "RCLONE")
        (lifted (upload_rclone_mock env shell))
      ∷ target_provider (str "telegram_mock") (str "mock") (str "TELEGRAM")
          (lifted (upload_telegram_mock env shell))
      ∷ []

  unfoldable pub builtin_upload_providers : Text → List (UploadProvider (Telegram K W))
  unfolding live_uploaders mock_uploaders text_eq
  builtin_upload_providers mode =
      if text_eq mode (str "live") then live_uploaders ++ mock_uploaders else mock_uploaders
