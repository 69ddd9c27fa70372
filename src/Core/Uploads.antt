-- ===== src/Core/Uploads.antt =====
-- media-shuttle-core/core/providers/uploaders_sites/common.py and rclone.py: names in the target, and the
-- uploads with rclone.
pub mod Telegram
pub mod Destinations
pub mod Clients
pub mod Builtin
use media_shuttle.Prelude.{
  ℕ, ℤ, Bool, true, false, not, ◌&&◌, ◌++◌, ◌==◌, Option, none, some, List, [], ◌∷◌, get_or,
  if◌then◌else◌,
}
use media_shuttle.Py.Text.{Text, str, text_eq, join, is_empty}
use media_shuttle.Py.Exec.{Result, Exec, pure, raise, ◌>>=◌, ◌>>◌}
use media_shuttle.Core.Env.{Env}
use media_shuttle.Core.Model.{DownloadResult, UploadResult}

-- The shell, and the date of the day as a text.
pub record Shell (W : Type 0) : Type 0 where
  pub today : W → Text
  -- `shutil.which(name) is not None`
  pub has_command : Text → W → Bool
  -- `subprocess.run(command, check=True)`
  pub run_command : List Text → Exec W (Unit {0})

-- `s.rstrip(c)` for one character `c`.
unfoldable pub rstrip_char : ℕ → Text → Text
rstrip_char c [] = []
rstrip_char c (a ∷ s) =
    let rest = rstrip_char c s in if is_empty rest && a == c then [] else a ∷ rest

abbrev pub folder_parts : Option Text → List Text
folder_parts none = []
folder_parts (some []) = []
folder_parts (some (c ∷ s)) = (c ∷ s) ∷ []

module _ {W : Type 0} (env : Env W) (shell : Shell W) where
  unfoldable pub build_remote_name : DownloadResult → W → Text
  unfolding text_eq
  build_remote_name download w =
      let use_date = get_or (env.getenv (str "MEDIA_SHUTTLE_USE_DATE_CATEGORY")) (str "0") in
      let dated = if text_eq use_date (str "1") then shell.today w ∷ [] else [] in
      join (str "/") (dated ++ (folder_parts download.remote_folder ++ download.file_name ∷ []))

  -- `f"{scheme}://{destination.rstrip('/')}/{remote_name}"`
  unfoldable pub location_of : Text → Text → Text → UploadResult
  unfolding rstrip_char
  location_of scheme destination remote_name = record {
    location = scheme ++ (str "://" ++ (rstrip_char b'/' destination ++ (str "/" ++ remote_name)));
  }

  unfoldable pub upload_rclone_mock : DownloadResult → Text → Exec W UploadResult
  unfolding build_remote_name location_of
  upload_rclone_mock download destination w =
      pure (location_of (str "rclone") destination (build_remote_name download w)) w

  unfoldable pub upload_rclone_live : DownloadResult → Text → Exec W UploadResult
  unfolding build_remote_name location_of
  upload_rclone_live download destination w =
      let remote_name = build_remote_name download w in
      let command =
        str "rclone"
        ∷ str "copyto"
        ∷ download.local_path
        ∷ (destination ++ (str ":" ++ remote_name))
        ∷ [] in
      if shell.has_command (str "rclone") w
      then (do shell.run_command command; pure (location_of (str "rclone") destination remote_name))
          w
      else raise (str "rclone CLI is required for RCLONE live upload but was not found in PATH") w

  unfoldable pub upload_telegram_mock : DownloadResult → Text → Exec W UploadResult
  unfolding build_remote_name location_of
  upload_telegram_mock download destination w =
      pure (location_of (str "telegram") destination (build_remote_name download w)) w
