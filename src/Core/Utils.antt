-- ===== src/Core/Utils.antt =====
-- media-shuttle-core/core/utils.py: the idempotency key, switches from the process environment,
-- and the removal of a local download after its upload.
pub mod Cleanup
use media_shuttle.Prelude.{
  Bool, true, false, not, ◌||◌, Option, none, some, List, [], ◌∷◌, ◌++◌, if◌then◌else◌, get_or,
}
use media_shuttle.Py.Text.{Text, str, text_eq, text_in, strip, lower, is_empty}
use media_shuttle.Py.Exec.{Result, ok, Exec, map_result, pure, gets, ◌>>=◌, ◌>>◌, try_except}
use media_shuttle.Core.Env.{Env, Url, FilePath}

-- `p.relative_to(root)` succeeds: `root` is `p` or a parent of it.
unfoldable pub same_path : FilePath → FilePath → Bool
unfolding text_eq
same_path [] [] = true
same_path [] (b ∷ q) = false
same_path (a ∷ p) [] = false
same_path (a ∷ p) (b ∷ q) = let rest = same_path p q in if text_eq a b then rest else false

unfoldable pub is_within : FilePath → FilePath → Bool
unfolding same_path
is_within root [] = same_path [] root
is_within root (a ∷ p) =
    let rest = is_within root p in if same_path (a ∷ p) root then true else rest

abbrev without_fragment : Url → Url
without_fragment parts = record parts { fragment = [] }

module _ {W : Type 0} (env : Env W) where
  unfoldable pub bool_env : Text → Text → Bool
  unfolding text_in
  bool_env name default = not (
      text_in (lower (strip (get_or (env.getenv name) default)))
        (str "" ∷ str "0" ∷ str "false" ∷ str "off" ∷ str "no" ∷ []))

  -- An `OSError` is dropped.
  rmdir_quietly : FilePath → Exec W (Unit {0})
  rmdir_quietly p = try_except (env.rmdir p) (λ _. pure tt)

  -- The first loop below a directory: files and links go.
  unlink_children : List FilePath → Exec W (Unit {0})
  unlink_children [] = pure tt
  unlink_children (child ∷ rest) =
      let later = unlink_children rest in
      do
        leaf ← gets (λ w. env.is_file child w || env.is_symlink child w)
        if leaf then (env.unlink child >> later) else later

  -- The second loop: the directories, the deepest first.
  rmdir_children : List FilePath → Exec W (Unit {0})
  unfolding rmdir_quietly
  rmdir_children [] = pure tt
  rmdir_children (child ∷ rest) =
      let later = rmdir_children rest in
      do folder ← gets (env.is_dir child); if folder then (rmdir_quietly child >> later) else later

  remove_folder : FilePath → Exec W Bool
  unfolding unlink_children rmdir_children
  remove_folder path = do
    children ← gets (env.rglob path)
    unlink_children children
    folders ← gets (env.rglob_sorted path)
    rmdir_children folders
    rmdir_quietly path
    pure true

  -- What `removed` is at the end of the second `try`.
  remove_path : FilePath → Exec W Bool
  unfolding remove_folder
  remove_path path = do
    leaf ← gets (λ w. env.is_file path w || env.is_symlink path w)
    folder ← gets (env.is_dir path)
    if leaf
        then (env.unlink path >> pure true)
        else if folder
        then remove_folder path
        else pure false

  -- The loop over the parents, `parent` given by its names. It stops at the root, outside of it,
  -- or where a folder cannot be removed.
  prune : FilePath → FilePath → Exec W (Unit {0})
  unfolding same_path is_within
  prune root [] = pure tt
  prune root (a ∷ p) =
      let up = prune root p in
      if same_path (a ∷ p) root || not (is_within root (a ∷ p))
      then pure tt
      else try_except (env.rmdir (a ∷ p) >> pure true) (λ _. pure false) >>= λ gone.
          if gone then up else pure tt

  parent : FilePath → FilePath
  parent [] = []
  parent (a ∷ p) = p

  -- The state of `removed` after the second `try`, if that did not return.
  finish_cleanup : FilePath → FilePath → Option Bool → Exec W Bool
  unfolding prune parent
  finish_cleanup root path none = pure false
  finish_cleanup root path (some removed) = do prune root (parent path); pure removed

  remove_and_prune : FilePath → FilePath → Exec W Bool
  unfolding remove_path finish_cleanup
  remove_and_prune root path = do
    removed ← try_except (remove_path path >>= λ r. pure (some r)) (λ _. pure none)
    finish_cleanup root path removed

  -- The first `try`: both paths resolve, and the path lies in the download folder.
  cleanup_resolved : Result FilePath → Result FilePath → Exec W Bool
  unfolding is_within remove_and_prune
  cleanup_resolved (ok root) (ok path) =
      if is_within root path then remove_and_prune root path else pure false
  cleanup_resolved _ _ = pure false

  abbrev download_root : Text
  download_root = get_or (env.getenv (str "MEDIA_SHUTTLE_DOWNLOAD_DIR")) (str "/tmp/media-shuttle")

  unfoldable pub cleanup_local_download : Text → Exec W Bool
  unfolding bool_env cleanup_resolved
  cleanup_local_download local_path = do
    let enabled = bool_env (str "MEDIA_SHUTTLE_CLEANUP_ON_UPLOAD_SUCCESS") (str "1")
    root ← gets (env.resolve download_root)
    path ← gets (env.resolve local_path)
    if not enabled || is_empty local_path then pure false else cleanup_resolved root path

  -- Python's split of an address may raise.
  unfoldable pub normalize_url : Text → Result Text
  normalize_url url =
      map_result (λ parts. env.urlunsplit (without_fragment parts)) (env.urlsplit (strip url))

  unfoldable pub make_idempotency_key : Text → Text → Result Text
  unfolding normalize_url
  make_idempotency_key url requester_id =
      map_result (λ normalized. env.sha256 (normalized ++ (str "::" ++ requester_id)))
        (normalize_url url)
