-- ===== src/Core/Downloads/Live.antt =====
-- media-shuttle-core/core/providers/downloaders_sites: the downloads of live mode. An address that a site
-- gives out for a while is asked for again when it has expired.
use media_shuttle.Prelude.{
  ℕ, Bool, true, false, not, ◌&&◌, ◌||◌, ◌==◌, ◌++◌, Option, none, some, [], ◌∷◌, if◌then◌else◌,
  get_or,
}
use media_shuttle.Py.Text.{Text, str, is_empty, text_eq}
use media_shuttle.Py.Text.Search.{contains}
use media_shuttle.Py.Dict
use media_shuttle.Py.Exec.{Exec, pure, raise, ◌>>=◌}
use media_shuttle.Core.Env.{Env}
use media_shuttle.Core.Model.{ParsedSource, DownloadResult, Json, string, Fields, end, field}
use media_shuttle.Core.Downloads.{
  Headers, Attempt, downloaded, denied, Machine, with_random_user_agent, attempt_download,
  download_live_generic,
}

-- `metadata.get(name)`, where it is a text.
unfoldable pub text_field : Text → Fields → Option Text
unfolding text_eq
text_field name end = none
text_field name (field key (string t) rest) =
    let later = text_field name rest in if text_eq key name then some t else later
text_field name (field key value rest) =
    let later = text_field name rest in if text_eq key name then none else later

-- `target.update(fields)`: a key that is there gets the new value.
unfoldable pub set_field : Text → Json → Fields → Fields
unfolding text_eq
set_field key value end = field key value end
set_field key value (field k v rest) =
    let later = set_field key value rest in
    if text_eq k key then field k value rest else field k v later

unfoldable pub update_fields : Fields → Fields → Fields
unfolding set_field
update_fields target end = target
update_fields target (field key value rest) = update_fields (set_field key value target) rest

-- The answers that an expired address gets.
unfoldable pub is_expired : ℕ → Bool
is_expired status = status == 403 || status == 404

-- `source` with what was found anew.
unfoldable pub refreshed_with : ParsedSource → ParsedSource → ParsedSource
unfolding update_fields
refreshed_with source found = record source {
  download_url = found.download_url;
  file_name = found.file_name;
  remote_folder = found.remote_folder;
  metadata = update_fields source.metadata found.metadata;
}

module _ {W : Type 0} (env : Env W) (machine : Machine W) where
  referer_headers : ParsedSource → Headers
  referer_headers source = (str "Referer", source.page_url) ∷ []

  -- `download_coomer_live`, and those of gd, pixeldrain and saint
  unfoldable pub download_plain_live : ParsedSource → Exec W DownloadResult
  unfolding with_random_user_agent download_live_generic
  download_plain_live source = do
    headers ← with_random_user_agent env machine []
    download_live_generic env machine source headers []

  -- `download_cyberdrop_live` and `download_cyberfile_live`
  unfoldable pub download_referred_live : ParsedSource → Exec W DownloadResult
  unfolding with_random_user_agent download_live_generic referer_headers
  download_referred_live source = do
    headers ← with_random_user_agent env machine (referer_headers source)
    download_live_generic env machine source headers []

  with_cookie : Text → Headers → Headers
  with_cookie token headers =
      if is_empty token
      then headers
      else Dict.put (str "Cookie") (str "accountToken=" ++ token) headers

  unfoldable pub download_gofile_live : ParsedSource → Exec W DownloadResult
  unfolding with_random_user_agent download_live_generic text_field with_cookie
  download_gofile_live source = do
    headers ← with_random_user_agent env machine []
    let token = get_or (text_field (str "token") source.metadata) []
    download_live_generic env machine source (with_cookie token headers) []

  unfoldable pub download_unsupported_live : ParsedSource → Exec W DownloadResult
  download_unsupported_live source =
      raise (str "live downloader is not implemented for site: " ++ source.site)

  found_or_raise : Text → ParsedSource → Option ParsedSource → Exec W ParsedSource
  unfolding refreshed_with
  found_or_raise site source none =
      raise (str "failed to refresh " ++ (site ++ str " download url"))
  found_or_raise site source (some found) = pure (refreshed_with source found)

  -- `_mega_refresh_source`, and the same for the other sites: `resolve` asks the site.
  unfoldable pub refresh_source :
      Text
      → (Text → Bool)
      → (ParsedSource → Exec W (Option ParsedSource))
      → Bool
      → ParsedSource
      → Exec W ParsedSource
  unfolding found_or_raise
  refresh_source site looks_direct resolve force source =
      if not force && looks_direct source.download_url
      then pure source
      else do found ← resolve source; found_or_raise site source found

  -- The second attempt, after the address has expired; the source is the one that was refreshed.
  retry_if_expired : Attempt → Exec W DownloadResult → Exec W DownloadResult
  unfolding is_expired
  retry_if_expired (downloaded result) again = pure result
  retry_if_expired (denied status reason) again = if is_expired status then again else raise reason

  -- `download_mega_live`, `download_mediafire_live` and `download_transfer_live`
  unfoldable pub download_refreshed_live :
      Text
      → (Text → Bool)
      → (ParsedSource → Exec W (Option ParsedSource))
      → ParsedSource
      → Exec W DownloadResult
  unfolding refresh_source attempt_download retry_if_expired with_random_user_agent
      download_live_generic
  download_refreshed_live site looks_direct resolve source = do
    refreshed ← refresh_source site looks_direct resolve false source
    headers ← with_random_user_agent env machine []
    attempt ← attempt_download env machine refreshed headers refreshed.download_url
    retry_if_expired attempt (do
      retried ← refresh_source site looks_direct resolve true refreshed
      later_headers ← with_random_user_agent env machine []
      download_live_generic env machine retried later_headers retried.download_url)

  -- `download_turbo_live`: one set of headers for both attempts.
  unfoldable pub download_turbo_live :
      (Text → Bool)
      → (ParsedSource → Exec W (Option ParsedSource))
      → ParsedSource
      → Exec W DownloadResult
  unfolding refresh_source attempt_download retry_if_expired with_random_user_agent
      download_live_generic referer_headers
  download_turbo_live looks_direct resolve source = do
    refreshed ← refresh_source (str "turbo") looks_direct resolve false source
    headers ←
        with_random_user_agent env machine
          (referer_headers source ++ (str "Range", str "bytes=0-") ∷ [])
    attempt ← attempt_download env machine refreshed headers refreshed.download_url
    retry_if_expired attempt (do
      retried ← refresh_source (str "turbo") looks_direct resolve true refreshed
      download_live_generic env machine retried headers retried.download_url)

-- `_looks_like_turbo_direct_url`
unfoldable pub is_turbo_url : Text → Bool
unfolding contains
is_turbo_url url = contains (str ".turbocdn.st/data/") url

-- `_looks_like_mega_direct_url`, and the same for transfer.it
unfoldable pub is_userstorage_url : Text → Bool
unfolding contains
is_userstorage_url url = contains (str "userstorage.mega.co.nz/dl/") url

-- `_looks_like_mediafire_direct_url`
unfoldable pub is_mediafire_url : Text → Bool
unfolding contains
is_mediafire_url url = contains (str "://download") url && contains (str ".mediafire.com/") url
