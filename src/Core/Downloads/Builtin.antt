-- ===== src/Core/Downloads/Builtin.antt =====
-- media-shuttle-core/core/providers/downloaders_builtin.py: the downloaders that a registry starts with.
pub mod Mock
use media_shuttle.Prelude.{Bool, true, List, [], ◌∷◌, ◌++◌, Option, if◌then◌else◌}
use media_shuttle.Py.Text.{Text, str, text_eq}
use media_shuttle.Py.Exec.{Exec, pure}
use media_shuttle.Core.Env.{Env}
use media_shuttle.Core.Model.{ParsedSource, DownloadResult, SourceSite, site_value}
use media_shuttle.Core.Registry.{Provider}
use media_shuttle.Core.Downloads.{Machine, download_mock}
use media_shuttle.Core.Downloads.Live.{
  download_plain_live, download_referred_live, download_gofile_live, download_unsupported_live,
  download_refreshed_live, download_turbo_live, is_turbo_url, is_userstorage_url, is_mediafire_url,
}

abbrev pub DownloadProvider : Type 0 → Type 0
DownloadProvider W = Provider W ParsedSource ParsedSource DownloadResult

-- What calls the web sites beside the download itself.
pub record LiveSites (W : Type 0) : Type 0 where
  pub bunkr_live : ParsedSource → Exec W DownloadResult
  pub filester_live : ParsedSource → Exec W DownloadResult
  pub resolve_mega : ParsedSource → Exec W (Option ParsedSource)
  pub resolve_mediafire : ParsedSource → Exec W (Option ParsedSource)
  pub resolve_transfer : ParsedSource → Exec W (Option ParsedSource)
  pub resolve_turbo : ParsedSource → Exec W (Option ParsedSource)

-- `lambda source: source.site == SourceSite.….value`
unfoldable pub site_provider :
    {W : Type 0}
    → Text
    → Text
    → SourceSite
    → (ParsedSource → Exec W DownloadResult)
    → DownloadProvider W
unfolding text_eq site_value
site_provider name mode site downloader = record {
  name = name;
  mode = mode;
  matcher = λ source. pure (text_eq source.site (site_value site));
  action = downloader;
}

module _ {W : Type 0} (env : Env W) (machine : Machine W) where
  unfoldable pub live_downloaders : LiveSites W → List (DownloadProvider W)
  unfolding site_provider download_plain_live download_referred_live download_gofile_live
      download_unsupported_live download_refreshed_live download_turbo_live is_turbo_url
      is_userstorage_url is_mediafire_url
  live_downloaders live =
      site_provider (str "gofile_live") (str "live") SourceSite.gofile
        (download_gofile_live env machine)
      ∷ site_provider (str "bunkr_live") (str "live") SourceSite.bunkr (live.bunkr_live)
      ∷ site_provider (str "cyberdrop_live") (str "live") SourceSite.cyberdrop
          (download_referred_live env machine)
      ∷ site_provider (str "cyberfile_live") (str "live") SourceSite.cyberfile
          (download_referred_live env machine)
      ∷ site_provider (str "filester_live") (str "live") SourceSite.filester (live.filester_live)
      ∷ site_provider (str "pixeldrain_live") (str "live") SourceSite.pixeldrain
          (download_plain_live env machine)
      ∷ site_provider (str "gd_live") (str "live") SourceSite.gd (download_plain_live env machine)
      ∷ site_provider (str "mediafire_live") (str "live") SourceSite.mediafire (
          download_refreshed_live env machine (str "mediafire") is_mediafire_url
            live.resolve_mediafire)
      ∷ site_provider (str "saint_live") (str "live") SourceSite.saint
          (download_plain_live env machine)
      ∷ site_provider (str "transfer_live") (str "live") SourceSite.transferit (
          download_refreshed_live env machine (str "transfer.it") is_userstorage_url
            live.resolve_transfer)
      ∷ site_provider (str "turbo_live") (str "live") SourceSite.turbo
          (download_turbo_live env machine is_turbo_url live.resolve_turbo)
      ∷ site_provider (str "coomer_live") (str "live") SourceSite.coomer
          (download_plain_live env machine)
      ∷ site_provider (str "mega_live") (str "live") SourceSite.mega
          (download_refreshed_live env machine (str "mega") is_userstorage_url live.resolve_mega)
      ∷ site_provider (str "ytdl_live") (str "live") SourceSite.ytdl
          (download_unsupported_live env machine)
      ∷ []

  -- What takes every source.
  unfoldable pub generic_mock : DownloadProvider W
  unfolding download_mock
  generic_mock = record {
    name = str "generic_mock";
    mode = str "all";
    matcher = λ source. pure true;
    action = download_mock env machine;
  }

  unfoldable pub mock_downloaders : List (DownloadProvider W)
  unfolding site_provider generic_mock download_mock
  mock_downloaders =
      site_provider (str "gofile_mock") (str "mock") SourceSite.gofile (download_mock env machine)
      ∷ site_provider (str "bunkr_mock") (str "mock") SourceSite.bunkr (download_mock env machine)
      ∷ site_provider (str "cyberdrop_mock") (str "mock") SourceSite.cyberdrop
          (download_mock env machine)
      ∷ site_provider (str "cyberfile_mock") (str "mock") SourceSite.cyberfile
          (download_mock env machine)
      ∷ site_provider (str "filester_mock") (str "mock") SourceSite.filester
          (download_mock env machine)
      ∷ site_provider (str "pixeldrain_mock") (str "mock") SourceSite.pixeldrain
          (download_mock env machine)
      ∷ site_provider (str "gd_mock") (str "mock") SourceSite.gd (download_mock env machine)
      ∷ site_provider (str "mega_mock") (str "mock") SourceSite.mega (download_mock env machine)
      ∷ site_provider (str "saint_mock") (str "mock") SourceSite.saint (download_mock env machine)
      ∷ site_provider (str "transfer_mock") (str "mock") SourceSite.transferit
          (download_mock env machine)
      ∷ site_provider (str "turbo_mock") (str "mock") SourceSite.turbo (download_mock env machine)
      ∷ site_provider (str "coomer_mock") (str "mock") SourceSite.coomer (download_mock env machine)
      ∷ site_provider (str "mediafire_mock") (str "mock") SourceSite.mediafire
          (download_mock env machine)
      ∷ site_provider (str "ytdl_mock") (str "mock") SourceSite.ytdl (download_mock env machine)
      ∷ generic_mock
      ∷ []

  unfoldable pub builtin_download_providers : LiveSites W → Text → List (DownloadProvider W)
  unfolding live_downloaders mock_downloaders text_eq
  builtin_download_providers live mode =
      if text_eq mode (str "live")
      then live_downloaders live ++ mock_downloaders
      else mock_downloaders
