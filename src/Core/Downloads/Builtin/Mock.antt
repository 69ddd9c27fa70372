-- ===== src/Core/Downloads/Builtin/Mock.antt =====
-- What the downloader registry does in mock mode.
use media_shuttle.Prelude.{◌≡◌, refl, Bool-cases, inl, inr, List, [], ◌∷◌, ◌++◌}
use media_shuttle.Py.Text.{Text, str, text_eq, text_in}
use media_shuttle.Py.Exec.{Exec, raise, ◌>>=◌}
use media_shuttle.Core.Env.{Env}
use media_shuttle.Core.Model.{ParsedSource, DownloadResult, SourceSite, site_value}
use media_shuttle.Core.Registry.{first_match, iter_active, is_active, download}
use media_shuttle.Core.Downloads.{Machine, download_mock}
use media_shuttle.Core.Downloads.Builtin.{
  DownloadProvider, LiveSites, site_provider, generic_mock, mock_downloaders,
  builtin_download_providers,
}

module _ {W : Type 0} (env : Env W) (machine : Machine W) (source : ParsedSource) (w : W)
    (missing : Exec W DownloadResult) where
  -- The loop of the registry comes to the download of mock mode.
  abbrev Mocks : List (DownloadProvider W) → Type 0
  Mocks providers =
      first_match missing source source providers w ≡ download_mock env machine source w

  site-Mocks :
      (name mode : Text) (site : SourceSite) (providers : List (DownloadProvider W))
      → Mocks providers
      → Mocks (site_provider name mode site (download_mock env machine) ∷ providers)
  unfolding first_match site_provider ◌>>=◌
  site-Mocks name mode site providers h =
      elim (Bool-cases (text_eq source.site (site_value site))) [
        | inl own ↦ rw own refl
        | inr other ↦ rw other h
      ]

  generic-Mocks : Mocks (generic_mock env machine ∷ [])
  unfolding first_match generic_mock ◌>>=◌
  generic-Mocks = refl

  mock_downloaders-Mocks : Mocks (mock_downloaders env machine)
  unfolding mock_downloaders
  mock_downloaders-Mocks =
      (site-Mocks _ _ SourceSite.gofile _ (
        site-Mocks _ _ SourceSite.bunkr _ (
          site-Mocks _ _ SourceSite.cyberdrop _ (
            site-Mocks _ _ SourceSite.cyberfile _ (
              site-Mocks _ _ SourceSite.filester _ (
                site-Mocks _ _ SourceSite.pixeldrain _ (
                  site-Mocks _ _ SourceSite.gd _ (
                    site-Mocks _ _ SourceSite.mega _ (
                      site-Mocks _ _ SourceSite.saint _ (
                        site-Mocks _ _ SourceSite.transferit _ (
                          site-Mocks _ _ SourceSite.turbo _ (
                            site-Mocks _ _ SourceSite.coomer _ (
                              site-Mocks _ _ SourceSite.mediafire _
                                (site-Mocks _ _ SourceSite.ytdl _ generic-Mocks))))))))))))))

module _ {W : Type 0} (env : Env W) (machine : Machine W) where
  -- In mock mode the registry with its built-in downloaders does the same with every source, of a
  -- site that it knows or not, whatever the downloaders of live mode are: it is the download of mock
  -- mode.
  pub download-mock_lem :
      (live : LiveSites W) (source : ParsedSource) (w : W)
      → download
          (record {
            mode = str "mock";
            providers = builtin_download_providers env machine live (str "mock");
          })
          source
          w
        ≡ download_mock env machine source w
  unfolding download iter_active is_active builtin_download_providers mock_downloaders site_provider
      generic_mock text_eq text_in
  download-mock_lem live source w =
      mock_downloaders-Mocks env machine source w
        (raise (str "no downloader provider matched site: " ++ source.site))
