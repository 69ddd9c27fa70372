-- ===== src/Core/Sites/Parsed.antt =====
-- What the parser registry makes of an address in mock mode.
use media_shuttle.Prelude.{◌≡◌, refl, Bool, true, false, if◌then◌else◌, List, [], ◌∷◌, All}
use media_shuttle.Py.Text.{Text, str, text_eq, text_in}
use media_shuttle.Py.Exec.{ok, ◌>>=◌}
use media_shuttle.Core.Model.{ParsedSource, SourceSite, end}
use media_shuttle.Core.Registry.{or_rest, parse, parse_with, iter_active, is_active}
use media_shuttle.Core.Sites.{Address, Web, with_address}
use media_shuttle.Core.Sites.Names.{
  IsSource, AllSources, gofile_lem, bunkr_lem, cyberdrop_lem, cyberfile_lem, filester_lem,
  pixeldrain_lem, gd_lem, mega_lem, saint_lem, transfer_lem, turbo_lem, coomer_lem, mediafire_lem,
  ytdl_lem, generic_lem,
}
use media_shuttle.Core.Sites.Common.{guess_filename_from_path}
use media_shuttle.Core.Sites.Mock.{page_source, or_none, generic_sources}
use media_shuttle.Core.Sites.Builtin.{
  ParseProvider, LiveParsers, mock_provider, generic_fallback, mock_providers,
  builtin_parse_providers,
}

module _ {W : Type 0} (web : Web) (url : Text) (a : Address) (w : W)
    (parsed : web.urlparse url ≡ ok a) where
  -- The loop of the registry gives at least one source, and only sources of the page.
  abbrev pub Finds : List (ParseProvider W) → Type 0
  Finds providers =
      (s : ParsedSource) × (rest : List ParsedSource) × (parse_with url providers w
        ≡ (ok (s ∷ rest), w))
      × All (IsSource url) (s ∷ rest)

  generic-Finds : Finds (generic_fallback web ∷ [])
  unfolding parse_with generic_fallback ◌>>=◌ generic_sources
  generic-Finds = (
    page_source SourceSite.generic url (guess_filename_from_path a (str "download.bin"))
        (or_none a.netloc) end,
    [],
    rw parsed refl,
    generic_lem url a,
  )

  -- A provider that gives some sources of the page is the end of the loop, and one that gives none
  -- leaves it to the others.
  mock-Finds :
      (name : Text) (test : Address → Bool) (sources : Text → Address → List ParsedSource)
      (providers : List (ParseProvider W))
      → AllSources sources
      → Finds providers
      → Finds (mock_provider web name test sources ∷ providers)
  unfolding parse_with mock_provider ◌>>=◌
  mock-Finds name test sources providers fine (s, rest, e, h) = rw parsed (chosen (test a))
    where
      found :
          (o : List ParsedSource)
          → All (IsSource url) o
          → (s' : ParsedSource) × (rest' : List ParsedSource) × (or_rest o
                (parse_with url providers)
                w
              ≡ (ok (s' ∷ rest'), w))
            × All (IsSource url) (s' ∷ rest')
      found [] all = (s, rest, e, h)
      found (s' ∷ rest') all = (s', rest', refl, all)

      chosen :
          (matched : Bool)
          → (s' : ParsedSource) × (rest' : List ParsedSource) × ((if matched
                  then (do
                    result ← with_address web (sources url) url
                    or_rest result (parse_with url providers))
                  else parse_with url providers)
                w
              ≡ (ok (s' ∷ rest'), w))
            × All (IsSource url) (s' ∷ rest')
      chosen false = (s, rest, e, h)
      chosen true = rw parsed (found (sources url a) (fine url a))

  mock_providers-Finds : Finds (mock_providers web)
  unfolding mock_providers
  mock_providers-Finds = mock-Finds _ _ _ _ gofile_lem (
      mock-Finds _ _ _ _ bunkr_lem (
        mock-Finds _ _ _ _ cyberdrop_lem (
          mock-Finds _ _ _ _ cyberfile_lem (
            mock-Finds _ _ _ _ filester_lem (
              mock-Finds _ _ _ _ pixeldrain_lem (
                mock-Finds _ _ _ _ gd_lem (
                  mock-Finds _ _ _ _ mega_lem (
                    mock-Finds _ _ _ _ saint_lem (
                      mock-Finds _ _ _ _ transfer_lem (
                        mock-Finds _ _ _ _ (turbo_lem web) (
                          mock-Finds _ _ _ _ coomer_lem (
                            mock-Finds _ _ _ _ (mediafire_lem web) (
                              mock-Finds _ _ _ _ ytdl_lem
                                (mock-Finds _ _ _ _ generic_lem generic-Finds))))))))))))))

  -- In mock mode every address that `urlparse` takes apart is parsed: the registry with its built-in
  -- parsers does not raise, leaves the world as it is and gives at least one source. Each source is
  -- of the page that was asked for and has a file name, which is made of letters, digits, dots,
  -- underscores and dashes but for three sites.
  pub parse-IsSource :
      (live : LiveParsers W)
      → (s : ParsedSource) × (rest : List ParsedSource) × (parse
            (record {
              mode = str "mock";
              providers = builtin_parse_providers web live (str "mock");
            })
            url
            w
          ≡ (ok (s ∷ rest), w))
        × All (IsSource url) (s ∷ rest)
  unfolding parse iter_active is_active builtin_parse_providers mock_providers mock_provider
      generic_fallback text_eq text_in
  parse-IsSource live = mock_providers-Finds
