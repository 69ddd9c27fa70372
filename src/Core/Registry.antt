-- ===== src/Core/Registry.antt =====
-- media-shuttle-core/core/providers/types.py and core/plugins/*.py: providers, which do the
-- work for the sites and targets, and the registries that choose one. A provider's functions may
-- use the world and may raise.
use media_shuttle.Prelude.{Bool, List, [], ◌∷◌, ◌++◌, keep_if, if◌then◌else◌}
use media_shuttle.Py.Text.{Text, str, text_in}
use media_shuttle.Py.Exec.{Exec, pure, raise, ◌>>=◌}
use media_shuttle.Core.Model.{ParsedSource, DownloadResult, UploadResult}

-- `matcher` looks at a `K`, `action` works on an `I` and gives an `O`.
pub record Provider (W K I O : Type 0) : Type 0 where
  pub name : Text
  pub mode : Text
  pub matcher : K → Exec W Bool
  pub action : I → Exec W O

pub record Registry (W K I O : Type 0) : Type 0 where
  pub mode : Text
  pub providers : List (Provider W K I O)

abbrev pub ParserRegistry : Type 0 → Type 0
ParserRegistry W = Registry W Text Text (List ParsedSource)

abbrev pub DownloaderRegistry : Type 0 → Type 0
DownloaderRegistry W = Registry W ParsedSource ParsedSource DownloadResult

abbrev pub UploaderRegistry : Type 0 → Type 0
UploaderRegistry W = Registry W Text (DownloadResult × Text) UploadResult

module _ {W K I O : Type 0} where
  unfoldable pub register_provider : Provider W K I O → Registry W K I O → Registry W K I O
  register_provider p r = record r { providers = r.providers ++ p ∷ [] }

  unfoldable pub register : Provider W K I O → Registry W K I O → Registry W K I O
  register p r = record r { providers = p ∷ r.providers }

  unfoldable pub is_active : Text → Provider W K I O → Bool
  unfolding text_in
  is_active mode p = text_in p.mode (str "all" ∷ mode ∷ [])

  unfoldable pub iter_active : Registry W K I O → List (Provider W K I O)
  unfolding is_active
  iter_active r = keep_if (is_active r.mode) r.providers

  -- The loop of `download` and of `upload`: the first provider that matches does the work.
  unfoldable pub first_match : Exec W O → K → I → List (Provider W K I O) → Exec W O
  first_match missing k i [] = missing
  first_match missing k i (p ∷ ps) =
      let rest = first_match missing k i ps in
      do matched ← p.matcher k; if matched then p.action i else rest

-- `if result: return result`, and on with the loop if not.
abbrev pub or_rest :
    {W : Type 0} → List ParsedSource → Exec W (List ParsedSource) → Exec W (List ParsedSource)
or_rest [] rest = rest
or_rest (s ∷ sources) rest = pure (s ∷ sources)

-- The loop of `parse`: an empty result lets the next provider try.
unfoldable pub parse_with :
    {W : Type 0}
    → Text
    → List (Provider W Text Text (List ParsedSource))
    → Exec W (List ParsedSource)
parse_with url [] = pure []
parse_with url (p ∷ ps) =
    let rest = parse_with url ps in
    do
      matched ← p.matcher url
      if matched then (do result ← p.action url; or_rest result rest) else rest

module _ {W : Type 0} where
  unfoldable pub parse : ParserRegistry W → Text → Exec W (List ParsedSource)
  unfolding parse_with iter_active
  parse r url = parse_with url (iter_active r)

  unfoldable pub download : DownloaderRegistry W → ParsedSource → Exec W DownloadResult
  unfolding first_match iter_active
  download r source =
      first_match (raise (str "no downloader provider matched site: " ++ source.site)) source source
        (iter_active r)

  unfoldable pub upload : UploaderRegistry W → Text → DownloadResult → Text → Exec W UploadResult
  unfolding first_match iter_active
  upload r target result destination =
      first_match (raise (str "unsupported target: " ++ target)) target (result, destination)
        (iter_active r)
