-- ===== src/Core/Sites/Keyed.antt =====
-- media-shuttle-core/core/providers/parsers_sites/turbo.py, mega.py and mediafire.py: the parsers of mock
-- mode, which look for an identifier in several places of an address.
use media_shuttle.Prelude.{not, ◌-◌, ◌++◌, some, List, [], ◌∷◌, if◌then◌else◌, length, take}
use media_shuttle.Py.Text.{
  Text, str, text_eq, text_in, lower, strip, is_empty, or_text, has_char, split,
}
use media_shuttle.Py.Text.Search.{ends_with, last_or, filled_parts}
use media_shuttle.Core.Model.{ParsedSource, end, field, string, boolean, SourceSite, site_value}
use media_shuttle.Core.Sites.{Address, Web}
use media_shuttle.Core.Sites.Common.{host, segments, safe_name, guess_filename_from_path}
use media_shuttle.Core.Sites.Mock.{second_or_last, page_source, named, with_id, unresolved, or_none}

-- `candidate[:-4] if candidate.endswith(".mp4") else candidate`
unfoldable pub without_mp4 : Text → Text
unfolding ends_with
without_mp4 candidate =
    if ends_with (str ".mp4") candidate then take (length candidate - 4) candidate else candidate

unfoldable pub turbo_slug : Web → Address → Text
unfolding host segments ends_with without_mp4 second_or_last strip last_or
turbo_slug web a =
    if ends_with (str ".turbocdn.st") (host a)
    then without_mp4 (last_or (segments a) [])
    else or_text (second_or_last (str "v" ∷ str "d" ∷ str "embed" ∷ []) (segments a))
        (strip (web.query_value a.query (str "v")))

unfoldable pub turbo_source : Text → Text → ParsedSource
unfolding page_source named
turbo_source url slug =
    page_source SourceSite.turbo url (named (str "turbo_") slug (str ".bin")) (some slug)
      (unresolved (str "slug") slug)

unfoldable pub turbo_sources : Web → Text → Address → List ParsedSource
unfolding with_id turbo_source turbo_slug
turbo_sources web url a = with_id (turbo_source url) (turbo_slug web a)

abbrev first_or_empty : List Text → Text
first_or_empty [] = []
first_or_empty (part ∷ parts) = part

-- The identifier in a fragment of the form `!id!key`.
unfoldable pub fragment_id : Text → Text
unfolding has_char filled_parts split
fragment_id fragment =
    if has_char b'!' fragment then first_or_empty (filled_parts (split b'!' fragment)) else []

unfoldable pub mega_extract_id : Address → Text
unfolding second_or_last segments fragment_id strip
mega_extract_id a =
    or_text (second_or_last (str "file" ∷ str "folder" ∷ []) (segments a))
      (fragment_id (strip a.fragment))

-- The source of a resource; `resolved_name` is what the site says, and empty in mock mode.
unfoldable pub mega_named_source : Text → Text → Text → Text → ParsedSource
unfolding site_value safe_name text_eq
mega_named_source page_url download_url resolved_name resource_id = record {
  site = site_value SourceSite.mega;
  page_url = page_url;
  download_url = download_url;
  file_name = safe_name resolved_name (str "mega_" ++ (resource_id ++ str ".bin"));
  remote_folder = some resource_id;
  metadata =
      field (str "resource_id") (string resource_id)
        (field (str "resolved_live") (boolean (not (text_eq download_url page_url))) end);
}

-- `parse_mega`, with `_mega_source` for a page that is its own download.
unfoldable pub mega_sources : Text → Address → List ParsedSource
unfolding with_id mega_named_source mega_extract_id
mega_sources url a =
    with_id (mega_named_source url url []) (or_text (mega_extract_id a) (mega_extract_id a))

unfoldable pub clean_name : Web → Text → Text
unfolding strip
clean_name web value = strip (web.unquote_plus value)

-- `(segs[-2], clean(segs[-1]))`
unfoldable pub last_two : Web → Text → Text → List Text → Text × Text
unfolding clean_name
last_two web first second [] = (first, clean_name web second)
last_two web first second (third ∷ rest) = last_two web second third rest

-- The identifier and the name in an address.
unfoldable pub parts_of : Web → Address → List Text → Text × Text
unfolding last_two guess_filename_from_path safe_name text_in lower clean_name
parts_of web a [] = ([], [])
parts_of web a (only ∷ []) = (
  only,
  guess_filename_from_path a
      (safe_name (str "mediafire_" ++ (only ++ str ".bin")) (str "file.bin")),
)
parts_of web a (first ∷ second ∷ []) = (first, clean_name web second)
parts_of web a (first ∷ second ∷ third ∷ rest) =
    if text_in (lower first) (str "file" ∷ str "view" ∷ [])
    then (second, clean_name web third)
    else last_two web second third rest

unfoldable pub mediafire_parts : Web → Address → Text × Text
unfolding parts_of segments
mediafire_parts web a = parts_of web a (segments a)

-- The parts of the download, and those of the page where the download has no identifier.
unfoldable pub mediafire_chosen : Web → Address → Address → Text × Text
unfolding mediafire_parts
mediafire_chosen web page download =
    let (id, name) = mediafire_parts web download in
    let (page_id, page_name) = mediafire_parts web page in
    if is_empty id then (page_id, or_text name page_name) else (id, name)

unfoldable pub mediafire_named_source : Text → Text → Text × Text → ParsedSource
unfolding site_value safe_name text_eq
mediafire_named_source page_url download_url (id, name) = record {
  site = site_value SourceSite.mediafire;
  page_url = page_url;
  download_url = download_url;
  file_name = safe_name name (str "mediafire_" ++ (or_text id (str "unknown") ++ str ".bin"));
  remote_folder = or_none id;
  metadata =
      field (str "resource_id") (string id)
        (field (str "resolved_live") (boolean (not (text_eq download_url page_url))) end);
}

-- `parse_mediafire`, with `_mediafire_source` for a page that is its own download.
unfoldable pub mediafire_sources : Web → Text → Address → List ParsedSource
unfolding mediafire_named_source mediafire_chosen
mediafire_sources web url a = mediafire_named_source url url (mediafire_chosen web a a) ∷ []
