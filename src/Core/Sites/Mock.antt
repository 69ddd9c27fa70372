-- ===== src/Core/Sites/Mock.antt =====
-- media-shuttle-core/core/providers/parsers_sites: what the parsers of mock mode make of an address, with
-- its text `url`.
use media_shuttle.Prelude.{false, ◌++◌, Option, none, some, List, [], ◌∷◌, get_or, if◌then◌else◌}
use media_shuttle.Py.Text.{Text, str, text_in, lower}
use media_shuttle.Py.Text.Search.{contains, last_or}
use media_shuttle.Core.Model.{
  ParsedSource, Fields, end, field, string, boolean, SourceSite, site_value,
}
use media_shuttle.Core.Sites.{Address}
use media_shuttle.Core.Sites.Common.{
  segments, safe_name, guess_filename_from_path, extract_drive_id,
}

-- `segs[-1] if segs else default`
unfoldable pub slug_or : Text → Address → Text
unfolding segments last_or
slug_or default a = last_or (segments a) default

-- `segs[1]` behind one of the given first segments, and else the last one.
unfoldable pub second_or_last : List Text → List Text → Text
unfolding text_in lower last_or
second_or_last marks [] = []
second_or_last marks (first ∷ []) = first
second_or_last marks (first ∷ second ∷ rest) =
    if text_in (lower first) marks then second else last_or rest second

-- `value or None`
abbrev pub or_none : Text → Option Text
or_none [] = none
or_none (c ∷ s) = some (c ∷ s)

-- A source whose page is what is downloaded.
unfoldable pub page_source : SourceSite → Text → Text → Option Text → Fields → ParsedSource
unfolding site_value
page_source site url file_name remote_folder metadata = record {
  site = site_value site;
  page_url = url;
  download_url = url;
  file_name = file_name;
  remote_folder = remote_folder;
  metadata = metadata;
}

-- `safe_name(f"{site}_{slug}.{ext}")`
unfoldable pub named : Text → Text → Text → Text
unfolding safe_name
named prefix slug suffix = safe_name (prefix ++ (slug ++ suffix)) (str "file.bin")

unfoldable pub gofile_sources : Text → Address → List ParsedSource
unfolding slug_or page_source named contains
gofile_sources url a =
    let resource_id = slug_or (str "unknown") a in
    let folder = if contains (str "/d/") a.path then some resource_id else none in
    page_source SourceSite.gofile url (named (str "gofile_") resource_id (str ".bin")) folder
      (field (str "resource_id") (string resource_id) end)
    ∷ []

unfoldable pub bunkr_sources : Text → Address → List ParsedSource
unfolding slug_or page_source safe_name
bunkr_sources url a =
    let slug = slug_or (str "unknown") a in
    page_source SourceSite.bunkr url (safe_name slug (str "bunkr_" ++ (slug ++ str ".mp4")))
      (some slug) (field (str "slug") (string slug) end)
    ∷ []

unfoldable pub cyberdrop_sources : Text → Address → List ParsedSource
unfolding slug_or page_source named
cyberdrop_sources url a =
    let slug = slug_or (str "unknown") a in
    page_source SourceSite.cyberdrop url (named (str "cyberdrop_") slug (str ".bin")) (some slug)
      end
    ∷ []

unfoldable pub cyberfile_sources : Text → Address → List ParsedSource
unfolding slug_or page_source named
cyberfile_sources url a =
    let slug = slug_or (str "unknown") a in
    page_source SourceSite.cyberfile url (named (str "cyberfile_") slug (str ".bin")) (some slug)
      end
    ∷ []

unfoldable pub saint_sources : Text → Address → List ParsedSource
unfolding slug_or page_source named
saint_sources url a =
    let slug = slug_or (str "unknown") a in
    page_source SourceSite.saint url (named (str "saint_") slug (str ".bin")) (some slug) end ∷ []

unfoldable pub coomer_sources : Text → Address → List ParsedSource
unfolding slug_or page_source named
coomer_sources url a =
    let slug = slug_or (str "unknown") a in
    page_source SourceSite.coomer url (named (str "coomer_") slug (str ".bin")) (some slug) end ∷ []

unfoldable pub ytdl_sources : Text → Address → List ParsedSource
unfolding slug_or page_source named
ytdl_sources url a =
    let slug = slug_or (str "video") a in
    page_source SourceSite.ytdl url (named (str "ytdl_") slug (str ".mp4")) (some slug) end ∷ []

unfoldable pub pixeldrain_sources : Text → Address → List ParsedSource
unfolding slug_or page_source named contains lower
pixeldrain_sources url a =
    let slug = slug_or (str "unknown") a in
    let origin = a.scheme ++ (str "://" ++ a.netloc) in
    let path = lower a.path in
    let download_url =
      if contains (str "/u/") path
      then origin ++ (str "/api/file/" ++ slug)
      else if contains (str "/l/") path
      then origin ++ (str "/api/list/" ++ slug)
      else url in
    let page =
      page_source SourceSite.pixeldrain url (named (str "pixeldrain_") slug (str ".bin"))
        (some slug) end in
    record page { download_url = download_url } ∷ []

-- The sources of a site that needs an identifier: none without one.
unfoldable pub with_id : (Text → ParsedSource) → Text → List ParsedSource
with_id source [] = []
with_id source (c ∷ id) = source (c ∷ id) ∷ []

unfoldable pub gd_source : Text → Text → ParsedSource
unfolding named page_source
gd_source url file_id =
    let page =
      page_source SourceSite.gd url (named (str "gd_") file_id (str ".bin")) (some file_id)
        (field (str "file_id") (string file_id) end) in
    record page {
      download_url =
          str "https://drive.usercontent.google.com/download?id="
          ++ (file_id ++ str "&export=download&authuser=0");
    }

unfoldable pub gd_sources : Text → Address → List ParsedSource
unfolding with_id gd_source extract_drive_id
gd_sources url a = with_id (gd_source url) (get_or (extract_drive_id url) [])

-- `{name: id, "resolved_live": False}`
abbrev pub unresolved : Text → Text → Fields
unresolved name id = field name (string id) (field (str "resolved_live") (boolean false) end)

unfoldable pub filester_source : Text → Text → ParsedSource
unfolding page_source named
filester_source url slug =
    page_source SourceSite.filester url (named (str "filester_") slug (str ".bin")) (some slug)
      (unresolved (str "file_slug") slug)

unfoldable pub filester_sources : Text → Address → List ParsedSource
unfolding with_id filester_source second_or_last segments
filester_sources url a =
    with_id (filester_source url) (second_or_last (str "d" ∷ str "v" ∷ []) (segments a))

unfoldable pub transfer_source : Text → Text → ParsedSource
unfolding page_source named
transfer_source url share_id =
    page_source SourceSite.transferit url (named (str "transfer_") share_id (str ".bin"))
      (some share_id) (unresolved (str "share_id") share_id)

unfoldable pub transfer_sources : Text → Address → List ParsedSource
unfolding with_id transfer_source second_or_last segments
transfer_sources url a = with_id (transfer_source url) (second_or_last (str "t" ∷ []) (segments a))

unfoldable pub generic_sources : Text → Address → List ParsedSource
unfolding page_source guess_filename_from_path
generic_sources url a =
    page_source SourceSite.generic url (guess_filename_from_path a (str "download.bin"))
      (or_none a.netloc) end
    ∷ []
