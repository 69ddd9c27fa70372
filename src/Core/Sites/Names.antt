-- ===== src/Core/Sites/Names.antt =====
-- The file names that the parsers of mock mode choose.
use media_shuttle.Prelude.{
  ℕ, ◌≡◌, refl, ◌⊎◌, inl, inr, Bool, true, false, Bool-cases, Option, List, [], ◌∷◌, ◌++◌, All, In,
  all_of, if◌then◌else◌,
}
use media_shuttle.Py.Text.{Text, str, is_empty, or_text, strip, split}
use media_shuttle.Py.Text.Search.{last_or}
use media_shuttle.Core.Model.{ParsedSource, SourceSite, site_value, Fields}
use media_shuttle.Core.Sites.{Address, Web}
use media_shuttle.Core.Sites.Common.{is_name_char, clean_runs, safe_name, guess_filename_from_path}
use media_shuttle.Core.Sites.Mock.{
  page_source, named, with_id, gofile_sources, bunkr_sources, cyberdrop_sources, cyberfile_sources,
  saint_sources, coomer_sources, ytdl_sources, pixeldrain_sources, gd_source, gd_sources,
  filester_source, filester_sources, transfer_source, transfer_sources, generic_sources, slug_or,
}
use media_shuttle.Core.Sites.Keyed.{
  turbo_source, turbo_sources, mega_named_source, mega_sources, mediafire_named_source,
  mediafire_sources, mediafire_chosen,
}

-- A name of the characters that `safe_name` leaves.
abbrev pub IsClean : Text → Type 0
IsClean name = all_of is_name_char name ≡ true

-- The sites whose parsers fall back to a name that `safe_name` has not seen.
abbrev pub uncleaned : List Text
uncleaned =
    site_value SourceSite.bunkr ∷ site_value SourceSite.mega ∷ site_value SourceSite.mediafire ∷ []

-- A source of the page, with a file name, which is clean but for the sites whose fallback is not.
pub record IsSource (url : Text) (s : ParsedSource) : Type 0 where
  pub same_page : s.page_url ≡ url
  pub filled : is_empty s.file_name ≡ false
  pub clean : IsClean s.file_name ⊎ In s.site uncleaned

in_a_run :
    (in_run : Bool) (rest : Text) → IsClean rest → IsClean (if in_run then rest else b'_' ∷ rest)
unfolding is_name_char
in_a_run true rest clean = clean
in_a_run false rest clean = clean

kept_char : (c : ℕ) (rest : Text) → is_name_char c ≡ true → IsClean rest → IsClean (c ∷ rest)
kept_char c rest kept clean = rw (kept, all_of) clean

clean_runs-IsClean : (in_run : Bool) (s : Text) → IsClean (clean_runs in_run s)
unfolding clean_runs
clean_runs-IsClean in_run [] = refl
clean_runs-IsClean in_run (c ∷ s) = elim (Bool-cases (is_name_char c)) [
  | inl kept ↦ rw kept (kept_char c (clean_runs false s) kept (clean_runs-IsClean false s))
  | inr other ↦ rw other (in_a_run in_run (clean_runs true s) (clean_runs-IsClean true s))
]

or_text-IsClean : (s fallback : Text) → IsClean s → IsClean fallback → IsClean (or_text s fallback)
or_text-IsClean [] fallback clean other = other
or_text-IsClean (c ∷ s) fallback clean other = clean

or_text-filled :
    (s fallback : Text) → is_empty fallback ≡ false → is_empty (or_text s fallback) ≡ false
or_text-filled [] fallback filled = filled
or_text-filled (c ∷ s) fallback filled = refl

safe_name-IsClean : (name fallback : Text) → IsClean fallback → IsClean (safe_name name fallback)
unfolding safe_name
safe_name-IsClean name fallback clean =
    or_text-IsClean (clean_runs false (strip name)) fallback (clean_runs-IsClean false (strip name))
      clean

safe_name-filled :
    (name fallback : Text) → is_empty fallback ≡ false → is_empty (safe_name name fallback) ≡ false
unfolding safe_name
safe_name-filled name fallback filled =
    or_text-filled (clean_runs false (strip name)) fallback filled

named-IsClean : (prefix slug suffix : Text) → IsClean (named prefix slug suffix)
unfolding named is_name_char
named-IsClean prefix slug suffix =
    safe_name-IsClean (prefix ++ (slug ++ suffix)) (str "file.bin") refl

named-filled : (prefix slug suffix : Text) → is_empty (named prefix slug suffix) ≡ false
unfolding named
named-filled prefix slug suffix =
    safe_name-filled (prefix ++ (slug ++ suffix)) (str "file.bin") refl

guess-IsClean :
    (a : Address) (fallback : Text)
    → IsClean fallback
    → IsClean (guess_filename_from_path a fallback)
unfolding guess_filename_from_path
guess-IsClean a fallback clean = elim (Bool-cases (is_empty (last_or (split b'/' a.path) []))) [
  | inl none_there ↦ rw none_there clean
  | inr there ↦ rw there (safe_name-IsClean (last_or (split b'/' a.path) []) fallback clean)
]

guess-filled :
    (a : Address) (fallback : Text)
    → is_empty fallback ≡ false
    → is_empty (guess_filename_from_path a fallback) ≡ false
unfolding guess_filename_from_path
guess-filled a fallback filled = elim (Bool-cases (is_empty (last_or (split b'/' a.path) []))) [
  | inl none_there ↦ rw none_there filled
  | inr there ↦ rw there (safe_name-filled (last_or (split b'/' a.path) []) fallback filled)
]

-- A source with a name that `named` made.
named_page :
    (site : SourceSite) (url prefix slug suffix : Text) (folder : Option Text) (metadata : Fields)
    → IsSource url (page_source site url (named prefix slug suffix) folder metadata)
unfolding page_source
named_page site url prefix slug suffix folder metadata = record {
  same_page = refl;
  filled = named-filled prefix slug suffix;
  clean = inl (named-IsClean prefix slug suffix);
}

with_id-IsSource :
    (url : Text) (source : Text → ParsedSource) (id : Text)
    → ((i : Text) → IsSource url (source i))
    → All (IsSource url) (with_id source id)
unfolding with_id
with_id-IsSource url source [] h = tt
with_id-IsSource url source (c ∷ id) h = (h (c ∷ id), tt)

-- What holds of the sources that a parser makes of any address.
abbrev pub AllSources : (Text → Address → List ParsedSource) → Type 0
AllSources sources = (url : Text) (a : Address) → All (IsSource url) (sources url a)

pub gofile_lem : AllSources gofile_sources
unfolding gofile_sources
gofile_lem url a = (
  named_page SourceSite.gofile url (str "gofile_") (slug_or (str "unknown") a) (str ".bin") _ _,
  tt,
)

pub cyberdrop_lem : AllSources cyberdrop_sources
unfolding cyberdrop_sources
cyberdrop_lem url a = (
  named_page SourceSite.cyberdrop url (str "cyberdrop_") (slug_or (str "unknown") a) (str ".bin") _
      _,
  tt,
)

pub cyberfile_lem : AllSources cyberfile_sources
unfolding cyberfile_sources
cyberfile_lem url a = (
  named_page SourceSite.cyberfile url (str "cyberfile_") (slug_or (str "unknown") a) (str ".bin") _
      _,
  tt,
)

pub saint_lem : AllSources saint_sources
unfolding saint_sources
saint_lem url a = (
  named_page SourceSite.saint url (str "saint_") (slug_or (str "unknown") a) (str ".bin") _ _,
  tt,
)

pub coomer_lem : AllSources coomer_sources
unfolding coomer_sources
coomer_lem url a = (
  named_page SourceSite.coomer url (str "coomer_") (slug_or (str "unknown") a) (str ".bin") _ _,
  tt,
)

pub ytdl_lem : AllSources ytdl_sources
unfolding ytdl_sources
ytdl_lem url a =
    (named_page SourceSite.ytdl url (str "ytdl_") (slug_or (str "video") a) (str ".mp4") _ _, tt)

pub filester_lem : AllSources filester_sources
unfolding filester_sources filester_source
filester_lem url a =
    with_id-IsSource url (filester_source url) _
      (λ i. named_page SourceSite.filester url (str "filester_") i (str ".bin") _ _)

pub transfer_lem : AllSources transfer_sources
unfolding transfer_sources transfer_source
transfer_lem url a =
    with_id-IsSource url (transfer_source url) _
      (λ i. named_page SourceSite.transferit url (str "transfer_") i (str ".bin") _ _)

pub turbo_lem : (web : Web) → AllSources (turbo_sources web)
unfolding turbo_sources turbo_source
turbo_lem web url a =
    with_id-IsSource url (turbo_source url) _
      (λ i. named_page SourceSite.turbo url (str "turbo_") i (str ".bin") _ _)

gd_source-IsSource : (url id : Text) → IsSource url (gd_source url id)
unfolding gd_source page_source
gd_source-IsSource url id = record {
  same_page = refl;
  filled = named-filled (str "gd_") id (str ".bin");
  clean = inl (named-IsClean (str "gd_") id (str ".bin"));
}

pub gd_lem : AllSources gd_sources
unfolding gd_sources
gd_lem url a = with_id-IsSource url (gd_source url) _ (gd_source-IsSource url)

pub pixeldrain_lem : AllSources pixeldrain_sources
unfolding pixeldrain_sources page_source
pixeldrain_lem url a =
    let slug = slug_or (str "unknown") a in
    (
      record {
        same_page = refl;
        filled = named-filled (str "pixeldrain_") slug (str ".bin");
        clean = inl (named-IsClean (str "pixeldrain_") slug (str ".bin"));
      },
      tt,
    )

pub bunkr_lem : AllSources bunkr_sources
unfolding bunkr_sources page_source
bunkr_lem url a = (
  record {
    same_page = refl;
    filled =
        safe_name-filled (slug_or (str "unknown") a)
          (str "bunkr_" ++ (slug_or (str "unknown") a ++ str ".mp4")) refl;
    clean = inr (inl refl);
  },
  tt,
)

mega_page : (url id : Text) → IsSource url (mega_named_source url url [] id)
unfolding mega_named_source
mega_page url id = record {
  same_page = refl;
  filled = safe_name-filled [] (str "mega_" ++ (id ++ str ".bin")) refl;
  clean = inr (inr (inl refl));
}

pub mega_lem : AllSources mega_sources
unfolding mega_sources
mega_lem url a = with_id-IsSource url (mega_named_source url url []) _ (mega_page url)

pub mediafire_lem : (web : Web) → AllSources (mediafire_sources web)
unfolding mediafire_sources mediafire_named_source
mediafire_lem web url a =
    let chosen = mediafire_chosen web a a in
    (
      record {
        same_page = refl;
        filled =
            safe_name-filled chosen.1
              (str "mediafire_" ++ (or_text chosen.0 (str "unknown") ++ str ".bin")) refl;
        clean = inr (inr (inr (inl refl)));
      },
      tt,
    )

pub generic_lem : AllSources generic_sources
unfolding generic_sources page_source is_name_char
generic_lem url a = (
  record {
    same_page = refl;
    filled = guess-filled a (str "download.bin") refl;
    clean = inl (guess-IsClean a (str "download.bin") refl);
  },
  tt,
)
