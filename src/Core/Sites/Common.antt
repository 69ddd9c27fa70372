-- ===== src/Core/Sites/Common.antt =====
-- media-shuttle-core/core/providers/parsers_sites/common.py, less the calls of web sites.
use media_shuttle.Prelude.{
  ℕ, Bool, true, false, ◌&&◌, ◌||◌, Option, none, some, List, [], ◌∷◌, ◌==◌, leb, length,
  if◌then◌else◌,
}
use media_shuttle.Py.Text.{Text, str, strip, lower, to_lower, is_empty, or_text, in_range, split}
use media_shuttle.Py.Text.Search.{
  after_prefix, ends_with, take_while, drop_while, last_or, filled_parts,
}
use media_shuttle.Core.Sites.{Address}

unfoldable pub host : Address → Text
unfolding lower
host a = lower a.netloc

unfoldable pub segments : Address → List Text
unfolding filled_parts split
segments a = filled_parts (split b'/' a.path)

-- `[A-Za-z0-9._-]`
unfoldable pub is_name_char : ℕ → Bool
is_name_char c =
    in_range b'A' b'Z' c
    || in_range b'a' b'z' c
    || in_range b'0' b'9' c
    || c == b'.'
    || c == b'_'
    || c == b'-'

-- `re.sub(r"[^A-Za-z0-9._-]+", "_", s)`: a run of other characters becomes one `_`; `in_run` says
-- that the character in front was one of a run.
unfoldable pub clean_runs : Bool → Text → Text
unfolding is_name_char
clean_runs in_run [] = []
clean_runs in_run (c ∷ s) =
    let kept = c ∷ clean_runs false s in
    let run = clean_runs true s in
    if is_name_char c then kept else if in_run then run else b'_' ∷ run

unfoldable pub safe_name : Text → Text → Text
unfolding clean_runs strip
safe_name name fallback = or_text (clean_runs false (strip name)) fallback

unfoldable pub guess_filename_from_path : Address → Text → Text
unfolding safe_name last_or split
guess_filename_from_path a fallback =
    let candidate = last_or (split b'/' a.path) [] in
    if is_empty candidate then fallback else safe_name candidate fallback

-- `any(path.endswith(ext) for ext in extensions)`
unfoldable pub ends_with_any : Text → List Text → Bool
unfolding ends_with
ends_with_any s [] = false
ends_with_any s (ext ∷ rest) =
    let later = ends_with_any s rest in if ends_with ext s then true else later

abbrev pub site_file_extensions : List Text
site_file_extensions =
    str ".mp4"
    ∷ str ".mov"
    ∷ str ".mkv"
    ∷ str ".avi"
    ∷ str ".webm"
    ∷ str ".jpg"
    ∷ str ".jpeg"
    ∷ str ".png"
    ∷ str ".gif"
    ∷ str ".zip"
    ∷ str ".rar"
    ∷ str ".7z"
    ∷ str ".tar"
    ∷ str ".gz"
    ∷ str ".pdf"
    ∷ str ".txt"
    ∷ str ".csv"
    ∷ []

unfoldable pub is_direct_file_url : Address → Bool
unfolding ends_with_any lower
is_direct_file_url a = ends_with_any (lower a.path) site_file_extensions

-- `[0-9A-Za-z_-]`
unfoldable pub is_id_char : ℕ → Bool
is_id_char c =
    in_range b'0' b'9' c || in_range b'A' b'Z' c || in_range b'a' b'z' c || c == b'_' || c == b'-'

-- `(?:/|$)` for the character `/`: `$` also stands in front of a last line break.
unfoldable pub ends_part : ℕ → Text → Bool
ends_part stop [] = true
ends_part stop (c ∷ []) = c == stop || c == 10
ends_part stop (c ∷ d ∷ s) = c == stop

-- The identifier that starts here, of ten characters or more; none of them is `stop`.
unfoldable pub id_here : ℕ → Option Text → Option Text
unfolding is_id_char ends_part take_while drop_while
id_here stop none = none
id_here stop (some s) =
    let run = take_while is_id_char s in
    if leb 10 (length run) && ends_part stop (drop_while is_id_char s) then some run else none

-- `pattern.search(url)`: the first place at which the prefix and an identifier stand.
unfoldable pub search_id : Text → ℕ → Text → Option Text
unfolding id_here after_prefix to_lower
search_id prefix stop [] = none
search_id prefix stop (c ∷ s) =
    let later = search_id prefix stop s in
    elim (id_here stop (after_prefix (λ p q. p == to_lower q) prefix (c ∷ s))) [
      | some found ↦ some found
      | none ↦ later
    ]

unfoldable pub extract_drive_id : Text → Option Text
unfolding search_id
extract_drive_id url = elim (search_id (str "/file/d/") b'/' url) [
  | some found ↦ some found
  | none ↦ elim (search_id (str "/folders/") b'/' url) [
    | some found ↦ some found
    | none ↦ search_id (str "id=") b'&' url
  ]
]
