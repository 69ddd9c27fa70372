-- ===== src/Core/Sites/Match.antt =====
-- media-shuttle-core/core/providers/parsers_sites: which addresses belong to a site.
use media_shuttle.Prelude.{Bool, ◌&&◌, ◌||◌}
use media_shuttle.Py.Text.{str, text_eq, lower}
use media_shuttle.Py.Text.Search.{contains, ends_with}
use media_shuttle.Core.Sites.{Address}
use media_shuttle.Core.Sites.Common.{host, is_direct_file_url}

unfoldable pub is_gofile : Address → Bool
unfolding host contains
is_gofile a = contains (str "gofile.io") (host a)

unfoldable pub is_bunkr : Address → Bool
unfolding host contains
is_bunkr a = contains (str "bunkr") (host a)

unfoldable pub is_cyberdrop : Address → Bool
unfolding host contains
is_cyberdrop a = contains (str "cyberdrop") (host a)

unfoldable pub is_cyberfile : Address → Bool
unfolding host contains
is_cyberfile a = contains (str "cyberfile.me") (host a)

unfoldable pub is_pixeldrain : Address → Bool
unfolding host contains
is_pixeldrain a = contains (str "pixeldrain.") (host a)

unfoldable pub is_gd : Address → Bool
unfolding host contains
is_gd a = contains (str "drive.google.com") (host a)

unfoldable pub is_mega : Address → Bool
unfolding host contains
is_mega a = contains (str "mega.nz") (host a)

unfoldable pub is_saint : Address → Bool
unfolding host contains
is_saint a = contains (str "saint.to") (host a)

unfoldable pub is_mediafire : Address → Bool
unfolding host contains
is_mediafire a = contains (str "mediafire.com") (host a)

unfoldable pub is_bunkr_album : Address → Bool
unfolding is_bunkr contains lower
is_bunkr_album a = is_bunkr a && contains (str "/a/") (lower a.path)

unfoldable pub is_cyberdrop_album : Address → Bool
unfolding is_cyberdrop contains lower
is_cyberdrop_album a = is_cyberdrop a && contains (str "/a/") (lower a.path)

unfoldable pub is_filester : Address → Bool
unfolding host text_eq ends_with
is_filester a = text_eq (host a) (str "filester.me") || ends_with (str ".filester.me") (host a)

unfoldable pub is_transfer : Address → Bool
unfolding host text_eq ends_with
is_transfer a = text_eq (host a) (str "transfer.it") || ends_with (str ".transfer.it") (host a)

unfoldable pub is_turbo : Address → Bool
unfolding host text_eq ends_with
is_turbo a =
    text_eq (host a) (str "turbo.cr")
    || ends_with (str ".turbo.cr") (host a)
    || ends_with (str ".turbocdn.st") (host a)

unfoldable pub is_coomer : Address → Bool
unfolding host contains
is_coomer a = contains (str "coomer") (host a) || contains (str "kemono") (host a)

unfoldable pub is_ytdl : Address → Bool
unfolding host contains
is_ytdl a =
    contains (str "youtube.com") (host a)
    || contains (str "youtu.be") (host a)
    || contains (str "vimeo.com") (host a)
    || contains (str "dailymotion.com") (host a)

unfoldable pub is_direct_file : Address → Bool
unfolding is_direct_file_url
is_direct_file a = is_direct_file_url a
