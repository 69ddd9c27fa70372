-- ===== src/Core/Sites/Builtin.antt =====
-- media-shuttle-core/core/providers/parsers_builtin.py: the parsers that a registry starts with.
use media_shuttle.Prelude.{Bool, true, List, [], ◌∷◌, ◌++◌, if◌then◌else◌}
use media_shuttle.Py.Text.{Text, str, text_eq}
use media_shuttle.Py.Exec.{Exec, pure}
use media_shuttle.Core.Model.{ParsedSource}
use media_shuttle.Core.Registry.{Provider}
use media_shuttle.Core.Sites.{Address, Web, with_address}
use media_shuttle.Core.Sites.Match
use media_shuttle.Core.Sites.Mock.{
  gofile_sources, bunkr_sources, cyberdrop_sources, cyberfile_sources, filester_sources,
  pixeldrain_sources, gd_sources, saint_sources, transfer_sources, coomer_sources, ytdl_sources,
  generic_sources,
}
use media_shuttle.Core.Sites.Keyed.{mega_sources, turbo_sources, mediafire_sources}

abbrev pub ParseProvider : Type 0 → Type 0
ParseProvider W = Provider W Text Text (List ParsedSource)

abbrev pub Parser : Type 0 → Type 0
Parser W = Text → Exec W (List ParsedSource)

-- The parsers of live mode, which call the web sites.
pub record LiveParsers (W : Type 0) : Type 0 where
  pub gofile_live : Parser W
  pub bunkr_album_live : Parser W
  pub bunkr_live : Parser W
  pub cyberdrop_album_live : Parser W
  pub filester_live : Parser W
  pub mega_live : Parser W
  pub pixeldrain_live : Parser W
  pub mediafire_live : Parser W
  pub transfer_live : Parser W
  pub turbo_live : Parser W

module _ {W : Type 0} (web : Web) where
  unfoldable pub live_provider : Text → (Address → Bool) → Parser W → ParseProvider W
  live_provider name test parser = record {
    name = name;
    mode = str "live";
    matcher = with_address web test;
    action = parser;
  }

  unfoldable pub mock_provider :
      Text → (Address → Bool) → (Text → Address → List ParsedSource) → ParseProvider W
  mock_provider name test sources = record {
    name = name;
    mode = str "mock";
    matcher = with_address web test;
    action = λ url. with_address web (sources url) url;
  }

  unfoldable pub live_providers : LiveParsers W → List (ParseProvider W)
  unfolding live_provider Match.is_gofile Match.is_bunkr_album Match.is_bunkr
      Match.is_cyberdrop_album Match.is_filester Match.is_mega Match.is_pixeldrain
      Match.is_mediafire Match.is_transfer Match.is_turbo
  live_providers live =
      live_provider (str "gofile_live") Match.is_gofile live.gofile_live
      ∷ live_provider (str "bunkr_album_live") Match.is_bunkr_album live.bunkr_album_live
      ∷ live_provider (str "bunkr_live") Match.is_bunkr live.bunkr_live
      ∷ live_provider (str "cyberdrop_album_live") Match.is_cyberdrop_album
          live.cyberdrop_album_live
      ∷ live_provider (str "filester_live") Match.is_filester live.filester_live
      ∷ live_provider (str "mega_live") Match.is_mega live.mega_live
      ∷ live_provider (str "pixeldrain_live") Match.is_pixeldrain live.pixeldrain_live
      ∷ live_provider (str "mediafire_live") Match.is_mediafire live.mediafire_live
      ∷ live_provider (str "transfer_live") Match.is_transfer live.transfer_live
      ∷ live_provider (str "turbo_live") Match.is_turbo live.turbo_live
      ∷ []

  -- What takes every address.
  unfoldable pub generic_fallback : ParseProvider W
  unfolding generic_sources
  generic_fallback = record {
    name = str "generic_fallback";
    mode = str "all";
    matcher = λ url. pure true;
    action = λ url. with_address web (generic_sources url) url;
  }

  unfoldable pub mock_providers : List (ParseProvider W)
  unfolding mock_provider generic_fallback
  mock_providers =
      mock_provider (str "gofile") Match.is_gofile gofile_sources
      ∷ mock_provider (str "bunkr") Match.is_bunkr bunkr_sources
      ∷ mock_provider (str "cyberdrop") Match.is_cyberdrop cyberdrop_sources
      ∷ mock_provider (str "cyberfile") Match.is_cyberfile cyberfile_sources
      ∷ mock_provider (str "filester") Match.is_filester filester_sources
      ∷ mock_provider (str "pixeldrain") Match.is_pixeldrain pixeldrain_sources
      ∷ mock_provider (str "gd") Match.is_gd gd_sources
      ∷ mock_provider (str "mega") Match.is_mega mega_sources
      ∷ mock_provider (str "saint") Match.is_saint saint_sources
      ∷ mock_provider (str "transfer") Match.is_transfer transfer_sources
      ∷ mock_provider (str "turbo") Match.is_turbo (turbo_sources web)
      ∷ mock_provider (str "coomer") Match.is_coomer coomer_sources
      ∷ mock_provider (str "mediafire") Match.is_mediafire (mediafire_sources web)
      ∷ mock_provider (str "ytdl") Match.is_ytdl ytdl_sources
      ∷ mock_provider (str "direct_file") Match.is_direct_file generic_sources
      ∷ generic_fallback
      ∷ []

  unfoldable pub builtin_parse_providers : LiveParsers W → Text → List (ParseProvider W)
  unfolding live_providers mock_providers text_eq
  builtin_parse_providers live mode =
      if text_eq mode (str "live") then live_providers live ++ mock_providers else mock_providers
