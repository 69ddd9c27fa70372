-- ===== src/Witness/Providers.antt =====
-- The theorems on the providers at the inputs of `Samples`.
use media_shuttle.Prelude.{ℕ, ◌≡◌, ◌↔◌, refl, false, some, none, List, [], ◌∷◌, All, inl, inr}
use media_shuttle.Py.Text.{Text, str, strip, text_eq, strip_char, has_char}
use media_shuttle.Py.Number.{parse_int, show_nat, show_int}
use media_shuttle.Py.Exec.{ok, err, ◌>>=◌}
use media_shuttle.Core.Model.{ParsedSource, UploadResult}
use media_shuttle.Core.Registry.{parse, download}
use media_shuttle.Core.Contracts.{validate_telegram_destination, is_chat_id, is_chat_username}
use media_shuttle.Core.Sites.Builtin.{builtin_parse_providers}
use media_shuttle.Core.Sites.Names.{IsSource}
use media_shuttle.Core.Sites.Parsed.{parse-IsSource}
use media_shuttle.Core.Downloads.{download_mock}
use media_shuttle.Core.Downloads.Builtin.{builtin_download_providers}
use media_shuttle.Core.Downloads.Builtin.Mock.{download-mock_lem}
use media_shuttle.Core.Uploads.Telegram.{
  Telegram, lost, settle_sending, parse_telegram_destination, get_telegram_client,
  upload_telegram_live, telegram_credentials, env_or, build_telegram_client, build_caption,
  keep_client, number_of_message,
}
use media_shuttle.Core.Uploads.Destinations.{parse_telegram_destination-agrees}
use media_shuttle.Core.Uploads.Clients.{IsLost, upload_telegram_live-get, settle_sending-empties}
use media_shuttle.Samples.{env, source, downloaded}
use media_shuttle.Samples.Providers.{
  web, page, live_parsers, machine, live_sites, pyrogram, telegram_env, idle,
}

parse-IsSource_example :
    (s : ParsedSource) × (rest : List ParsedSource) × (parse
        (record {
          mode = str "mock";
          providers = builtin_parse_providers web live_parsers (str "mock");
        })
        (str "https://GoFile.io/d/a b")
        4
      ≡ (ok (s ∷ rest), 4))
    × All (IsSource (str "https://GoFile.io/d/a b")) (s ∷ rest)
parse-IsSource_example = parse-IsSource web (str "https://GoFile.io/d/a b") page 4 refl live_parsers

download-mock_lem_example :
    download
      (record {
        mode = str "mock";
        providers = builtin_download_providers env machine live_sites (str "mock");
      })
      source
      4
    ≡ download_mock env machine source 4
download-mock_lem_example = download-mock_lem env machine live_sites source 4

plain_chat : strip (str "tg://chat/@channel") ≡ str "tg://chat/@channel"
unfolding strip
plain_chat = refl

parse_telegram_destination-agrees_example :
    ((validate_telegram_destination env {S = ℕ} (str "tg://chat/@channel") 4).0 ≡ ok tt) ↔ (
      (chat : Text) × ((parse_telegram_destination env {S = ℕ} (str "tg://chat/@channel") 4).0
        ≡ ok chat))
parse_telegram_destination-agrees_example =
    parse_telegram_destination-agrees env b't' (str "g://chat/@channel") 4 plain_chat

abbrev uploaded : UploadResult
uploaded = record { location = str "telegram://chat/5/message/9" }

upload_returns :
    (upload_telegram_live telegram_env pyrogram downloaded (str "tg://chat/@channel") idle).0
    ≡ ok uploaded
unfolding upload_telegram_live parse_telegram_destination get_telegram_client build_telegram_client
    telegram_credentials env_or parse_int build_caption keep_client settle_sending number_of_message
    show_nat show_int strip strip_char has_char text_eq is_chat_id is_chat_username ◌>>=◌
upload_returns = refl

upload_telegram_live-get_example :
    (client : ℕ) × (get_telegram_client telegram_env pyrogram
        (upload_telegram_live telegram_env pyrogram downloaded (str "tg://chat/@channel") idle).1
      ≡ (
        ok client,
        (upload_telegram_live telegram_env pyrogram downloaded (str "tg://chat/@channel") idle).1,
      ))
upload_telegram_live-get_example =
    upload_telegram_live-get telegram_env pyrogram downloaded (str "tg://chat/@channel") idle
      uploaded upload_returns

abbrev connected : Telegram ℕ ℕ
connected = record { client = some 7; world = 3 }

network-IsLost : IsLost env pyrogram false (str "RPCError" ∷ str "NetworkError" ∷ [])
network-IsLost =
    inr (str "NetworkError", inr (inl refl), inr (inr (inr (inr (inr (inr (inr (inl refl))))))))

settle_sending-empties_example :
    ((settle_sending env pyrogram
        (str "@channel")
        (lost false (str "RPCError" ∷ str "NetworkError" ∷ []) (str "gone"))
        connected).0
      ≡ err (str "gone"))
    × ((settle_sending env pyrogram
          (str "@channel")
          (lost false (str "RPCError" ∷ str "NetworkError" ∷ []) (str "gone"))
          connected).1.client
        ≡ none)
settle_sending-empties_example =
    settle_sending-empties env pyrogram (str "@channel") (str "gone") false
      (str "RPCError" ∷ str "NetworkError" ∷ []) connected network-IsLost
