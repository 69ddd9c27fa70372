-- ===== src/Samples/Providers.antt =====
-- Inputs for the providers: one address, a disk that takes everything, and a client of Telegram.
use media_shuttle.Prelude.{ℕ, ◌+◌, true, none, some, [], ◌∷◌, ◌++◌, pos}
use media_shuttle.Py.Text.{str}
use media_shuttle.Py.Exec.{ok, pure}
use media_shuttle.Core.Sites.{Address, Web}
use media_shuttle.Core.Sites.Builtin.{LiveParsers}
use media_shuttle.Core.Downloads.{Machine, fetched}
use media_shuttle.Core.Downloads.Builtin.{LiveSites}
use media_shuttle.Core.Uploads.Telegram.{Pyrogram, Telegram, sent}
use media_shuttle.Core.Env.{Env}
use media_shuttle.Samples.{env, downloaded}

abbrev pub page : Address
page = record {
  scheme = str "https";
  netloc = str "GoFile.io";
  path = str "/d/a b";
  query = [];
  fragment = [];
}

abbrev pub web : Web
web = record { urlparse = λ url. ok page; unquote_plus = λ t. t; query_value = λ query name. [] }

abbrev pub live_parsers : LiveParsers ℕ
live_parsers = record {
  gofile_live = λ url. pure [];
  bunkr_album_live = λ url. pure [];
  bunkr_live = λ url. pure [];
  cyberdrop_album_live = λ url. pure [];
  filester_live = λ url. pure [];
  mega_live = λ url. pure [];
  pixeldrain_live = λ url. pure [];
  mediafire_live = λ url. pure [];
  transfer_live = λ url. pure [];
  turbo_live = λ url. pure [];
}

abbrev pub machine : Machine ℕ
machine = record {
  mkdir = λ path. pure tt;
  join_path = λ folder name. folder ++ (str "/" ++ name);
  write_bytes = λ path content w. (ok tt, w + 1);
  encode = λ t. t;
  sha1 = λ t. t;
  http_get = λ url headers w. (fetched (1 ∷ 2 ∷ []), w);
  random_choice = λ agents w. (str "agent", w);
  default_user_agents = str "agent" ∷ [];
}

abbrev pub live_sites : LiveSites ℕ
live_sites = record {
  bunkr_live = λ source. pure downloaded;
  filester_live = λ source. pure downloaded;
  resolve_mega = λ source. pure none;
  resolve_mediafire = λ source. pure none;
  resolve_transfer = λ source. pure none;
  resolve_turbo = λ source. pure none;
}

-- A client is the number of its start.
abbrev pub pyrogram : Pyrogram ℕ ℕ
pyrogram = record {
  new_client = λ session_name api_id api_hash bot_token workdir w. (ok w, w + 1);
  start = λ client. pure tt;
  stop = λ client. pure tt;
  send_document = λ client chat document caption w.
      (sent (record { id = some 9; message_id = none; chat_id = some (pos 5) }), w);
  format = λ template fields. ok template;
  is_local_file = λ path w. true;
}

-- The credentials of the upload are set.
abbrev pub telegram_env : Env ℕ
telegram_env = record env { getenv = λ name. some (str "12"); unquote = λ t. str "@channel" }

abbrev pub idle : Telegram ℕ ℕ
idle = record { client = none; world = 3 }
