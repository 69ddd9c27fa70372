-- ===== src/Core/Sites.antt =====
-- media-shuttle-core/core/providers/parsers_sites/common.py: addresses and file names. The functions of
-- one address take its parts, which `urlparse` gives; it gives the same at every call.
pub mod Common
pub mod Match
pub mod Mock
pub mod Keyed
pub mod Builtin
pub mod Names
pub mod Parsed
use media_shuttle.Prelude.{ℕ}
use media_shuttle.Py.Text.{Text}
use media_shuttle.Py.Exec.{Result, Exec, map_result}

-- `urllib.parse.urlparse`, by components.
pub record Address : Type 0 where
  pub scheme : Text
  pub netloc : Text
  pub path : Text
  pub query : Text
  pub fragment : Text

-- Python's library for addresses.
pub record Web : Type 0 where
  pub urlparse : Text → Result Address
  pub unquote_plus : Text → Text
  -- `parse_qs(query).get(name, [""])[0]`
  pub query_value : (query name : Text) → Text

-- A function of an address, which raises where `urlparse` does.
abbrev pub with_address : {S A : Type 0} → Web → (Address → A) → Text → Exec S A
with_address web f url s = (map_result f (web.urlparse url), s)
