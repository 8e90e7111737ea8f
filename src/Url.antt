-- ===== src/Url.antt =====
-- What the crate reads of a parsed URL (`url::Url`). The parser is a library's, so it is a
-- parameter: a function from the text.
use ws2tcp_local_core.Base.{ℕ, Option}
use ws2tcp_local_core.Text.{Text}

pub record Url : Type 0 where
  pub scheme : Text
  pub username : Text
  pub password : Option Text
  pub host_str : Option Text
  pub port : Option ℕ
  pub port_or_known_default : Option ℕ
  pub path : Text
  pub query : Option Text
  pub fragment : Option Text
  pub as_str : Text

abbrev pub UrlParser : Type 0
UrlParser = Text → Option Url
