-- ===== src/Websocket.antt =====
-- What the crate reads of its websocket library (tungstenite): the errors, the messages, the URI of
-- a handshake request and its headers, by their names in lower case.
use ws2tcp_local_core.Base.{ℕ, List, Option}
use ws2tcp_local_core.Text.{Text, Bytes}

pub data IoKind : Type 0 where
  connection_reset connection_aborted unexpected_eof broken_pipe other_kind : IoKind

-- `http` is an answer with another status than the handshake asks for
pub data WsError : Type 0 where
  http : ℕ → WsError
  no_host_name connection_closed already_closed protocol other_error : WsError
  io : IoKind → WsError

pub data Message : Type 0 where
  binary text ping pong : Bytes → Message
  close frame : Message

pub record Uri : Type 0 where
  pub scheme_str : Option Text
  pub authority : Option Text
  pub host : Option Text
  pub port_u16 : Option ℕ
  pub path_and_query : Option Text

abbrev pub Headers : Type 0
Headers = List (Text × Text)

pub record Request : Type 0 where
  pub uri : Uri
  pub headers : Headers
