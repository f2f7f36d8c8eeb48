-- ===== src/Transport/Ws/Message.antt =====
-- transport/ws/msg.go and isErrOk of transport/ws/transport.go.
use rtvbp_go.Common.{ℕ, Bool, true, false, Option, none, some, ◌==◌, if◌then◌else◌}
use rtvbp_go.Proto.Json.{Bytes}
use rtvbp_go.Proto.Errors.{Error, close_sent, net_closed, closed_pipe, is}

-- A message type of the WebSocket protocol.
pub data Kind : Type 0 where
  text binary close ping pong : Kind
  unknown : ℕ → Kind

-- isControl
unfoldable pub is_control : Kind → Bool
is_control close = true
is_control ping = true
is_control pong = true
is_control _ = false

-- The timeout is in milliseconds.
pub record WsMessage : Type 0 where
  pub mt : Kind
  pub payload : Bytes
  pub timeout : ℕ

-- wsMessage.controlTimeout
unfoldable pub control_timeout : WsMessage → ℕ
control_timeout m = if m.timeout == 0 then 1000 else m.timeout

-- isErrOk
unfoldable pub is_err_ok : Option Error → Bool
is_err_ok none = true
is_err_ok (some e) =
    if is close_sent e
    then true
    else if is net_closed e
    then true
    else if is closed_pipe e
    then true
    else false
