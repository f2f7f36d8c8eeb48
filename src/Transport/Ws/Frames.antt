-- ===== src/Transport/Ws/Frames.antt =====
-- transport/ws/transport.go: the handlers that newTransport sets for ping and pong frames. What WriteControl
-- gives is an argument, and so is Temporary of a net.Error.
use rtvbp_go.Common.{String, Bool, Option, none, some, if◌then◌else◌}
use rtvbp_go.Proto.Errors.{Error, close_sent, is}

module _ (is_temporary : Error → Bool) where
  abbrev unless_harmless : Option Error → Option Error
  unfolding is
  unless_harmless none = none
  unless_harmless (some e) =
      if is close_sent e then none else if is_temporary e then none else some e

  -- The function of SetPingHandler: it answers with a pong that has the message of the ping.
  unfoldable pub on_ping : (String → Option Error) → String → Option Error
  unfolding unless_harmless
  on_ping write_pong message = unless_harmless (write_pong message)

-- The function of SetPongHandler
unfoldable pub on_pong : String → Option Error
on_pong message = none
