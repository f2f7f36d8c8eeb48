-- ===== src/Transport/Ws/Control.antt =====
-- transport/ws/control.go: the control channel, between the socket and the session. `input` is the
-- channel that it owns, `output` the transport's channel of outgoing messages; both hold 16 at most.
pub mod Sound
use mathlib.Core.List.{append-nil, append_assoc}
use rtvbp_go.Common.{
  sym, ap, ◌∙◌, ℕ, zero, suc, ◌+◌, ◌≤◌, Bool, true, false, List, [], ◌∷◌, ◌++◌, ◌≡◌, refl, ◌≢◌,
  Option, none, some, arith, length, length-append, ltb, if◌then◌else◌,
}
use rtvbp_go.Common.Act.{Outcome, ok, err, panic, blocked, Act}
use rtvbp_go.Proto.Json.{Bytes}
use rtvbp_go.Proto.Errors.{Error, sentinel, closed_pipe, wrap, is}
use rtvbp_go.Transport.Interface.{DataPackage}
use rtvbp_go.Transport.Ws.Message.{Kind, text, WsMessage, is_err_ok}

-- `input_closed` says that the Go channel is closed; a send on it panics then, and so does a second
-- close. `once` says that closeOnce has run.
pub record ControlChannel : Type 0 where
  pub closed : Bool
  pub input : List DataPackage
  pub input_closed : Bool
  pub output : List WsMessage
  pub once : Bool

abbrev pub capacity : ℕ
capacity = 16

-- newControlChannel
unfoldable pub new_control_channel : List WsMessage → ControlChannel
new_control_channel output = record {
  closed = false;
  input = [];
  input_closed = false;
  output = output;
  once = false;
}

abbrev pub channel_closed : Error
channel_closed = wrap "control channel is closed" (sentinel closed_pipe)

-- controlChannel.writeIn
unfoldable pub write_in : DataPackage → Act Error ControlChannel (Unit {0})
write_in p cc =
    if cc.closed
    then (err channel_closed, cc)
    else if cc.input_closed
    then (panic, cc)
    else if ltb (length cc.input) capacity
    then (ok tt, record cc { input = cc.input ++ p ∷ [] })
    else (blocked, cc)

-- controlChannel.writeOut
unfoldable pub write_out : Bytes → Act Error ControlChannel (Unit {0})
write_out raw cc =
    if cc.closed
    then (err channel_closed, cc)
    else if ltb (length cc.output) capacity
    then (
      ok tt,
      record cc { output = cc.output ++ record { mt = text; payload = raw; timeout = 0 } ∷ [] },
    )
    else (blocked, cc)

-- controlChannel.close
unfoldable pub close : Act Error ControlChannel (Unit {0})
close cc =
    if cc.once
    then (ok tt, cc)
    else if cc.input_closed
    then (panic, record cc { once = true; closed = true })
    else (ok tt, record cc { once = true; closed = true; input_closed = true })

-- What a receive from readChan gives.
pub data Received : Type 0 where
  delivered : DataPackage → Received
  end_of_input wait : Received

abbrev receive_from : List DataPackage → ControlChannel → Received × ControlChannel
receive_from [] cc = (if cc.input_closed then end_of_input else wait, cc)
receive_from (p ∷ rest) cc = (delivered p, record cc { input = rest })

-- readChan, at one receive
unfoldable pub receive : ControlChannel → Received × ControlChannel
receive cc = receive_from cc.input cc
