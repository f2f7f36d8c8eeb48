-- ===== src/Transport/Ws/State.antt =====
-- transport/ws/transport.go: WebsocketTransport with the places of the goroutines that process starts,
-- and newTransport. What the connection and the audio stream gave and took is kept in the state.
use rtvbp_go.Common.{Bool, true, false, ◌&&◌, List, [], Option, none, some}
use rtvbp_go.Proto.Json.{Bytes}
use rtvbp_go.Transport.Interface.{DataPackage}
use rtvbp_go.Transport.Ws.Message.{WsMessage}
use rtvbp_go.Transport.Ws.Control.{ControlChannel, new_control_channel}

-- The goroutine that reads the connection: in ReadMessage; sending a message to msgInChan; at its end.
pub data Reader : Type 0 where
  reading : Reader
  handing : WsMessage → Reader
  ended : Reader

-- The goroutine that takes from msgInChan: in its `select`; in writeIn, with the mutex; at its end.
pub data Processor : Type 0 where
  taking : Processor
  writing : DataPackage → Processor
  stopped : Processor

-- The goroutine that reads audio: in Read; in its `select` with what it read; at its end.
pub data Listener : Type 0 where
  listening : Listener
  offering : Bytes → Listener
  deaf : Listener

-- A call of Close: not made; before a round of drainOutgoingMessages; in sendMessage there; about to
-- send the close frame to msgOutChan; waiting for doneChan; returned, with nil or an error.
pub data Closing : Type 0 where
  idle draining : Closing
  draining_one : WsMessage → Closing
  pushing awaiting : Closing
  returned : Bool → Closing

-- The goroutine that sends: in its `select`; in sendMessage; sending a ping to msgOutChan; in its own
-- call of Close; at its end.
pub data Sender : Type 0 where
  serving : Sender
  sending : WsMessage → Sender
  pinging : Sender
  closing : Closing → Sender
  finished : Sender

-- The end of process: it waits; it has closed the connection; it has closed the control channel; it
-- has closed doneChan.
pub data Main : Type 0 where
  waits conn_closed channel_closed over : Main

-- `channel` is cc, whose output is msgOutChan. `writer` is a call of Write that holds the mutex.
-- `arrived` is what the connection gave, `delivered` what the session took from ReadChan, `wire` what
-- was sent, and `heard` what was written to the audio stream, oldest first.
pub record WebsocketTransport : Type 0 where
  pub channel : ControlChannel
  pub inbox : List WsMessage
  pub conn_open : Bool
  pub close_closed : Bool
  pub done : Bool
  pub ctx_done : Bool
  pub reader : Reader
  pub processor : Processor
  pub listener : Listener
  pub sender : Sender
  pub main : Main
  pub close_call : Closing
  pub writer : Option Bytes
  pub arrived : List WsMessage
  pub delivered : List DataPackage
  pub wire : List WsMessage
  pub heard : List Bytes

-- newTransport, and process when it has started its goroutines
unfoldable pub new_transport : WebsocketTransport
unfolding new_control_channel
new_transport = record {
  channel = new_control_channel [];
  inbox = [];
  conn_open = true;
  close_closed = false;
  done = false;
  ctx_done = false;
  reader = reading;
  processor = taking;
  listener = listening;
  sender = serving;
  main = waits;
  close_call = idle;
  writer = none;
  arrived = [];
  delivered = [];
  wire = [];
  heard = [];
}

abbrev pub out : WebsocketTransport → List WsMessage
out w = w.channel.output

abbrev pub with_out : WebsocketTransport → List WsMessage → WebsocketTransport
with_out w ms = record w { channel = record (w.channel) { output = ms } }

-- The mutex of the control channel is free.
abbrev pub no_writing : Processor → Bool
no_writing (writing p) = false
no_writing _ = true

abbrev pub no_writer : Option Bytes → Bool
no_writer none = true
no_writer (some raw) = false

abbrev pub unlocked : WebsocketTransport → Bool
unlocked w = no_writing w.processor && no_writer w.writer
