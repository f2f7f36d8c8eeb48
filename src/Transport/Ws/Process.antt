-- ===== src/Transport/Ws/Process.antt =====
-- transport/ws/transport.go: WebsocketTransport, with the goroutines that process starts, the calls of
-- Write and Close, and the teardown, as interleaved steps. What the connection and the audio stream
-- do is chosen by the environment. A send on a channel that is full is a step that is not there yet;
-- a call that sends under the mutex of the control channel has a place of its own, at which it holds
-- the mutex.
pub mod Flowing
pub mod Incoming
pub mod Teardown
pub mod Progress
pub mod Stuck
pub mod Leaving
pub mod Wire
use rtvbp_go.Common.{
  ℕ, ◌<◌, Bool, true, false, ◌&&◌, List, [], ◌∷◌, ◌++◌, ◌≡◌, ◌≢◌, ◌⊎◌, Option, none, some, length,
}
use rtvbp_go.Common.Int.{ℤ}
use rtvbp_go.Common.Act.{Outcome, ok}
use rtvbp_go.Proto.Json.{Bytes, junk}
use rtvbp_go.Transport.Interface.{DataPackage}
use rtvbp_go.Transport.Ws.Message.{Kind, text, binary, ping, WsMessage}
use rtvbp_go.Transport.Ws.Message
use rtvbp_go.Transport.Ws.Control.{
  ControlChannel, capacity, new_control_channel, write_in, write_out, receive, delivered,
}
use rtvbp_go.Transport.Ws.Control
use rtvbp_go.Transport.Ws.State.{
  Closing, Listener, Main, Processor, Reader, Sender, WebsocketTransport, awaiting, channel_closed,
  closing, conn_closed, deaf, draining, draining_one, ended, finished, handing, idle, listening,
  new_transport, no_writer, no_writing, offering, out, over, pinging, pushing, reading, returned,
  sending, serving, stopped, taking, unlocked, waits, with_out, writing,
}

abbrev pub close_frame : WsMessage
close_frame = record { mt = Message.close; payload = junk "Closed"; timeout = 0 }

abbrev pub ping_frame : WsMessage
ping_frame = record { mt = ping; payload = junk ""; timeout = 1000 }

abbrev pub audio_frame : Bytes → WsMessage
audio_frame raw = record { mt = binary; payload = raw; timeout = 0 }

-- A call of Close at one of its places: what it does to the transport, and its next place. A message
-- that is sent on the open connection is on the wire.
pub data CloseStep (w : WebsocketTransport) : Closing → WebsocketTransport → Closing → Type 0 where
  too_late : w.done ≡ true → CloseStep w idle w (returned true)
  trigger : w.done ≡ false → CloseStep w idle (record w { close_closed = true }) draining
  drain :
      {m : WsMessage} {rest : List WsMessage}
      → out w ≡ m ∷ rest
      → CloseStep w draining (with_out w rest) (draining_one m)
  drained : out w ≡ [] → CloseStep w draining w pushing
  drain_sent :
      {m : WsMessage}
      → w.conn_open ≡ true
      → CloseStep w (draining_one m) (record w { wire = w.wire ++ m ∷ [] }) draining
  drain_failed : {m : WsMessage} → CloseStep w (draining_one m) w draining
  drain_over : {m : WsMessage} → CloseStep w (draining_one m) w pushing
  push :
      length (out w) < capacity
      → CloseStep w pushing (with_out w (out w ++ close_frame ∷ [])) awaiting
  see_done : w.done ≡ true → CloseStep w awaiting w (returned true)
  time_out : CloseStep w awaiting w (returned false)

pub data Step (w : WebsocketTransport) : WebsocketTransport → Type 0 where
  -- the context given to process ends
  cancel : Step w (record w { ctx_done = true })
  -- the reader
  arrive :
      (m : WsMessage)
      → w.reader ≡ reading
      → w.conn_open ≡ true
      → Step w (record w { reader = handing m; arrived = w.arrived ++ m ∷ [] })
  hand :
      {m : WsMessage}
      → w.reader ≡ handing m
      → length w.inbox < capacity
      → Step w (record w { reader = reading; inbox = w.inbox ++ m ∷ [] })
  read_fails : w.reader ≡ reading → Step w (record w { reader = ended; close_closed = true })
  -- the processor; `now` is the clock
  take_text :
      {m : WsMessage} {rest : List WsMessage} (now : ℤ)
      → w.processor ≡ taking
      → w.inbox ≡ m ∷ rest
      → m.mt ≡ text
      → unlocked w ≡ true
      → w.channel.closed ≡ false
      → Step w (record w {
        inbox = rest;
        processor = writing (record { data_bytes = m.payload; received_at = now });
      })
  put_in :
      {p : DataPackage} {cc : ControlChannel}
      → w.processor ≡ writing p
      → write_in p w.channel ≡ (ok tt, cc)
      → Step w (record w { processor = taking; channel = cc })
  take_text_closed :
      {m : WsMessage} {rest : List WsMessage}
      → w.processor ≡ taking
      → w.inbox ≡ m ∷ rest
      → m.mt ≡ text
      → unlocked w ≡ true
      → w.channel.closed ≡ true
      → Step w (record w { inbox = rest; processor = stopped })
  take_binary :
      {m : WsMessage} {rest : List WsMessage}
      → w.processor ≡ taking
      → w.inbox ≡ m ∷ rest
      → m.mt ≡ binary
      → Step w (record w { inbox = rest; heard = w.heard ++ m.payload ∷ [] })
  take_binary_fails :
      {m : WsMessage} {rest : List WsMessage}
      → w.processor ≡ taking
      → w.inbox ≡ m ∷ rest
      → m.mt ≡ binary
      → Step w (record w { inbox = rest; processor = stopped })
  take_other :
      {m : WsMessage} {rest : List WsMessage}
      → w.processor ≡ taking
      → w.inbox ≡ m ∷ rest
      → m.mt ≢ text
      → m.mt ≢ binary
      → Step w (record w { inbox = rest })
  stop_processing :
      w.processor ≡ taking
      → (w.done ≡ true) ⊎ (w.ctx_done ≡ true)
      → Step w (record w { processor = stopped })
  -- the session receives from ReadChan
  deliver :
      {p : DataPackage} {cc : ControlChannel}
      → receive w.channel ≡ (delivered p, cc)
      → Step w (record w { channel = cc; delivered = w.delivered ++ p ∷ [] })
  -- Write; a call on the closed channel fails, and is no step
  begin_write :
      (raw : Bytes)
      → unlocked w ≡ true
      → w.channel.closed ≡ false
      → Step w (record w { writer = some raw })
  end_write :
      {raw : Bytes} {cc : ControlChannel}
      → w.writer ≡ some raw
      → write_out raw w.channel ≡ (ok tt, cc)
      → Step w (record w { writer = none; channel = cc })
  -- the audio reader
  audio_read :
      (raw : Bytes) → w.listener ≡ listening → Step w (record w { listener = offering raw })
  audio_fails : w.listener ≡ listening → Step w (record w { listener = deaf })
  audio_put :
      {raw : Bytes}
      → w.listener ≡ offering raw
      → length (out w) < capacity
      → Step w (record (with_out w (out w ++ audio_frame raw ∷ [])) { listener = listening })
  audio_stops :
      {raw : Bytes}
      → w.listener ≡ offering raw
      → (w.done ≡ true) ⊎ (w.close_closed ≡ true)
      → Step w (record w { listener = deaf })
  -- the sender
  send_take :
      {m : WsMessage} {rest : List WsMessage}
      → w.sender ≡ serving
      → out w ≡ m ∷ rest
      → Step w (record (with_out w rest) { sender = sending m })
  send_done :
      {m : WsMessage}
      → w.sender ≡ sending m
      → w.conn_open ≡ true
      → Step w (record w { sender = serving; wire = w.wire ++ m ∷ [] })
  send_fails : {m : WsMessage} → w.sender ≡ sending m → Step w (record w { sender = finished })
  tick : w.sender ≡ serving → Step w (record w { sender = pinging })
  ping_put :
      w.sender ≡ pinging
      → length (out w) < capacity
      → Step w (record (with_out w (out w ++ ping_frame ∷ [])) { sender = serving })
  sender_ends : w.sender ≡ serving → w.done ≡ true → Step w (record w { sender = finished })
  sender_cancelled :
      w.sender ≡ serving → w.ctx_done ≡ true → Step w (record w { sender = closing idle })
  sender_closes :
      {c c' : Closing} {w' : WebsocketTransport}
      → w.sender ≡ closing c
      → CloseStep w c w' c'
      → Step w (record w' { sender = closing c' })
  -- Close, as the session calls it
  session_closes :
      {c' : Closing} {w' : WebsocketTransport}
      → CloseStep w w.close_call w' c'
      → Step w (record w' { close_call = c' })
  -- the end of process
  close_conn :
      w.main ≡ waits
      → (w.ctx_done ≡ true) ⊎ (w.close_closed ≡ true)
      → Step w (record w { main = conn_closed; conn_open = false })
  close_channel :
      w.main ≡ conn_closed
      → unlocked w ≡ true
      → Step w (record w { main = channel_closed; channel = (Control.close w.channel).1 })
  close_done : w.main ≡ channel_closed → Step w (record w { main = over; done = true })

pub data Reach (w : WebsocketTransport) : WebsocketTransport → Type 0 where
  here : Reach w w
  next : {v u : WebsocketTransport} → Reach w v → Step v u → Reach w u
