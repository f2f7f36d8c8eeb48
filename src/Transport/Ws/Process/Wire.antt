-- ===== src/Transport/Ws/Process/Wire.antt =====
-- transport/ws/transport.go: which frames are sent on the connection, and in which order.
use mathlib.Core.List.{append_assoc}
use rtvbp_go.Common.{Bool, true, false, List, [], ◌∷◌, ◌++◌, ◌≡◌}
use rtvbp_go.Transport.Ws.Message.{WsMessage}
use rtvbp_go.Transport.Ws.Control.{ControlChannel, write_in, write_out, receive, delivered}
use rtvbp_go.Transport.Ws.Control
use rtvbp_go.Transport.Ws.State.{Closing, WebsocketTransport, Sender, closing, idle, out, sending}
use rtvbp_go.Transport.Ws.Process.{
  CloseStep, Step, Reach, audio_frame, ping_frame, trigger, drain, drain_sent, end_write, audio_put,
  send_done, ping_put, session_closes, here, next,
}
use rtvbp_go.Transport.Ws.Process.Leaving.{text_frame}

-- What a step puts into msgOutChan, apart from the calls of Close, and what a run has put there.
abbrev puts : {w u : WebsocketTransport} → Step w u → List WsMessage
puts (end_write {raw} a e) = text_frame raw ∷ []
puts (audio_put {raw} a r) = audio_frame raw ∷ []
puts (ping_put a r) = ping_frame ∷ []
puts _ = []

abbrev pub put : {l w : WebsocketTransport} → Reach l w → List WsMessage
put here = []
put (next r s) = put r ++ puts s

abbrev pub is_closing : Sender → Bool
is_closing (closing c) = true
is_closing _ = false

call_at :
    (w w' : WebsocketTransport) (c c' d : Closing)
    → c ≡ d
    → CloseStep w d w' c'
    → CloseStep w c w' c'
call_at w w' c c' d e s = rw e s

-- While the sender is in sendMessage with a message, Close can be called and send the next one first: if
-- the session has not called Close, doneChan and the connection are open and a message is in msgOutChan,
-- there are steps after which that one is on the wire, and the one that was put in before it comes
-- behind it.
pub close_overtakes :
    (w : WebsocketTransport) (earlier later : WsMessage) (rest : List WsMessage)
    → w.sender ≡ sending earlier
    → out w ≡ later ∷ rest
    → w.close_call ≡ idle
    → w.done ≡ false
    → w.conn_open ≡ true
    → (u : WebsocketTransport) × Reach w u × (u.wire ≡ w.wire ++ later ∷ earlier ∷ [])
close_overtakes w earlier later rest a o i d open_ = (
  _,
  next
      (next
        (next (next here (session_closes (call_at w _ w.close_call _ idle i (trigger d))))
          (session_closes (drain o)))
        (session_closes (drain_sent open_)))
      (send_done a open_),
  append_assoc w.wire (later ∷ []) (earlier ∷ []),
)
