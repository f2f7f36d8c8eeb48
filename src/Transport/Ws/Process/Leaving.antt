-- ===== src/Transport/Ws/Process/Leaving.antt =====
-- transport/ws/transport.go: where a frame is between msgOutChan and the connection, and how the steps of
-- the sender move it.
use mathlib.Core.List.{append-nil, append_assoc}
use rtvbp_go.Common.{◌≤◌, List, [], ◌∷◌, ◌++◌, ◌≡◌, refl, sym, ◌∙◌, length, arith}
use rtvbp_go.Common.Act.{ok}
use rtvbp_go.Proto.Json.{Bytes}
use rtvbp_go.Transport.Interface.{DataPackage}
use rtvbp_go.Transport.Ws.Message.{WsMessage, text}
use rtvbp_go.Transport.Ws.Control.{
  ControlChannel, new_control_channel, write_in, write_out, receive, delivered,
}
use rtvbp_go.Transport.Ws.Control
use rtvbp_go.Transport.Ws.State.{
  WebsocketTransport, Sender, finished, out, pinging, sending, serving, with_out,
}
use rtvbp_go.Transport.Ws.Process.{ping_frame}

abbrev pub text_frame : Bytes → WsMessage
text_frame raw = record { mt = text; payload = raw; timeout = 0 }

-- What the sender has in its hands; at its end it may have lost one.
abbrev pub Holding : Sender → List WsMessage → Type 0
Holding (sending m) held = held ≡ m ∷ []
Holding finished held = length held ≤ 1
Holding _ held = held ≡ []

abbrev pub Sent : List WsMessage → WebsocketTransport → Type 0
Sent ps w = (held : List WsMessage) × Holding w.sender held × (w.wire ++ (held ++ out w) ≡ ps)

pub write_in-output :
    (p : DataPackage) (cc cc' : ControlChannel)
    → write_in p cc ≡ (ok tt, cc')
    → cc'.output ≡ cc.output
unfolding write_in
write_in-output p cc cc' h = ground arith

pub write_out-output :
    (raw : Bytes) (cc cc' : ControlChannel)
    → write_out raw cc ≡ (ok tt, cc')
    → cc'.output ≡ cc.output ++ text_frame raw ∷ []
unfolding write_out
write_out-output raw cc cc' h = ground arith

pub receive-output :
    (p : DataPackage) (cc cc' : ControlChannel)
    → receive cc ≡ (delivered p, cc')
    → cc'.output ≡ cc.output
unfolding receive
receive-output p cc cc' h = ground arith

pub close-output : (cc : ControlChannel) → (Control.close cc).1.output ≡ cc.output
unfolding Control.close
close-output cc = ground arith

moved : (s s' : Sender) (held : List WsMessage) → s ≡ s' → Holding s held → Holding s' held
moved s s' held e k = rw (← e) k

module _ (ps : List WsMessage) (w : WebsocketTransport) where
  pub same-Sent : Sent ps w → Sent (ps ++ []) w
  same-Sent (held, k, e) = (held, k, e ∙ sym (append-nil ps))

  pub same_output-Sent :
      (cc : ControlChannel)
      → cc.output ≡ out w
      → Sent ps w
      → Sent (ps ++ []) (record w { channel = cc })
  same_output-Sent cc o (held, k, e) = (held, k, simp (o, e, append-nil ps))

  pub put-Sent :
      (cc : ControlChannel) (m : WsMessage)
      → cc.output ≡ out w ++ m ∷ []
      → Sent ps w
      → Sent (ps ++ m ∷ []) (record w { channel = cc })
  put-Sent cc m o (held, k, e) = (held, k, rw (o, ← e) simp append_assoc)

  pub ping-Sent :
      w.sender ≡ pinging
      → Sent ps w
      → Sent
          (ps ++ ping_frame ∷ [])
          (record (with_out w (out w ++ ping_frame ∷ [])) { sender = serving })
  ping-Sent a (held, k, e) = (held, moved w.sender pinging held a k, rw (← e) simp append_assoc)

  pub take-Sent :
      (m : WsMessage) (rest : List WsMessage)
      → w.sender ≡ serving
      → out w ≡ m ∷ rest
      → Sent ps w
      → Sent (ps ++ []) (record (with_out w rest) { sender = sending m })
  take-Sent m rest a o (held, k, e) =
      let none_held : held ≡ [] = moved w.sender serving held a k in
      (m ∷ [], refl, simp (append-nil ps, ← e, o, none_held))

  pub done-Sent :
      (m : WsMessage)
      → w.sender ≡ sending m
      → Sent ps w
      → Sent (ps ++ []) (record w { sender = serving; wire = w.wire ++ m ∷ [] })
  done-Sent m a (held, k, e) =
      let one_held : held ≡ m ∷ [] = moved w.sender (sending m) held a k in
      ([], refl, simp (append-nil ps, ← e, one_held, append_assoc))

  pub fails-Sent :
      (m : WsMessage)
      → w.sender ≡ sending m
      → Sent ps w
      → Sent (ps ++ []) (record w { sender = finished })
  fails-Sent m a (held, k, e) =
      let one_held : held ≡ m ∷ [] = moved w.sender (sending m) held a k in
      (held, rw one_held (omega arith), e ∙ sym (append-nil ps))

  pub ends-Sent : w.sender ≡ serving → Sent ps w → Sent (ps ++ []) (record w { sender = finished })
  ends-Sent a (held, k, e) =
      let none_held : held ≡ [] = moved w.sender serving held a k in
      (held, rw none_held (omega arith), e ∙ sym (append-nil ps))

  pub tick-Sent : w.sender ≡ serving → Sent ps w → Sent (ps ++ []) (record w { sender = pinging })
  tick-Sent a (held, k, e) = (held, moved w.sender serving held a k, e ∙ sym (append-nil ps))
