-- ===== src/Transport/Ws/Process/Incoming.antt =====
-- transport/ws/transport.go: the way of a text frame from the connection to the session.
use rtvbp_go.Common.{List, [], ◌∷◌, ◌++◌, ◌≡◌, refl, arith}
use rtvbp_go.Common.Act.{ok}
use rtvbp_go.Proto.Json.{Bytes}
use rtvbp_go.Transport.Interface.{DataPackage}
use rtvbp_go.Transport.Ws.Control.{
  ControlChannel, capacity, new_control_channel, write_in, write_out, receive, delivered, Received,
}
use rtvbp_go.Transport.Ws.Control
use rtvbp_go.Transport.Ws.State.{WebsocketTransport, new_transport, Closing}
use rtvbp_go.Transport.Ws.Process.{
  CloseStep, Step, Reach, too_late, trigger, drain, drained, drain_sent, drain_failed, drain_over,
  push, see_done, time_out, cancel, arrive, hand, read_fails, take_text, put_in, take_text_closed,
  take_binary, take_binary_fails, take_other, stop_processing, deliver, begin_write, end_write,
  audio_read, audio_fails, audio_put, audio_stops, send_take, send_done, send_fails, tick, ping_put,
  sender_ends, sender_cancelled, sender_closes, session_closes, close_conn, close_channel,
  close_done, here, next,
}
use rtvbp_go.Transport.Ws.Process.Flowing.{
  texts, payloads, IsFlowing, arrive-IsFlowing, hand-IsFlowing, take_text-IsFlowing,
  take_text_closed-IsFlowing, take_other-IsFlowing, stop-IsFlowing, put_in-IsFlowing,
  deliver-IsFlowing, read_fails-IsFlowing, same_input-IsFlowing,
}

CloseStep-same :
    {w w' : WebsocketTransport} {c c' : Closing} → CloseStep w c w' c' → IsFlowing w → IsFlowing w'
CloseStep-same (too_late d) v = v
CloseStep-same (trigger d) v = v
CloseStep-same (drain e) v = v
CloseStep-same (drained e) v = v
CloseStep-same (drain_sent o) v = v
CloseStep-same drain_failed v = v
CloseStep-same drain_over v = v
CloseStep-same (push r) v = v
CloseStep-same (see_done d) v = v
CloseStep-same time_out v = v

write_in-input :
    (p : DataPackage) (cc cc' : ControlChannel)
    → write_in p cc ≡ (ok tt, cc')
    → cc'.input ≡ cc.input ++ p ∷ []
unfolding write_in
write_in-input p cc cc' h = ground arith

write_out-input :
    (raw : Bytes) (cc cc' : ControlChannel) → write_out raw cc ≡ (ok tt, cc') → cc'.input ≡ cc.input
unfolding write_out
write_out-input raw cc cc' h = ground arith

receive-input :
    (p : DataPackage) (cc cc' : ControlChannel)
    → receive cc ≡ (delivered p, cc')
    → cc.input ≡ p ∷ cc'.input
unfolding receive
receive-input p cc cc' h = ground arith

close-input : (cc : ControlChannel) → (Control.close cc).1.input ≡ cc.input
unfolding Control.close
close-input cc = ground arith

Step-IsFlowing : {w u : WebsocketTransport} → Step w u → IsFlowing w → IsFlowing u
Step-IsFlowing cancel v = v
Step-IsFlowing {w} (arrive m a o) v = arrive-IsFlowing w m a v
Step-IsFlowing {w} (hand {m} a r) v = hand-IsFlowing w m a v
Step-IsFlowing {w} (read_fails a) v = read_fails-IsFlowing w a v
Step-IsFlowing {w} (take_text {m} {rest} now a b t o c) v =
    take_text-IsFlowing w m rest (record { data_bytes = m.payload; received_at = now }) a b t refl v
Step-IsFlowing {w} (put_in {p} {cc} a e) v =
    put_in-IsFlowing w p cc a (write_in-input p w.channel cc e) v
Step-IsFlowing {w} (take_text_closed {m} {rest} a b t o c) v =
    take_text_closed-IsFlowing w m rest a b t v
Step-IsFlowing {w} (take_binary {m} {rest} a b t) v = take_other-IsFlowing w m rest b (λ x. cc) v
Step-IsFlowing {w} (take_binary_fails {m} {rest} a b t) v =
    stop-IsFlowing (record w { inbox = rest }) a (take_other-IsFlowing w m rest b (λ x. cc) v)
Step-IsFlowing {w} (take_other {m} {rest} a b t n) v = take_other-IsFlowing w m rest b t v
Step-IsFlowing {w} (stop_processing a b) v = stop-IsFlowing w a v
Step-IsFlowing {w} (deliver {p} {cc} e) v =
    deliver-IsFlowing w p cc (receive-input p w.channel cc e) v
Step-IsFlowing (begin_write raw o c) v = v
Step-IsFlowing {w} (end_write {raw} {cc} a e) v =
    same_input-IsFlowing w cc (write_out-input raw w.channel cc e) v
Step-IsFlowing (audio_read raw a) v = v
Step-IsFlowing (audio_fails a) v = v
Step-IsFlowing (audio_put a r) v = v
Step-IsFlowing (audio_stops a b) v = v
Step-IsFlowing (send_take a b) v = v
Step-IsFlowing (send_done a o) v = v
Step-IsFlowing (send_fails a) v = v
Step-IsFlowing (tick a) v = v
Step-IsFlowing (ping_put a r) v = v
Step-IsFlowing (sender_ends a d) v = v
Step-IsFlowing (sender_cancelled a d) v = v
Step-IsFlowing (sender_closes a s) v = CloseStep-same s v
Step-IsFlowing (session_closes s) v = CloseStep-same s v
Step-IsFlowing (close_conn a t) v = v
Step-IsFlowing {w} (close_channel a o) v =
    same_input-IsFlowing w (Control.close w.channel).1 (close-input w.channel) v
Step-IsFlowing (close_done a) v = v

new-IsFlowing : IsFlowing new_transport
unfolding new_transport new_control_channel
new-IsFlowing = ([], refl, refl)

Reach-IsFlowing : {w : WebsocketTransport} → Reach new_transport w → IsFlowing w
Reach-IsFlowing here = new-IsFlowing
Reach-IsFlowing (next r s) = Step-IsFlowing s (Reach-IsFlowing r)

-- In every interleaving, what the session has taken from ReadChan is an initial segment of the text
-- frames that arrived on the connection, in their order: none is doubled, passed over or made up.
pub delivered_in_order :
    {w : WebsocketTransport}
    → Reach new_transport w
    → (rest : List Bytes) × (texts w.arrived ≡ payloads w.delivered ++ rest)
delivered_in_order {w} r = let (lost, e, l) = Reach-IsFlowing r in (_, e)
