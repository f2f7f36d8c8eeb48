-- ===== src/Transport/Ws/Process/Teardown.antt =====
-- transport/ws/transport.go: the order of the teardown.
use rtvbp_go.Common.{◌≤◌, true, false, [], ◌∷◌, ◌≡◌, length, length-append, arith}
use rtvbp_go.Transport.Ws.Message.{text}
use rtvbp_go.Transport.Ws.Control.{
  ControlChannel, capacity, new_control_channel, write_in, write_out, receive, delivered, Received,
}
use rtvbp_go.Transport.Ws.Control
use rtvbp_go.Transport.Ws.Control.Sound.{IsSound}
use rtvbp_go.Transport.Ws.State.{
  WebsocketTransport, new_transport, Main, waits, conn_closed, channel_closed, over, out,
}
use rtvbp_go.Transport.Ws.Process.{
  CloseStep, Step, Reach, close_frame, ping_frame, audio_frame, too_late, trigger, drain, drained,
  drain_sent, drain_failed, drain_over, push, see_done, time_out, cancel, arrive, hand, read_fails,
  take_text, put_in, take_text_closed, take_binary, take_binary_fails, take_other, stop_processing,
  deliver, begin_write, end_write, audio_read, audio_fails, audio_put, audio_stops, send_take,
  send_done, send_fails, tick, ping_put, sender_ends, sender_cancelled, sender_closes,
  session_closes, close_conn, close_channel, close_done, here, next,
}

-- How far process has come decides what is closed.
abbrev MainHolds : Main → WebsocketTransport → Type 0
MainHolds waits w = (w.conn_open ≡ true) × (w.channel.closed ≡ false) × (w.done ≡ false)
MainHolds conn_closed w = (w.conn_open ≡ false) × (w.channel.closed ≡ false) × (w.done ≡ false)
MainHolds channel_closed w = (w.conn_open ≡ false) × (w.channel.closed ≡ true) × (w.done ≡ false)
MainHolds over w = (w.conn_open ≡ false) × (w.channel.closed ≡ true) × (w.done ≡ true)

pub record IsOrderly (w : WebsocketTransport) : Type 0 where
  pub sound : IsSound w.channel
  pub inbox_fits : length w.inbox ≤ capacity
  pub main_holds : MainHolds w.main w

CloseStep-IsOrderly :
    {w w' : WebsocketTransport} {c c' : _} → CloseStep w c w' c' → IsOrderly w → IsOrderly w'
CloseStep-IsOrderly (too_late d) v = v
CloseStep-IsOrderly (trigger d) v = ground arith
CloseStep-IsOrderly {w} (drain {m} {rest} e) v = ground arith
CloseStep-IsOrderly (drained e) v = v
CloseStep-IsOrderly (drain_sent o) v = ground arith
CloseStep-IsOrderly drain_failed v = v
CloseStep-IsOrderly drain_over v = v
CloseStep-IsOrderly {w} (push r) v = ground (arith, length-append (out w) (close_frame ∷ []))
CloseStep-IsOrderly (see_done d) v = v
CloseStep-IsOrderly time_out v = v

pub Step-IsOrderly : {w u : WebsocketTransport} → Step w u → IsOrderly w → IsOrderly u
unfolding write_in write_out receive Control.close
Step-IsOrderly cancel v = ground arith
Step-IsOrderly (arrive m a o) v = ground arith
Step-IsOrderly {w} (hand {m} a r) v = ground (arith, length-append w.inbox (m ∷ []))
Step-IsOrderly (read_fails a) v = ground arith
Step-IsOrderly (take_text now a b t o c) v = ground arith
Step-IsOrderly {w} (put_in {p} {cc} a e) v = ground (arith, length-append w.channel.input (p ∷ []))
Step-IsOrderly (take_text_closed a b t o c) v = ground arith
Step-IsOrderly (take_binary a b t) v = ground arith
Step-IsOrderly (take_binary_fails a b t) v = ground arith
Step-IsOrderly (take_other a b t n) v = ground arith
Step-IsOrderly (stop_processing a b) v = ground arith
Step-IsOrderly {w} (deliver e) v = ground arith
Step-IsOrderly (begin_write raw o c) v = ground arith
Step-IsOrderly {w} (end_write {raw} {cc} a e) v =
    ground (
      arith,
      length-append w.channel.output (record { mt = text; payload = raw; timeout = 0 } ∷ []),
    )
Step-IsOrderly (audio_read raw a) v = ground arith
Step-IsOrderly (audio_fails a) v = ground arith
Step-IsOrderly {w} (audio_put {raw} a r) v =
    ground (arith, length-append (out w) (audio_frame raw ∷ []))
Step-IsOrderly (audio_stops a b) v = ground arith
Step-IsOrderly (send_take a b) v = ground arith
Step-IsOrderly (send_done a o) v = ground arith
Step-IsOrderly (send_fails a) v = ground arith
Step-IsOrderly (tick a) v = ground arith
Step-IsOrderly {w} (ping_put a r) v = ground (arith, length-append (out w) (ping_frame ∷ []))
Step-IsOrderly (sender_ends a d) v = ground arith
Step-IsOrderly (sender_cancelled a d) v = ground arith
Step-IsOrderly (sender_closes a s) v = let v' = CloseStep-IsOrderly s v in ground arith
Step-IsOrderly (session_closes s) v = let v' = CloseStep-IsOrderly s v in ground arith
Step-IsOrderly (close_conn a t) v = ground arith
Step-IsOrderly {w} (close_channel a o) v = ground arith
Step-IsOrderly (close_done a) v = ground arith

new-IsOrderly : IsOrderly new_transport
unfolding new_transport new_control_channel
new-IsOrderly = ground arith

pub Reach-IsOrderly : {w : WebsocketTransport} → Reach new_transport w → IsOrderly w
Reach-IsOrderly here = new-IsOrderly
Reach-IsOrderly (next r s) = Step-IsOrderly s (Reach-IsOrderly r)

-- In every interleaving, the control channel is closed once at most and nothing is sent on it after
-- that, and no channel of the transport holds more than its 16 places.
pub channels-IsSound :
    {w : WebsocketTransport}
    → Reach new_transport w
    → IsSound w.channel × (length w.inbox ≤ capacity)
channels-IsSound r = let v = Reach-IsOrderly r in (v.sound, v.inbox_fits)

-- In every interleaving, when doneChan is closed, the connection and the control channel are closed.
pub done-closed :
    {w : WebsocketTransport}
    → Reach new_transport w
    → w.done ≡ true
    → (w.conn_open ≡ false) × (w.channel.closed ≡ true) × (w.channel.input_closed ≡ true)
done-closed {w} r d = let v = Reach-IsOrderly r in ground arith
