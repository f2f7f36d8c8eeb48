-- ===== src/Transport/Ws/Process/Stuck.antt =====
-- transport/ws/transport.go: a call of Write that waits for room, with the mutex, when nobody takes
-- messages from msgOutChan any more.
use rtvbp_go.Common.{Bool, true, false, ◌≡◌, ◌≢◌, refl, length, arith}
use rtvbp_go.Transport.Ws.Control.{capacity, write_in, write_out, receive}
use rtvbp_go.Transport.Ws.State.{
  WebsocketTransport, Main, waits, conn_closed, Closing, idle, finished, out, no_writer,
}
use rtvbp_go.Transport.Ws.Process.{
  CloseStep, Step, Reach, too_late, trigger, drain, drained, drain_sent, drain_failed, drain_over,
  push, see_done, time_out, cancel, arrive, hand, read_fails, take_text, put_in, take_text_closed,
  take_binary, take_binary_fails, take_other, stop_processing, deliver, begin_write, end_write,
  audio_read, audio_fails, audio_put, audio_stops, send_take, send_done, send_fails, tick, ping_put,
  sender_ends, sender_cancelled, sender_closes, session_closes, close_conn, close_channel,
  close_done, here, next,
}

-- process has not closed the control channel.
abbrev closing_channel : Main → Bool
closing_channel waits = false
closing_channel conn_closed = false
closing_channel _ = true

-- A call of Write waits with the mutex, msgOutChan is full, the sender has ended, and the session has
-- not called Close.
pub record IsStuck (w : WebsocketTransport) : Type 0 where
  pub waiting : no_writer w.writer ≡ false
  pub full : length (out w) ≡ capacity
  pub no_sender : w.sender ≡ finished
  pub not_called : w.close_call ≡ idle
  pub main_early : closing_channel w.main ≡ false
  pub still_open : w.channel.closed ≡ false
  pub not_done : w.done ≡ false

pub CloseStep-ne_idle :
    {w w' : WebsocketTransport} {c c' : Closing} → CloseStep w c w' c' → c' ≢ idle
CloseStep-ne_idle (too_late d) x = cc
CloseStep-ne_idle (trigger d) x = cc
CloseStep-ne_idle (drain e) x = cc
CloseStep-ne_idle (drained e) x = cc
CloseStep-ne_idle (drain_sent o) x = cc
CloseStep-ne_idle drain_failed x = cc
CloseStep-ne_idle drain_over x = cc
CloseStep-ne_idle (push r) x = cc
CloseStep-ne_idle (see_done d) x = cc
CloseStep-ne_idle time_out x = cc

CloseStep-close_call :
    {w w' : WebsocketTransport} {c c' : Closing}
    → CloseStep w c w' c'
    → w'.close_call ≡ w.close_call
CloseStep-close_call (too_late d) = refl
CloseStep-close_call (trigger d) = refl
CloseStep-close_call (drain e) = refl
CloseStep-close_call (drained e) = refl
CloseStep-close_call (drain_sent o) = refl
CloseStep-close_call drain_failed = refl
CloseStep-close_call drain_over = refl
CloseStep-close_call (push r) = refl
CloseStep-close_call (see_done d) = refl
CloseStep-close_call time_out = refl

-- A call of Close is not taken back.
pub Step-uncalled :
    {w u : WebsocketTransport} → Step w u → u.close_call ≡ idle → w.close_call ≡ idle
Step-uncalled cancel h = h
Step-uncalled (arrive m a o) h = h
Step-uncalled (hand a r) h = h
Step-uncalled (read_fails a) h = h
Step-uncalled (take_text now a b t o c) h = h
Step-uncalled (put_in a e) h = h
Step-uncalled (take_text_closed a b t o c) h = h
Step-uncalled (take_binary a b t) h = h
Step-uncalled (take_binary_fails a b t) h = h
Step-uncalled (take_other a b t n) h = h
Step-uncalled (stop_processing a b) h = h
Step-uncalled (deliver e) h = h
Step-uncalled (begin_write raw o c) h = h
Step-uncalled (end_write a e) h = h
Step-uncalled (audio_read raw a) h = h
Step-uncalled (audio_fails a) h = h
Step-uncalled (audio_put a r) h = h
Step-uncalled (audio_stops a b) h = h
Step-uncalled (send_take a b) h = h
Step-uncalled (send_done a o) h = h
Step-uncalled (send_fails a) h = h
Step-uncalled (tick a) h = h
Step-uncalled (ping_put a r) h = h
Step-uncalled (sender_ends a d) h = h
Step-uncalled (sender_cancelled a d) h = h
Step-uncalled (sender_closes a s) h = ground (arith, CloseStep-close_call s)
Step-uncalled (session_closes s) h = absurd (CloseStep-ne_idle s h)
Step-uncalled (close_conn a t) h = h
Step-uncalled (close_channel a o) h = h
Step-uncalled (close_done a) h = h

Step-IsStuck : {w u : WebsocketTransport} → Step w u → IsStuck w → u.close_call ≡ idle → IsStuck u
unfolding write_in write_out receive
Step-IsStuck cancel v h = ground arith
Step-IsStuck (arrive m a o) v h = ground arith
Step-IsStuck (hand a r) v h = ground arith
Step-IsStuck (read_fails a) v h = ground arith
Step-IsStuck (take_text now a b t o c) v h = ground arith
Step-IsStuck (put_in a e) v h = ground arith
Step-IsStuck (take_text_closed a b t o c) v h = ground arith
Step-IsStuck (take_binary a b t) v h = ground arith
Step-IsStuck (take_binary_fails a b t) v h = ground arith
Step-IsStuck (take_other a b t n) v h = ground arith
Step-IsStuck (stop_processing a b) v h = ground arith
Step-IsStuck (deliver e) v h = ground arith
Step-IsStuck (begin_write raw o c) v h = ground arith
Step-IsStuck (end_write a e) v h = ground arith
Step-IsStuck (audio_read raw a) v h = ground arith
Step-IsStuck (audio_fails a) v h = ground arith
Step-IsStuck (audio_put a r) v h = ground arith
Step-IsStuck (audio_stops a b) v h = ground arith
Step-IsStuck (send_take a b) v h = ground arith
Step-IsStuck (send_done a o) v h = ground arith
Step-IsStuck (send_fails a) v h = ground arith
Step-IsStuck (tick a) v h = ground arith
Step-IsStuck (ping_put a r) v h = ground arith
Step-IsStuck (sender_ends a d) v h = ground arith
Step-IsStuck (sender_cancelled a d) v h = ground arith
Step-IsStuck (sender_closes a s) v h = ground arith
Step-IsStuck (session_closes s) v h = absurd (CloseStep-ne_idle s h)
Step-IsStuck (close_conn a t) v h = ground arith
Step-IsStuck (close_channel a o) v h = ground arith
Step-IsStuck (close_done a) v h = ground arith

pub Reach-uncalled :
    {l m : WebsocketTransport} → Reach l m → m.close_call ≡ idle → l.close_call ≡ idle
Reach-uncalled here h = h
Reach-uncalled (next r s) h = Reach-uncalled r (Step-uncalled s h)

pub Reach-IsStuck :
    {l m : WebsocketTransport} → Reach l m → IsStuck l → m.close_call ≡ idle → IsStuck m
Reach-IsStuck here v h = v
Reach-IsStuck (next r s) v h = Step-IsStuck s (Reach-IsStuck r v (Step-uncalled s h)) h

-- While a call of Write waits for room with the mutex, msgOutChan is full and the sender has ended,
-- then in every interleaving in which the session does not call Close, process never closes the
-- control channel, so that the session does not learn of the end from ReadChan, and never closes
-- doneChan, whatever has triggered the teardown.
pub blocked_write-stops_teardown :
    {l m : WebsocketTransport}
    → IsStuck l
    → Reach l m
    → m.close_call ≡ idle
    → (m.channel.closed ≡ false) × (m.done ≡ false)
blocked_write-stops_teardown v r h = let u = Reach-IsStuck r v h in (u.still_open, u.not_done)
