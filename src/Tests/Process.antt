-- ===== src/Tests/Process.antt =====
-- The WebSocket transport: one frame on its way in, a teardown, and writes after the sender has ended.
use rtvbp_go.Common.{
  ℕ, zero, suc, ◌≤◌, ◌≡◌, refl, true, false, List, [], ◌∷◌, ◌++◌, inr, some, length, length-append,
  arith,
}
use rtvbp_go.Common.Int.{pos}
use rtvbp_go.Proto.Json.{Bytes, junk}
use rtvbp_go.Transport.Ws.Message.{WsMessage, text}
use rtvbp_go.Transport.Ws.Control.{
  ControlChannel, capacity, new_control_channel, write_in, write_out, receive,
}
use rtvbp_go.Transport.Ws.Control
use rtvbp_go.Transport.Ws.Control.Sound.{IsSound}
use rtvbp_go.Transport.Ws.State.{
  WebsocketTransport, new_transport, finished, ended, over, conn_closed,
}
use rtvbp_go.Transport.Ws.Process.{
  Reach, arrive, hand, take_text, put_in, deliver, begin_write, end_write, send_take, send_fails,
  read_fails, close_conn, close_channel, close_done, here, next,
}
use rtvbp_go.Transport.Ws.Process.Flowing.{texts, payloads}
use rtvbp_go.Transport.Ws.Process.Incoming.{delivered_in_order}
use rtvbp_go.Transport.Ws.Process.Teardown.{channels-IsSound}
use rtvbp_go.Transport.Ws.Process.Stuck.{IsStuck, blocked_write-stops_teardown}

abbrev hello : WsMessage
hello = record { mt = text; payload = junk "hello"; timeout = 0 }

-- The frame has been delivered.
abbrev heard_it : WebsocketTransport
heard_it = record new_transport {
  arrived = hello ∷ [];
  delivered = record { data_bytes = junk "hello"; received_at = pos 3 } ∷ [];
}

reach_heard : Reach new_transport heard_it
unfolding new_transport new_control_channel write_in receive
reach_heard =
    next
      (next
        (next (next (next here (arrive hello refl refl)) (hand refl (omega arith)))
          (take_text (pos 3) refl refl refl refl refl))
        (put_in refl refl))
      (deliver refl)

delivered_in_order_example :
    (rest : List Bytes) × (texts heard_it.arrived ≡ payloads heard_it.delivered ++ rest)
delivered_in_order_example = delivered_in_order reach_heard

channels-IsSound_example : IsSound heard_it.channel × (length heard_it.inbox ≤ capacity)
channels-IsSound_example = channels-IsSound reach_heard

-- The connection has failed.
abbrev lost : WebsocketTransport
lost = record new_transport { reader = ended; close_closed = true }

reach_lost : Reach new_transport lost
unfolding new_transport
reach_lost = next here (read_fails refl)

abbrev torn_down : WebsocketTransport
torn_down = record lost {
  conn_open = false;
  main = over;
  channel = (Control.close new_transport.channel).1;
  done = true;
}

reach_torn_down : Reach new_transport torn_down
unfolding new_transport
reach_torn_down =
    next (next (next reach_lost (close_conn refl (inr refl))) (close_channel refl refl))
      (close_done refl)

-- Writes of "x" that find room, after the sender has ended.
abbrev frame : WsMessage
frame = record { mt = text; payload = junk "x"; timeout = 0 }

abbrev frames : ℕ → List WsMessage
frames zero = []
frames (suc n) = frames n ++ frame ∷ []

abbrev after_writes : ℕ → WebsocketTransport
after_writes n = record lost {
  sender = finished;
  channel = record (new_transport.channel) { output = frames n };
}

length-frames : (n : ℕ) → length (frames n) ≡ n
length-frames zero = refl
length-frames (suc n) = omega (arith, length-append (frames n) (frame ∷ []), length-frames n)

reach_writes : (n : ℕ) → n ≤ capacity → Reach new_transport (after_writes n)
unfolding new_transport new_control_channel write_out
reach_writes zero h =
    next
      (next (next (next reach_lost (begin_write (junk "x") refl refl)) (end_write refl refl))
        (send_take refl refl))
      (send_fails refl)
reach_writes (suc n) h =
    next (next (reach_writes n (omega arith)) (begin_write (junk "x") refl refl))
      (end_write refl (ground (arith, length-frames n)))

-- One more call of Write waits.
abbrev stuck : WebsocketTransport
stuck = record (after_writes 16) { writer = some (junk "x") }

reach_stuck : Reach new_transport stuck
unfolding new_transport new_control_channel
reach_stuck = next (reach_writes 16 (omega arith)) (begin_write (junk "x") refl refl)

stuck-IsStuck : IsStuck stuck
unfolding new_transport new_control_channel
stuck-IsStuck = record {
  waiting = refl;
  full = refl;
  no_sender = refl;
  not_called = refl;
  main_early = refl;
  still_open = refl;
  not_done = refl;
}

-- The connection has been closed, and the teardown stands.
abbrev standing : WebsocketTransport
standing = record stuck { main = conn_closed; conn_open = false }

blocked_write-stops_teardown_example : (standing.channel.closed ≡ false) × (standing.done ≡ false)
unfolding new_transport
blocked_write-stops_teardown_example =
    blocked_write-stops_teardown stuck-IsStuck (next here (close_conn refl (inr refl))) refl
