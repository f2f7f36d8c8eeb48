-- ===== src/Tests/Wire.antt =====
-- The WebSocket transport: two frames on their way out.
use rtvbp_go.Common.{[], ◌∷◌, ◌++◌, ◌≡◌, refl}
use rtvbp_go.Proto.Json.{junk}
use rtvbp_go.Transport.Ws.State.{WebsocketTransport, new_transport, sending}
use rtvbp_go.Transport.Ws.Process.{Reach}
use rtvbp_go.Transport.Ws.Process.Leaving.{text_frame}
use rtvbp_go.Transport.Ws.Process.Wire.{close_overtakes}

-- The sender has the first, and the second is in msgOutChan.
abbrev under_way : WebsocketTransport
under_way = record new_transport {
  sender = sending (text_frame (junk "x"));
  channel = record (new_transport.channel) { output = text_frame (junk "y") ∷ [] };
}

close_overtakes_example :
    (u : WebsocketTransport) × Reach under_way u
    × (u.wire ≡ under_way.wire ++ text_frame (junk "y") ∷ text_frame (junk "x") ∷ [])
unfolding new_transport
close_overtakes_example =
    close_overtakes under_way (text_frame (junk "x")) (text_frame (junk "y")) [] refl refl refl refl
      refl
