-- ===== src/Transport/Ws/Process/Progress.antt =====
-- transport/ws/transport.go: the end of process, from where it stands.
use rtvbp_go.Common.{true, ◌≡◌}
use rtvbp_go.Transport.Ws.Control.{ControlChannel}
use rtvbp_go.Transport.Ws.Control
use rtvbp_go.Transport.Ws.State.{WebsocketTransport, unlocked}
use rtvbp_go.Transport.Ws.Process.{Step, Reach, here, next}

abbrev first : {w v : WebsocketTransport} → Step w v → Reach w v
first s = next here s

-- The mutex of the control channel can be set free, if no call of Write holds it.
abbrev Frees : WebsocketTransport → Type 0
Frees w = (m : WebsocketTransport) × Reach w m × (unlocked m ≡ true) × (m.main ≡ w.main)

abbrev Completes : WebsocketTransport → Type 0
Completes w = (m : WebsocketTransport) × Reach w m × (m.done ≡ true)
