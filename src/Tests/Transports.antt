-- ===== src/Tests/Transports.antt =====
-- The direct link, the control channel and the drain of outgoing messages.
use rtvbp_go.Common.{true, List, [], ◌∷◌, arith}
use rtvbp_go.Common.Int.{pos}
use rtvbp_go.Proto.Json.{junk}
use rtvbp_go.Transport.Interface.{DataPackage, IsTransport}
use rtvbp_go.Transport.Direct.{transport, transport-IsTransport, frames, first, second}
use rtvbp_go.Transport.Direct.Fifo
use rtvbp_go.Transport.Direct.Fifo.{Op, writes, reads, closes, link-IsFifo, IsBounded}
use rtvbp_go.Transport.Ws.Control.Sound
use rtvbp_go.Transport.Ws.Control.Sound.{
  HasNoPanic, IsSound, control_channel-IsSound, close-refuses,
}

abbrev ops : List Op
ops = writes first (junk "a") ∷ reads second ∷ writes first (junk "b") ∷ closes ∷ reads second ∷ []

link-IsFifo_example :
    Fifo.IsFifo (Fifo.run (λ l. true) ops Fifo.start)
    × IsBounded (Fifo.run (λ l. true) ops Fifo.start).link
link-IsFifo_example = link-IsFifo (λ l. true) ops

transport-IsTransport_example : IsTransport (transport (λ l. true) first) (frames first)
transport-IsTransport_example = transport-IsTransport (λ l. true) first

abbrev incoming_package : DataPackage
incoming_package = record { data_bytes = junk "p"; received_at = pos 3 }

abbrev calls : List Sound.Call
calls =
    Sound.writes_in incoming_package
    ∷ Sound.closes
    ∷ Sound.writes_in incoming_package
    ∷ Sound.receives
    ∷ Sound.closes
    ∷ []

control_channel-IsSound_example :
    HasNoPanic calls (Sound.start [])
    × IsSound (Sound.run calls (Sound.start [])).channel
    × Sound.IsFifo (Sound.run calls (Sound.start []))
control_channel-IsSound_example = control_channel-IsSound [] calls (omega arith)
