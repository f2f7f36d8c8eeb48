-- ===== src/Tests/Protocol.antt =====
-- The messages of protov1, the fake telephony adapter and the audio counters.
use rtvbp_go.Common.{◌+◌, ◌%◌, ◌≡◌, false, List, [], ◌∷◌, some}
use rtvbp_go.Common.Int.{pos}
use rtvbp_go.Common.Assoc.{Assoc}
use rtvbp_go.Proto.Json.{Json, num, str}
use rtvbp_go.ProtoV1.Ping.{PingResponse}
use rtvbp_go.ProtoV1.Dtmf.{DtmfEvent}
use rtvbp_go.ProtoV1.AudioInfo.{
  Tracker, reads, writes, ticks, attach, run, word, bytes_read, bytes_written, run-conserves,
}
use rtvbp_go.ProtoV1.AudioInfo

abbrev pong : PingResponse
pong = record { t0 = pos 5; t1 = pos 7; t2 = pos 9; owd = pos 4; data_any = some (num (pos 1)) }

abbrev key : DtmfEvent
key = record { seq = pos 0; pressed_at = pos 10; released_at = pos 15; digit = "4" }

abbrev vars : Assoc Json
vars = ("a", num (pos 1)) ∷ ("b", str "x") ∷ ("a", num (pos 2)) ∷ []

abbrev fresh_tracker : Tracker
fresh_tracker = record { w = 0; wt = 0; r = 0; rt = 0; attached = false; events = [] }

abbrev calls : List AudioInfo.Call
calls = reads 320 ∷ ticks ∷ writes 160 ∷ attach ∷ reads 10 ∷ ticks ∷ []

run-conserves_example :
    ((((run calls fresh_tracker).rt + (run calls fresh_tracker).r) % word) ≡ 330 % word)
    × ((((run calls fresh_tracker).wt + (run calls fresh_tracker).w) % word) ≡ 160 % word)
run-conserves_example = run-conserves calls fresh_tracker
