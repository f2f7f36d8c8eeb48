-- ===== src/Tests/Audio.antt =====
-- A loopback that is closed with bytes in it, and a request without params.
use rtvbp_go.Common.{◌≡◌, refl, true, List, [], ◌∷◌}
use rtvbp_go.Common.Act.{err}
use rtvbp_go.Proto.Errors.{sentinel, eof}
use rtvbp_go.Audio.Loopback.{
  Call, writes, reads, closes, run, start, step, new_loopback, write, read, close, eof-drained,
}

abbrev calls : List Call
calls = writes (1 ∷ 2 ∷ []) ∷ closes ∷ reads 1 ∷ writes (3 ∷ []) ∷ reads 5 ∷ []

at_end : (read 4 (run calls start).loopback).0 ≡ err (sentinel eof)
unfolding run step new_loopback write read close
at_end = refl

eof-drained_example :
    ((run calls start).loopback.closed ≡ true) × ((run calls start).given ≡ (run calls start).taken)
eof-drained_example = eof-drained calls 4 at_end
