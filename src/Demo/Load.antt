-- ===== src/Demo/Load.antt =====
-- examples/loadtest/main.go: the audio of the load test, the options of its session, and the loop in which its
-- server sends back what it reads.
use rtvbp_go.Common.{
  ℕ, ◌+◌, zero, suc, Bool, true, List, [], ◌∷◌, none, some, length, if◌then◌else◌,
}
use rtvbp_go.Common.Act.{Outcome, ok, err, panic, blocked, Act}
use rtvbp_go.Proto.Errors.{Error, sentinel, eof, closed_pipe}
use rtvbp_go.Session.Options.{SessionOption, with_transport, with_handler}
use rtvbp_go.Audio.Copy.{ReadResult}

pub record DummyAudio : Type 0 where
  pub n : ℕ
  pub closed : Bool

-- dummyAudio.Close
unfoldable pub close : Act Error DummyAudio (Unit {0})
close d = (ok tt, record d { closed = true })

zeros : ℕ → List ℕ
zeros zero = []
zeros (suc n) = 0 ∷ zeros n

-- dummyAudio.Read, into a buffer of this size
unfoldable pub read : ℕ → Act Error DummyAudio (List ℕ)
unfolding zeros
read size d =
    if d.closed then (err (sentinel eof), d) else (ok (zeros size), record d { n = d.n + size })

-- dummyAudio.Write
unfoldable pub write : List ℕ → Act Error DummyAudio ℕ
write p d = if d.closed then (err (sentinel closed_pipe), d) else (ok (length p), d)

-- The options of the session in runTest
unfoldable pub test_options : {T A H O : Type 0} → T → H → List (SessionOption T A H O)
unfolding with_transport with_handler
test_options conn handler = with_transport conn ∷ with_handler handler ∷ []

module _ {W : Type 0} (write_back : List ℕ → Act Error W ℕ) where
  abbrev written : Outcome Error ℕ × W → Act Error W (Unit {0}) → Outcome Error (Unit {0}) × W
  written (ok n, w) k = k w
  written (err e, w) k = (ok tt, w)
  written (panic, w) k = (panic, w)
  written (blocked, w) k = (blocked, w)

  -- The goroutine of OnBegin, over what its reads give; after the last of them it waits.
  unfoldable pub echo : List ReadResult → Act Error W (Unit {0})
  echo [] w = (blocked, w)
  echo (r ∷ rs) w = elim r.failure [
    | none ↦ written (write_back r.got w) (echo rs)
    | some e ↦ (ok tt, w)
  ]
