-- ===== src/Handler/Testing.antt =====
-- handler_testing.go: TestingSHC, the SHC of handler tests, which keeps the last response. Its methods that
-- are not implemented panic.
use rtvbp_go.Common.{String, Option, none, some, ◌≡◌, refl}
use rtvbp_go.Common.Act.{Outcome, ok, err, panic, blocked, crash}
use rtvbp_go.Proto.Errors.{Error}
use rtvbp_go.Proto.Message.{Any, validate_any, Request, Response, request_ok}
use rtvbp_go.Handler.Shc.{Call, Shc}
use rtvbp_go.Handler.Typed.{reply, after_reply}
use rtvbp_go.Session.State.{SessionState, active, closed}

pub record TestingShc : Type 0 where
  pub response : Option Response
  pub state : SessionState

-- NewTestingSHC
unfoldable pub new_testing_shc : TestingShc
new_testing_shc = record { response = none; state = active }

-- The deferred function of Close; a callback that waits has not come to it.
abbrev closed_after : Outcome Error (Unit {0}) × TestingShc → Outcome Error (Unit {0}) × TestingShc
closed_after (ok u, t) = (ok u, record t { state = closed })
closed_after (err e, t) = (err e, record t { state = closed })
closed_after (panic, t) = (panic, record t { state = closed })
closed_after (blocked, t) = (blocked, t)

-- TestingSHC as an SHC. SessionID panics, which a field without an outcome cannot say: what it would give
-- is an argument.
unfoldable pub testing_shc : (TestingShc → String) → Shc TestingShc
testing_shc no_id = record {
  session_id = no_id;
  request = λ method payload. crash;
  respond = λ res t. (ok tt, record t { response = some res });
  notify = λ name payload. crash;
  clear_read_buffer = crash;
  close = λ cb t. closed_after (cb t);
  state = λ t. t.state;
}

-- A valid reply is in Response afterwards, and the hook after it sees it there.
pub reply-responds :
    (no_id : TestingShc → String) (hook : Option (Shc TestingShc → Call TestingShc (Unit {0})))
    (req : Request) (res : Any) (t : TestingShc)
    → validate_any res ≡ none
    → reply hook (testing_shc no_id) req res t
      ≡ after_reply hook (testing_shc no_id) (record t { response = some (request_ok req res) })
unfolding reply testing_shc
reply-responds no_id hook req res t valid = rw valid refl
