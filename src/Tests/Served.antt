-- ===== src/Tests/Served.antt =====
-- Sessions over the recorder whose handleRequest returns: an unknown method, and the demo server.
use rtvbp_go.Common.{◌≡◌, refl, [], ◌∷◌, ◌++◌, some, arith, eq_iff}
use rtvbp_go.Common.Assoc.{lookup, insert, delete}
use rtvbp_go.Common.Int.{pos}
use rtvbp_go.Common.Act.{ok}
use rtvbp_go.Proto.Json.{Bytes}
use rtvbp_go.Proto.Errors.{not_implemented}
use rtvbp_go.Proto.Message.{Request, Message, new_base, request_not_ok}
use rtvbp_go.Proto.WellFormed.{IsWellFormed}
use rtvbp_go.Proto.RoundTrip.{sent}
use rtvbp_go.Handler.Registry.{session_handler, new_handler}
use rtvbp_go.Handler.Typed
use rtvbp_go.Session.Calls.{session_shc, handle_request}
use rtvbp_go.Session.Contract.{OneAnswer}
use rtvbp_go.Session.Sending.{Carries}
use rtvbp_go.Session.Answers.{unknown_method-answered}
use rtvbp_go.ProtoV1.Ping.{new_ping_handler, ping_type}
use rtvbp_go.Demo.Server.{demo_handler}
use rtvbp_go.Demo.Server.Served.{demo_server-OneAnswer}
use rtvbp_go.Tests.Recorder.{
  recorder, written, recorder-IsTransport, recorder-accepts, Always, open_session, close_now,
  clear_none, alone, ping_request, ping_table,
}

abbrev unknown_request : Request
unknown_request = record ping_request { method = "nope" }

unknown_request-IsWellFormed : IsWellFormed (Message.request unknown_request)
unfolding new_base
unknown_request-IsWellFormed =
    (refl, ground (arith, eq_iff "q7" ""), ground (arith, eq_iff "nope" ""), refl)

unknown_method-answered_example :
    let x =
      handle_request recorder alone
        (session_shc recorder alone close_now clear_none)
        (some (session_handler ping_table))
        unknown_request
        open_session in
    (x.0 ≡ ok tt)
    × (raw : Bytes) × (written x.1.transport ≡ [] ++ raw ∷ [])
    × Carries raw (
        sent (
          Message.response
            (request_not_ok unknown_request (not_implemented "unknown method: nope"))))
unfolding new_handler lookup insert delete new_ping_handler ping_type Typed.handle_request
unknown_method-answered_example =
    unknown_method-answered recorder alone written recorder-IsTransport Always recorder-accepts
      close_now clear_none ping_table unknown_request open_session refl unknown_request-IsWellFormed
      tt

ping_request-IsWellFormed : IsWellFormed (Message.request ping_request)
unfolding new_base
ping_request-IsWellFormed =
    (refl, ground (arith, eq_iff "q7" ""), ground (arith, eq_iff "ping" ""), refl)

demo_server-OneAnswer_example :
    let x =
      handle_request recorder alone
        (session_shc recorder alone close_now clear_none)
        (some (session_handler (demo_handler (pos 9))))
        ping_request
        open_session in
    (x.0 ≡ ok tt) × OneAnswer written [] "q7" x.1
demo_server-OneAnswer_example =
    demo_server-OneAnswer recorder alone written recorder-IsTransport Always recorder-accepts
      close_now clear_none (pos 9) ping_request _ open_session ping_request-IsWellFormed refl
      (λ e. absurd cc) tt
