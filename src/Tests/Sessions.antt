-- ===== src/Tests/Sessions.antt =====
-- Sessions over the recorder: a request that is answered, and requests that are made.
use rtvbp_go.Common.{
  String, ◌≡◌, refl, true, false, List, [], ◌∷◌, Option, none, some, arith, eq_iff,
}
use rtvbp_go.Common.Assoc.{lookup, insert, delete}
use rtvbp_go.Common.Int.{pos}
use rtvbp_go.Common.Act.{ok, err, pure}
use rtvbp_go.Proto.Message.{
  Any, nil, plain, Request, Response, Message, new_base, validate, new_request, request_ok,
  request_not_ok,
}
use rtvbp_go.Proto.Errors.{
  as_response, context_done, Error, wrap, join, sentinel, request_timeout, request_failed, bad_json,
  to_response_error, error_text,
}
use rtvbp_go.Proto.Json.{Bytes, str, obj, field, end, text_of, find}
use rtvbp_go.Proto.Parse.{marshal}
use rtvbp_go.Proto.WellFormed.{IsWellFormed}
use rtvbp_go.Handler.Shc.{SessionHandler, Call, Shc, RequestHandler}
use rtvbp_go.Handler.Typed
use rtvbp_go.Handler.Typed.{typed_handle, reply}
use rtvbp_go.Handler.Registry.{on_request, session_handler, new_handler}
use rtvbp_go.Session.Core.{Session, Env, resolve_pending_request}
use rtvbp_go.Session.Calls.{session_shc, handle_request, request_call, send_message}
use rtvbp_go.Session.Contract.{IsAnswer, Answers, OneAnswer, Answered}
use rtvbp_go.Session.Pending.{resolve_all}
use rtvbp_go.Session.Answers.{handle_request_once, on_request-Answers}
use rtvbp_go.Session.Twice.{hook_fails-answered_twice}
use rtvbp_go.Session.Errors.{IsSendable, wrap-IsSendable}
use rtvbp_go.Session.Typed.{typed_handle-Answers}
use rtvbp_go.Session.Requests.{
  request_call-answer, request_call-timeout, request_call-unsent, sending,
}
use rtvbp_go.ProtoV1.Ping.{
  PingRequest, new_ping_handler, ping_type, validate_ping, read_ping, pong_any,
}
use rtvbp_go.ProtoV1.Ping.RoundTrip.{new_ping_handler-Answers, ping_type-IsProper}
use rtvbp_go.Tests.Recorder.{
  Frames, recorder, open_session-IsTracked, written, recorder-IsTransport, recorder-accepts,
  recorder_accepts_all, Always, open_session, close_now, clear_none, alone, ping_request,
  ping_table,
}

ping_request-IsWellFormed : IsWellFormed (Message.request ping_request)
unfolding new_base
ping_request-IsWellFormed =
    (refl, ground (arith, eq_iff "q7" ""), ground (arith, eq_iff "ping" ""), refl)

handler_of_ping :
    (name : String) (h : RequestHandler (Session Frames))
    → lookup name ping_table.request_handlers ≡ some h
    → new_ping_handler (pos 9) ≡ h
unfolding new_handler lookup insert delete
handler_of_ping name h e = ground (arith, eq_iff "ping" name)

ping_found :
    (name : String) (h : RequestHandler (Session Frames))
    → lookup name ping_table.request_handlers ≡ some h
    → Answers written Always (h.handle (session_shc recorder alone close_now clear_none))
ping_found name h e = rw (← handler_of_ping name h e) (
    new_ping_handler-Answers recorder alone written recorder-IsTransport Always recorder-accepts
      close_now clear_none (pos 9))

ping_table-Answers :
    Answers written Always
      ((session_handler ping_table).on_request (session_shc recorder alone close_now clear_none))
unfolding session_handler
ping_table-Answers =
    on_request-Answers recorder alone written recorder-IsTransport Always recorder-accepts close_now
      clear_none ping_table ping_found

ping_answered :
    (handle_request recorder alone
      (session_shc recorder alone close_now clear_none)
      (some (session_handler ping_table))
      ping_request
      open_session).0
    ≡ ok tt
unfolding handle_request session_handler on_request new_handler lookup insert delete
    new_ping_handler typed_handle reply session_shc send_message validate request_ok validate_ping
    read_ping find pong_any marshal new_base ping_type Typed.handle_request request_not_ok
    to_response_error error_text
ping_answered = refl

handle_request_once_example :
    let shc = session_shc recorder alone close_now clear_none in
    OneAnswer written [] "q7"
      (handle_request recorder alone shc
        (some (session_handler ping_table))
        ping_request
        open_session).1
handle_request_once_example =
    handle_request_once recorder alone written recorder-IsTransport Always recorder-accepts
      close_now clear_none (session_handler ping_table) ping_request open_session ping_table-Answers
      ping_request-IsWellFormed tt ping_answered

abbrev answer_nil : Shc (Session Frames) → Request → Option PingRequest → Call (Session Frames) Any
answer_nil shc req p s = (ok nil, s)

typed_handle-Answers_example : Answered written Always [] "q7" (
    typed_handle ping_type answer_nil
      (session_shc recorder alone close_now clear_none)
      ping_request
      open_session)
typed_handle-Answers_example =
    typed_handle-Answers recorder alone written recorder-IsTransport Always recorder-accepts
      close_now clear_none ping_type answer_nil
      (ping_type-IsProper recorder alone written recorder-IsTransport Always recorder-accepts
        close_now clear_none)
      (λ p req s r. (refl, tt)) ping_request open_session ping_request-IsWellFormed tt

-- Two answers to the request "r1" and one to another arrive while the call waits.
abbrev reply_to : String → Any → Response
reply_to id result = record { base = new_base "1"; response = id; result = result; error = none }

abbrev replies : List Response
replies = reply_to "r0" nil ∷ reply_to "r1" (plain none) ∷ reply_to "r1" nil ∷ []

abbrev answered : Env Frames
answered = record { fresh = λ n. "r1"; others = λ c s. (false, resolve_all replies s) }

abbrev silent : Env Frames
silent = record { fresh = λ n. "r1"; others = λ c s. (true, s) }

is_sent : (sending recorder answered "ping" nil open_session).0 ≡ ok tt
unfolding send_message validate marshal new_base new_request
is_sent = refl

request_call-answer_example :
    (request_call recorder answered "ping" nil open_session).0 ≡ ok (reply_to "r1" (plain none))
request_call-answer_example =
    request_call-answer recorder answered "ping" nil open_session replies
      (sending recorder answered "ping" nil open_session).1.transport open_session-IsTracked is_sent
      refl

-- A response that comes after the wait.
abbrev late : Response
late = record { base = new_base "1"; response = "r1"; result = nil; error = none }

request_call-timeout_example :
    ((request_call recorder silent "ping" nil open_session).0
      ≡ err (wrap "request [method=ping, id=r1] failed" (sentinel request_timeout)))
    × (resolve_pending_request late (request_call recorder silent "ping" nil open_session).1
        ≡ (ok tt, (request_call recorder silent "ping" nil open_session).1))
    × (lookup "q9" (request_call recorder silent "ping" nil open_session).1.pending
        ≡ lookup "q9" (sending recorder silent "ping" nil open_session).1.pending)
unfolding new_request
request_call-timeout_example =
    request_call-timeout recorder silent "ping" "q9" nil open_session
      (sending recorder silent "ping" nil open_session).1 late is_sent refl refl
      (ground (arith, eq_iff "q9" "r1"))

abbrev unmarshalled : Error
unmarshalled = wrap "sending message failed" (sentinel bad_json)

is_unsent : (sending recorder alone "ping" (plain none) open_session).0 ≡ err unmarshalled
unfolding send_message validate marshal new_base new_request
is_unsent = refl

request_call-unsent_example :
    ((request_call recorder alone "ping" (plain none) open_session).0
      ≡ err (join (sentinel request_failed) unmarshalled))
    × (lookup "r1" (request_call recorder alone "ping" (plain none) open_session).1.pending
        ≡ some 0)
request_call-unsent_example =
    request_call-unsent recorder alone "ping" (plain none) open_session unmarshalled is_unsent

-- A handler whose hook fails after the reply, as closing the session does when the context ends.
abbrev not_closed : Error
not_closed = wrap "closing session failed" (sentinel context_done)

abbrev failing_hook : Shc (Session Frames) → Call (Session Frames) (Unit {0})
failing_hook shc s = (err not_closed, s)

abbrev hooked : SessionHandler (Session Frames)
hooked = record {
  on_begin = λ shc. pure tt;
  on_request = λ shc req. reply (some failing_hook) shc req nil;
  on_event = λ shc evt. pure tt;
}

abbrev pong_frame : Bytes
pong_frame = text_of (obj (field "version" (str "1") (field "response" (str "q7") end)))

pong_marshalled : marshal (Message.response (request_ok ping_request nil)) ≡ some pong_frame
unfolding marshal request_ok new_base
pong_marshalled = refl

not_closed-IsSendable : IsSendable not_closed
unfolding as_response
not_closed-IsSendable =
    wrap-IsSendable "closing session failed" (sentinel context_done) refl
      (ground (arith, eq_iff "closing session failed" ""))

hook_fails-answered_twice_example :
    let s' =
      (handle_request recorder alone
        (session_shc recorder alone close_now clear_none)
        (some hooked)
        ping_request
        open_session).1 in
    (first second : Bytes) × (s'.transport ≡ first ∷ second ∷ [])
    × IsAnswer "q7" first
    × IsAnswer "q7" second
hook_fails-answered_twice_example =
    hook_fails-answered_twice recorder alone written recorder-IsTransport recorder_accepts_all
      close_now clear_none hooked failing_hook ping_request nil open_session pong_frame not_closed
      refl ping_request-IsWellFormed refl pong_marshalled refl not_closed-IsSendable
