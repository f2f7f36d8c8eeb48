-- ===== src/Tests/Messages.antt =====
-- Messages that are validated, sent and read, and the table of pending requests.
use rtvbp_go.Common.{ℕ, String, ◌≡◌, refl, Bool, [], ◌∷◌, none, some}
use rtvbp_go.Common.Int.{pos}
use rtvbp_go.Common.Assoc.{lookup, insert, delete}
use rtvbp_go.Common.Act.{ok, good}
use rtvbp_go.Proto.Json.{num, str, obj, field, end, Bytes, text_of}
use rtvbp_go.Proto.Errors.{bare}
use rtvbp_go.Proto.Message.{nil, Response, Request, Message, new_base, validate}
use rtvbp_go.Proto.Parse.{marshal, parse_message, parse_valid_message}
use rtvbp_go.Proto.WellFormed.{IsWellFormed, parse_valid_message_sound}
use rtvbp_go.Proto.RoundTrip.{sent, parse_valid-marshal}
use rtvbp_go.Session.Core.{Session, new_pending_request, resolve_pending_request, wait_response}
use rtvbp_go.Session.Calls.{send_message}
use rtvbp_go.Session.Sending.{Sends, send_message-Sends}
use rtvbp_go.Session.Tracked.{IsTracked}
use rtvbp_go.Session.Pending.{pending_sound, resolve_all, resolve_all-first}
use rtvbp_go.Tests.Recorder.{
  Frames, recorder, written, recorder-IsTransport, open_session, open_session-IsTracked,
  ping_request,
}

-- A refusal, with an error and no result.
abbrev refusal : Response
refusal = record {
  base = new_base "1";
  response = "q7";
  result = nil;
  error = some (bare (pos 404) "no such call" none);
}

abbrev refusal_frame : Bytes
refusal_frame = text_of (
    obj (
      field "version" (str "1") (
        field "response" (str "q7") (
          field "error"
            (obj (field "code" (num (pos 404)) (field "message" (str "no such call") end))) end))))

refusal_marshalled : marshal (Message.response refusal) ≡ some refusal_frame
unfolding marshal new_base
refusal_marshalled = refl

refusal_valid : validate (Message.response refusal) ≡ none
unfolding validate new_base
refusal_valid = refl

parse_valid-marshal_example :
    parse_valid_message refusal_frame ≡ good (sent (Message.response refusal))
parse_valid-marshal_example =
    parse_valid-marshal (Message.response refusal) refusal_frame refusal_valid refusal_marshalled

parse_valid_message_sound_example :
    (parse_message refusal_frame ≡ good (sent (Message.response refusal)))
    × IsWellFormed (sent (Message.response refusal))
parse_valid_message_sound_example =
    parse_valid_message_sound refusal_frame (sent (Message.response refusal)) (
      parse_valid-marshal (Message.response refusal) refusal_frame refusal_valid refusal_marshalled)

send_message-Sends_example :
    Sends recorder written recorder-IsTransport
      (Message.request ping_request)
      open_session
      (send_message recorder (Message.request ping_request) open_session)
send_message-Sends_example =
    send_message-Sends recorder written recorder-IsTransport (Message.request ping_request)
      open_session

pending_sound_example :
    ((id : String) → IsTracked (new_pending_request id open_session).1)
    × ((r : Response)
        → IsTracked (resolve_pending_request r open_session).1
          × ((resolve_pending_request r open_session).0 ≡ ok tt))
    × ((req : Request) (c : ℕ) (timed_out : Bool)
        → IsTracked (wait_response req c (timed_out, open_session)).1)
pending_sound_example = pending_sound open_session open_session-IsTracked

-- A session with one request, "q7", pending.
abbrev waiting_session : Session Frames
waiting_session = (new_pending_request "q7" open_session).1

is_pending : lookup "q7" waiting_session.pending ≡ some 0
unfolding new_pending_request lookup insert delete
is_pending = refl

resolve_all-first_example :
    (resolve_all (refusal ∷ refusal ∷ []) waiting_session).channels 0 ≡ refusal ∷ []
resolve_all-first_example =
    resolve_all-first (refusal ∷ refusal ∷ []) waiting_session "q7" 0
      ((pending_sound open_session open_session-IsTracked).0 "q7") is_pending
