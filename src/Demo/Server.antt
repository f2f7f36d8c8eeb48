-- ===== src/Demo/Server.antt =====
-- examples/rtvbp-demo-server/main.go: the handler of the demo server. What is printed is left out, and the
-- copying between the loopback and the session's audio runs by itself.
pub mod Answering
pub mod Served
use rtvbp_go.Common.{String, Bool, not, List, [], ◌∷◌, ◌++◌, Option, none, some, if◌then◌else◌}
use rtvbp_go.Common.Int.{ℤ, pos, eqb_ℤ, ltb_ℤ}
use rtvbp_go.Common.Act.{◌>>=◌, ◌>>◌, pure, fail, crash}
use rtvbp_go.Proto.Json.{Json, Fields, end, field, obj, str, find, string_field, int_field}
use rtvbp_go.Proto.Errors.{msg}
use rtvbp_go.Proto.Message.{Any, plain, valid}
use rtvbp_go.Handler.Shc.{Call, Shc, RequestHandler, EventHandler}
use rtvbp_go.Handler.Typed.{RequestType, handle_request, handle_event}
use rtvbp_go.Handler.Registry.{DefaultSessionHandler, HandlerArg, requests, events, new_handler}
use rtvbp_go.ProtoV1.Requests.{
  AudioCodec, SessionInitializeRequest, SessionTerminateRequest, CallHangupRequest,
  ApplicationMoveRequest, validate_hangup,
}
use rtvbp_go.ProtoV1.Dtmf.{DtmfEvent}
use rtvbp_go.ProtoV1.Ping.{new_ping_handler}
use rtvbp_go.ProtoV1.Client.{terminate_type, plain_type}
use rtvbp_go.ProtoV1.Client.Wire.{◌>>?◌, read_object, empty_any, terminate_any}
use rtvbp_go.ProtoV1.Initialize.{read_initialize, initialized_any}

-- The flags of serverCLI that the handler uses.
pub record ServerCli : Type 0 where
  pub move_after_seconds : ℤ
  pub hangup_after_seconds : ℤ
  pub terminate_after_seconds : ℤ

-- A goroutine that waits for so many seconds and then makes a request, of this name and payload.
abbrev pub Timer : Type 0
Timer = ℤ × String × Any

abbrev timer : ℤ → String → Any → List Timer
timer seconds method payload = if eqb_ℤ seconds (pos 0) then [] else (seconds, method, payload) ∷ []

abbrev auto_move : Any
auto_move =
    plain (some (obj (field "reason" (str "auto move") (field "application_id" (str "1234") end))))

abbrev auto_hangup : Any
auto_hangup = valid (some (obj (field "reason" (str "auto hangup") end)))

-- What OnBegin starts, in its order.
unfoldable pub timers : ServerCli → List Timer
timers args =
    timer args.move_after_seconds "application.move" auto_move
    ++ timer args.terminate_after_seconds "session.terminate"
        (terminate_any (record { reason = "auto terminate" }))
    ++ timer args.hangup_after_seconds "call.hangup" auto_hangup

dtmf_of : Fields → Option DtmfEvent
unfolding find
dtmf_of fs = int_field (find "seq" fs) >>? λ n. int_field (find "pressed_at" fs) >>? λ p.
    int_field (find "released_at" fs) >>? λ r. string_field (find "digit" fs) >>? λ d.
    some (record { seq = n; pressed_at = p; released_at = r; digit = d })

-- json.Unmarshal into a DTMFEvent
unfoldable read_dtmf : Json → Option DtmfEvent
unfolding dtmf_of
read_dtmf j = read_object dtmf_of j

module _ {S : Type 0} where
  -- OnBegin
  unfoldable pub begin : Shc S → Call S (Unit {0})
  begin shc = pure tt

  unfoldable pub initialize_type : RequestType S SessionInitializeRequest
  initialize_type = plain_type "session.initialize" read_initialize

  abbrev take_first : Option (List AudioCodec) → Call S Any
  take_first none = fail (msg "no audio codec offerings")
  take_first (some []) = fail (msg "no audio codec offerings")
  take_first (some (c ∷ cs)) = pure (initialized_any (record { audio_codec = some c }))

  -- The function of session.initialize; it reads its argument, and panics at nil.
  unfoldable pub accept_first : Shc S → Option SessionInitializeRequest → Call S Any
  accept_first shc none = crash
  accept_first shc (some req) = take_first req.audio_codec_offerings

  -- The handler of DTMF events reads its argument, and panics at nil.
  unfoldable pub print_dtmf : Option DtmfEvent → Call S (Unit {0})
  print_dtmf none = crash
  print_dtmf (some evt) = pure tt

  -- The handlers, in their order.
  handler_args : ℤ → List (HandlerArg S)
  unfolding handle_request handle_event initialize_type accept_first terminate_type print_dtmf
      read_dtmf new_ping_handler
  handler_args now =
      requests (handle_request initialize_type (λ shc req p. accept_first shc p))
      ∷ requests (handle_request terminate_type (λ shc req p. pure empty_any))
      ∷ events (handle_event "dtmf" read_dtmf (λ shc evt. print_dtmf evt))
      ∷ requests (new_ping_handler now)
      ∷ []

  -- The handler that main gives NewServer; `now` is the clock of the ping handler.
  unfoldable pub demo_handler : ℤ → DefaultSessionHandler S
  unfolding begin handler_args
  demo_handler now = new_handler (some begin) (handler_args now)
