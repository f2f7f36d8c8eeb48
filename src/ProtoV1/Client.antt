-- ===== src/ProtoV1/Client.antt =====
-- proto/protov1/handler.go: ClientHandler. The state `S` of the calls holds the handler's own fields,
-- which `Fields` reads and writes. A call that finds `mu` held waits. The pinger that OnBegin
-- starts runs by itself and is left out, and so are the deadlines of contexts.
pub mod Wire
pub mod Locked
pub mod Guarded
pub mod Missing
use rtvbp_go.Common.{
  ℕ, String, Bool, true, false, not, List, [], ◌∷◌, Option, none, some, if◌then◌else◌,
}
use rtvbp_go.Common.Int.{ℤ, pos, ◌+ℤ◌, ◌-ℤ◌}
use rtvbp_go.Common.Assoc.{Assoc}
use rtvbp_go.Common.Act.{
  Outcome, ok, err, panic, blocked, ◌>>=◌, ◌>>◌, pure, fail, crash, ignore, catch,
}
use rtvbp_go.Proto.Json.{Json}
use rtvbp_go.Proto.Errors.{Error, msg, wrap, ResponseError, not_implemented}
use rtvbp_go.Proto.Message.{Any, Request, Response}
use rtvbp_go.Proto.Parse.{as_type}
use rtvbp_go.Handler.Shc.{Call, Shc, RequestHandler}
use rtvbp_go.Handler.Typed.{RequestType, reading, handle_request, handle_with_error, middleware}
use rtvbp_go.Handler.Registry.{DefaultSessionHandler, HandlerArg, requests, new_handler}
use rtvbp_go.ProtoV1.Requests.{
  CallHangupEvent, CallHangupRequest, ApplicationMoveRequest, ApplicationMoveResponse,
  RecordingStartRequest, RecordingStartResponse, RecordingStopRequest, SessionTerminateRequest,
  SessionSetRequest, SessionGetRequest, SessionInitializeResponse, validate_hangup,
  validate_recording_stop, validate_terminate,
}
use rtvbp_go.ProtoV1.Dtmf.{DtmfEvent}
use rtvbp_go.ProtoV1.Ping.{new_ping_handler}
use rtvbp_go.ProtoV1.Client.Wire.{
  read_hangup, read_move, read_recording_start, read_recording_stop, read_set, read_get, read_clear,
  read_terminate, read_initialized, empty_any, moved_any, started_any, cleared_any, variables_any,
  terminate_any, updated_any, hung_up_any, dtmf_any,
}

-- The fields of a ClientHandler; `locked` says that a call holds mu, and `attached` that shc is set.
pub record ClientHandler : Type 0 where
  pub locked : Bool
  pub initialized : Bool
  pub attached : Bool
  pub dtmf_seq : ℤ

pub record Fields (S : Type 0) : Type 0 where
  pub get : S → ClientHandler
  pub put : ClientHandler → S → S

-- The interface TelephonyAdapter; a request is passed by pointer, which may be nil.
pub record TelephonyAdapter (S : Type 0) : Type 0 where
  pub move : Option ApplicationMoveRequest → Call S ApplicationMoveResponse
  pub hang_up : Option CallHangupRequest → Call S (Unit {0})
  pub session_variables_set : Option SessionSetRequest → Call S (Unit {0})
  pub session_variables_get : Option SessionGetRequest → Call S (Assoc Json)
  pub recording_start : Option RecordingStartRequest → Call S RecordingStartResponse
  pub recording_stop : String → Call S (Unit {0})
  pub on_dtmf : (DtmfEvent → Call S (Unit {0})) → Call S (Unit {0})
  pub on_hangup : (CallHangupEvent → Call S (Unit {0})) → Call S (Unit {0})

module _ {S : Type 0} where
  -- sessionTerminateAndClose
  unfoldable pub session_terminate_and_close : Shc S → String → Call S (Unit {0})
  session_terminate_and_close shc reason = shc.close (
      shc.request "session.terminate" (terminate_any (record { reason = reason })) >>= λ res.
      pure tt)

  -- The types of the requests, with their methods.
  unfoldable pub hangup_type : RequestType S CallHangupRequest
  unfolding session_terminate_and_close validate_hangup
  hangup_type = record {
    method_name = "call.hangup";
    read = read_hangup;
    validation = some (reading validate_hangup);
    on_after_reply = some (λ shc. session_terminate_and_close shc "call.hangup");
  }

  unfoldable pub move_type : RequestType S ApplicationMoveRequest
  unfolding session_terminate_and_close
  move_type = record {
    method_name = "application.move";
    read = read_move;
    validation = none;
    on_after_reply = some (λ shc. session_terminate_and_close shc "application.move");
  }

  unfoldable pub terminate_type : RequestType S SessionTerminateRequest
  terminate_type = record {
    method_name = "session.terminate";
    read = read_terminate;
    validation = some (reading validate_terminate);
    on_after_reply = some (λ shc. pure tt);
  }

  -- A request type with neither OnAfterReply nor Validate.
  abbrev pub plain_type : {T : Type 0} → String → (Json → Option T) → RequestType S T
  plain_type name read = record {
    method_name = name;
    read = read;
    validation = none;
    on_after_reply = none;
  }

  unfoldable pub recording_stop_type : RequestType S RecordingStopRequest
  recording_stop_type = record {
    method_name = "recording.stop";
    read = read_recording_stop;
    validation = some (reading validate_recording_stop);
    on_after_reply = none;
  }

-- The function of recording.stop; at nil, reading the ID panics.
abbrev pub stop_recording :
    {S : Type 0} → TelephonyAdapter S → Option RecordingStopRequest → Call S Any
stop_recording tel none = crash
stop_recording tel (some r) = tel.recording_stop r.id >> pure empty_any

module _ {S : Type 0} (fields : Fields S) where
  abbrev pub set_locked : Bool → S → S
  set_locked b s = fields.put (record (fields.get s) { locked = b }) s

  -- The deferred Unlock, which a panic runs too; a call that waits has not come to it.
  abbrev pub unlocking : {A : Type 0} → Outcome Error A × S → Outcome Error A × S
  unlocking (ok a, s) = (ok a, set_locked false s)
  unlocking (err e, s) = (err e, set_locked false s)
  unlocking (panic, s) = (panic, set_locked false s)
  unlocking (blocked, s) = (blocked, s)

  -- `mu.Lock(); defer mu.Unlock()` around a call.
  abbrev pub holding_mu : {A : Type 0} → Call S A → Call S A
  holding_mu m s = if (fields.get s).locked then (blocked, s) else unlocking (m (set_locked true s))

  -- ClientHandler.sessionInitialize; the request is by its JSON. As never returns nil, so the error
  -- "invalid response" does not occur.
  unfoldable pub initialize_new : Shc S → Any → Call S SessionInitializeResponse
  initialize_new shc payload = do
    r1 ← shc.request "session.initialize" payload
    r2 ← λ s. (as_type read_initialized r1.result, s)
    λ s. (ok tt, fields.put (record (fields.get s) { initialized = true; attached = true }) s)
    ignore (shc.notify "session.updated" (updated_any r2))
    pure r2

  unfoldable pub session_initialize : Shc S → Any → Call S SessionInitializeResponse
  unfolding initialize_new
  session_initialize shc payload = holding_mu λ s.
      if (fields.get s).initialized
      then (err (msg "session already initialized"), s)
      else initialize_new shc payload s

  -- ClientHandler.Terminate; `shc` is the field of that name.
  unfoldable pub terminate : Shc S → String → Call S (Unit {0})
  unfolding session_terminate_and_close
  terminate shc reason = holding_mu λ s.
      if not (fields.get s).initialized
      then (err (msg "termination failed: session not initialized"), s)
      else session_terminate_and_close shc reason s

  -- The variable `check` of NewClientHandler.
  unfoldable pub check : Shc S → Request → Call S (Unit {0})
  check shc req = holding_mu λ s.
      if not (fields.get s).initialized
      then (err (msg "session not initialized"), s)
      else (ok tt, s)

  abbrev guarded : RequestHandler S → HandlerArg S
  unfolding middleware check
  guarded h = requests (middleware check h)

  -- The callback for a pressed key, and the one for a hangup.
  notify_dtmf : Shc S → DtmfEvent → Call S (Unit {0})
  notify_dtmf shc e s =
      let seq = (fields.get s).dtmf_seq in
      ignore (shc.notify "dtmf" (dtmf_any (record e { seq = seq })))
        (fields.put (record (fields.get s) { dtmf_seq = seq +ℤ pos 1 }) s)

  notify_hangup : Shc S → CallHangupEvent → Call S (Unit {0})
  notify_hangup shc e =
      ignore (shc.notify "call.hangup" (hung_up_any e))
      >> ignore (shc.request "session.terminate" (terminate_any (record { reason = "hangup" })))

  module _ (tel : TelephonyAdapter S) (on_audio : Shc S → Call S (Unit {0})) where
    -- OnBegin of NewClientHandler; the argument is the session.initialize request.
    unfoldable pub begin : Any → Shc S → Call S (Unit {0})
    unfolding session_initialize notify_dtmf notify_hangup
    begin payload shc = do
      r ← session_initialize shc payload
      on_audio shc
      catch (tel.on_dtmf (notify_dtmf shc)) (λ e. fail (wrap "failed to setup DTMF" e))
      catch (tel.on_hangup (notify_hangup shc)) (λ e. fail (wrap "failed to setup hangup event" e))

    -- The handlers of NewClientHandler, in their order.
    handler_args : ℤ → List (HandlerArg S)
    unfolding handle_request middleware check hangup_type move_type terminate_type
        recording_stop_type handle_with_error new_ping_handler
    handler_args now =
        requests (new_ping_handler now)
        ∷ guarded (handle_request hangup_type (λ shc req p. tel.hang_up p >> pure empty_any))
        ∷ guarded (handle_request move_type (λ shc req p. tel.move p >>= λ r. pure (moved_any r)))
        ∷ requests (
            handle_with_error terminate_type (
              not_implemented
                "session.terminate is not supported. please use application.move or call.hangup instead"))
        ∷ guarded (
            handle_request (plain_type "audio.buffer.clear" read_clear)
              (λ shc req p. shc.clear_read_buffer >>= λ n. pure (cleared_any n)))
        ∷ guarded (
            handle_request (plain_type "session.set" read_set)
              (λ shc req p. tel.session_variables_set p >> pure empty_any))
        ∷ guarded (
            handle_request (plain_type "session.get" read_get)
              (λ shc req p. tel.session_variables_get p >>= λ m. pure (variables_any m)))
        ∷ guarded (
            handle_request (plain_type "recording.start" read_recording_start)
              (λ shc req p. tel.recording_start p >>= λ r. pure (started_any r)))
        ∷ guarded (handle_request recording_stop_type (λ shc req p. stop_recording tel p))
        ∷ []

    -- NewClientHandler; `now` is the clock of the ping handler.
    unfoldable pub new_client_handler : Any → ℤ → DefaultSessionHandler S
    unfolding begin handler_args
    new_client_handler payload now = new_handler (some (begin payload)) (handler_args now)
