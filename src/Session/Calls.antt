-- ===== src/Session/Calls.antt =====
-- session.go, session_request.go and handler.go: sending, Request, the SHC of a session, and what the
-- session does with an incoming message.
use rtvbp_go.Common.{ℕ, String, Option, none, some, if◌then◌else◌}
use rtvbp_go.Common.Int.{ℤ, pos, eqb_ℤ}
use rtvbp_go.Common.Act.{Outcome, ◌>>=◌, ◌>>◌, pure, fail, ignore, catch, good, bad}
use rtvbp_go.Proto.Json.{Bytes}
use rtvbp_go.Proto.Errors.{
  Error, sentinel, request_failed, request_validation_failed, bad_json, wrap, join,
  to_response_error,
}
use rtvbp_go.Proto.Message.{
  Any, Request, Response, Event, Message, request, response, event, validate, new_event,
  new_request, request_not_ok, set_received_at,
}
use rtvbp_go.Proto.Parse.{marshal, parse_valid_message}
use rtvbp_go.Handler.Shc.{Call, Shc, SessionHandler}
use rtvbp_go.Session.Core.{
  Session, Env, draw, new_pending_request, resolve_pending_request, wait_response,
}
use rtvbp_go.Transport.Interface.{Transport, DataPackage}

module _ {T : Type 0} where
  abbrev lift_transport :
      Session T → Outcome Error (Unit {0}) × T → Outcome Error (Unit {0}) × Session T
  lift_transport s (o, t) = (o, record s { transport = t })

module _ {T : Type 0} (ops : Transport T) where
  abbrev write_marshalled : Option Bytes → Call (Session T) (Unit {0})
  write_marshalled none = fail (wrap "sending message failed" (sentinel bad_json))
  write_marshalled (some raw) = λ s. lift_transport s (ops.write raw s.transport)

  abbrev if_valid : Option Error → Call (Session T) (Unit {0}) → Call (Session T) (Unit {0})
  if_valid none k = k
  if_valid (some e) k = fail (join (sentinel request_validation_failed) e)

  -- Session.sendMessage
  unfoldable pub send_message : Message → Call (Session T) (Unit {0})
  send_message m = if_valid (validate m) (write_marshalled (marshal m))

module _ {T : Type 0} (ops : Transport T) (env : Env T) where
  -- Session.EventDispatch
  unfoldable pub event_dispatch : String → Any → Call (Session T) (Unit {0})
  event_dispatch name payload = do
    id ← draw env.fresh
    send_message ops (event (new_event id name payload))

  -- Session.Request
  unfoldable pub request_call : String → Any → Call (Session T) Response
  request_call method payload = do
    id ← draw env.fresh
    let req = new_request id method payload
    c ← new_pending_request id
    catch (send_message ops (request req)) (λ e. fail (join (sentinel request_failed) e))
    λ s. wait_response req c (env.others c s)

  -- sessionHandlerCtx. What a session does on Close and with its audio are arguments.
  unfoldable pub session_shc :
      (Call (Session T) (Unit {0}) → Call (Session T) (Unit {0}))
      → Call (Session T) ℕ
      → Shc (Session T)
  session_shc close clear = record {
    session_id = λ s. s.id;
    request = request_call;
    respond = λ res. send_message ops (response res);
    notify = event_dispatch;
    clear_read_buffer = clear;
    close = close;
    state = λ s. s.state;
  }

  module _ (shc : Shc (Session T)) where
    -- Session.handleEvent; an error is logged.
    unfoldable pub handle_event :
        Option (SessionHandler (Session T)) → Event → Call (Session T) (Unit {0})
    handle_event none evt = pure tt
    handle_event (some h) evt = ignore (h.on_event shc evt)

    -- Session.handleRequest; the error of the second answer is logged.
    unfoldable pub handle_request :
        Option (SessionHandler (Session T)) → Request → Call (Session T) (Unit {0})
    handle_request none req = pure tt
    handle_request (some h) req =
        catch (h.on_request shc req)
          λ e. ignore (shc.respond (request_not_ok req (to_response_error e)))

    -- Session.handleIncomingMessage
    unfoldable pub handle_incoming_message :
        Option (SessionHandler (Session T)) → Message → Call (Session T) (Unit {0})
    unfolding handle_event handle_request
    handle_incoming_message h (event e) = handle_event h e
    handle_incoming_message h (request r) = handle_request h r
    handle_incoming_message h (response r) = resolve_pending_request r

    -- The body of the reading loop in Run, for one package; `now` is the clock.
    unfoldable pub receive :
        Option (SessionHandler (Session T)) → ℤ → DataPackage → Call (Session T) (Unit {0})
    receive h now p = elim (parse_valid_message p.data_bytes) [
      | bad e ↦ pure tt
      | good m ↦
          handle_incoming_message h
            (set_received_at (if eqb_ℤ p.received_at (pos 0) then now else p.received_at) m)
    ]
