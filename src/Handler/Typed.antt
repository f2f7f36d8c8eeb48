-- ===== src/Handler/Typed.antt =====
-- request.go, request_middleware.go and event.go: the typed handlers, which decode and validate what
-- came, call the user's function, and answer.
use rtvbp_go.Common.{String, Option, none, some}
use rtvbp_go.Common.Act.{Outcome, ok, err, panic, blocked, ◌>>=◌, ◌>>◌, pure, fail, crash, catch}
use rtvbp_go.Proto.Json.{Json, null}
use rtvbp_go.Proto.Errors.{
  Error, sentinel, bad_json, wrap, response, ResponseError, new_error, bad_request,
  err_internal_server_error,
}
use rtvbp_go.Proto.Message.{Any, validate_any, Request, Event, request_ok}
use rtvbp_go.Proto.Parse.{marshal_any}
use rtvbp_go.Handler.Shc.{Call, Shc, RequestHandler, EventHandler}

-- A pointer type `*T` that stands for REQ: its MethodName, how json reads a `T` (`none`: an error),
-- and its methods Validate and OnAfterReply, if it has them. Validate is called on a pointer, which may
-- be nil. No OnAfterReply reads its receiver.
pub record RequestType (S T : Type 0) : Type 0 where
  pub method_name : String
  pub read : Json → Option T
  pub validation : Option (Option T → Outcome Error (Unit {0}))
  pub on_after_reply : Option (Shc S → Call S (Unit {0}))

abbrev pub checked : Option Error → Outcome Error (Unit {0})
checked none = ok tt
checked (some e) = err e

-- A Validate that first reads a field of its receiver: at nil that panics.
abbrev pub reading : {T : Type 0} → (T → Option Error) → Option T → Outcome Error (Unit {0})
reading v none = panic
reading v (some p) = checked (v p)

module _ {S : Type 0} where
  -- `raw, err := json.Marshal(x)`; the text `null` is `none`.
  abbrev pub to_raw : Option (Option Json) → Call S (Option Json)
  to_raw none = fail (wrap "marshal data" (sentinel bad_json))
  to_raw (some j) = pure j

  abbrev pub bad_params : Outcome Error (Unit {0}) → Call S (Unit {0})
  bad_params (ok u) = pure tt
  bad_params (err e) = fail (response (bad_request e))
  bad_params panic = crash
  bad_params blocked = λ s. (blocked, s)

  module _ {T : Type 0} where
    abbrev pub read_some : Option T → Call S (Option T)
    read_some none = fail (wrap "unmarshal into type" (sentinel bad_json))
    read_some (some v) = pure (some v)

    -- `var p *T; json.Unmarshal(raw, &p)`: the text `null` leaves the nil pointer.
    abbrev pub unmarshal_into : (Json → Option T) → Option Json → Call S (Option T)
    unmarshal_into read none = pure none
    unmarshal_into read (some null) = pure none
    unmarshal_into read (some j) = read_some (read j)

    -- `if v, ok := any(p).(Validatable); ok`
    abbrev pub validate_params :
        Option (Option T → Outcome Error (Unit {0})) → Option T → Call S (Unit {0})
    validate_params none p = pure tt
    validate_params (some v) p = bad_params (v p)

  abbrev pub validate_result : Option Error → Call S (Unit {0})
  validate_result none = pure tt
  validate_result (some e) =
      fail
        (response (new_error err_internal_server_error (wrap "failed to produce valid response" e)))

  abbrev pub after_reply : Option (Shc S → Call S (Unit {0})) → Shc S → Call S (Unit {0})
  after_reply none shc = pure tt
  after_reply (some hook) shc = hook shc

  -- What typedRequestHandler.Handle does with the result of the user's function.
  unfoldable pub reply :
      Option (Shc S → Call S (Unit {0})) → Shc S → Request → Any → Call S (Unit {0})
  reply hook shc req res = do
    validate_result (validate_any res)
    catch (shc.respond (request_ok req res)) (λ e. fail (wrap "failed to respond" e))
    after_reply hook shc

  module _ {T : Type 0} where
    -- typedRequestHandler.Handle. The user's function also gets the request itself, which the source
    -- passes on in the context; what it returns is taken as an `any`.
    unfoldable pub typed_handle :
        RequestType S T
        → (Shc S → Request → Option T → Call S Any)
        → Shc S
        → Request
        → Call S (Unit {0})
    typed_handle t h shc req = do
      raw ← to_raw (marshal_any req.params)
      params ← unmarshal_into t.read raw
      validate_params t.validation params
      res ← h shc req params
      reply t.on_after_reply shc req res

    -- HandleRequest
    unfoldable pub handle_request :
        RequestType S T → (Shc S → Request → Option T → Call S Any) → RequestHandler S
    unfolding typed_handle
    handle_request t h = record { method_name = t.method_name; handle = typed_handle t h }

    -- HandleWithError
    unfoldable pub handle_with_error : RequestType S T → ResponseError → RequestHandler S
    unfolding handle_request
    handle_with_error t e = handle_request t (λ shc req params. fail (response e))

    -- typedEventHandler.Handle
    unfoldable pub typed_handle_event :
        (Json → Option T)
        → (Shc S → Option T → Call S (Unit {0}))
        → Shc S
        → Event
        → Call S (Unit {0})
    typed_handle_event read h shc evt = do
      raw ← to_raw (marshal_any evt.payload)
      value ← unmarshal_into read raw
      h shc value

    -- HandleEvent: an event type gives its name and reader.
    unfoldable pub handle_event :
        String → (Json → Option T) → (Shc S → Option T → Call S (Unit {0})) → EventHandler S
    unfolding typed_handle_event
    handle_event name read h = record { event_name = name; handle = typed_handle_event read h }

  -- requestMiddleware and Middleware
  unfoldable pub middleware :
      (Shc S → Request → Call S (Unit {0})) → RequestHandler S → RequestHandler S
  middleware fn next = record {
    method_name = next.method_name;
    handle = λ shc req. fn shc req >> next.handle shc req;
  }
