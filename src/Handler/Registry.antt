-- ===== src/Handler/Registry.antt =====
-- handler.go: defaultSessionHandler and NewHandler.
use Prim.Native.String.{◌++◌ as cat}
use rtvbp_go.Common.{List, [], ◌∷◌, Option, none, some}
use rtvbp_go.Common.Assoc.{Assoc, lookup, insert}
use rtvbp_go.Common.Act.{pure, fail}
use rtvbp_go.Proto.Errors.{response, not_implemented}
use rtvbp_go.Proto.Message.{Request, Event}
use rtvbp_go.Handler.Shc.{Call, Shc, RequestHandler, EventHandler, SessionHandler}

module _ (S : Type 0) where
  pub record DefaultSessionHandler : Type 0 where
    pub event_handlers : Assoc (EventHandler S)
    pub request_handlers : Assoc (RequestHandler S)
    pub on_begin : Option (Shc S → Call S (Unit {0}))
    pub on_end : Option (Shc S → Call S (Unit {0}))

  -- An argument of NewHandler, by the case of its type switch that takes it.
  pub data HandlerArg : Type 0 where
    events : EventHandler S → HandlerArg
    requests : RequestHandler S → HandlerArg
    other : HandlerArg

module _ {S : Type 0} where
  add : DefaultSessionHandler S → HandlerArg S → DefaultSessionHandler S
  add d (events h) = record d { event_handlers = insert h.event_name h d.event_handlers }
  add d (requests h) = record d { request_handlers = insert h.method_name h d.request_handlers }
  add d other = d

  add_all : DefaultSessionHandler S → List (HandlerArg S) → DefaultSessionHandler S
  unfolding add
  add_all d [] = d
  add_all d (a ∷ args) = add_all (add d a) args

  -- NewHandler; the first argument is HandlerConfig.OnBegin.
  unfoldable pub new_handler :
      Option (Shc S → Call S (Unit {0})) → List (HandlerArg S) → DefaultSessionHandler S
  unfolding add_all
  new_handler on_begin args =
      add_all
        (record { event_handlers = []; request_handlers = []; on_begin = on_begin; on_end = none })
        args

  abbrev run_hook : Option (Shc S → Call S (Unit {0})) → Shc S → Call S (Unit {0})
  run_hook none shc = pure tt
  run_hook (some f) shc = f shc

  unfoldable pub on_begin : DefaultSessionHandler S → Shc S → Call S (Unit {0})
  on_begin d shc = run_hook d.on_begin shc

  unfoldable pub on_end : DefaultSessionHandler S → Shc S → Call S (Unit {0})
  on_end d shc = run_hook d.on_end shc

  abbrev call_request : Option (RequestHandler S) → Shc S → Request → Call S (Unit {0})
  call_request none shc req = fail (response (not_implemented (cat "unknown method: " req.method)))
  call_request (some h) shc req = h.handle shc req

  unfoldable pub on_request : DefaultSessionHandler S → Shc S → Request → Call S (Unit {0})
  on_request d shc req = call_request (lookup req.method d.request_handlers) shc req

  abbrev call_event : Option (EventHandler S) → Shc S → Event → Call S (Unit {0})
  call_event none shc evt = pure tt
  call_event (some h) shc evt = h.handle shc evt

  unfoldable pub on_event : DefaultSessionHandler S → Shc S → Event → Call S (Unit {0})
  on_event d shc evt = call_event (lookup evt.event d.event_handlers) shc evt

  unfoldable pub session_handler : DefaultSessionHandler S → SessionHandler S
  unfolding on_begin on_request on_event
  session_handler d = record {
    on_begin = on_begin d;
    on_request = on_request d;
    on_event = on_event d;
  }
