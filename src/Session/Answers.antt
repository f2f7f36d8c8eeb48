-- ===== src/Session/Answers.antt =====
-- request.go, request_middleware.go, handler.go and session.go: how a request that
-- arrives is answered.
use Prim.Native.String.{◌++◌ as cat}
use rtvbp_go.Common.{
  ℕ, String, ◌≡◌, refl, List, [], ◌∷◌, ◌++◌, none, some, arith, Option-cases, inl, inr, eq_iff,
}
use rtvbp_go.Common.Act.{Outcome, ok, err, panic, blocked, ignore, recover, forget}
use rtvbp_go.Proto.Json.{Bytes}
use rtvbp_go.Proto.Errors.{Error, response, not_implemented, to_response_error}
use rtvbp_go.Proto.Message.{Request, Message, request_not_ok}
use rtvbp_go.Proto.Parse.{marshal}
use rtvbp_go.Proto.WellFormed.{IsWellFormed, validate_iff}
use rtvbp_go.Handler.Shc.{Call, Shc, RequestHandler, SessionHandler}
use rtvbp_go.Common.Assoc.{lookup}
use rtvbp_go.Handler.Registry.{DefaultSessionHandler, on_request, session_handler}
use rtvbp_go.Handler.Typed.{middleware}
use rtvbp_go.Session.Core.{Session, Env}
use rtvbp_go.Session.Calls.{send_message, session_shc, handle_request}
use rtvbp_go.Session.Errors.{IsSendable, not_implemented-IsSendable, cat-ne_left}
use rtvbp_go.Session.Contract.{OneAnswer, Answered, Answered-continue, Answers, Quietly}
use rtvbp_go.Session.Replies.{after_write-OneAnswer, after_write-sent}
use rtvbp_go.Session.Sending.{Carries, send_message_marshalled}
use rtvbp_go.Proto.RoundTrip.{sent}
use rtvbp_go.Transport.Interface.{Transport, IsTransport}

module _ {T : Type 0} (ops : Transport T) (env : Env T) (written : T → List Bytes)
    (laws : IsTransport ops written) (Ready : T → Type 0)
    (accepts : (b : Bytes) (t : T) → Ready t → (ops.write b t).0 ≡ ok tt)
    (close : Call (Session T) (Unit {0}) → Call (Session T) (Unit {0}))
    (clear : Call (Session T) ℕ) where
  -- The session's own SHC.
  abbrev shc : Shc (Session T)
  shc = session_shc ops env close clear

  -- The middleware: a check that writes nothing may be put in front.
  pub middleware-Answers :
      (fn : Shc (Session T) → Request → Call (Session T) (Unit {0}))
      (next : RequestHandler (Session T))
      → Quietly written Ready (fn shc)
      → Answers written Ready (next.handle shc)
      → Answers written Ready ((middleware fn next).handle shc)
  unfolding middleware
  middleware-Answers fn next quiet h req s w ready =
      Answered-continue written Ready _ _ (fn shc req s) _ (quiet req s ready)
        λ u s1 q1. rw (← q1.0) (h req s1 w q1.1)

  -- While the transport takes the next frame: if each handler of the table answers, so does the table,
  -- as far as it returns.
  pub on_request-Answers :
      (d : DefaultSessionHandler (Session T))
      → ((name : String) (h : RequestHandler (Session T))
          → lookup name d.request_handlers ≡ some h
          → Answers written Ready (h.handle shc))
      → Answers written Ready (on_request d shc)
  unfolding on_request
  on_request-Answers d all req s w ready =
      elim (Option-cases (lookup req.method d.request_handlers)) [
        | inl missing ↦ rw missing (
          (refl, ready),
          not_implemented-IsSendable _
              (cat-ne_left _ _ (ground (arith, eq_iff "unknown method: " ""))),
        )
        | inr (h, found) ↦ rw found (all req.method h found req s w ready)
      ]

  not_ok-IsWellFormed :
      (req : Request) (e : Error)
      → IsWellFormed (Message.request req)
      → IsSendable e
      → IsWellFormed (Message.response (request_not_ok req (to_response_error e)))
  unfolding request_not_ok
  not_ok-IsWellFormed req e (v, i, m, p) h = (v, i, (h.has_code, h.has_message), refl)

  forget-state : (r : Outcome Error (Unit {0}) × Session T) → (forget r).1 ≡ r.1
  forget-state (ok u, s) = refl
  forget-state (err e, s) = refl
  forget-state (panic, s) = refl
  forget-state (blocked, s) = refl

  -- The answer that the session gives for an error.
  pub answer_error :
      (req : Request) (e : Error) (s : Session T)
      → IsWellFormed (Message.request req)
      → IsSendable e
      → Ready s.transport
      → OneAnswer written
          (written s.transport)
          req.id
          (ignore
            (send_message ops (Message.response (request_not_ok req (to_response_error e))))
            s).1
  unfolding request_not_ok marshal
  answer_error req e s w h ready =
      let m = request_not_ok req (to_response_error e) in
      let v = (validate_iff (Message.response m)).1 (not_ok-IsWellFormed req e w h) in
      rw (forget-state (send_message ops (Message.response m) s)) (
        rw (send_message_marshalled ops (Message.response m) s _ v refl)
          (after_write-OneAnswer ops written laws Ready accepts m s _ v refl ready).1)

  recovered_once :
      (req : Request) (b : List Bytes) (r : Outcome Error (Unit {0}) × Session T)
      → IsWellFormed (Message.request req)
      → Answered written Ready b req.id r
      → let r' = recover r λ e. ignore (shc.respond (request_not_ok req (to_response_error e))) in
        r'.0 ≡ ok tt → OneAnswer written b req.id r'.1
  unfolding session_shc
  recovered_once req b (ok u, s) w h done = h
  recovered_once req b (err e, s) w (q, h) done = rw (← q.0) (answer_error req e s w h q.1)
  recovered_once req b (panic, s) w h done = absurd cc
  recovered_once req b (blocked, s) w h done = absurd cc

  -- A request that arrives at a session whose handler answers, while its transport takes the next
  -- frame, is answered exactly once: if handleRequest returns (the handler neither panics nor waits), then
  -- it has written one more frame, which is read as a response with the request's id.
  pub handle_request_once :
      (h : SessionHandler (Session T)) (req : Request) (s : Session T)
      → Answers written Ready (h.on_request shc)
      → IsWellFormed (Message.request req)
      → Ready s.transport
      → (handle_request ops env shc (some h) req s).0 ≡ ok tt
      → OneAnswer written (written s.transport) req.id (handle_request ops env shc (some h) req s).1
  unfolding handle_request
  handle_request_once h req s answers w ready done =
      recovered_once req (written s.transport) (h.on_request shc req s) w (answers req s w ready)
        done

  -- A request that arrives at a session whose table does not have its method, while the transport takes
  -- the next frame: handleRequest returns, and has written just one more frame, which is read as the
  -- response to that request with the error "not implemented" and the name of the method.
  pub unknown_method-answered :
      (d : DefaultSessionHandler (Session T)) (req : Request) (s : Session T)
      → lookup req.method d.request_handlers ≡ none
      → IsWellFormed (Message.request req)
      → Ready s.transport
      → let x = handle_request ops env shc (some (session_handler d)) req s in
        let refusal = not_implemented (cat "unknown method: " req.method) in
        (x.0 ≡ ok tt)
        × (raw : Bytes) × (written x.1.transport ≡ written s.transport ++ raw ∷ [])
        × Carries raw (sent (Message.response (request_not_ok req refusal)))
  unfolding handle_request session_handler on_request request_not_ok marshal to_response_error
      session_shc
  unknown_method-answered d req s missing w ready =
      let refusal = not_implemented (cat "unknown method: " req.method) in
      let m = request_not_ok req refusal in
      let v = (validate_iff (Message.response m)).1 (
        not_ok-IsWellFormed req (response refusal) w (
          not_implemented-IsSendable _
            (cat-ne_left _ _ (ground (arith, eq_iff "unknown method: " ""))))) in
      let (took, raw, there, read) =
        after_write-sent ops written laws Ready accepts m s _ v refl ready in
      rw (missing, send_message_marshalled ops (Message.response m) s _ v refl, took)
        (refl, raw, there, read)
