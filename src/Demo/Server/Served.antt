-- ===== src/Demo/Server/Served.antt =====
-- examples/rtvbp-demo-server/main.go, session.go: what a session of the demo server does with a request.
use rtvbp_go.Common.{
  ℕ, ◌≡◌, ◌≢◌, refl, ap, sym, ◌∙◌, true, List, [], ◌∷◌, Option, none, some, Option-cases, inl, inr,
}
use mathlib.Core.Option.{some-injective}
use rtvbp_go.Common.Int.{ℤ}
use rtvbp_go.Common.Assoc.{lookup}
use rtvbp_go.Common.Act.{Outcome, ok, pure}
use rtvbp_go.Proto.Json.{Json, null, Bytes}
use rtvbp_go.Proto.Errors.{Error}
use rtvbp_go.Proto.Message.{Request, Message}
use rtvbp_go.Proto.Parse.{marshal_any}
use rtvbp_go.Proto.WellFormed.{IsWellFormed}
use rtvbp_go.Handler.Shc.{Call, Shc}
use rtvbp_go.Handler.Typed.{handle_request, checked, reading}
use rtvbp_go.Handler.Registry.{on_request, session_handler}
use rtvbp_go.Session.Core.{Session, Env}
use rtvbp_go.Session.Calls.{session_shc}
use rtvbp_go.Session.Calls
use rtvbp_go.Session.Contract.{OneAnswer}
use rtvbp_go.Session.Answers.{handle_request_once}
use rtvbp_go.Session.Returns.{has_returned, HasReturned, typed_handle-HasReturned, handled-ok}
use rtvbp_go.Transport.Interface.{Transport, IsTransport}
use rtvbp_go.ProtoV1.Requests.{AudioCodec, validate_terminate}
use rtvbp_go.ProtoV1.Ping.{new_ping_handler, ping_type, pong, validate_ping}
use rtvbp_go.ProtoV1.Client.{terminate_type}
use rtvbp_go.ProtoV1.Client.Wire.{empty_any}
use rtvbp_go.Demo.Server.{demo_handler, initialize_type, accept_first, take_first}
use rtvbp_go.Demo.Server.Answering.{
  handlers_found, initialize_handler, terminate_handler, demo_handler-Answers,
}

checked_returned : (o : Option Error) → has_returned (checked o) ≡ true
checked_returned none = refl
checked_returned (some e) = refl

-- A Validate that reads its receiver returns where there is one.
reading_returned :
    {T : Type 0} (w : T → Option Error) (v : Option T → Outcome Error (Unit {0})) (p : T)
    → some (reading w) ≡ some v
    → has_returned (v (some p)) ≡ true
reading_returned w v p same =
    ap (λ u. has_returned (u (some p))) (sym (some-injective _ _ same)) ∙ checked_returned (w p)

module _ {T : Type 0} (ops : Transport T) (env : Env T) (written : T → List Bytes)
    (laws : IsTransport ops written) (Ready : T → Type 0)
    (accepts : (b : Bytes) (t : T) → Ready t → (ops.write b t).0 ≡ ok tt)
    (close : Call (Session T) (Unit {0}) → Call (Session T) (Unit {0}))
    (clear : Call (Session T) ℕ) where
  abbrev shc : Shc (Session T)
  shc = session_shc ops env close clear

  take_first_works :
      (o : Option (List AudioCodec)) (s : Session T)
      → Ready s.transport
      → HasReturned (take_first o s) × Ready (take_first o s).1.transport
  take_first_works none s ready = (refl, ready)
  take_first_works (some []) s ready = (refl, ready)
  take_first_works (some (c ∷ cs)) s ready = (refl, ready)

  module _ (req : Request) (j : Json) (s : Session T)
      (given : marshal_any req.params ≡ some (some j)) (n : j ≢ null)
      (ready : Ready s.transport) where
    ping-HasReturned : (now : ℤ) → HasReturned ((new_ping_handler now).handle shc req s)
    unfolding new_ping_handler handle_request ping_type pong
    ping-HasReturned now =
        typed_handle-HasReturned ops env written Ready accepts close clear ping_type (pong now)
          (λ t. refl) req j s (λ v p same. reading_returned validate_ping v p same)
          (λ p t r. (refl, r)) given n ready

    terminate-HasReturned : HasReturned (terminate_handler.handle shc req s)
    unfolding handle_request terminate_type
    terminate-HasReturned =
        typed_handle-HasReturned ops env written Ready accepts close clear terminate_type
          (λ shc req p. pure empty_any) (λ t. refl) req j s
          (λ v p same. reading_returned validate_terminate v p same) (λ p t r. (refl, r)) given n
          ready

    initialize-HasReturned : HasReturned (initialize_handler.handle shc req s)
    unfolding handle_request initialize_type accept_first
    initialize-HasReturned =
        typed_handle-HasReturned ops env written Ready accepts close clear initialize_type
          (λ shc req p. accept_first shc p) (λ t. refl) req j s (λ v p same. absurd cc)
          (λ p t r. take_first_works p.audio_codec_offerings t r) given n ready

    found-HasReturned : (now : ℤ) → HasReturned (on_request (demo_handler now) shc req s)
    unfolding on_request
    found-HasReturned now =
        elim (Option-cases
          (lookup req.method (demo_handler {S = Session T} now).request_handlers)) [
            | inl missing ↦ rw missing refl
            | inr (h, found) ↦ rw found (elim (handlers_found now req.method h found) [
              | inl is ↦ rw (← is) (ping-HasReturned now)
              | inr (inl is) ↦ rw (← is) terminate-HasReturned
              | inr (inr is) ↦ rw (← is) initialize-HasReturned
            ])
          ]

  -- A well-formed request with params other than `null`, whatever its method, that arrives at a session
  -- of the demo server while the transport takes the next frame: handleRequest returns, and has written
  -- just one more frame, which is read as a response with the request's id.
  pub demo_server-OneAnswer :
      (now : ℤ) (req : Request) (j : Json) (s : Session T)
      → IsWellFormed (Message.request req)
      → marshal_any req.params ≡ some (some j)
      → j ≢ null
      → Ready s.transport
      → let x =
          Calls.handle_request ops env shc (some (session_handler (demo_handler now))) req s in
        (x.0 ≡ ok tt) × OneAnswer written (written s.transport) req.id x.1
  unfolding Calls.handle_request session_handler session_shc
  demo_server-OneAnswer now req j s w given n ready =
      let answers = demo_handler-Answers ops env written laws Ready accepts close clear now in
      let done =
        handled-ok ops env written Ready accepts close clear req (written s.transport)
          (on_request (demo_handler now) shc req s) (answers req s w ready)
          (found-HasReturned req j s given n ready now) in
      (
        done,
        handle_request_once ops env written laws Ready accepts close clear
            (session_handler (demo_handler now)) req s answers w ready done,
      )
