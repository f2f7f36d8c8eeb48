-- ===== src/Demo/Server/Answering.antt =====
-- examples/rtvbp-demo-server/main.go: the demo server answers its requests.
use mathlib.Core.Option.{some-injective}
use rtvbp_go.Common.{
  ℕ, String, is_empty, Bool-cases, ◌≡◌, ◌≢◌, refl, ap, ◌∙◌, ◌⊎◌, inl, inr, List, [], ◌∷◌, Option,
  none, some, arith, eq_iff,
}
use rtvbp_go.Common.Int.{ℤ}
use rtvbp_go.Common.Assoc.{lookup, insert, delete}
use rtvbp_go.Common.Act.{ok, pure}
use rtvbp_go.Proto.Json.{Bytes}
use rtvbp_go.Proto.Errors.{Error, msg, error_text}
use rtvbp_go.Handler.Shc.{Call, Shc, RequestHandler}
use rtvbp_go.Handler.Typed.{handle_request}
use rtvbp_go.Handler.Registry.{on_request, new_handler}
use rtvbp_go.Session.Core.{Session, Env}
use rtvbp_go.Session.Calls.{session_shc}
use rtvbp_go.Session.Errors.{IsSendable, msg-IsSendable}
use rtvbp_go.Session.Contract.{reading_explained, IsProper, Answers, Quietly, Quiet}
use rtvbp_go.Session.Typed.{typed_handle-Answers}
use rtvbp_go.Session.Answers.{on_request-Answers}
use rtvbp_go.Transport.Interface.{Transport, IsTransport}
use rtvbp_go.ProtoV1.Requests.{
  AudioCodec, SessionInitializeRequest, SessionTerminateRequest, validate_terminate,
}
use rtvbp_go.ProtoV1.Ping.{new_ping_handler, ping_type}
use rtvbp_go.ProtoV1.Ping.RoundTrip.{new_ping_handler-Answers}
use rtvbp_go.ProtoV1.Client.{terminate_type}
use rtvbp_go.ProtoV1.Client.Wire.{empty_any}
use rtvbp_go.Demo.Server.{demo_handler, initialize_type, accept_first, take_first}

three_found :
    {V : Type 0} (j k l name : String) (a b c h : V)
    → lookup name ((j, a) ∷ (k, b) ∷ (l, c) ∷ []) ≡ some h
    → (a ≡ h) ⊎ ((b ≡ h) ⊎ (c ≡ h))
unfolding lookup
three_found j k l name a b c h e = ground arith

module _ {S : Type 0} where
  abbrev pub initialize_handler : RequestHandler S
  initialize_handler = handle_request initialize_type (λ shc req p. accept_first shc p)

  abbrev pub terminate_handler : RequestHandler S
  terminate_handler = handle_request terminate_type (λ shc req p. pure empty_any)

  -- The request handlers of the demo server.
  pub handlers_found :
      (now : ℤ) (name : String) (h : RequestHandler S)
      → lookup name (demo_handler now).request_handlers ≡ some h
      → (new_ping_handler now ≡ h) ⊎ ((terminate_handler ≡ h) ⊎ (initialize_handler ≡ h))
  unfolding demo_handler new_handler lookup insert delete handle_request initialize_type
      terminate_type new_ping_handler ping_type
  handlers_found now name h e =
      three_found "ping" "session.terminate" "session.initialize" name (new_ping_handler now)
        terminate_handler initialize_handler h e

reason_text :
    (p : SessionTerminateRequest) (e : Error) → validate_terminate p ≡ some e → error_text e ≢ ""
unfolding validate_terminate error_text
reason_text p e h = elim (Bool-cases (is_empty p.reason)) [
  | inl z ↦ ground (arith, eq_iff "session.terminate request reason is required" "")
  | inr n ↦ ground arith
]

module _ {T : Type 0} (ops : Transport T) (env : Env T) (written : T → List Bytes)
    (laws : IsTransport ops written) (Ready : T → Type 0)
    (accepts : (b : Bytes) (t : T) → Ready t → (ops.write b t).0 ≡ ok tt)
    (close : Call (Session T) (Unit {0}) → Call (Session T) (Unit {0}))
    (clear : Call (Session T) ℕ) where
  abbrev shc : Shc (Session T)
  shc = session_shc ops env close clear

  initialize_type-IsProper : IsProper (initialize_type {S = Session T})
  unfolding initialize_type
  initialize_type-IsProper = record {
    hook_passes = λ shc s. refl;
    explained = λ v p e h k. absurd cc;
  }

  terminate_type-IsProper : IsProper (terminate_type {S = Session T})
  unfolding terminate_type
  terminate_type-IsProper = record {
    hook_passes = λ shc s. refl;
    explained = λ v p e h k.
        reading_explained validate_terminate p e (λ x. reason_text x e)
          (ap (λ w. w p) (some-injective _ _ h) ∙ k);
  }

  no_offer : IsSendable (msg "no audio codec offerings")
  no_offer = msg-IsSendable _ (ground (arith, eq_iff "no audio codec offerings" ""))

  take_first-Quiet :
      (o : Option (List AudioCodec)) (s : Session T)
      → Ready s.transport
      → Quiet written Ready (written s.transport) (take_first o s)
  take_first-Quiet none s ready = ((refl, ready), no_offer)
  take_first-Quiet (some []) s ready = ((refl, ready), no_offer)
  take_first-Quiet (some (c ∷ cs)) s ready = (refl, ready)

  accept_first-Quietly :
      (p : Option SessionInitializeRequest) → Quietly written Ready (λ req. accept_first shc p)
  unfolding accept_first
  accept_first-Quietly none req s ready = tt
  accept_first-Quietly (some p) req s ready = take_first-Quiet p.audio_codec_offerings s ready

  initialize_handler-Answers : Answers written Ready (initialize_handler.handle shc)
  unfolding handle_request
  initialize_handler-Answers =
      typed_handle-Answers ops env written laws Ready accepts close clear initialize_type
        (λ shc req p. accept_first shc p) initialize_type-IsProper accept_first-Quietly

  terminate_handler-Answers : Answers written Ready (terminate_handler.handle shc)
  unfolding handle_request
  terminate_handler-Answers =
      typed_handle-Answers ops env written laws Ready accepts close clear terminate_type
        (λ shc req p. pure empty_any) terminate_type-IsProper (λ p req s ready. (refl, ready))

  -- The demo server's handler answers each request that passed ParseValidMessage, as far as it returns.
  pub demo_handler-Answers : (now : ℤ) → Answers written Ready (on_request (demo_handler now) shc)
  demo_handler-Answers now =
      on_request-Answers ops env written laws Ready accepts close clear (demo_handler now)
        λ name h e. elim (handlers_found now name h e) [
          | inl is ↦
              rw (← is)
                (new_ping_handler-Answers ops env written laws Ready accepts close clear now)
          | inr (inl is) ↦ rw (← is) terminate_handler-Answers
          | inr (inr is) ↦ rw (← is) initialize_handler-Answers
        ]
