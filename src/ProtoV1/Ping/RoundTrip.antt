-- ===== src/ProtoV1/Ping/RoundTrip.antt =====
-- proto/protov1/ping.go: a ping over the wire, and its handler.
use mathlib.Core.Option.{some-injective}
use rtvbp_go.Common.{
  ◌≡◌, ◌≢◌, ◌↔◌, inl, inr, refl, List, Option, none, some, arith, Bool-cases, eq_iff,
}
use rtvbp_go.Common.Int.{ℤ, pos, eqb_ℤ, eq_of_parts}
use rtvbp_go.Common.Act.{ok}
use rtvbp_go.Proto.Json.{Json, any_field, find, Bytes}
use rtvbp_go.Proto.Errors.{Error, error_text}
use rtvbp_go.Proto.RoundTrip.{sent_any}
use rtvbp_go.Common.{ℕ, ap, ◌∙◌}
use rtvbp_go.Handler.Shc.{Call}
use rtvbp_go.Handler.Typed.{handle_request}
use rtvbp_go.Session.Core.{Session, Env}
use rtvbp_go.Session.Calls.{session_shc}
use rtvbp_go.Session.Contract.{reading_explained, IsProper, Answers, Quietly}
use rtvbp_go.Session.Typed.{typed_handle-Answers}
use rtvbp_go.Transport.Interface.{Transport, IsTransport}
use rtvbp_go.ProtoV1.Ping.{
  PingRequest, PingResponse, validate_ping, validate_pong, pong_any, read_pong, as_pong, ping_type,
  pong, new_ping_handler, as_any, pong_fields,
}

pub as_pong-fields :
    (t0 t1 t2 owd : ℤ) (d : Option Json) (e : Option Error)
    → let p : PingResponse = record { t0 = t0; t1 = t1; t2 = t2; owd = owd; data_any = d } in
      as_pong (sent_any (as_any e (pong_fields p))) ≡ ok (record p { data_any = any_field d })
unfolding as_pong find read_pong
as_pong-fields t0 t1 t2 owd none none = refl
as_pong-fields t0 t1 t2 owd none (some x) = refl
as_pong-fields t0 t1 t2 owd (some j) none = refl
as_pong-fields t0 t1 t2 owd (some j) (some x) = refl

-- The answer to a ping is read by the pinger as it was made: the three times and the delay are the
-- same, and the data is too, but that `null` is nil.
pub as_pong-sent_any :
    (p : PingResponse)
    → as_pong (sent_any (pong_any p)) ≡ ok (record p { data_any = any_field p.data_any })
unfolding pong_any
as_pong-sent_any p = as_pong-fields p.t0 p.t1 p.t2 p.owd p.data_any (validate_pong p)

-- The answer to a ping validates exactly if none of its three times is 0.
pub validate_pong_iff :
    (p : PingResponse)
    → (validate_pong p ≡ none) ↔ ((p.t0 ≢ pos 0) × (p.t1 ≢ pos 0) × (p.t2 ≢ pos 0))
unfolding validate_pong
validate_pong_iff p =
    ground (arith, eq_of_parts p.t0 (pos 0), eq_of_parts p.t1 (pos 0), eq_of_parts p.t2 (pos 0))

ping_text : (p : PingRequest) (e : Error) → validate_ping p ≡ some e → error_text e ≢ ""
unfolding validate_ping error_text
ping_text p e h = elim (Bool-cases (eqb_ℤ p.t0 (pos 0))) [
  | inl z ↦ ground (arith, eq_iff "ping request T0 is required" "")
  | inr n ↦ ground arith
]

module _ {T : Type 0} (ops : Transport T) (env : Env T) (written : T → List Bytes)
    (laws : IsTransport ops written) (Ready : T → Type 0)
    (accepts : (b : Bytes) (t : T) → Ready t → (ops.write b t).0 ≡ ok tt)
    (close : Call (Session T) (Unit {0}) → Call (Session T) (Unit {0}))
    (clear : Call (Session T) ℕ) where
  pub ping_type-IsProper : IsProper (ping_type {S = Session T})
  unfolding ping_type
  ping_type-IsProper = record {
    hook_passes = λ shc s. refl;
    explained = λ v p e h k.
        reading_explained validate_ping p e (λ x. ping_text x e)
          (ap (λ w. w p) (some-injective _ _ h) ∙ k);
  }

  pong-Quietly :
      (now : ℤ) (p : Option PingRequest)
      → Quietly written Ready (λ req. pong now (session_shc ops env close clear) req p)
  unfolding pong
  pong-Quietly now none req s ready = tt
  pong-Quietly now (some p) req s ready = (refl, ready)

  -- The handler of pings answers each request that passed ParseValidMessage, as far as it returns.
  pub new_ping_handler-Answers :
      (now : ℤ)
      → Answers written Ready ((new_ping_handler now).handle (session_shc ops env close clear))
  unfolding new_ping_handler handle_request
  new_ping_handler-Answers now =
      typed_handle-Answers ops env written laws Ready accepts close clear ping_type (pong now)
        ping_type-IsProper (pong-Quietly now)
