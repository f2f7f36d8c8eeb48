-- ===== src/Session/Returns.antt =====
-- request.go and session.go: handlers that return, whatever comes, and what handleRequest then does.
use rtvbp_go.Common.{
  ℕ, ◌≡◌, ◌≢◌, refl, sym, ap, ◌∙◌, Bool, true, false, List, Option, none, some, Option-cases, inl,
  inr,
}
use rtvbp_go.Common.Act.{Outcome, ok, err, panic, blocked, continue, recover, ignore, forget, fail}
use rtvbp_go.Proto.Json.{Json, null, Bytes}
use rtvbp_go.Proto.Errors.{Error, wrap, to_response_error}
use rtvbp_go.Proto.Message.{Any, validate_any, Request, Message, request_ok, request_not_ok}
use rtvbp_go.Proto.Parse.{marshal_any}
use rtvbp_go.Handler.Shc.{Call, Shc}
use rtvbp_go.Handler.Typed.{
  RequestType, read_some, bad_params, unmarshal_into, validate_params, after_reply, reply,
  typed_handle,
}
use rtvbp_go.Session.Core.{Session, Env}
use rtvbp_go.Session.Calls.{send_message, session_shc}
use rtvbp_go.Session.Contract.{Answered}
use rtvbp_go.Session.Sending.{send_message_cases}
use rtvbp_go.Transport.Interface.{Transport}

-- The call has returned: it neither panics nor waits.
abbrev pub has_returned : {A : Type 0} → Outcome Error A → Bool
has_returned (ok a) = true
has_returned (err e) = true
has_returned panic = false
has_returned blocked = false

abbrev pub HasReturned : {A S : Type 0} → Outcome Error A × S → Type 0
HasReturned x = has_returned x.0 ≡ true

continue-HasReturned :
    {A B S : Type 0} (r : Outcome Error A × S) (k : A → Call S B)
    → HasReturned r
    → ((a : A) (s : S) → r ≡ (ok a, s) → HasReturned (k a s))
    → HasReturned (continue r k)
continue-HasReturned (ok a, s) k h then = then a s refl
continue-HasReturned (err e, s) k h then = refl
continue-HasReturned (panic, s) k h then = absurd cc
continue-HasReturned (blocked, s) k h then = absurd cc

bad_params-HasReturned :
    {S : Type 0} (o : Outcome Error (Unit {0})) (s : S)
    → has_returned o ≡ true
    → HasReturned (bad_params o s)
bad_params-HasReturned (ok u) s h = refl
bad_params-HasReturned (err e) s h = refl
bad_params-HasReturned panic s h = absurd cc
bad_params-HasReturned blocked s h = absurd cc

bad_params-state : {S : Type 0} (o : Outcome Error (Unit {0})) (s : S) → (bad_params o s).1 ≡ s
bad_params-state (ok u) s = refl
bad_params-state (err e) s = refl
bad_params-state panic s = refl
bad_params-state blocked s = refl

forget-ok : {S : Type 0} (x : Outcome Error (Unit {0}) × S) → HasReturned x → (forget x).0 ≡ ok tt
forget-ok (ok u, s) h = refl
forget-ok (err e, s) h = refl
forget-ok (panic, s) h = absurd cc
forget-ok (blocked, s) h = absurd cc

-- Params that are not `null` are read, or refused.
unmarshal_into-given :
    {S T : Type 0} (read : Json → Option T) (j : Json) (s : S)
    → j ≢ null
    → unmarshal_into read (some j) s ≡ read_some (read j) s
unmarshal_into-given read null s n = absurd (n refl)
unmarshal_into-given read (Json.bool b) s n = refl
unmarshal_into-given read (Json.num k) s n = refl
unmarshal_into-given read (Json.str t) s n = refl
unmarshal_into-given read (Json.arr xs) s n = refl
unmarshal_into-given read (Json.obj fs) s n = refl

module _ {T : Type 0} (ops : Transport T) (env : Env T) (written : T → List Bytes)
    (Ready : T → Type 0) (accepts : (b : Bytes) (t : T) → Ready t → (ops.write b t).0 ≡ ok tt)
    (close : Call (Session T) (Unit {0}) → Call (Session T) (Unit {0}))
    (clear : Call (Session T) ℕ) where
  abbrev shc : Shc (Session T)
  shc = session_shc ops env close clear

  send-HasReturned :
      (m : Message) (s : Session T) → Ready s.transport → HasReturned (send_message ops m s)
  send-HasReturned m s ready = elim (send_message_cases ops m s) [
    | inl (x, e) ↦ rw e refl
    | inr (raw, v, made, e) ↦ rw (e, accepts raw s.transport ready) refl
  ]

  recover-HasReturned :
      (r : Outcome Error (Unit {0}) × Session T)
      → HasReturned r
      → HasReturned (recover r (λ e. fail (wrap "failed to respond" e)))
  recover-HasReturned (ok u, s) h = refl
  recover-HasReturned (err e, s) h = refl
  recover-HasReturned (panic, s) h = absurd cc
  recover-HasReturned (blocked, s) h = absurd cc

  reply-HasReturned :
      (hook : Option (Shc (Session T) → Call (Session T) (Unit {0}))) (req : Request) (res : Any)
      (s : Session T)
      → ((t : Session T) → after_reply hook shc t ≡ (ok tt, t))
      → Ready s.transport
      → HasReturned (reply hook shc req res s)
  unfolding reply session_shc
  reply-HasReturned hook req res s passes ready = elim (Option-cases (validate_any res)) [
    | inr (e, v) ↦ rw v refl
    | inl v ↦ rw v (
        continue-HasReturned _ (λ u. after_reply hook shc)
          (recover-HasReturned _ (send-HasReturned (Message.response (request_ok req res)) s ready))
          (λ u t same. ap (λ x. has_returned x.0) (passes t)))
  ]

  module _ {P : Type 0} (t : RequestType (Session T) P)
      (f : Shc (Session T) → Request → Option P → Call (Session T) Any)
      (passes : (s : Session T) → after_reply t.on_after_reply shc s ≡ (ok tt, s)) where
    -- The function returns, and the transport takes the next frame still.
    abbrev pub Works : Request → Type 0
    Works req =
        (p : P) (s : Session T)
        → Ready s.transport
        → HasReturned (f shc req (some p) s) × Ready (f shc req (some p) s).1.transport

    worked-HasReturned :
        (req : Request) (p : P) (s : Session T)
        → Works req
        → Ready s.transport
        → HasReturned (continue (f shc req (some p) s) (λ res. reply t.on_after_reply shc req res))
    worked-HasReturned req p s works ready =
        let (back, still) = works p s ready in
        continue-HasReturned _ (λ res. reply t.on_after_reply shc req res) back
          λ res s1 same.
            reply-HasReturned t.on_after_reply req res s1 passes
              (rw (← ap (λ x. x.1.transport) same) still)

    validated-HasReturned :
        (o : Outcome Error (Unit {0})) (req : Request) (p : P) (s : Session T)
        → has_returned o ≡ true
        → Works req
        → Ready s.transport
        → HasReturned (
            continue (bad_params o s) (λ u.
              λ s1. continue (f shc req (some p) s1) (λ res. reply t.on_after_reply shc req res)))
    validated-HasReturned o req p s back works ready =
        continue-HasReturned _ _ (bad_params-HasReturned o s back) λ u s1 same.
          worked-HasReturned req p s1 works
            (rw (sym (ap (λ x. x.1) same) ∙ bad_params-state o s) ready)

    read-HasReturned :
        (o : Option P) (req : Request) (s : Session T)
        → ((v : Option P → Outcome Error (Unit {0})) (p : P)
            → t.validation ≡ some v
            → has_returned (v (some p)) ≡ true)
        → Works req
        → Ready s.transport
        → HasReturned (
            continue (read_some o s) (λ params. λ s1.
              continue (validate_params t.validation params s1) (λ u.
                λ s2. continue (f shc req params s2) (λ res. reply t.on_after_reply shc req res))))
    read-HasReturned none req s checks works ready = refl
    read-HasReturned (some p) req s checks works ready = elim (Option-cases t.validation) [
      | inl unchecked ↦ rw unchecked (worked-HasReturned req p s works ready)
      | inr (v, same) ↦
          rw same (validated-HasReturned (v (some p)) req p s (checks v p same) works ready)
    ]

    -- Handle of a type whose Validate returns where there is a receiver, at a request with params.
    pub typed_handle-HasReturned :
        (req : Request) (j : Json) (s : Session T)
        → ((v : Option P → Outcome Error (Unit {0})) (p : P)
            → t.validation ≡ some v
            → has_returned (v (some p)) ≡ true)
        → Works req
        → marshal_any req.params ≡ some (some j)
        → j ≢ null
        → Ready s.transport
        → HasReturned (typed_handle t f shc req s)
    unfolding typed_handle session_shc
    typed_handle-HasReturned req j s checks works given n ready =
        rw (given, unmarshal_into-given t.read j s n)
          (read-HasReturned (t.read j) req s checks works ready)

  -- handleRequest then returns nil, whether the handler has answered or returned an error.
  pub handled-ok :
      (req : Request) (b : List Bytes) (r : Outcome Error (Unit {0}) × Session T)
      → Answered written Ready b req.id r
      → HasReturned r
      → (recover r λ e.
          ignore (send_message ops (Message.response (request_not_ok req (to_response_error e))))).0
        ≡ ok tt
  handled-ok req b (ok u, s) answered h = refl
  handled-ok req b (err e, s) (q, m) h =
      forget-ok _
        (send-HasReturned (Message.response (request_not_ok req (to_response_error e))) s q.1)
  handled-ok req b (panic, s) answered h = absurd cc
  handled-ok req b (blocked, s) answered h = absurd cc
