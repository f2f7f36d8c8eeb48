-- ===== src/Session/Typed.antt =====
-- request.go: what a typed handler has written when it returns.
use rtvbp_go.Common.{
  ℕ, String, ◌≡◌, ◌≢◌, refl, List, Option, none, some, arith, Option-cases, inl, inr, eq_iff,
}
use rtvbp_go.Common.Act.{Outcome, ok, err, panic, blocked, continue}
use rtvbp_go.Proto.Json.{Json, null, Bytes}
use rtvbp_go.Proto.Errors.{Error, error_text, as_response}
use rtvbp_go.Proto.Message.{Any, validate_any, Request, Message, request_ok}
use rtvbp_go.Proto.Parse.{marshal_any}
use rtvbp_go.Proto.WellFormed.{IsWellFormed, IsAnyValid}
use rtvbp_go.Handler.Shc.{Call, Shc}
use rtvbp_go.Handler.Typed.{
  RequestType, to_raw, read_some, bad_params, unmarshal_into, validate_params, after_reply, reply,
  typed_handle,
}
use rtvbp_go.Session.Core.{Session, Env}
use rtvbp_go.Session.Calls.{session_shc}
use rtvbp_go.Session.Errors.{wrap-IsSendable, bad_request-IsSendable, new_error-IsSendable}
use rtvbp_go.Session.Contract.{
  IsProper, Untouched, Answered, Quiet, Answered-continue, Answers, Quietly,
}
use rtvbp_go.Session.Replies.{respond_Answered}
use rtvbp_go.Transport.Interface.{Transport, IsTransport}

module _ {T : Type 0} (ops : Transport T) (env : Env T) (written : T → List Bytes)
    (laws : IsTransport ops written) (Ready : T → Type 0)
    (accepts : (b : Bytes) (t : T) → Ready t → (ops.write b t).0 ≡ ok tt)
    (close : Call (Session T) (Unit {0}) → Call (Session T) (Unit {0}))
    (clear : Call (Session T) ℕ) where
  -- The session's own SHC.
  abbrev shc : Shc (Session T)
  shc = session_shc ops env close clear

  to_raw-Quiet :
      (b : List Bytes) (o : Option (Option Json)) (s : Session T)
      → Untouched written Ready b s
      → Quiet written Ready b (to_raw o s)
  unfolding as_response
  to_raw-Quiet b none s q =
      (q, wrap-IsSendable "marshal data" _ refl (ground (arith, eq_iff "marshal data" "")))
  to_raw-Quiet b (some o) s q = q

  bad_params-Quiet :
      (b : List Bytes) (o : Outcome Error (Unit {0})) (s : Session T)
      → ((e : Error) → o ≡ err e → error_text e ≢ "")
      → Untouched written Ready b s
      → Quiet written Ready b (bad_params o s)
  bad_params-Quiet b (ok u) s h q = q
  bad_params-Quiet b panic s h q = tt
  bad_params-Quiet b blocked s h q = tt
  bad_params-Quiet b (err e) s h q = (q, bad_request-IsSendable e (h e refl))

  after_reply-Answered :
      (b : List Bytes) (id : String) (hook : Option (Shc (Session T) → Call (Session T) (Unit {0})))
      (r : Outcome Error (Unit {0}) × Session T)
      → ((s : Session T) → after_reply hook shc s ≡ (ok tt, s))
      → Answered written Ready b id r
      → Answered written Ready b id (continue r (λ _. after_reply hook shc))
  after_reply-Answered b id hook (ok u, s) q h = rw (q s) h
  after_reply-Answered b id hook (err e, s) q h = h
  after_reply-Answered b id hook (panic, s) q h = tt
  after_reply-Answered b id hook (blocked, s) q h = tt

  pub ok-IsWellFormed :
      (req : Request) (res : Any)
      → IsWellFormed (Message.request req)
      → IsAnyValid res
      → IsWellFormed (Message.response (request_ok req res))
  unfolding request_ok
  ok-IsWellFormed req res (v, i, m, p) h = (v, i, tt, h)

  reply-Answered :
      (b : List Bytes) (hook : Option (Shc (Session T) → Call (Session T) (Unit {0})))
      (req : Request) (res : Any) (s : Session T)
      → ((t : Session T) → after_reply hook shc t ≡ (ok tt, t))
      → IsWellFormed (Message.request req)
      → Untouched written Ready b s
      → Answered written Ready b req.id (reply hook shc req res s)
  unfolding reply session_shc request_ok
  reply-Answered b hook req res s q w h = elim (Option-cases (validate_any res)) [
    | inl v ↦
        rw (v, ← h.0)
          (after_reply-Answered _ req.id hook _ q (
            respond_Answered ops written laws Ready accepts (request_ok req res) s
              (ok-IsWellFormed req res w v) h.1))
    | inr (e, v) ↦ rw v (
      h,
      new_error-IsSendable "failed to produce valid response" e
          (ground (arith, eq_iff "failed to produce valid response" "")),
    )
  ]

  module _ {P : Type 0} where
    read_some-Quiet :
        (b : List Bytes) (o : Option P) (s : Session T)
        → Untouched written Ready b s
        → Quiet written Ready b (read_some o s)
    unfolding as_response
    read_some-Quiet b none s q = (
      q,
      wrap-IsSendable "unmarshal into type" _ refl
          (ground (arith, eq_iff "unmarshal into type" "")),
    )
    read_some-Quiet b (some v) s q = q

    unmarshal_into-Quiet :
        (b : List Bytes) (read : Json → Option P) (o : Option Json) (s : Session T)
        → Untouched written Ready b s
        → Quiet written Ready b (unmarshal_into read o s)
    unfolding as_response
    unmarshal_into-Quiet b read none s q = q
    unmarshal_into-Quiet b read (some null) s q = q
    unmarshal_into-Quiet b read (some j) s q = read_some-Quiet b (read j) s q

    validate_params-Quiet :
        (b : List Bytes) (v : Option (Option P → Outcome Error (Unit {0}))) (p : Option P)
        (s : Session T)
        → ((w : Option P → Outcome Error (Unit {0})) (x : Option P) (e : Error)
            → v ≡ some w
            → w x ≡ err e
            → error_text e ≢ "")
        → Untouched written Ready b s
        → Quiet written Ready b (validate_params v p s)
    validate_params-Quiet b none p s h q = q
    validate_params-Quiet b (some w) x s h q = bad_params-Quiet b (w x) s (λ e. h w x e refl) q

    -- A typed handler whose type has no OnAfterReply, or one that does nothing, and explains what it rejects, and whose function
    -- writes nothing itself and fails only with errors that can be sent, answers each valid request:
    -- while the transport takes the next frame, its Handle has written one response with the
    -- request's id if it succeeds, and nothing if it fails, with an error that can be sent.
    pub typed_handle-Answers :
        (t : RequestType (Session T) P)
        (f : Shc (Session T) → Request → Option P → Call (Session T) Any)
        → IsProper t
        → ((p : Option P) → Quietly written Ready (λ req. f shc req p))
        → Answers written Ready (typed_handle t f shc)
    unfolding typed_handle session_shc
    typed_handle-Answers t f proper quiet req s w ready =
        Answered-continue written Ready _ _ (to_raw (marshal_any req.params) s) _
          (to_raw-Quiet _ _ s (refl, ready))
          λ raw s1 q1.
            Answered-continue written Ready _ _ (unmarshal_into t.read raw s1) _
              (unmarshal_into-Quiet _ t.read raw s1 q1)
              λ p s2 q2.
                Answered-continue written Ready _ _ (validate_params t.validation p s2) _
                  (validate_params-Quiet _ t.validation p s2 proper.explained q2)
                  λ u s3 q3.
                    Answered-continue written Ready _ _ (f shc req p s3) _
                      (rw (← q3.0) (quiet p req s3 q3.1))
                      λ res s4 q4.
                        reply-Answered _ t.on_after_reply req res s4 (proper.hook_passes shc) w q4
