-- ===== src/Session/Twice.antt =====
-- request.go and session.go: a hook that fails after the reply.
use mathlib.Core.List.{append_assoc}
use rtvbp_go.Common.{◌≡◌, ap, ◌∙◌, List, [], ◌∷◌, ◌++◌, none, some, ℕ}
use rtvbp_go.Common.Act.{ok, err}
use rtvbp_go.Proto.Json.{Bytes}
use rtvbp_go.Proto.Errors.{Error}
use rtvbp_go.Proto.Message.{Any, validate_any, validate, Request, Message, request_ok}
use rtvbp_go.Proto.Parse.{marshal}
use rtvbp_go.Proto.WellFormed.{IsWellFormed, validate_iff}
use rtvbp_go.Handler.Shc.{Call, Shc, SessionHandler}
use rtvbp_go.Handler.Typed.{reply}
use rtvbp_go.Session.Core.{Session, Env}
use rtvbp_go.Session.Calls.{session_shc, handle_request}
use rtvbp_go.Session.Errors.{IsSendable}
use rtvbp_go.Session.Contract.{IsAnswer}
use rtvbp_go.Session.Replies.{after_write-OneAnswer}
use rtvbp_go.Session.Typed.{ok-IsWellFormed}
use rtvbp_go.Session.Answers.{answer_error}
use rtvbp_go.Session.Sending.{send_message_marshalled, after_write}
use rtvbp_go.Transport.Interface.{Transport, IsTransport}

module _ {T : Type 0} (ops : Transport T) (env : Env T) (written : T → List Bytes)
    (laws : IsTransport ops written) (accepts : (b : Bytes) (t : T) → (ops.write b t).0 ≡ ok tt)
    (close : Call (Session T) (Unit {0}) → Call (Session T) (Unit {0}))
    (clear : Call (Session T) ℕ) where
  abbrev shc : Shc (Session T)
  shc = session_shc ops env close clear

  reply_failed :
      (hook : Shc (Session T) → Call (Session T) (Unit {0})) (req : Request) (res : Any)
      (s : Session T) (raw : Bytes) (e : Error)
      → validate_any res ≡ none
      → validate (Message.response (request_ok req res)) ≡ none
      → marshal (Message.response (request_ok req res)) ≡ some raw
      → hook shc (after_write ops s raw).1 ≡ (err e, (after_write ops s raw).1)
      → reply (some hook) shc req res s ≡ (err e, (after_write ops s raw).1)
  unfolding reply session_shc
  reply_failed hook req res s raw e v w made h =
      let sent = send_message_marshalled ops (Message.response (request_ok req res)) s raw w made in
      rw (v, sent, accepts raw s.transport) h

  -- A handler that replies with a valid result that marshals, and whose OnAfterReply then fails with
  -- an error that can be sent and has written nothing itself, makes the session answer twice: over a
  -- transport that takes every frame, handleRequest has written two frames, and both are read as a
  -- response to the request.
  pub hook_fails-answered_twice :
      (h : SessionHandler (Session T)) (hook : Shc (Session T) → Call (Session T) (Unit {0}))
      (req : Request) (res : Any) (s : Session T) (raw : Bytes) (e : Error)
      → h.on_request shc req s ≡ reply (some hook) shc req res s
      → IsWellFormed (Message.request req)
      → validate_any res ≡ none
      → marshal (Message.response (request_ok req res)) ≡ some raw
      → hook shc (after_write ops s raw).1 ≡ (err e, (after_write ops s raw).1)
      → IsSendable e
      → let s' = (handle_request ops env shc (some h) req s).1 in
        (first second : Bytes) × (written s'.transport ≡ written s.transport ++ first ∷ second ∷ [])
        × IsAnswer req.id first
        × IsAnswer req.id second
  unfolding handle_request session_shc request_ok
  hook_fails-answered_twice h hook req res s raw e same w v made fails sendable =
      let m = request_ok req res in
      let valid = (validate_iff (Message.response m)).1 (
        ok-IsWellFormed ops env written laws (λ t. Unit) (λ b t r. accepts b t) close clear req res
          w v) in
      let (a, before, first) =
        (after_write-OneAnswer ops written laws (λ t. Unit) (λ b t r. accepts b t) m s raw valid
          made tt).1 in
      let (b, after, second) =
        answer_error ops env written laws (λ t. Unit) (λ b t r. accepts b t) close clear req e
          (after_write ops s raw).1 w sendable tt in
      let failed = reply_failed hook req res s raw e v valid made fails in
      rw (same, failed)
        (
          a,
          b,
          after
              ∙ (ap (λ x. x ++ b ∷ []) before
                  ∙ append_assoc (written s.transport) (a ∷ []) (b ∷ [])),
          first,
          second,
        )
