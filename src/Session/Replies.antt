-- ===== src/Session/Replies.antt =====
-- session.go, sendMessage: what becomes of a response that a session writes.
use rtvbp_go.Common.{
  String, ◌≡◌, refl, ap, ◌∙◌, List, [], ◌∷◌, ◌++◌, none, some, arith, ◌⊎◌, inl, inr, eq_iff,
}
use rtvbp_go.Common.Act.{Outcome, ok, err, panic, blocked, fail, catch, recover}
use rtvbp_go.Proto.Json.{Bytes}
use rtvbp_go.Proto.Errors.{Error, sentinel, bad_json, wrap, as_response}
use rtvbp_go.Proto.Message.{Response, Message, validate}
use rtvbp_go.Proto.Parse.{marshal}
use rtvbp_go.Proto.WellFormed.{IsWellFormed, validate_iff}
use rtvbp_go.Proto.RoundTrip.{sent, parse_valid-marshal}
use rtvbp_go.Session.Core.{Session}
use rtvbp_go.Session.Calls.{send_message}
use rtvbp_go.Session.Errors.{IsSendable, wrap-IsSendable}
use rtvbp_go.Session.Contract.{OneAnswer, Untouched, Answered}
use rtvbp_go.Session.Sending.{Carries, send_message_valid, after_write}
use rtvbp_go.Transport.Interface.{Transport, IsTransport, accepted}

module _ {T : Type 0} (ops : Transport T) (written : T → List Bytes)
    (laws : IsTransport ops written) (Ready : T → Type 0)
    (accepts : (b : Bytes) (t : T) → Ready t → (ops.write b t).0 ≡ ok tt) where
  pub after_write-OneAnswer :
      (m : Response) (s : Session T) (raw : Bytes)
      → validate (Message.response m) ≡ none
      → marshal (Message.response m) ≡ some raw
      → Ready s.transport
      → ((after_write ops s raw).0 ≡ ok tt)
        × OneAnswer written (written s.transport) m.response (after_write ops s raw).1
  after_write-OneAnswer m s raw v made ready =
      let done = accepts raw s.transport ready in
      (
        done,
        (
          raw,
          laws.write_sent raw s.transport ∙ ap (λ o. written s.transport ++ accepted o raw) done,
          (_, parse_valid-marshal (Message.response m) raw v made, refl),
        ),
      )

  -- The frame that was written, and what is read in it.
  pub after_write-sent :
      (m : Response) (s : Session T) (raw : Bytes)
      → validate (Message.response m) ≡ none
      → marshal (Message.response m) ≡ some raw
      → Ready s.transport
      → ((after_write ops s raw).0 ≡ ok tt)
        × (frame : Bytes) × (written (after_write ops s raw).1.transport
            ≡ written s.transport ++ frame ∷ [])
        × Carries frame (sent (Message.response m))
  after_write-sent m s raw v made ready =
      let done = accepts raw s.transport ready in
      (
        done,
        raw,
        laws.write_sent raw s.transport ∙ ap (λ o. written s.transport ++ accepted o raw) done,
        parse_valid-marshal (Message.response m) raw v made,
      )

  -- sendMessage at a response that is well formed.
  pub respond_valid :
      (m : Response) (s : Session T)
      → IsWellFormed (Message.response m)
      → Ready s.transport
      → (send_message ops (Message.response m) s
          ≡ (err (wrap "sending message failed" (sentinel bad_json)), s))
        ⊎ (((send_message ops (Message.response m) s).0 ≡ ok tt)
            × OneAnswer written
                (written s.transport)
                m.response
                (send_message ops (Message.response m) s).1)
  respond_valid m s w ready =
      let v = (validate_iff (Message.response m)).1 w in
      elim (send_message_valid ops (Message.response m) s v) [
        | inl e ↦ inl e
        | inr (raw, made, e) ↦ inr (rw e (after_write-OneAnswer m s raw v made ready))
      ]

  abbrev refused : Error
  refused = wrap "sending message failed" (sentinel bad_json)

  failed_to_respond : IsSendable (wrap "failed to respond" refused)
  unfolding as_response
  failed_to_respond =
      wrap-IsSendable "failed to respond" refused refl
        (ground (arith, eq_iff "failed to respond" ""))

  recover-Answered :
      (before : List Bytes) (id : String) (s : Session T) (r : Outcome Error (Unit {0}) × Session T)
      → Untouched written Ready before s
      → (r ≡ (err refused, s)) ⊎ ((r.0 ≡ ok tt) × OneAnswer written before id r.1)
      → Answered written Ready before id (recover r (λ e. fail (wrap "failed to respond" e)))
  recover-Answered before id s (ok u, t) q (inl e) = absurd cc
  recover-Answered before id s (ok u, t) q (inr (done, one)) = one
  recover-Answered before id s (err x, t) q (inl e) =
      let same : t ≡ s = cc in let why : x ≡ refused = cc in rw (same, why) (q, failed_to_respond)
  recover-Answered before id s (err x, t) q (inr (done, one)) = absurd cc
  recover-Answered before id s (panic, t) q h = tt
  recover-Answered before id s (blocked, t) q h = tt

  pub respond_Answered :
      (m : Response) (s : Session T)
      → IsWellFormed (Message.response m)
      → Ready s.transport
      → Answered written Ready
          (written s.transport)
          m.response
          (catch (send_message ops (Message.response m)) (λ e. fail (wrap "failed to respond" e)) s)
  respond_Answered m s w ready =
      recover-Answered (written s.transport) m.response s (send_message ops (Message.response m) s)
        (refl, ready) (respond_valid m s w ready)
