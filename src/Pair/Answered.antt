-- ===== src/Pair/Answered.antt =====
-- Two sessions over one link: what becomes of a request.
use rtvbp_go.Common.{
  ℕ, String, ◌≡◌, refl, ap, ◌∙◌, Bool, false, [], ◌∷◌, Option, none, some, arith, eq_iff,
}
use rtvbp_go.Common.Int.{ℤ}
use rtvbp_go.Common.Act.{ok}
use rtvbp_go.Proto.Json.{Bytes}
use rtvbp_go.Proto.Message.{Any, Response, Message, validate, new_request}
use rtvbp_go.Proto.Parse.{marshal}
use rtvbp_go.Handler.Shc.{Call, Shc, SessionHandler}
use rtvbp_go.Session.Core.{Session, Env, new_pending_request}
use rtvbp_go.Session.Calls.{session_shc, request_call}
use rtvbp_go.Session.Contract.{Answers}
use rtvbp_go.Session.Tracked.{IsTracked}
use rtvbp_go.Session.Sending.{send_message_marshalled}
use rtvbp_go.Session.Requests.{request_of, registered, sending, answer, request_call-answer}
use rtvbp_go.Transport.Direct.{Link, new_link, second, transport, frames}
use rtvbp_go.Pair.{Peer, near, exchange}
use rtvbp_go.Pair.Turns.{
  IsFree, carrying, first_write, turn, turn-OneAnswer, own_resolves, received_at,
}
use rtvbp_go.Session.Sending.{Carries}

module _ (pick : Link → Bool) (peer_env : Env Link)
    (close : Call Peer (Unit {0}) → Call Peer (Unit {0})) (clear : Call Peer ℕ)
    (peer : SessionHandler Peer) (inner : Env Peer) (shc : Shc (Session Peer))
    (h : Option (SessionHandler (Session Peer))) (now peer_now : ℤ) where
  -- The peer's turn, over the session's link.
  abbrev pub peers : Call Peer (Unit {0})
  peers = turn pick peer_env close clear peer peer_now

  abbrev pub env : Env Peer
  env = exchange pick inner shc h now peers

  pub sent_to_peer :
      (method : String) (payload : Any) (s : Session Peer) (raw : Bytes)
      → s.transport.transport ≡ new_link
      → validate (Message.request (request_of (near pick) env method payload s)) ≡ none
      → marshal (Message.request (request_of (near pick) env method payload s)) ≡ some raw
      → ((sending (near pick) env method payload s).0 ≡ ok tt)
        × ((sending (near pick) env method payload s).1.transport
            ≡ record (s.transport) { transport = carrying raw })
  unfolding new_pending_request
  sent_to_peer method payload s raw e v made =
      rw
        (send_message_marshalled (near pick)
          (Message.request (request_of (near pick) env method payload s))
          (registered (near pick) env s) raw v made)
        (rw (e, first_write pick raw) (refl, refl))

  -- Two sessions over a direct link on which nothing is under way: a valid request that marshals is
  -- sent, the peer's reading loop and then the session's own take one turn each, and if the peer's
  -- turn returns and its handler answers, the peer has written one frame, which is read as a response
  -- with the request's id, and the call of Request does not wait any longer: it returns that response
  -- with the time of its receipt, or the error in it.
  pub request_answered :
      (method : String) (payload : Any) (s : Session Peer) (raw : Bytes)
      → IsTracked s
      → s.transport.transport ≡ new_link
      → validate (Message.request (new_request (inner.fresh s.drawn) method payload)) ≡ none
      → marshal (Message.request (new_request (inner.fresh s.drawn) method payload)) ≡ some raw
      → Answers
          (frames second)
          IsFree
          (peer.on_request (session_shc (transport pick second) peer_env close clear))
      → (peers (sending (near pick) env method payload s).1.transport).0 ≡ ok tt
      → (frame : Bytes) × (r : Response) × (time : ℤ) × (frames second
            (peers (sending (near pick) env method payload s).1.transport).1.transport
          ≡ frame ∷ [])
        × Carries frame (Message.response r)
        × (r.response ≡ inner.fresh s.drawn)
        × ((request_call (near pick) env method payload s).0
            ≡ answer (received_at pick inner shc h now time r ∷ []))
  unfolding exchange new_request
  request_answered method payload s raw tracked link v made answers done =
      let req = new_request (inner.fresh s.drawn) method payload in
      let (accepted, at) = sent_to_peer method payload s raw link v made in
      let waiting = (sending (near pick) env method payload s).1 in
      let (frame, there, (r, reads, same)) =
        turn-OneAnswer pick peer_env close clear peer peer_now req raw waiting.transport answers v
          made (ap (λ p. p.transport) at) done in
      let (time, t, turned) =
        own_resolves pick inner shc h now
          (record waiting { transport = (peers waiting.transport).1 }) frame r there reads in
      (
        frame,
        r,
        time,
        there,
        reads,
        same,
        request_call-answer (near pick) env method payload s
              (received_at pick inner shc h now time r ∷ []) t tracked accepted
              (ap (λ x. (false, x)) turned)
            ∙ ground (arith, eq_iff r.response (inner.fresh s.drawn)),
      )
