-- ===== src/Pair/Returned.antt =====
-- Two sessions over one link: which response a call of Request returns, and how it leaves the link.
use rtvbp_go.Common.{
  ℕ, String, ◌≡◌, refl, ap, ◌∙◌, Bool, false, [], ◌∷◌, Option, none, some, arith, eq_iff,
}
use rtvbp_go.Common.Int.{ℤ}
use rtvbp_go.Common.Act.{ok}
use rtvbp_go.Proto.Json.{Bytes}
use rtvbp_go.Proto.Message.{
  new_base, Any, Request, Response, Message, validate, validate_any, new_request, request_ok,
}
use rtvbp_go.Proto.Parse.{marshal}
use rtvbp_go.Proto.RoundTrip.{sent_any, parse_valid-marshal}
use rtvbp_go.Handler.Shc.{Call, Shc, SessionHandler}
use rtvbp_go.Session.Core.{Session, Env, wait_response}
use rtvbp_go.Session.Calls.{request_call}
use rtvbp_go.Session.Tracked.{IsTracked}
use rtvbp_go.Session.Pending.{resolve_all}
use rtvbp_go.Session.Requests.{request_of, sending, request_call-answer, request_call_sent}
use rtvbp_go.Transport.Direct.{Link, new_link}
use rtvbp_go.Pair.{Peer, near, exchange, own_turn}
use rtvbp_go.Pair.Turns.{arrived, arrived-IsWellFormed}
use rtvbp_go.Pair.Answered.{env, sent_to_peer}
use rtvbp_go.Pair.Replied.{RepliesAt, returning, ok_valid, turn_replied}
use rtvbp_go.Pair.Resolved.{received_now, own_resolved, resolve-transport, wait-transport}

module _ (pick : Link → Bool) (peer_env : Env Link)
    (close : Call Peer (Unit {0}) → Call Peer (Unit {0})) (clear : Call Peer ℕ)
    (peer : SessionHandler Peer) (inner : Env Peer) (shc : Shc (Session Peer))
    (h : Option (SessionHandler (Session Peer))) (now peer_now : ℤ) where
  -- Both turns, and what the call does.
  abbrev pub exchanging : Env Peer
  exchanging = env pick peer_env close clear peer inner shc h now peer_now

  -- The request as the peer's handler gets it.
  abbrev pub asked : String → Any → Session Peer → Request
  asked method payload s =
      arrived pick peer_env close clear peer peer_now
        (request_of (near pick) exchanging method payload s)

  -- The peer with an empty link.
  abbrev pub rested : Session Peer → Peer
  rested s = record (s.transport) { transport = new_link }

  abbrev pub returned : String → Any → Any → Session Peer → Response
  returned method payload res s = received_now pick inner shc h now (record {
    base = new_base (asked method payload s).version;
    response = inner.fresh s.drawn;
    result = sent_any res;
    error = none;
  })

  others_answer :
      (method : String) (payload res : Any) (s : Session Peer) (raw answer_raw : Bytes)
      → s.transport.transport ≡ new_link
      → validate (Message.request (request_of (near pick) exchanging method payload s)) ≡ none
      → marshal (Message.request (request_of (near pick) exchanging method payload s)) ≡ some raw
      → RepliesAt pick peer_env close clear peer (asked method payload s) res (rested s)
      → validate_any res ≡ none
      → marshal (Message.response (request_ok (asked method payload s) res)) ≡ some answer_raw
      → exchanging.others s.next_channel (sending (near pick) exchanging method payload s).1 ≡ (
        false,
        resolve_all
            (returned method payload res s ∷ [])
            (record ((sending (near pick) exchanging method payload s).1) { transport = rested s }),
      )
  unfolding request_ok new_request exchange new_link
  others_answer method payload res s raw answer_raw link v made same valid answered =
      let v1 = (sending (near pick) exchanging method payload s).1 in
      let at =
        (sent_to_peer pick peer_env close clear peer inner shc h now peer_now method payload s raw
          link v made).1 in
      let far_turn =
        turn_replied pick peer_env close clear peer peer_now
          (request_of (near pick) exchanging method payload s) res raw answer_raw v1.transport v
          made (ap (λ p. p.transport) at) (rw at same) valid answered in
      let got = asked method payload s in
      let own =
        own_resolved pick inner shc h now
          (record v1 { transport = record (v1.transport) { transport = returning answer_raw } })
          answer_raw
          (record {
            base = new_base got.version;
            response = got.id;
            result = sent_any res;
            error = none;
          })
          refl
          (parse_valid-marshal (Message.response (request_ok got res)) answer_raw
            (ok_valid got res
              (arrived-IsWellFormed pick peer_env close clear peer peer_now
                (request_of (near pick) exchanging method payload s) v)
              valid)
            answered) in
      ap (λ p. (false, own_turn pick inner shc h now (record v1 { transport = p })))
        (ap (λ o. o.1) far_turn)
      ∙ ap (λ x. (false, x))
          (own
            ∙ ap
                (λ p.
                  resolve_all (returned method payload res s ∷ [])
                    (record v1 { transport = record p { transport = new_link } }))
                at)

  -- Two sessions over a direct link on which nothing is under way: if the peer's handler replies to a
  -- request that is valid and marshals, and the reply is valid and marshals, then the call of Request
  -- returns just that reply, as its JSON, and leaves the link empty and the peer as it was.
  pub request_returned :
      (method : String) (payload res : Any) (s : Session Peer) (raw answer_raw : Bytes)
      → IsTracked s
      → s.transport.transport ≡ new_link
      → validate (Message.request (request_of (near pick) exchanging method payload s)) ≡ none
      → marshal (Message.request (request_of (near pick) exchanging method payload s)) ≡ some raw
      → RepliesAt pick peer_env close clear peer (asked method payload s) res (rested s)
      → validate_any res ≡ none
      → marshal (Message.response (request_ok (asked method payload s) res)) ≡ some answer_raw
      → let r = request_call (near pick) exchanging method payload s in
        (r.0 ≡ ok (returned method payload res s)) × (r.1.transport ≡ rested s)
  unfolding exchange resolve_all
  request_returned method payload res s raw answer_raw tracked link v made same valid answered =
      let accepted =
        (sent_to_peer pick peer_env close clear peer inner shc h now peer_now method payload s raw
          link v made).0 in
      let meanwhile =
        others_answer method payload res s raw answer_raw link v made same valid answered in
      let r = returned method payload res s in
      (
        request_call-answer (near pick) exchanging method payload s (r ∷ []) (rested s) tracked
              accepted meanwhile
            ∙ ground (arith, eq_iff (inner.fresh s.drawn) (inner.fresh s.drawn)),
        ap (λ o. o.1.transport)
              (request_call_sent (near pick) exchanging method payload s accepted
                ∙ ap (wait_response _ _) meanwhile)
            ∙ (wait-transport pick inner shc h now _ _ _
                ∙ resolve-transport pick inner shc h now r _),
      )
