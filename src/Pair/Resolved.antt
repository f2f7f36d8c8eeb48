-- ===== src/Pair/Resolved.antt =====
-- Two sessions over one link: a turn of the session's own reading loop, at a response.
use rtvbp_go.Common.{ℕ, ◌≡◌, refl, ap, ◌∙◌, Bool, false, List, [], ◌∷◌, Option, arith}
use rtvbp_go.Common.Int.{ℤ}
use rtvbp_go.Common.Act.{good}
use rtvbp_go.Proto.Json.{Bytes}
use rtvbp_go.Proto.Message.{Request, Response, Message, set_received_at}
use rtvbp_go.Proto.Parse.{parse_valid_message}
use rtvbp_go.Handler.Shc.{Shc, SessionHandler}
use rtvbp_go.Session.Core.{Session, Env, resolve_pending_request, wait_response, received}
use rtvbp_go.Session.Calls.{receive, handle_incoming_message}
use rtvbp_go.Session.Pending.{resolve_all}
use rtvbp_go.Transport.Direct.{Link, new_link, package_of}
use rtvbp_go.Pair.{Peer, near, own_turn}
use rtvbp_go.Pair.Turns.{own_received, receive-good}
use rtvbp_go.Pair.Replied.{returning}

module _ (pick : Link → Bool) (inner : Env Peer) (shc : Shc (Session Peer))
    (h : Option (SessionHandler (Session Peer))) (now : ℤ) where
  -- A response as the reading loop of the session passes it on.
  abbrev pub received_now : Response → Response
  received_now r = record r { base = record (r.base) { received_at = now } }

  -- The session's own turn, with a response on the way to it.
  pub own_resolved :
      (s : Session Peer) (raw : Bytes) (r : Response)
      → s.transport.transport ≡ returning raw
      → parse_valid_message raw ≡ good (Message.response r)
      → own_turn pick inner shc h now s
        ≡ resolve_all
            (received_now r ∷ [])
            (record s { transport = record (s.transport) { transport = new_link } })
  unfolding handle_incoming_message resolve_all set_received_at new_link
  own_resolved s raw r e reads =
      let t : Peer = record (s.transport) { transport = new_link } in
      own_received pick inner shc h now s (package_of raw) (ap (λ l. l.b) e)
      ∙ (ap
            (λ l.
              (receive (near pick) inner shc h now (package_of raw) (record s {
                transport = record (s.transport) { transport = record l { b = [] } };
              })).1)
            e
          ∙ ap (λ o. o.1)
              (receive-good (near pick) inner shc h now (package_of raw) (Message.response r)
                (record s { transport = t }) reads))

  -- Neither a response nor the end of a wait touches the transport.
  pub resolve-transport :
      (r : Response) (s : Session Peer) → (resolve_pending_request r s).1.transport ≡ s.transport
  unfolding resolve_pending_request
  resolve-transport r s = ground arith

  received-transport :
      (xs : List Response) (c : ℕ) (s : Session Peer) → (received xs c s).1.transport ≡ s.transport
  received-transport [] c s = refl
  received-transport (r ∷ rs) c s = ground arith

  pub wait-transport :
      (req : Request) (c : ℕ) (s : Session Peer)
      → (wait_response req c (false, s)).1.transport ≡ s.transport
  unfolding wait_response
  wait-transport req c s = received-transport (s.channels c) c s
