-- ===== src/ProtoV1/Ping/Returning.antt =====
-- proto/protov1/ping.go: a ping over a direct link, and its answer.
use rtvbp_go.Common.{
  ℕ, ◌≡◌, ◌≢◌, refl, sym, ap, Bool, Option, none, some, arith, eq_iff, Bool-cases, inl, inr,
}
use rtvbp_go.Common.Int.{ℤ, pos, eqb_ℤ, eq_of_parts, ◌-ℤ◌}
use rtvbp_go.Common.Assoc.{lookup}
use rtvbp_go.Common.Act.{ok}
use rtvbp_go.Proto.Json.{Json, obj, find}
use rtvbp_go.Proto.Message.{Any, valid, Request, Message, validate, new_request, request_ok}
use rtvbp_go.Proto.Parse.{marshal}
use rtvbp_go.Proto.RoundTrip.{sent_any}
use rtvbp_go.Proto.WellFormed.{validate_iff}
use rtvbp_go.Handler.Shc.{Call, Shc, SessionHandler}
use rtvbp_go.Handler.Typed.{typed_handle, handle_request, reply}
use rtvbp_go.Handler.Registry.{DefaultSessionHandler, on_request, session_handler}
use rtvbp_go.Session.Core.{Session, Env}
use rtvbp_go.Session.Calls.{session_shc}
use rtvbp_go.Session.Tracked.{IsTracked}
use rtvbp_go.Session.Requests.{request_of}
use rtvbp_go.Transport.Direct.{Link, new_link, second, transport}
use rtvbp_go.Pair.{Peer, near, exchange}
use rtvbp_go.Pair.Returned.{exchanging, asked, rested, request_returned}
use rtvbp_go.ProtoV1.Ping.{
  PingRequest, PingResponse, validate_ping, ping_any, pong_any, ping_fields, pong_fields, read_ping,
  ping_type, pong, new_ping_handler, ping,
}
use rtvbp_go.ProtoV1.Ping.RoundTrip.{validate_pong_iff}

-- A ping and a pong that validate.
abbrev ping_valid : PingRequest → Any
ping_valid r = valid (some (obj (ping_fields r)))

abbrev pong_valid : PingResponse → Any
pong_valid p = valid (some (obj (pong_fields p)))

abbrev a_ping : ℤ → ℤ → PingRequest
a_ping sent last_rtt = record { t0 = sent; rtt = last_rtt; data_any = none }

nonzero_sent : (r : PingRequest) → r.t0 ≢ pos 0 → validate_ping r ≡ none
unfolding validate_ping
nonzero_sent r n = ground (arith, eq_of_parts r.t0 (pos 0))

ping_any-valid : (r : PingRequest) → r.t0 ≢ pos 0 → ping_any r ≡ ping_valid r
unfolding ping_any
ping_any-valid r n = rw (nonzero_sent r n) refl

pong_any-valid :
    (p : PingResponse) → p.t0 ≢ pos 0 → p.t1 ≢ pos 0 → p.t2 ≢ pos 0 → pong_any p ≡ pong_valid p
unfolding pong_any
pong_any-valid p a b c = rw ((validate_pong_iff p).1 (a, b, c)) refl

-- A ping is read as it was sent; a round trip time of 0 is left out, and read as 0.
read_ping-fields :
    (sent last_rtt : ℤ)
    → read_ping (obj (ping_fields (a_ping sent last_rtt))) ≡ some (a_ping sent last_rtt)
unfolding read_ping find
read_ping-fields sent last_rtt = elim (Bool-cases (eqb_ℤ last_rtt (pos 0))) [
  | inl z ↦
      let zero_rtt : pos 0 ≡ last_rtt = sym (ground (arith, eq_of_parts last_rtt (pos 0))) in
      rw z (ap (λ r. some (a_ping sent r)) zero_rtt)
  | inr n ↦ rw n refl
]

-- The answer to a ping that was received and handled at these times.
abbrev answer : ℤ → ℤ → ℤ → PingResponse
answer sent received handled = record {
  t0 = sent;
  t1 = received;
  t2 = handled;
  owd = handled -ℤ sent;
  data_any = none;
}

module _ {S : Type 0} (shc : Shc S) where
  -- What a table that has the handler of pings does with one.
  ping_replied :
      (h : DefaultSessionHandler S) (handled sent last_rtt : ℤ) (req : Request) (s : S)
      → lookup "ping" h.request_handlers ≡ some (new_ping_handler handled)
      → sent ≢ pos 0
      → req.received_at ≢ pos 0
      → handled ≢ pos 0
      → req.method ≡ "ping"
      → req.params ≡ sent_any (ping_valid (a_ping sent last_rtt))
      → (session_handler h).on_request shc req s
        ≡ reply none shc req (pong_valid (answer sent req.received_at handled)) s
  unfolding session_handler on_request handle_request typed_handle new_ping_handler ping_type pong
  ping_replied h handled sent last_rtt req s there a b c m p =
      rw
        (
          m,
          p,
          there,
          read_ping-fields sent last_rtt,
          nonzero_sent (a_ping sent last_rtt) a,
          pong_any-valid (answer sent req.received_at handled) a b c,
        )
        refl

module _ (pick : Link → Bool) (peer_env : Env Link)
    (close : Call Peer (Unit {0}) → Call Peer (Unit {0})) (clear : Call Peer ℕ)
    (h : DefaultSessionHandler Peer) (inner : Env Peer) (shc : Shc (Session Peer))
    (own_handler : Option (SessionHandler (Session Peer))) (now peer_now : ℤ)
    (own_close : Call (Session Peer) (Unit {0}) → Call (Session Peer) (Unit {0}))
    (own_clear : Call (Session Peer) ℕ) where
  -- The session that pings, whose requests the peer gets.
  abbrev pub ping_env : Env Peer
  ping_env =
      exchanging pick peer_env close clear (session_handler h) inner shc own_handler now peer_now

  abbrev pub ping_shc : Shc (Session Peer)
  ping_shc = session_shc (near pick) ping_env own_close own_clear

  request_valid :
      (payload : Option Json) (s : Session Peer)
      → inner.fresh s.drawn ≢ ""
      → validate (Message.request (request_of (near pick) ping_env "ping" (valid payload) s)) ≡ none
  unfolding new_request exchange
  request_valid payload s n =
      (validate_iff (Message.request (request_of (near pick) ping_env "ping" (valid payload) s))).1
        (refl, n, (ground (arith, eq_iff "ping" "")), refl)

  -- Two sessions over a direct link on which nothing is under way, where the peer's table has the handler
  -- of pings: if idgen.ID gives a text that is not empty, and no clock reads 0, then ping returns the
  -- time from its sending to the reading of the clock after the answer, and leaves the link empty.
  pub ping_returns :
      (sent after last_rtt handled : ℤ) (s : Session Peer)
      → lookup "ping" h.request_handlers ≡ some (new_ping_handler handled)
      → inner.fresh s.drawn ≢ ""
      → IsTracked s
      → s.transport.transport ≡ new_link
      → sent ≢ pos 0
      → peer_now ≢ pos 0
      → handled ≢ pos 0
      → let r = ping ping_shc sent after last_rtt s in
        (r.0 ≡ ok (after -ℤ sent)) × (r.1.transport.transport ≡ new_link)
  unfolding session_shc new_request request_ok marshal exchange ping
  ping_returns sent after last_rtt handled s there fresh tracked link a b c =
      let payload = ping_valid (a_ping sent last_rtt) in
      let (answered, left) =
        request_returned pick peer_env close clear (session_handler h) inner shc own_handler now
          peer_now "ping" payload (pong_valid (answer sent peer_now handled)) s _ _ tracked link
          (request_valid _ s fresh) refl
          (ping_replied (session_shc (transport pick second) peer_env close clear) h handled sent
            last_rtt
            (asked pick peer_env close clear (session_handler h) inner shc own_handler now peer_now
              "ping" payload s)
            (rested pick peer_env close clear (session_handler h) inner shc own_handler now peer_now
              s)
            there a b c refl refl)
          refl refl in
      rw (ping_any-valid (a_ping sent last_rtt) a, answered) (refl, ap (λ p. p.transport) left)
