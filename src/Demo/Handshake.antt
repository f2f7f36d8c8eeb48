-- ===== src/Demo/Handshake.antt =====
-- handler.go, session_initialize.go, rtvbp-demo-server/main.go: a client handler that initializes its session
-- with the demo server over a direct link.
use rtvbp_go.Common.{
  ℕ, suc, String, ◌≡◌, ◌≢◌, refl, ap, Bool, true, false, Option, none, some, arith, eq_iff,
}
use rtvbp_go.Common.Int.{ℤ}
use rtvbp_go.Common.Assoc.{lookup, insert, delete}
use rtvbp_go.Common.Act.{Outcome, ok, err}
use rtvbp_go.Proto.Json.{Bytes}
use rtvbp_go.Proto.Errors.{Error, sentinel, bad_json}
use rtvbp_go.Proto.Message.{
  Any, Request, Response, Message, validate, new_request, new_event, request_ok,
}
use rtvbp_go.Proto.Parse.{marshal, as_type}
use rtvbp_go.Proto.RoundTrip.{sent_any}
use rtvbp_go.Proto.WellFormed.{validate_iff}
use rtvbp_go.Handler.Shc.{Call, Shc, SessionHandler}
use rtvbp_go.Handler.Typed.{typed_handle, handle_request, reply}
use rtvbp_go.Handler.Registry.{on_request, new_handler, session_handler}
use rtvbp_go.Session.Core.{Session, Env, draw}
use rtvbp_go.Session.Calls.{session_shc, request_call, event_dispatch}
use rtvbp_go.Session.Tracked.{IsTracked}
use rtvbp_go.Session.Sending.{send_message_marshalled}
use rtvbp_go.Session.Requests.{request_of}
use rtvbp_go.Pair.Turns.{first_write}
use rtvbp_go.Transport.Direct.{Link, new_link, second, transport}
use rtvbp_go.Pair.{Peer, near, exchange}
use rtvbp_go.Pair.Returned.{exchanging, asked, rested, request_returned}
use rtvbp_go.ProtoV1.Requests.{SessionInitializeResponse, new_l16_codec}
use rtvbp_go.ProtoV1.Ping.{new_ping_handler, ping_type}
use rtvbp_go.ProtoV1.Client.{
  ClientHandler, Fields, session_initialize, initialize_new, terminate_type,
}
use rtvbp_go.ProtoV1.Client.Wire.{read_initialized, updated_any}
use rtvbp_go.ProtoV1.Initialize.{
  ClientHandlerConfig, offer, initialize_any, initialized_any, read-initialize_json,
  initialized_of-json,
}
use rtvbp_go.Demo.Server.{demo_handler, initialize_type, accept_first}

-- The codec that the client offers, as the response has it.
abbrev pub agreed : ClientHandlerConfig → SessionInitializeResponse
agreed config = record { audio_codec = some (new_l16_codec config.sample_rate) }

module _ {S : Type 0} (shc : Shc S) where
  -- What the demo server does with an offer.
  pub offer_replied :
      (config : ClientHandlerConfig) (now : ℤ) (req : Request) (s : S)
      → req.method ≡ "session.initialize"
      → req.params ≡ sent_any (initialize_any (offer config))
      → (session_handler (demo_handler now)).on_request shc req s
        ≡ reply none shc req (initialized_any (agreed config)) s
  unfolding session_handler on_request demo_handler new_handler lookup insert delete handle_request
      typed_handle initialize_type accept_first terminate_type new_ping_handler ping_type offer
  offer_replied config now req s m p = rw (m, p, read-initialize_json (offer config)) refl

module _ {A C : Type 0} where
  -- A call beside which a state is kept.
  abbrev pub beside : {B : Type 0} → Call A B → Call (A × C) B
  beside m (a, c) = let (o, a') = m a in (o, (a', c))

  -- The SHC of a session, beside which the handler's fields are kept.
  abbrev pub beside_shc : Shc A → (Call (A × C) (Unit {0}) → Call (A × C) (Unit {0})) → Shc (A × C)
  beside_shc shc close = record {
    session_id = λ s. shc.session_id s.0;
    request = λ name payload. beside (shc.request name payload);
    respond = λ res. beside (shc.respond res);
    notify = λ name payload. beside (shc.notify name payload);
    clear_read_buffer = beside shc.clear_read_buffer;
    close = close;
    state = λ s. shc.state s.0;
  }

abbrev pub held : {A : Type 0} → Fields (A × ClientHandler)
held = record { get = λ s. s.1; put = λ c s. (s.0, c) }

module _ {A : Type 0} (shc : Shc A)
    (close : Call (A × ClientHandler) (Unit {0}) → Call (A × ClientHandler) (Unit {0})) where
  -- A request that returns the agreed codec, and a notification that does not wait.
  initialized_beside :
      (payload : Any) (r : SessionInitializeResponse) (res : Response) (a b : A) (c : ClientHandler)
      → c.locked ≡ false
      → c.initialized ≡ false
      → shc.request "session.initialize" payload a ≡ (ok res, b)
      → as_type read_initialized res.result ≡ ok r
      → ((shc.notify "session.updated" (updated_any r) b).0 ≡ ok tt)
      → let x = session_initialize held (beside_shc shc close) payload (a, c) in
        (x.0 ≡ ok r) × (x.1.1 ≡ record c { initialized = true; attached = true })
  unfolding session_initialize initialize_new
  initialized_beside payload r res a b c free fresh asked reads told =
      rw (free, fresh, asked, reads, told) (refl, refl)

initialize_read :
    (config : ClientHandlerConfig)
    → as_type read_initialized (sent_any (initialized_any (agreed config))) ≡ ok (agreed config)
unfolding as_type
initialize_read config =
    ap
      (λ o. elim o as (λ x. Outcome Error SessionInitializeResponse) [
        | none ↦ err (sentinel bad_json)
        | some r ↦ ok r
      ])
      (initialized_of-json (agreed config))

module _ (pick : Link → Bool) (peer_env : Env Link)
    (close : Call Peer (Unit {0}) → Call Peer (Unit {0})) (clear : Call Peer ℕ) (ping_now : ℤ)
    (inner : Env Peer) (shc : Shc (Session Peer)) (h : Option (SessionHandler (Session Peer)))
    (now peer_now : ℤ) (own_close : Call (Session Peer) (Unit {0}) → Call (Session Peer) (Unit {0}))
    (own_clear : Call (Session Peer) ℕ) where
  abbrev demo : SessionHandler Peer
  demo = session_handler (demo_handler ping_now)

  -- The session on the client's side, whose requests the demo server gets.
  abbrev pub own : Env Peer
  own = exchanging pick peer_env close clear demo inner shc h now peer_now

  abbrev pub own_shc : Shc (Session Peer)
  own_shc = session_shc (near pick) own own_close own_clear

  pub request_valid :
      (config : ClientHandlerConfig) (s : Session Peer)
      → inner.fresh s.drawn ≢ ""
      → validate (
          Message.request
            (request_of (near pick) own "session.initialize" (initialize_any (offer config)) s))
        ≡ none
  unfolding new_request exchange
  request_valid config s n =
      (validate_iff (
          Message.request
            (request_of (near pick) own "session.initialize" (initialize_any (offer config)) s))).1
        (refl, n, (ground (arith, eq_iff "session.initialize" "")), refl)

  notified :
      (name : String) (payload : Any) (s : Session Peer) (raw : Bytes)
      → s.transport.transport ≡ new_link
      → validate (Message.event (new_event (inner.fresh s.drawn) name payload)) ≡ none
      → marshal (Message.event (new_event (inner.fresh s.drawn) name payload)) ≡ some raw
      → (own_shc.notify name payload s).0 ≡ ok tt
  unfolding session_shc event_dispatch draw exchange
  notified name payload s raw link v made =
      rw
        (send_message_marshalled (near pick)
          (Message.event (new_event (inner.fresh s.drawn) name payload))
          (record s { drawn = suc s.drawn }) raw v made)
        (rw (link, first_write pick raw) refl)

  update_valid :
      (config : ClientHandlerConfig) (s : Session Peer)
      → inner.fresh s.drawn ≢ ""
      → validate (
          Message.event
            (new_event (inner.fresh s.drawn) "session.updated" (updated_any (agreed config))))
        ≡ none
  unfolding new_event
  update_valid config s n =
      (validate_iff (
          Message.event
            (new_event (inner.fresh s.drawn) "session.updated" (updated_any (agreed config))))).1
        (refl, n, (ground (arith, eq_iff "session.updated" "")), refl)

  -- A client handler that is not initialized and whose mu no call holds, and a demo server, each with a session at one end of a
  -- direct link on which nothing is under way: if idgen.ID never gives the empty text, sessionInitialize
  -- returns with the L16 codec of the configured sample rate, or of 8000 where that is 0, and the
  -- handler is then initialized and has kept the context of its session.
  pub initialize_agrees :
      (handler_close : Call (Session Peer × ClientHandler) (Unit {0})
        → Call (Session Peer × ClientHandler) (Unit {0}))
      (config : ClientHandlerConfig) (s : Session Peer) (c : ClientHandler)
      → ((n : ℕ) → inner.fresh n ≢ "")
      → IsTracked s
      → s.transport.transport ≡ new_link
      → c.locked ≡ false
      → c.initialized ≡ false
      → let x =
          session_initialize held
            (beside_shc own_shc handler_close)
            (initialize_any (offer config))
            (s, c) in
        (x.0 ≡ ok (agreed config)) × (x.1.1 ≡ record c { initialized = true; attached = true })
  unfolding session_shc new_request request_ok marshal new_event exchange
  initialize_agrees handler_close config s c fresh tracked link free new =
      let payload = initialize_any (offer config) in
      let (answered, after) =
        request_returned pick peer_env close clear demo inner shc h now peer_now
          "session.initialize" payload (initialized_any (agreed config)) s _ _ tracked link
          (request_valid config s (fresh s.drawn)) refl
          (offer_replied (session_shc (transport pick second) peer_env close clear) config ping_now
            (asked pick peer_env close clear demo inner shc h now peer_now "session.initialize"
              payload s)
            (rested pick peer_env close clear demo inner shc h now peer_now s) refl refl)
          refl refl in
      let b = (request_call (near pick) own "session.initialize" payload s).1 in
      initialized_beside own_shc handler_close payload (agreed config) _ s b c free new
        (ap (λ o. (o, b)) answered) (initialize_read config)
        (notified "session.updated" (updated_any (agreed config)) b _ (ap (λ p. p.transport) after)
          (update_valid config b (fresh b.drawn)) refl)
