-- ===== src/Tests/Demo.antt =====
-- A client that initializes its session with the demo server over a direct link.
use rtvbp_go.Common.{ℕ, ◌≡◌, refl, Bool, true, false, [], ◌∷◌, none, arith, eq_iff}
use rtvbp_go.Common.Int.{pos}
use rtvbp_go.Common.Assoc.{lookup}
use rtvbp_go.Common.Act.{ok, pure}
use rtvbp_go.Handler.Shc.{Call, Shc, SessionHandler}
use rtvbp_go.Handler.Registry.{session_handler}
use rtvbp_go.Session.State.{active}
use rtvbp_go.Session.Core.{Session, Env}
use rtvbp_go.Session.Calls.{session_shc, request_call}
use rtvbp_go.Session.Tracked.{IsTracked}
use rtvbp_go.Transport.Direct.{Link, new_link, second, transport}
use rtvbp_go.Pair.{Peer, near, exchange}
use rtvbp_go.Pair.Returned.{exchanging, returned, request_returned, asked}
use rtvbp_go.Proto.Message.{new_request, request_ok}
use rtvbp_go.Proto.Parse.{marshal}
use rtvbp_go.ProtoV1.Client.{ClientHandler, session_initialize}
use rtvbp_go.ProtoV1.Client.Wire.{terminate_any}
use rtvbp_go.ProtoV1.Initialize.{ClientHandlerConfig, offer, initialize_any, initialized_any}
use rtvbp_go.ProtoV1.Ping.{ping, ping_type}
use rtvbp_go.ProtoV1.Ping.Returning.{ping_shc, ping_returns}
use rtvbp_go.Common.Int.{◌-ℤ◌}
use rtvbp_go.Handler.Registry.{new_handler}
use rtvbp_go.Common.Assoc.{insert, delete}
use rtvbp_go.Demo.Server.{demo_handler, timers}
use rtvbp_go.Demo.Handshake.{
  held, beside_shc, own_shc, agreed, initialize_agrees, offer_replied, request_valid,
}

abbrev pick : Link → Bool
pick l = false

abbrev far_env : Env Link
far_env = record { fresh = λ n. "b1"; others = λ c s. (false, s) }

abbrev near_env : Env Peer
near_env = record { fresh = λ n. "a1"; others = λ c s. (false, s) }

abbrev no_close : {S : Type 0} → Call S (Unit {0}) → Call S (Unit {0})
no_close cb = pure tt

abbrev no_clear : {S : Type 0} → Call S ℕ
no_clear = pure 0

abbrev session_over : {T : Type 0} → T → Session T
session_over t = record {
  id = "s";
  state = active;
  transport = t;
  pending = [];
  channels = λ c. [];
  next_channel = 0;
  drawn = 0;
}

abbrev own_session : Session Peer
own_session = session_over (session_over new_link)

own_session-IsTracked : IsTracked own_session
unfolding lookup
own_session-IsTracked = record {
  made = λ id c h. absurd cc;
  unanswered = λ id c h. absurd cc;
  apart = λ id j c h k. absurd cc;
}

abbrev config : ClientHandlerConfig
config = record {
  call = record { id = "c"; session_id = "s"; from = "+1"; to = "+2" };
  app = record { id = "1234" };
  metadata = none;
  ping_interval = pos 0;
  sample_rate = pos 16000;
}

abbrev fresh_handler : ClientHandler
fresh_handler = record { locked = false; initialized = false; attached = false; dtmf_seq = pos 0 }

abbrev near_shc : Shc (Session Peer)
near_shc =
    own_shc pick far_env no_close no_clear (pos 9) near_env
      (session_shc (near pick) near_env no_close no_clear) none (pos 5) (pos 6) no_close no_clear

initialize_agrees_example :
    let x =
      session_initialize held
        (beside_shc near_shc no_close)
        (initialize_any (offer config))
        (own_session, fresh_handler) in
    (x.0 ≡ ok (agreed config))
    × (x.1.1 ≡ record fresh_handler { initialized = true; attached = true })
initialize_agrees_example =
    initialize_agrees pick far_env no_close no_clear (pos 9) near_env
      (session_shc (near pick) near_env no_close no_clear) none (pos 5) (pos 6) no_close no_clear
      no_close config own_session fresh_handler (λ n. ground (arith, eq_iff "a1" ""))
      own_session-IsTracked refl refl refl

abbrev demo : SessionHandler Peer
demo = session_handler (demo_handler (pos 9))

abbrev exchanges : Env Peer
exchanges =
    exchanging pick far_env no_close no_clear demo near_env
      (session_shc (near pick) near_env no_close no_clear) none (pos 5) (pos 6)

request_returned_example :
    let r =
      request_call
        (near pick)
        exchanges
        "session.initialize"
        (initialize_any (offer config))
        own_session in
    (r.0
      ≡ ok (
          returned pick far_env no_close no_clear demo near_env
            (session_shc (near pick) near_env no_close no_clear)
            none
            (pos 5)
            (pos 6)
            "session.initialize"
            (initialize_any (offer config))
            (initialized_any (agreed config))
            own_session))
    × (r.1.transport ≡ session_over new_link)
unfolding new_request request_ok marshal exchange
request_returned_example =
    request_returned pick far_env no_close no_clear demo near_env
      (session_shc (near pick) near_env no_close no_clear) none (pos 5) (pos 6) "session.initialize"
      (initialize_any (offer config)) (initialized_any (agreed config)) own_session _ _
      own_session-IsTracked refl
      (request_valid pick far_env no_close no_clear (pos 9) near_env
        (session_shc (near pick) near_env no_close no_clear) none (pos 5) (pos 6) no_close no_clear
        config own_session (ground (arith, eq_iff "a1" "")))
      refl
      (offer_replied (session_shc (transport pick second) far_env no_close no_clear) config (pos 9)
        (asked pick far_env no_close no_clear demo near_env
          (session_shc (near pick) near_env no_close no_clear) none (pos 5) (pos 6)
          "session.initialize" (initialize_any (offer config)) own_session)
        (session_over new_link) refl refl)
      refl refl

-- A session that pings the demo server.
abbrev pinger_shc : Shc (Session Peer)
pinger_shc =
    ping_shc pick far_env no_close no_clear (demo_handler (pos 9)) near_env
      (session_shc (near pick) near_env no_close no_clear) none (pos 5) (pos 6) no_close no_clear

ping_returns_example :
    let r = ping pinger_shc (pos 4) (pos 11) (pos 3) own_session in
    (r.0 ≡ ok (pos 11 -ℤ pos 4)) × (r.1.transport.transport ≡ new_link)
unfolding demo_handler new_handler lookup insert delete ping_type
ping_returns_example =
    ping_returns pick far_env no_close no_clear (demo_handler (pos 9)) near_env
      (session_shc (near pick) near_env no_close no_clear) none (pos 5) (pos 6) no_close no_clear
      (pos 4) (pos 11) (pos 3) (pos 9) own_session refl (ground (arith, eq_iff "a1" ""))
      own_session-IsTracked refl (λ e. absurd cc) (λ e. absurd cc) (λ e. absurd cc)

timers_run :
    timers (record {
      move_after_seconds = pos 0;
      hangup_after_seconds = pos 0;
      terminate_after_seconds = pos 3;
    })
    ≡ (pos 3, "session.terminate", terminate_any (record { reason = "auto terminate" })) ∷ []
unfolding timers
timers_run = refl
