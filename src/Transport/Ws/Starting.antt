-- ===== src/Transport/Ws/Starting.antt =====
-- transport/ws/server.go, transport/ws/client.go, option.go, session.go: the sessions that the handler of a
-- server and NewClientSession make, as Run starts them.
use rtvbp_go.Common.{ℕ, String, ◌≡◌, refl, List, [], ◌∷◌, none, some}
use rtvbp_go.Common.Act.{Result, good}
use rtvbp_go.Proto.Errors.{Error}
use rtvbp_go.Session.Lifecycle.{start}
use rtvbp_go.Session.Options.{
  SessionOption, with_options, with_defaults, with_request_timeout, with_audio_buffer_size, with_id,
  with_handler, with_transport_factory, with_debug,
}
use rtvbp_go.Session.Run.{
  Started, running, close_audio, close_transport, on_close, new_session, run,
}
use rtvbp_go.Transport.Ws.State.{WebsocketTransport, new_transport}
use rtvbp_go.Transport.Ws.Client.{ClientConfig, Dialer, connect, client}
use rtvbp_go.Transport.Ws.Client.Connecting.{Dialled, connect_iff}
use rtvbp_go.Transport.Ws.Server.{
  ServerConfig, Server, serves, unauthorized, accept, authorize, session_options, client_config_of,
  url, get_client_config, client_session_options,
}

module _ {C A S H : Type 0} (O : Type 0) (fresh : String) (new_audio : ℕ → S × A) where
  abbrev run_with :
      List (SessionOption (C × WebsocketTransport) A H O) → Started (C × WebsocketTransport)
  run_with os = run (new_session {S = S} fresh new_audio os)

  -- The session runs over `conn`; when it ends it closes its audio, and then its transport.
  unfoldable pub RunsOver : C → List (SessionOption (C × WebsocketTransport) A H O) → Type 0
  RunsOver conn os =
      run_with os ≡ running (conn, new_transport) (start (close_audio ∷ close_transport ∷ []))

  accept-RunsOver :
      {R : Type 0} (config : ServerConfig R) (upgrade : R → Result Error C) (handler : H) (r : R)
      (conn : C)
      → authorize config.auth_handler r ≡ none
      → upgrade r ≡ good conn
      → (os : List (SessionOption (C × WebsocketTransport) A H O)) × (accept config upgrade handler
            r
          ≡ serves os)
        × RunsOver conn os
  unfolding RunsOver accept run new_session on_close with_options with_defaults with_request_timeout
      with_audio_buffer_size with_id with_handler with_transport_factory with_debug
  accept-RunsOver config upgrade handler r conn allowed got =
      (session_options conn handler config.debug, rw (allowed, got, accept) refl, refl)

  client-RunsOver :
      {U : Type 0} (dialer : Dialer U C) (c : ClientConfig) (handler : H) (conn : C)
      → connect dialer c ≡ good (conn, new_transport)
      → RunsOver conn (client dialer c ∷ with_handler handler ∷ [])
  unfolding RunsOver client run new_session on_close with_options with_defaults with_request_timeout
      with_audio_buffer_size with_id with_handler with_transport_factory
  client-RunsOver dialer c handler conn h = rw h refl

  -- The handler of a server answers a request that the AuthHandler refuses as unauthorized. One that it
  -- allows, or any where there is none, and whose upgrade succeeds, gets options with which NewSession
  -- and Run start a session over that connection, whose close handlers are that of its audio and then
  -- that of its transport. The options of NewClientSession start such a session over the connection of
  -- the dialer, where the dialer answers 101 at the URL of the server.
  pub sessions_run :
      {R U : Type 0} (srv : Server R H) (handler : H)
      → ((upgrade : R → Result Error C) (r : R) (e : Error)
          → authorize srv.config.auth_handler r ≡ some e
          → accept {A = A} {O = O} srv.config upgrade handler r ≡ unauthorized e)
        × ((upgrade : R → Result Error C) (r : R) (conn : C)
            → authorize srv.config.auth_handler r ≡ none
            → upgrade r ≡ good conn
            → (os : List (SessionOption (C × WebsocketTransport) A H O)) × (accept srv.config
                  upgrade handler r
                ≡ serves os)
              × RunsOver conn os)
        × ((dialer : Dialer U C) (conn : C) (target : String)
            → url srv ≡ some target
            → Dialled dialer (client_config_of target).dial conn
            → (os : List (SessionOption (C × WebsocketTransport) A H O)) × (client_session_options
                  dialer handler srv
                ≡ some os)
              × RunsOver conn os)
  unfolding accept client_session_options get_client_config
  sessions_run srv handler = (
    (λ upgrade r e refused. rw (refused, accept) refl),
    (λ upgrade r conn allowed got. accept-RunsOver srv.config upgrade handler r conn allowed got),
    (λ dialer conn target at dialled. (
      client dialer (client_config_of target) ∷ with_handler handler ∷ [],
      rw (at, client_session_options) refl,
      client-RunsOver dialer (client_config_of target) handler conn (
          (connect_iff dialer (client_config_of target) conn new_transport).1
            (refl, dialled, refl)),
    )),
  )
