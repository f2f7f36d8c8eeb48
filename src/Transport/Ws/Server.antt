-- ===== src/Transport/Ws/Server.antt =====
-- transport/ws/server.go: the configuration of a server, what its handler does with a request, and what it
-- passes on to sessions. A request is an `R`; the Upgrader of the WebSocket library is an argument, and
-- so is what the network gives a listener. The handlers of http are not modelled.
use Prim.Native.String.{◌++◌ as cat}
use rtvbp_go.Common.{ℕ, String, Bool, List, [], ◌∷◌, Option, none, some, is_empty, if◌then◌else◌}
use rtvbp_go.Common.Act.{Result, good, bad}
use rtvbp_go.Common.Int.{ℤ, pos, eqb_ℤ}
use rtvbp_go.Proto.Errors.{Error, decimal}
use rtvbp_go.Session.Options.{SessionOption, with_transport_factory, with_handler, with_debug}
use rtvbp_go.Transport.Ws.State.{WebsocketTransport, new_transport}
use rtvbp_go.Transport.Ws.Client.{ClientConfig, Dialer, ten_seconds, client}

-- `auth_handler` is none where it is nil.
pub record ServerConfig (R : Type 0) : Type 0 where
  pub addr : String
  pub path : String
  pub chunk_size : ℤ
  pub auth_handler : Option (R → Option Error)
  pub debug : Bool

abbrev or_text : String → String → String
or_text d s = if is_empty s then d else s

-- ServerConfig.Defaults
unfoldable pub server_defaults : {R : Type 0} → ServerConfig R → ServerConfig R
server_defaults c = record c {
  addr = or_text "127.0.0.1:8080" c.addr;
  path = or_text "/" c.path;
  chunk_size = if eqb_ℤ c.chunk_size (pos 0) then pos 160 else c.chunk_size;
}

-- What becomes of a request: a 401, a failed upgrade, or a session with these options.
pub data Accepted (C A H O : Type 0) : Type 0 where
  unauthorized : Error → Accepted C A H O
  upgrade_failed : Error → Accepted C A H O
  serves : List (SessionOption (C × WebsocketTransport) A H O) → Accepted C A H O

module _ {C A H O : Type 0} where
  abbrev pub session_options : C → H → Bool → List (SessionOption (C × WebsocketTransport) A H O)
  session_options conn handler debug =
      with_transport_factory (λ audio. good (conn, new_transport))
      ∷ with_handler handler
      ∷ with_debug debug
      ∷ []

  abbrev upgraded : H → Bool → Result Error C → Accepted C A H O
  upgraded handler debug (bad e) = upgrade_failed e
  upgraded handler debug (good conn) = serves (session_options conn handler debug)

abbrev pub authorize : {R : Type 0} → Option (R → Option Error) → R → Option Error
authorize none r = none
authorize (some f) r = f r

module _ {R C A H O : Type 0} where
  -- serverUpgradeHandler, up to the session
  unfoldable pub accept : ServerConfig R → (R → Result Error C) → H → R → Accepted C A H O
  unfolding with_transport_factory with_handler with_debug
  accept config upgrade handler r = elim (authorize config.auth_handler r) [
    | some e ↦ unauthorized e
    | none ↦ upgraded handler config.debug (upgrade r)
  ]

abbrev pub client_config_of : String → ClientConfig
client_config_of target = record {
  dial = record {
    url = target;
    authorization_header_func = none;
    connect_timeout = pos 0;
    headers = [];
  };
  ping_interval = ten_seconds;
  sample_rate = pos 8000;
}

-- The fields of Server that its methods below use: an address is an IP, as a text, and a port.
pub record Server (R H : Type 0) : Type 0 where
  pub config : ServerConfig R
  pub handler : H
  pub address : Option (String × ℕ)

module _ {R H : Type 0} where
  -- NewServer
  unfoldable pub new_server : ServerConfig R → H → Server R H
  unfolding server_defaults
  new_server config handler = record {
    config = server_defaults config;
    handler = handler;
    address = none;
  }

  -- Server.Listen: net.Listen gives an error, or an address. `ready` is closed before Serve runs, so
  -- where Serve has failed already, Go picks one of two ready cases: its error if `pick` is true.
  unfoldable pub listen :
      Result Error (String × ℕ) → Bool → Option Error → Server R H → Option Error × Server R H
  listen (bad e) pick serve_error srv = (some e, srv)
  listen (good address) pick serve_error srv =
      (if pick then serve_error else none, record srv { address = some address })

  -- Server.URL; without an address it reads through nil, and panics.
  unfoldable pub url : Server R H → Option String
  unfolding decimal
  url srv = elim srv.address [
    | none ↦ none
    | some (ip, port) ↦
        some (cat "ws://" (cat ip (cat ":" (cat (decimal (pos port)) srv.config.path))))
  ]

  -- Server.GetClientConfig
  unfoldable pub get_client_config : Server R H → Option ClientConfig
  unfolding url
  get_client_config srv = elim (url srv) [
    | none ↦ none
    | some target ↦ some (client_config_of target)
  ]

  -- Server.NewClientSession, up to NewSession
  unfoldable pub client_session_options :
      {U C A O : Type 0}
      → Dialer U C
      → H
      → Server R H
      → Option (List (SessionOption (C × WebsocketTransport) A H O))
  unfolding get_client_config client with_handler
  client_session_options dialer handler srv = elim (get_client_config srv) [
    | none ↦ none
    | some c ↦ some (client dialer c ∷ with_handler handler ∷ [])
  ]
