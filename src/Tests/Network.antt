-- ===== src/Tests/Network.antt =====
-- A client that connects, a server that refuses a request, and the session of NewClientSession.
use rtvbp_go.Common.{ℕ, ◌≡◌, refl, true, false, String, List, [], ◌∷◌, none, some}
use rtvbp_go.Common.Act.{good, bad}
use rtvbp_go.Common.Int.{pos}
use rtvbp_go.Proto.Errors.{msg, decimal}
use rtvbp_go.Common.{◌*◌, ◌^◌}
use rtvbp_go.Common.Assoc.{insert, delete}
use rtvbp_go.Demo.Client.{CliArgs, Header, config, http_header, connect_url, set_header}
use rtvbp_go.Demo.Client.Headers.{HasHeaders, connect-HasHeaders}
use rtvbp_go.Transport.Ws.State.{new_transport, WebsocketTransport}
use rtvbp_go.Transport.Ws.Client.{
  DialConfig, ClientConfig, Dialer, connect, added, do_dial, dial_defaults, client_defaults,
  validate_client,
}
use rtvbp_go.Transport.Ws.Client.Connecting.{Dialled, connect_iff}
use rtvbp_go.Session.Options.{SessionOption}
use rtvbp_go.Transport.Ws.Server.{Server}
use rtvbp_go.Transport.Ws.Starting.{RunsOver, sessions_run}
use rtvbp_go.Transport.Ws.Server.{
  ServerConfig, unauthorized, accept, server_defaults, new_server, listen, url, authorize,
  client_session_options,
}

-- The dialer answers 101 to this one URL, when it gets three headers.
abbrev few : List (String × String) → ℕ
few (a ∷ b ∷ c ∷ []) = 101
few hs = 400

abbrev dialer : Dialer String ℕ
dialer = record {
  parse = λ s. good s;
  url_string = λ u. u;
  dial_context = λ target header timeout. good (7, few header);
}

abbrev dial_config : DialConfig
dial_config = record {
  url = "ws://localhost";
  authorization_header_func = some (good "secret");
  connect_timeout = pos 0;
  headers = ("X-Room", "1" ∷ []) ∷ [];
}

abbrev client_config : ClientConfig
client_config = record { dial = dial_config; ping_interval = pos 0; sample_rate = pos 8000 }

connected : connect dialer client_config ≡ good (7, new_transport)
unfolding connect do_dial dial_defaults client_defaults validate_client
connected = refl

silent_refused :
    connect dialer (record client_config { sample_rate = pos 0 })
    ≡ bad (msg "invalid sample rate: 0")
unfolding connect do_dial dial_defaults client_defaults validate_client decimal
silent_refused = refl

connect_iff_example : (true ≡ true) × Dialled dialer dial_config 7 × (new_transport ≡ new_transport)
connect_iff_example = (connect_iff dialer client_config 7 new_transport).0 connected

abbrev server_config : ServerConfig ℕ
server_config = record {
  addr = "";
  path = "";
  chunk_size = pos 0;
  auth_handler = some (λ r. some (msg "no token"));
  debug = false;
}

server_runs :
    (url (listen (good ("127.0.0.1", 80)) false none (new_server {H = ℕ} server_config 1)).1
      ≡ some "ws://127.0.0.1:80/")
    × (accept {C = ℕ} {A = ℕ} {H = ℕ} {O = ℕ} server_config (λ r. good r) 1 5
        ≡ unauthorized (msg "no token"))
unfolding url listen new_server server_defaults accept decimal
server_runs = (refl, refl)

abbrev listening : Server ℕ ℕ
unfolding listen new_server server_defaults
listening = (listen (good ("127.0.0.1", 80)) false none (new_server server_config 1)).1

-- It answers 101 to any request.
abbrev welcoming : Dialer String ℕ
welcoming = record dialer { dial_context = λ target header timeout. good (7, 101) }

listening_url : url listening ≡ some "ws://127.0.0.1:80/"
unfolding url listen new_server server_defaults decimal
listening_url = refl

not_allowed : authorize listening.config.auth_handler 5 ≡ some (msg "no token")
unfolding listen new_server server_defaults
not_allowed = refl

abbrev audio : ℕ → ℕ × ℕ
audio size = (0, size)

sessions_run_example :
    (accept {C = ℕ} {A = ℕ} {H = ℕ} {O = ℕ} listening.config (λ r. good r) 1 5
      ≡ unauthorized (msg "no token"))
    × ((os : List (SessionOption (ℕ × WebsocketTransport) ℕ ℕ ℕ)) × (client_session_options
            welcoming 1 listening
          ≡ some os)
        × RunsOver ℕ "fresh" audio 7 os)
sessions_run_example = (
  (sessions_run ℕ "fresh" audio {U = String} listening 1).0 (λ r. good r) 5 (msg "no token")
      not_allowed,
  (sessions_run ℕ "fresh" audio {U = String} listening 1).2 welcoming 7 "ws://127.0.0.1:80/"
      listening_url
      (record {
        target = "ws://127.0.0.1:80/";
        authorized = [];
        parsed = refl;
        authorizes = refl;
        answered = refl;
      }),
)

abbrev flags : CliArgs
flags = record {
  url = "ws://far";
  proxy_token = "p";
  proxy_url = "ws://proxy";
  auth_token = "t";
  auth_jwt = true;
  sample_rate = pos 8000;
  phone = false;
  debug = false;
}

abbrev flag_headers : Header
flag_headers =
    ("X-Proxy-Url", "ws://far" ∷ [])
    ∷ ("X-Proxy-Token", "p" ∷ [])
    ∷ ("Authorization", "Bearer t" ∷ [])
    ∷ []

abbrev flag_config : ClientConfig
flag_config = record {
  dial = record {
    url = "ws://proxy";
    authorization_header_func = none;
    connect_timeout = pos (5 * 10 ^ 9);
    headers = flag_headers;
  };
  ping_interval = pos 0;
  sample_rate = pos 8000;
}

flags_configured : config (good "j") flags ≡ some flag_config
unfolding config http_header connect_url set_header insert delete
flags_configured = refl

flags_connected : connect welcoming flag_config ≡ good (7, new_transport)
unfolding connect do_dial dial_defaults client_defaults validate_client
flags_connected = refl

connect-HasHeaders_example :
    (h : Header) × (u : String) × HasHeaders (good "j") flags h
    × (welcoming.parse (connect_url flags) ≡ good u)
    × (welcoming.dial_context u (("User-Agent", "babelforce/rtvbp-go") ∷ added h) (pos (5 * 10 ^ 9))
        ≡ good (7, 101))
connect-HasHeaders_example =
    connect-HasHeaders welcoming (good "j") flags flag_config 7 new_transport flags_configured
      flags_connected
