-- ===== src/Transport/Ws/Client.antt =====
-- transport/ws/client.go: the configuration of a client, the headers of its upgrade request, and Connect.
-- A time is in nanoseconds. A header is the sequence of the calls of Header.Add. What url.Parse and
-- the dialer of the WebSocket library do are arguments; the dialer's state is left out.
pub mod Connecting
use Prim.Native.String.{◌++◌ as cat}
use rtvbp_go.Common.{
  ℕ, ◌*◌, ◌^◌, ◌==◌, String, List, [], ◌∷◌, ◌++◌, Option, none, some, str_eq, is_empty,
  if◌then◌else◌,
}
use rtvbp_go.Common.Act.{Result, good, bad}
use rtvbp_go.Common.Int.{ℤ, pos, ltb_ℤ, eqb_ℤ}
use rtvbp_go.Proto.Errors.{Error, msg, decimal}
use rtvbp_go.Session.Options.{SessionOption, with_transport_factory}
use rtvbp_go.Transport.Ws.State.{WebsocketTransport, new_transport}

-- `headers` lists the map in the order in which `range` goes through it. AuthorizationHeaderFunc is
-- what its call gives.
pub record DialConfig : Type 0 where
  pub url : String
  pub authorization_header_func : Option (Result Error String)
  pub connect_timeout : ℤ
  pub headers : List (String × List String)

pub record ClientConfig : Type 0 where
  pub dial : DialConfig
  pub ping_interval : ℤ
  pub sample_rate : ℤ

-- 10 * time.Second
abbrev pub ten_seconds : ℤ
ten_seconds = pos (10 * 10 ^ 9)

-- if d == 0 { d = 10 * time.Second }
abbrev pub or_ten_seconds : ℤ → ℤ
or_ten_seconds d = if eqb_ℤ d (pos 0) then ten_seconds else d

-- DialConfig.Defaults
unfoldable pub dial_defaults : DialConfig → DialConfig
dial_defaults d = record d { connect_timeout = or_ten_seconds d.connect_timeout }

-- ClientConfig.Validate
unfoldable pub validate_client : ClientConfig → Option Error
unfolding decimal
validate_client c =
    if ltb_ℤ (pos 0) c.sample_rate
    then none
    else some (msg (cat "invalid sample rate: " (decimal c.sample_rate)))

-- ClientConfig.Defaults
unfoldable pub client_defaults : ClientConfig → ClientConfig
unfolding dial_defaults
client_defaults c = record c {
  ping_interval = or_ten_seconds c.ping_interval;
  dial = dial_defaults c.dial;
}

-- The calls of header.Add for one key, and for the map.
abbrev pub values_of : String → List String → List (String × String)
values_of k [] = []
values_of k (v ∷ vs) = (k, v) ∷ values_of k vs

abbrev pub added : List (String × List String) → List (String × String)
added [] = []
added ((k, vs) ∷ rest) = values_of k vs ++ added rest

abbrev pub authorization : String → List (String × String)
authorization v = if is_empty v then [] else ("Authorization", v) ∷ []

-- The header of the upgrade request, or the error of AuthorizationHeaderFunc.
abbrev pub header_of :
    Option (Result Error String)
    → List (String × List String)
    → Result Error (List (String × String))
header_of none hs = good (("User-Agent", "babelforce/rtvbp-go") ∷ added hs)
header_of (some (bad e)) hs = bad e
header_of (some (good v)) hs =
    good (("User-Agent", "babelforce/rtvbp-go") ∷ authorization v ++ added hs)

-- What url.Parse and URL.String do, and websocket.DefaultDialer.DialContext with its timeout: it gives
-- a connection and the status of the response.
pub record Dialer (U C : Type 0) : Type 0 where
  pub parse : String → Result Error U
  pub url_string : U → String
  pub dial_context : String → List (String × String) → ℤ → Result Error (C × ℕ)

module _ {U C : Type 0} (dialer : Dialer U C) where
  abbrev with_header : DialConfig → U → Result Error (List (String × String)) → Result Error (C × ℕ)
  with_header d u (bad e) = bad e
  with_header d u (good header) =
      dialer.dial_context (dialer.url_string u) header (or_ten_seconds d.connect_timeout)

  abbrev with_url : DialConfig → Result Error U → Result Error (C × ℕ)
  with_url d (bad e) = bad e
  with_url d (good u) = with_header d u (header_of d.authorization_header_func d.headers)

  -- DialConfig.doDial
  unfoldable pub do_dial : DialConfig → Result Error (C × ℕ)
  unfolding dial_defaults
  do_dial d0 = let d = dial_defaults d0 in with_url d (dialer.parse d.url)

  -- http.StatusSwitchingProtocols is 101; process runs on the transport from here on.
  abbrev with_response : Result Error (C × ℕ) → Result Error (C × WebsocketTransport)
  with_response (bad e) = bad e
  with_response (good (conn, status)) =
      if status == 101
      then good (conn, new_transport)
      else bad (msg (cat "unexpected status code: " (decimal (pos status))))

  abbrev with_validation : ClientConfig → Option Error → Result Error (C × WebsocketTransport)
  with_validation c (some e) = bad e
  with_validation c none = with_response (do_dial c.dial)

  -- Connect
  unfoldable pub connect : ClientConfig → Result Error (C × WebsocketTransport)
  unfolding client_defaults
  connect c0 = let c = client_defaults c0 in with_validation c (validate_client c)

  -- Client
  unfoldable pub client :
      {A H O : Type 0} → ClientConfig → SessionOption (C × WebsocketTransport) A H O
  unfolding with_transport_factory
  client config = with_transport_factory (λ audio. connect config)
