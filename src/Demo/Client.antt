-- ===== src/Demo/Client.antt =====
-- examples/rtvbp-demo-client/cli.go: the configuration that the flags give. A header is a map from canonical
-- keys, the form in which Header.Set stores them; generateJWT is an argument, by its result.
use Prim.Native.String.{◌++◌ as cat}
pub mod Headers
pub mod Run
use mathlib.Core.Option.{some-injective}
use rtvbp_go.Common.{
  ℕ, ◌*◌, ◌^◌, ◌≡◌, ◌≢◌, refl, String, Bool, true, false, not, ◌&&◌, List, [], ◌∷◌, ◌++◌, Option,
  none, some, is_empty, str_eq, Bool-cases, inl, inr, sym, ap, ◌∙◌, arith, eq_iff, if◌then◌else◌,
}
use rtvbp_go.Common.Int.{ℤ, pos}
use rtvbp_go.Common.Assoc.{Assoc, lookup, insert, delete, lookup-insert, lookup-nil}
use rtvbp_go.Common.Act.{Outcome, ok, err, panic, Result, good, bad}
use rtvbp_go.Proto.Errors.{Error}
use rtvbp_go.Transport.Ws.State.{WebsocketTransport}
use rtvbp_go.Transport.Ws.Client.{ClientConfig, DialConfig, Dialer, connect, added}
use rtvbp_go.Transport.Ws.Client.Connecting.{Dialled, connect_iff}

-- The fields of cliArgs that the configuration and the session are made of.
pub record CliArgs : Type 0 where
  pub url : String
  pub proxy_token : String
  pub proxy_url : String
  pub auth_token : String
  pub auth_jwt : Bool
  pub sample_rate : ℤ
  pub phone : Bool
  pub debug : Bool

-- The flags of initCLI where none is given.
abbrev pub default_args : CliArgs
default_args = record {
  url = "ws://localhost:8080/ws";
  proxy_token = "";
  proxy_url = "";
  auth_token = "";
  auth_jwt = false;
  sample_rate = pos 24000;
  phone = false;
  debug = false;
}

-- cliArgs.connectURL
unfoldable pub connect_url : CliArgs → String
connect_url a = if is_empty a.proxy_url then a.url else a.proxy_url

abbrev pub Header : Type 0
Header = Assoc (List String)

-- headers.Set(key, value)
unfoldable pub set_header : String → String → Header → Header
unfolding insert
set_header k v h = insert k (v ∷ []) h

abbrev pub with_token : CliArgs → Header → Header
with_token a h =
    if is_empty a.auth_token then h else set_header "Authorization" (cat "Bearer " a.auth_token) h

abbrev pub with_proxy : CliArgs → Header → Header
with_proxy a h =
    if is_empty a.proxy_url
    then h
    else set_header "X-Proxy-Url" a.url
        (if is_empty a.proxy_token then h else set_header "X-Proxy-Token" a.proxy_token h)

-- A token that cannot be made panics.
abbrev pub with_jwt : CliArgs → Result Error String → Option Header
with_jwt a (bad e) = none
with_jwt a (good jwt) =
    some (with_proxy a (with_token a (set_header "Authorization" (cat "Bearer " jwt) [])))

-- cliArgs.httpHeader; none is a panic.
unfoldable pub http_header : Result Error String → CliArgs → Option Header
http_header jwt a = if a.auth_jwt then with_jwt a jwt else some (with_proxy a (with_token a []))

abbrev pub configured : CliArgs → Header → ClientConfig
configured a headers = record {
  dial = record {
    url = connect_url a;
    authorization_header_func = none;
    connect_timeout = pos (5 * 10 ^ 9);
    headers = headers;
  };
  ping_interval = pos 0;
  sample_rate = a.sample_rate;
}

abbrev pub with_headers : CliArgs → Option Header → Option ClientConfig
with_headers a none = none
with_headers a (some headers) = some (configured a headers)

-- cliArgs.config
unfoldable pub config : Result Error String → CliArgs → Option ClientConfig
unfolding http_header connect_url
config jwt a = with_headers a (http_header jwt a)
