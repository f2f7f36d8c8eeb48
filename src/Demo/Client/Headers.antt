-- ===== src/Demo/Client/Headers.antt =====
-- examples/rtvbp-demo-client/cli.go: what the demo client asks the dialer for.
use Prim.Native.String.{◌++◌ as cat}
use mathlib.Core.Option.{some-injective}
use rtvbp_go.Common.{
  ◌*◌, ◌^◌, ◌≡◌, refl, String, Bool, true, false, not, ◌&&◌, List, [], ◌∷◌, ◌++◌, Option, none,
  some, is_empty, str_eq, Bool-cases, inl, inr, sym, ap, ◌∙◌, if◌then◌else◌,
}
use rtvbp_go.Common.Int.{pos}
use rtvbp_go.Common.Assoc.{lookup, insert, delete, lookup-insert, lookup-nil}
use rtvbp_go.Common.Act.{Result, good, bad}
use rtvbp_go.Proto.Errors.{Error}
use rtvbp_go.Transport.Ws.State.{WebsocketTransport}
use rtvbp_go.Transport.Ws.Client.{ClientConfig, Dialer, connect, added}
use rtvbp_go.Transport.Ws.Client.Connecting.{Dialled, connect_iff}
use rtvbp_go.Demo.Client.{
  CliArgs, connect_url, Header, set_header, with_token, with_proxy, http_header, configured,
  with_headers, config,
}

-- What the headers are to be: the token of the flag goes before a generated one, and the proxy's headers are
-- there only with a proxy.
abbrev pub bearer : Result Error String → CliArgs → Option (List String)
bearer jwt a =
    if not (is_empty a.auth_token)
    then some (cat "Bearer " a.auth_token ∷ [])
    else if a.auth_jwt
    then elim jwt [ bad e ↦ none | good t ↦ some (cat "Bearer " t ∷ []) ]
    else none

abbrev pub if_set : Bool → String → Option (List String)
if_set b v = if b then some (v ∷ []) else none

lookup-set_header :
    (k j v : String) (h : Header)
    → lookup j (set_header k v h) ≡ (if str_eq k j then some (v ∷ []) else lookup j h)
unfolding set_header
lookup-set_header k j v h = lookup-insert k j (v ∷ []) h

-- The proxy's headers leave the others.
proxied :
    (a : CliArgs) (h : Header)
    → lookup "X-Proxy-Url" h ≡ none
    → lookup "X-Proxy-Token" h ≡ none
    → (lookup "Authorization" (with_proxy a h) ≡ lookup "Authorization" h)
      × (lookup "X-Proxy-Url" (with_proxy a h) ≡ if_set (not (is_empty a.proxy_url)) a.url)
      × (lookup "X-Proxy-Token" (with_proxy a h)
          ≡ if_set (not (is_empty a.proxy_url) && not (is_empty a.proxy_token)) a.proxy_token)
proxied a h no_url no_token = elim (Bool-cases (is_empty a.proxy_url)) [
  | inl none_set ↦ rw none_set (refl, no_url, no_token)
  | inr url_set ↦ elim (Bool-cases (is_empty a.proxy_token)) [
    | inl missing ↦
        rw (url_set, missing)
          (
            lookup-set_header "X-Proxy-Url" "Authorization" a.url h,
            lookup-set_header "X-Proxy-Url" "X-Proxy-Url" a.url h,
            lookup-set_header "X-Proxy-Url" "X-Proxy-Token" a.url h ∙ no_token,
          )
    | inr there ↦
        let h' = set_header "X-Proxy-Token" a.proxy_token h in
        rw (url_set, there)
          (
            lookup-set_header "X-Proxy-Url" "Authorization" a.url h'
                ∙ lookup-set_header "X-Proxy-Token" "Authorization" a.proxy_token h,
            lookup-set_header "X-Proxy-Url" "X-Proxy-Url" a.url h',
            lookup-set_header "X-Proxy-Url" "X-Proxy-Token" a.url h'
                ∙ lookup-set_header "X-Proxy-Token" "X-Proxy-Token" a.proxy_token h,
          )
  ]
]

-- The token of the flag, and then the proxy's headers.
completed :
    (a : CliArgs) (h : Header)
    → lookup "X-Proxy-Url" h ≡ none
    → lookup "X-Proxy-Token" h ≡ none
    → let all = with_proxy a (with_token a h) in
      (lookup "Authorization" all ≡ (
        if not (is_empty a.auth_token)
        then some (cat "Bearer " a.auth_token ∷ [])
        else lookup "Authorization" h))
      × (lookup "X-Proxy-Url" all ≡ if_set (not (is_empty a.proxy_url)) a.url)
      × (lookup "X-Proxy-Token" all
          ≡ if_set (not (is_empty a.proxy_url) && not (is_empty a.proxy_token)) a.proxy_token)
completed a h no_url no_token = elim (Bool-cases (is_empty a.auth_token)) [
  | inl missing ↦ rw missing (proxied a h no_url no_token)
  | inr there ↦
      let t = cat "Bearer " a.auth_token in
      let (auth, url_there, token_there) =
        proxied a (set_header "Authorization" t h)
          (lookup-set_header "Authorization" "X-Proxy-Url" t h ∙ no_url)
          (lookup-set_header "Authorization" "X-Proxy-Token" t h ∙ no_token) in
      rw there
        (auth ∙ lookup-set_header "Authorization" "Authorization" t h, url_there, token_there)
]

given :
    (jwt : Result Error String) (a : CliArgs) (h : Header) (b : Bool)
    → a.auth_jwt ≡ b
    → http_header jwt a ≡ some h
    → (lookup "Authorization" h ≡ bearer jwt a)
      × (lookup "X-Proxy-Url" h ≡ if_set (not (is_empty a.proxy_url)) a.url)
      × (lookup "X-Proxy-Token" h
          ≡ if_set (not (is_empty a.proxy_url) && not (is_empty a.proxy_token)) a.proxy_token)
unfolding http_header lookup set_header insert delete
given jwt a h false q e =
    let same : with_proxy a (with_token a []) ≡ h = some-injective _ _ (rw q at e) in
    rw (← same, q) (completed a [] (lookup-nil "X-Proxy-Url") (lookup-nil "X-Proxy-Token"))
given (bad x) a h true q e = absurd (let f = rw q at e in cc)
given (good t) a h true q e =
    let base = set_header "Authorization" (cat "Bearer " t) [] in
    let same : with_proxy a (with_token a base) ≡ h = some-injective _ _ (rw q at e) in
    rw (← same, q) (completed a base refl refl)

-- The headers that the flags ask for.
abbrev pub HasHeaders : Result Error String → CliArgs → Header → Type 0
HasHeaders jwt a h =
    (lookup "Authorization" h ≡ bearer jwt a)
    × (lookup "X-Proxy-Url" h ≡ if_set (not (is_empty a.proxy_url)) a.url)
    × (lookup "X-Proxy-Token" h
        ≡ if_set (not (is_empty a.proxy_url) && not (is_empty a.proxy_token)) a.proxy_token)

config_made :
    (jwt : Result Error String) (a : CliArgs) (c : ClientConfig)
    → config jwt a ≡ some c
    → (h : Header) × (http_header jwt a ≡ some h) × (configured a h ≡ c)
unfolding config
config_made jwt a c e = made (http_header jwt a) refl e
  where
    made :
        (o : Option Header)
        → http_header jwt a ≡ o
        → with_headers a o ≡ some c
        → (h : Header) × (http_header jwt a ≡ some h) × (configured a h ≡ c)
    made none q r = absurd cc
    made (some h) q r = (h, q, some-injective _ _ r)

module _ {U C : Type 0} (dialer : Dialer U C) where
  -- If the demo client connects, it has asked the dialer for the URL of the proxy, or of the server where
  -- no proxy is set, within five seconds, with User-Agent and these headers: Authorization is the Bearer token of
  -- the flag, else the generated one if that is asked for, else missing; X-Proxy-Url is the URL of the
  -- server, and X-Proxy-Token the proxy's token, both only where a proxy is set.
  pub connect-HasHeaders :
      (jwt : Result Error String) (a : CliArgs) (c : ClientConfig) (conn : C)
      (t : WebsocketTransport)
      → config jwt a ≡ some c
      → connect dialer c ≡ good (conn, t)
      → (h : Header) × (u : U) × HasHeaders jwt a h
        × (dialer.parse (connect_url a) ≡ good u)
        × (dialer.dial_context
              (dialer.url_string u)
              (("User-Agent", "babelforce/rtvbp-go") ∷ added h)
              (pos (5 * 10 ^ 9))
            ≡ good (conn, 101))
  connect-HasHeaders jwt a c conn t e k =
      let (h, there, is) = config_made jwt a c e in
      let dialled : Dialled dialer (configured a h).dial conn =
        ((connect_iff dialer (configured a h) conn t).0 (rw is k)).1 in
      (
        h,
        dialled.target,
        given jwt a h a.auth_jwt refl there,
        dialled.parsed,
        ap
              (λ x.
                dialer.dial_context (dialer.url_string dialled.target)
                  (("User-Agent", "babelforce/rtvbp-go") ∷ x ++ added h) (pos (5 * 10 ^ 9)))
              (sym dialled.authorizes)
            ∙ dialled.answered,
      )
