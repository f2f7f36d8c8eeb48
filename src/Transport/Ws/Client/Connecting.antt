-- ===== src/Transport/Ws/Client/Connecting.antt =====
-- transport/ws/client.go: when Connect gives a transport, and what it has asked the dialer for.
use rtvbp_go.Common.{
  ℕ, ◌≡◌, ◌≢◌, ◌↔◌, ◌⊎◌, is_empty, is_empty_of_ne, eq_iff, ◌∙◌, refl, sym, ap, Bool, true, false,
  String, List, [], ◌∷◌, ◌++◌, Option, none, some, arith, Bool-cases, inl, inr,
}
use rtvbp_go.Common.Act.{Result, good, bad}
use rtvbp_go.Common.Int.{ℤ, pos, ltb_ℤ, eqb_ℤ}
use rtvbp_go.Proto.Errors.{Error}
use rtvbp_go.Transport.Ws.State.{WebsocketTransport, new_transport}
use rtvbp_go.Transport.Ws.Client.{
  DialConfig, ClientConfig, Dialer, or_ten_seconds, added, authorization, header_of, with_header,
  with_url, with_response, do_dial, connect, dial_defaults, client_defaults, validate_client,
}

or_ten_seconds_twice : (d : ℤ) → or_ten_seconds (or_ten_seconds d) ≡ or_ten_seconds d
or_ten_seconds_twice d = elim (Bool-cases (eqb_ℤ d (pos 0))) [
  | inl h ↦ rw h refl
  | inr h ↦ rw (h, h) refl
]

-- What the function for the Authorization header adds; it adds nothing where it gives an empty value.
abbrev pub Authorizes : Option (Result Error String) → List (String × String) → Type 0
Authorizes none a = a ≡ []
Authorizes (some (bad e)) a = ⊥
Authorizes (some (good v)) a = ((v ≡ "") × (a ≡ [])) ⊎ ((v ≢ "") × (a ≡ ("Authorization", v) ∷ []))

authorization-Authorizes : (v : String) → Authorizes (some (good v)) (authorization v)
authorization-Authorizes v = elim (Bool-cases (is_empty v)) [
  | inl y ↦ rw y (inl (ground (arith, eq_iff v ""), refl))
  | inr y ↦ rw y (inr ((λ e. ground (arith, eq_iff v "")), refl))
]

authorization_unique :
    (v : String) (a : List (String × String)) → Authorizes (some (good v)) a → a ≡ authorization v
authorization_unique v a (inl (v_empty, none_added)) = rw (v_empty, none_added) refl
authorization_unique v a (inr (v_set, one_added)) =
    let y : is_empty v ≡ false = is_empty_of_ne v v_set in rw (one_added, y) refl

header-Authorizes :
    (f : Option (Result Error String)) (hs : List (String × List String))
    (h : List (String × String))
    → header_of f hs ≡ good h
    → (a : List (String × String)) × Authorizes f a
      × (h ≡ ("User-Agent", "babelforce/rtvbp-go") ∷ a ++ added hs)
header-Authorizes none hs h e = ([], refl, cc)
header-Authorizes (some (bad x)) hs h e = absurd cc
header-Authorizes (some (good v)) hs h e = (authorization v, authorization-Authorizes v, cc)

header_of_lem :
    (f : Option (Result Error String)) (hs : List (String × List String))
    (a : List (String × String))
    → Authorizes f a
    → header_of f hs ≡ good (("User-Agent", "babelforce/rtvbp-go") ∷ a ++ added hs)
header_of_lem none hs a e = rw e refl
header_of_lem (some (bad x)) hs a e = absurd e
header_of_lem (some (good v)) hs a e = rw (authorization_unique v a e) refl

module _ {U C : Type 0} (dialer : Dialer U C) where
  -- The dialer was asked for this URL with these headers, within the timeout, and gave `conn`.
  pub record Dialled (d : DialConfig) (conn : C) : Type 0 where
    pub target : U
    pub authorized : List (String × String)
    pub parsed : dialer.parse d.url ≡ good target
    pub authorizes : Authorizes d.authorization_header_func authorized
    pub answered :
        dialer.dial_context
          (dialer.url_string target)
          (("User-Agent", "babelforce/rtvbp-go") ∷ authorized ++ added d.headers)
          (or_ten_seconds d.connect_timeout)
        ≡ good (conn, 101)

  abbrev timed : DialConfig → DialConfig
  timed d = record d { connect_timeout = or_ten_seconds d.connect_timeout }

  with_header-Dialled :
      (d : DialConfig) (conn : C) (u : U) (x : Result Error (List (String × String)))
      → dialer.parse d.url ≡ good u
      → header_of d.authorization_header_func d.headers ≡ x
      → with_header dialer (timed d) u x ≡ good (conn, 101)
      → Dialled d conn
  with_header-Dialled d conn u (bad e) p q h = absurd cc
  with_header-Dialled d conn u (good header) p q h =
      let (a, ok, made) = header-Authorizes d.authorization_header_func d.headers header q in
      record {
        target = u;
        authorized = a;
        parsed = p;
        authorizes = ok;
        answered = rw (← made, ← or_ten_seconds_twice d.connect_timeout) h;
      }

  with_url-Dialled :
      (d : DialConfig) (conn : C) (x : Result Error U)
      → dialer.parse d.url ≡ x
      → with_url dialer (timed d) x ≡ good (conn, 101)
      → Dialled d conn
  with_url-Dialled d conn (bad e) p h = absurd cc
  with_url-Dialled d conn (good u) p h = with_header-Dialled d conn u _ p refl h

  response_good :
      (x : Result Error (C × ℕ)) (conn : C) (t : WebsocketTransport)
      → with_response dialer x ≡ good (conn, t)
      → (x ≡ good (conn, 101)) × (t ≡ new_transport)
  response_good (bad e) conn t h = absurd cc
  response_good (good (c, status)) conn t h = ground arith

  Dialled-with_url :
      (d : DialConfig) (conn : C)
      → Dialled d conn
      → with_url dialer (timed d) (dialer.parse d.url) ≡ good (conn, 101)
  Dialled-with_url d conn h =
      ap (with_url dialer (timed d)) h.parsed
      ∙ (ap (with_header dialer (timed d) h.target)
            (header_of_lem d.authorization_header_func d.headers h.authorized h.authorizes)
          ∙ (ap
                (dialer.dial_context (dialer.url_string h.target)
                  (("User-Agent", "babelforce/rtvbp-go") ∷ h.authorized ++ added d.headers))
                (or_ten_seconds_twice d.connect_timeout)
              ∙ h.answered))

  do_dial_lem :
      (c : ClientConfig)
      → do_dial dialer (client_defaults c).dial
        ≡ with_url dialer (timed c.dial) (dialer.parse c.dial.url)
  unfolding do_dial client_defaults dial_defaults
  do_dial_lem c = rw (or_ten_seconds_twice c.dial.connect_timeout) refl

  validated :
      (c : ClientConfig) (conn : C) (t : WebsocketTransport) (b : Bool)
      → ltb_ℤ (pos 0) c.sample_rate ≡ b
      → connect dialer c ≡ good (conn, t)
      → (ltb_ℤ (pos 0) c.sample_rate ≡ true)
        × (with_response dialer (do_dial dialer (client_defaults c).dial) ≡ good (conn, t))
  unfolding connect validate_client client_defaults
  validated c conn t true p h = (p, rw (← h) (rw p refl))
  validated c conn t false p h = absurd (let e = rw p at h in cc)

  -- Connect returns a transport just where the sample rate is positive, the URL parses, the function
  -- for the Authorization header (if there is one) gives a value, and the dialer answers 101 to the
  -- upgrade request: for that URL, with User-Agent, then Authorization where that value is not empty,
  -- then every configured header, within the connect timeout, or ten seconds where it is 0. The
  -- transport is then a new one over the connection of the dialer.
  pub connect_iff :
      (c : ClientConfig) (conn : C) (t : WebsocketTransport)
      → connect dialer c ≡ good (conn, t)
        ↔ (ltb_ℤ (pos 0) c.sample_rate ≡ true) × Dialled c.dial conn × (t ≡ new_transport)
  unfolding connect validate_client client_defaults
  connect_iff c conn t = (
    (λ h.
        let (rate, answered) = validated c conn t _ refl h in
        let (dialled, made) = response_good _ conn t answered in
        (rate, with_url-Dialled c.dial conn _ refl (sym (do_dial_lem c) ∙ dialled), made)),
    λ (rate, dialled, made).
        rw (rate, do_dial_lem c, Dialled-with_url c.dial conn dialled, made) refl,
  )
