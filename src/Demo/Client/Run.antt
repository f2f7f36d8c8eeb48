-- ===== src/Demo/Client/Run.antt =====
-- examples/rtvbp-demo-client/main.go: the configuration of the client's handler, and the options of its
-- session. uuid.NewString is an argument, by what it gives; so are the handler and its observer.
use rtvbp_go.Common.{
  String, Bool, true, ◌≡◌, refl, List, [], ◌∷◌, Option, none, some, if◌then◌else◌,
}
use rtvbp_go.Common.Int.{ℤ, pos}
use rtvbp_go.Common.Act.{Result}
use rtvbp_go.Proto.Json.{bool}
use rtvbp_go.Proto.Errors.{Error}
use rtvbp_go.ProtoV1.Requests.{new_l16_codec}
use rtvbp_go.ProtoV1.Initialize.{ClientHandlerConfig, offer}
use rtvbp_go.Session.Options.{
  SessionOption, with_handler, with_request_timeout, with_debug, with_stream_observer,
}
use rtvbp_go.Transport.Ws.State.{WebsocketTransport}
use rtvbp_go.Transport.Ws.Client.{ClientConfig, Dialer, client}
use rtvbp_go.Demo.Client.{CliArgs, config}

-- The variable sr
unfoldable pub device_rate : CliArgs → ℤ
device_rate a = if a.phone then pos 8000 else a.sample_rate

-- The ClientHandlerConfig that main gives NewClientHandler
unfoldable pub handler_config : CliArgs → String → String → ClientHandlerConfig
unfolding device_rate
handler_config a call_id session_id = record {
  call = record { id = call_id; session_id = session_id; from = "+4910002000"; to = "+4910003000" };
  app = record { id = "1234" };
  metadata = some (("recording_consent", bool true) ∷ []);
  ping_interval = pos 0;
  sample_rate = device_rate a;
}

module _ {U C A H O : Type 0} (dialer : Dialer U C) (handler : H) (observer : O) where
  abbrev pub options_with :
      Bool → Option ClientConfig → Option (List (SessionOption (C × WebsocketTransport) A H O))
  unfolding client with_handler with_request_timeout with_debug with_stream_observer
  options_with debug none = none
  options_with debug (some c) = some (
      client dialer c
      ∷ with_handler handler
      ∷ with_request_timeout 2000
      ∷ with_debug debug
      ∷ with_stream_observer observer
      ∷ [])

  -- The options that main gives NewSession; none is a panic of config.
  unfoldable pub main_options :
      Result Error String → CliArgs → Option (List (SessionOption (C × WebsocketTransport) A H O))
  main_options jwt a = options_with a.debug (config jwt a)

-- With the flag -phone, the codec that is offered has 8000 Hz, whatever the flag -sample-rate says.
offer_phone :
    (a : CliArgs) (call_id session_id : String)
    → a.phone ≡ true
    → (offer (handler_config a call_id session_id)).audio_codec_offerings
      ≡ some (new_l16_codec (pos 8000) ∷ [])
unfolding offer handler_config device_rate
offer_phone a call_id session_id on = rw on refl
