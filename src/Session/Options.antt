-- ===== src/Session/Options.antt =====
-- option.go: the options of NewSession. A logger is left out. `T` is what a factory makes, `A` the
-- audio side that it is given, `H` a session handler and `O` a stream observer.
use rtvbp_go.Common.{ℕ, String, Bool, false, List, [], ◌∷◌, Option, none, some}
use rtvbp_go.Common.Act.{Result, good}
use rtvbp_go.Proto.Errors.{Error}

-- TransportFactory; what it does besides is the environment's.
abbrev pub TransportFactory : Type 0 → Type 0 → Type 0
TransportFactory T A = A → Result Error T

-- A time is in milliseconds.
pub record SessionOptions (T A H O : Type 0) : Type 0 where
  pub id : String
  pub transport : Option (TransportFactory T A)
  pub handler : Option H
  pub audio_buffer_size : ℕ
  pub request_timeout : ℕ
  pub debug : Bool
  pub stream_observer : Option O

abbrev pub SessionOption : Type 0 → Type 0 → Type 0 → Type 0 → Type 0
SessionOption T A H O = SessionOptions T A H O → SessionOptions T A H O

module _ {T A H O : Type 0} where
  -- &sessionOptions{}
  abbrev pub zero_options : SessionOptions T A H O
  zero_options = record {
    id = "";
    transport = none;
    handler = none;
    audio_buffer_size = 0;
    request_timeout = 0;
    debug = false;
    stream_observer = none;
  }

  -- withOptions; also the loop of NewSession
  unfoldable pub with_options : List (SessionOption T A H O) → SessionOption T A H O
  with_options [] opts = opts
  with_options (o ∷ os) opts = with_options os (o opts)

  unfoldable pub with_stream_observer : O → SessionOption T A H O
  with_stream_observer o opts = record opts { stream_observer = some o }

  unfoldable pub with_request_timeout : ℕ → SessionOption T A H O
  with_request_timeout timeout opts = record opts { request_timeout = timeout }

  unfoldable pub with_id : String → SessionOption T A H O
  with_id id opts = record opts { id = id }

  unfoldable pub with_transport_factory : TransportFactory T A → SessionOption T A H O
  with_transport_factory f opts = record opts { transport = some f }

  unfoldable pub with_transport : T → SessionOption T A H O
  with_transport t opts = record opts { transport = some (λ audio. good t) }

  unfoldable pub with_handler : H → SessionOption T A H O
  with_handler h opts = record opts { handler = some h }

  unfoldable pub with_debug : Bool → SessionOption T A H O
  with_debug debug opts = record opts { debug = debug }

  unfoldable pub with_audio_buffer_size : ℕ → SessionOption T A H O
  with_audio_buffer_size size opts = record opts { audio_buffer_size = size }

  -- withDefaults; the argument is what idgen.ID returns.
  unfoldable pub with_defaults : String → SessionOption T A H O
  unfolding with_options with_request_timeout with_audio_buffer_size with_id
  with_defaults fresh =
      with_options (with_request_timeout 5000 ∷ with_audio_buffer_size 1048576 ∷ with_id fresh ∷ [])
