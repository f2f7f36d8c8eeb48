-- ===== src/Session/Run.antt =====
-- session.go: NewSession, OnClose, how Run starts, and how Close waits. `S` is the session's audio
-- side. A close handler is named by a number: 0 closes the two audio sides, 1 is the transport's
-- Close, and those of the user are from 2 on.
pub mod Closing
use rtvbp_go.Common.{
  ℕ, String, Bool, true, false, ◌&&◌, List, [], ◌∷◌, ◌++◌, Option, none, some, if◌then◌else◌,
}
use rtvbp_go.Common.Act.{Outcome, ok, err, blocked, Result, good, bad}
use rtvbp_go.Proto.Errors.{Error, msg, wrap}
use rtvbp_go.Session.State.{SessionState, inactive}
use rtvbp_go.Session.Lifecycle.{Life, start}
use rtvbp_go.Session.Options.{
  TransportFactory, SessionOptions, SessionOption, zero_options, with_options, with_defaults,
}

-- The audio of the session's SHC: its own side, or an ObservableAudio around it.
pub data HandlerAudio (S O : Type 0) : Type 0 where
  plain : S → HandlerAudio S O
  observed : S → O → HandlerAudio S O

-- A session before Run.
pub record NewSession (T A S H O : Type 0) : Type 0 where
  pub id : String
  pub state : SessionState
  pub transport_func : Option (TransportFactory T A)
  pub handler : Option H
  pub transport_audio : A
  pub audio : HandlerAudio S O
  pub request_timeout : ℕ
  pub on_close_handlers : List ℕ
  pub debug : Bool

-- What Run has made: a running session, or a channel with an error in it; or it has panicked.
pub data Started (T : Type 0) : Type 0 where
  running : T → Life → Started T
  refused : List (Option Error) → Started T
  panicked : Started T

abbrev pub close_audio : ℕ
close_audio = 0

abbrev pub close_transport : ℕ
close_transport = 1

abbrev handler_audio : {S O : Type 0} → S → Option O → HandlerAudio S O
handler_audio s none = plain s
handler_audio s (some o) = observed s o

module _ {T A S H O : Type 0} where
  abbrev session_of : SessionOptions T A H O → S × A → NewSession T A S H O
  session_of opts (own, far) = record {
    id = opts.id;
    state = inactive;
    transport_func = opts.transport;
    handler = opts.handler;
    transport_audio = far;
    audio = handler_audio own opts.stream_observer;
    request_timeout = opts.request_timeout;
    on_close_handlers = [];
    debug = opts.debug;
  }

  -- Session.OnClose
  unfoldable pub on_close : ℕ → NewSession T A S H O → NewSession T A S H O
  on_close cb s = record s { on_close_handlers = s.on_close_handlers ++ cb ∷ [] }

  -- NewSession; the first two arguments are idgen.ID's result and NewAudioChannel.
  unfoldable pub new_session :
      String → (ℕ → S × A) → List (SessionOption T A H O) → NewSession T A S H O
  unfolding on_close with_options with_defaults
  new_session fresh new_audio os =
      let opts = with_options os (with_defaults fresh zero_options) in
      on_close close_audio (session_of opts (new_audio opts.audio_buffer_size))

  abbrev with_transport_of : NewSession T A S H O → Result Error T → Started T
  with_transport_of s (bad e) = refused (some e ∷ [])
  with_transport_of s (good t) = running t (start (s.on_close_handlers ++ close_transport ∷ []))

  -- A factory that is not set is nil, and calling it panics.
  abbrev call_factory : NewSession T A S H O → Option (TransportFactory T A) → Started T
  call_factory s none = panicked
  call_factory s (some f) = with_transport_of s (f s.transport_audio)

  abbrev with_handler_of : NewSession T A S H O → Option H → Started T
  with_handler_of s none = refused (some (msg "no handler set") ∷ [])
  with_handler_of s (some h) = call_factory s s.transport_func

  -- Session.Run, until it returns
  unfoldable pub run : NewSession T A S H O → Started T
  unfolding start
  run s = with_handler_of s s.handler

-- The `select` of Session.Close, after doClose: `ended` is the error of its context, if that has
-- ended. Where both cases are ready Go picks one: `pick` is true where it takes the context's.
unfoldable pub close_wait : Bool → Option Error → Life → Outcome Error (Unit {0})
close_wait pick none l = if l.finalized then ok tt else blocked
close_wait pick (some e) l =
    if l.finalized && pick
    then err (wrap "closing session failed" e)
    else if l.finalized
    then ok tt
    else err (wrap "closing session failed" e)
