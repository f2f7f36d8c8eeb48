-- ===== src/Lib.antt =====
-- A model of rtvbp-go, the Go library for real-time voice bridging: two peers exchange requests,
-- responses and events, as JSON messages, over a session that runs on a transport.
--
-- The parts and where they are modelled:
-- - Proto (proto/*.go): Errors has ResponseError and what the code uses of errors and fmt; Message
--   has Request, Response and Event with Validate and the constructors; Json and Parse have the
--   struct tags, parseMessage and ParseValidMessage; WellFormed says which messages are valid,
--   RoundTrip what arrives of a message.
-- - Handler (handler.go, request.go, request_middleware.go, event.go, handler_testing.go): Shc is
--   the interface through which a handler acts on its session; Typed has
--   typedRequestHandler.Handle, HandleRequest, HandleWithError, the event handlers and the
--   middleware; Registry has defaultSessionHandler and NewHandler; Testing (handler_testing.go) has
--   the SHC of handler tests; Nil is about requests without params.
-- - Session (session.go, session_request.go, session_state.go): Core has the state, the table of
--   pending requests and the select of Request; Calls has sendMessage, EventDispatch, Request,
--   sessionHandlerCtx, handleRequest, handleEvent, handleIncomingMessage and the body of the
--   reading loop of Run. Errors, Sending, Contract, Replies, Typed, Answers, Twice, Tracked,
--   Pending, Requests and Returns hold the proofs. Lifecycle has the goroutines that Run starts,
--   doClose and finalize as interleaved steps, with Invariant, Progress and Termination. Options
--   (option.go) has the options, Run has NewSession, OnClose, the start of Run and the wait of
--   Close, with Run/Closing.
-- - Transport (transport.go, transport/direct/channel.go, transport/ws): Interface is what a
--   session relies on; Direct is the in-memory link, and Direct/Fifo its runs; Ws/Message,
--   Ws/Control and Ws/Outgoing are parts of the WebSocket transport, with Ws/Control/Sound for the
--   runs of the control channel; Ws/State has WebsocketTransport and newTransport, Ws/Process the
--   goroutines of WebsocketTransport.process with Write, Close and the teardown, and Flowing,
--   Incoming, Leaving, Wire, Teardown, Progress and Stuck its interleavings. Ws/Client (client.go)
--   has the configuration, the upgrade request and Connect, with Client/Connecting; Ws/Server
--   (server.go) has the configuration and the handler of a request; Ws/Table (server.go) has the
--   table of sessions and Shutdown as interleaved steps, with Table/Entries, Table/Sessions and
--   Table/Shutdown; Ws/Frames has the handlers of ping and pong frames; Ws/Starting has the
--   sessions that both make, as Run starts them.
-- - Pair (transport/direct/channel.go, session.go): two sessions over one direct link, as
--   NewTestSessions makes them, with Turns for one turn of each reading loop, Answered for a whole
--   exchange, and Replied, Resolved and Returned for what it leaves in both sessions.
-- - ProtoV1 (proto/protov1): Requests has the payload types; Ping, Dtmf, Telephony and AudioInfo
--   are ping.go (with Ping/Pinger for StartPinger and Ping/Returning for a ping between two
--   sessions), dtmf.go, telephony.go and audio_info_event.go (with AudioInfo/Observed for the
--   observer that it makes); Client is handler.go, with Client/Wire for the JSON of its payloads
--   with Client/Locked and Client/Guarded for its proofs and Client/Missing for requests without
--   params; Initialize has session.initialize (session_initialize.go, handler.go), its JSON and the
--   offer of NewClientHandler.
-- - Demo (examples): Server is the handler of rtvbp-demo-server/main.go, with Server/Answering and
--   Server/Served for its proofs; Handshake, a client handler that initializes its session with it;
--   Client (rtvbp-demo-client/cli.go) is the configuration that the flags give, with
--   Client/Headers, and Client/Run (main.go) the configuration of its handler and the options of
--   its session; Auth (auth.go) is the token; Phone (dummyphone/phone.go), the phone with its
--   mutex; Load (loadtest/main.go), the audio and the echo of the load test.
-- - Audio (audio/loopback.go, audio/stream.go, audio.go, audio_observe.go): Loopback, the buffer
--   that its readers wait for; Copy, the copy loop; Channel, the two sides over two ring buffers;
--   Observer, the wrapper that reports to an observer.
-- - Common: library names, lists, signed integers, association lists for maps, and Act, the monad
--   of calls. Tests: runs at concrete inputs.
--
-- How the code is read: a Go call that changes a session is a function from its state to an outcome
-- (a value, an error, a panic, or waiting for another goroutine) and the state after it. A call
-- under a mutex is one step. A Go channel is the list of the values in it. A context is not
-- modelled by itself: its end is a choice of the environment (Env.others in Core, cancel in
-- Lifecycle). An id of idgen.ID (a third-party generator), the clock, the WebSocket connection and
-- what other goroutines do meanwhile are arguments. A []byte that holds JSON is the tree that
-- encoding/json reads from it; logging and debug output are left out. Differences of times are
-- those of the integers, not of int64, as times of the clock are far from its bounds. Keys of an
-- object are matched exactly, where encoding/json also takes another case, and a number in an `any`
-- stays an integer, where Go makes a float64 of it. In Ws/Process the audio stream is given, taking
-- a text message and the lock of writeIn is one step, and in Pair one turn of each reading loop is
-- taken while a call of Request waits, whose context does not end.
--
-- Bounds and fuel: no definition runs on fuel but the printing of numbers in Proto/Errors, which
-- takes the number itself as its fuel, one round for each digit after the first; more rounds change
-- nothing. The counters of AudioInfo wrap modulo 2^64.
--
-- Not modelled: the tickers and the rates per second, which are floats, net/http and the sockets
-- below the WebSocket client and server, the ring buffer (a third-party library, a parameter),
-- logging, and in the examples the parsing of flags, the signals, the sound devices and what the
-- main functions start and wait for.
pub mod Common
pub mod Proto
pub mod Session
pub mod Transport
pub mod Demo
pub mod ProtoV1
pub mod Handler
pub mod Tests
pub mod Audio
pub mod Pair
