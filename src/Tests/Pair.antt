-- ===== src/Tests/Pair.antt =====
-- A session that pings its peer over a direct link.
use rtvbp_go.Common.{ℕ, String, ◌≡◌, refl, Bool, false, [], ◌∷◌, none, some, arith, eq_iff}
use rtvbp_go.Common.Int.{ℤ, pos}
use rtvbp_go.Common.Assoc.{lookup, insert, delete}
use rtvbp_go.Common.Act.{ok, pure}
use rtvbp_go.Proto.Json.{Bytes, str, num, obj, field, end, text_of, find}
use rtvbp_go.Proto.Message.{
  Any, plain, Response, Message, new_request, new_base, validate, set_received_at, request_ok,
  request_not_ok,
}
use rtvbp_go.Proto.Errors.{to_response_error, error_text}
use rtvbp_go.Proto.Parse.{marshal, parse_message, parse_valid_message}
use rtvbp_go.Handler.Shc.{Call, Shc, RequestHandler}
use rtvbp_go.Handler.Registry.{
  DefaultSessionHandler, new_handler, requests, session_handler, on_request,
}
use rtvbp_go.Session.State.{active}
use rtvbp_go.Session.Core.{Session, Env, new_pending_request}
use rtvbp_go.Session.Calls.{
  session_shc, request_call, send_message, receive, handle_incoming_message,
}
use rtvbp_go.Session.Calls
use rtvbp_go.Session.Contract.{Answers}
use rtvbp_go.Session.Answers.{on_request-Answers}
use rtvbp_go.Session.Tracked.{IsTracked}
use rtvbp_go.Session.Requests.{answer, sending}
use rtvbp_go.Transport.Direct.{
  read, write, Link, new_link, second, transport, frames, transport-IsTransport,
}
use rtvbp_go.ProtoV1.Ping.{new_ping_handler, ping_type, read_ping, validate_ping, pong_any}
use rtvbp_go.Handler.Typed.{typed_handle, reply}
use rtvbp_go.Handler.Typed
use rtvbp_go.ProtoV1.Ping.RoundTrip.{new_ping_handler-Answers}
use rtvbp_go.Pair.{Peer, near, peer_turn, own_turn, exchange}
use rtvbp_go.Pair.Turns.{IsFree, free_write, received_at}
use rtvbp_go.Session.Sending.{Carries}
use rtvbp_go.Pair.Answered.{env, peers, request_answered}

abbrev pick : Link → Bool
pick l = false

abbrev far_env : Env Link
far_env = record { fresh = λ n. "b1"; others = λ c s. (false, s) }

abbrev near_env : Env Peer
near_env = record { fresh = λ n. "a1"; others = λ c s. (false, s) }

abbrev no_close : {S : Type 0} → Call S (Unit {0}) → Call S (Unit {0})
no_close cb = pure tt

abbrev no_clear : {S : Type 0} → Call S ℕ
no_clear = pure 0

abbrev peer_session : Peer
peer_session = record {
  id = "b";
  state = active;
  transport = new_link;
  pending = [];
  channels = λ c. [];
  next_channel = 0;
  drawn = 0;
}

abbrev own_session : Session Peer
own_session = record {
  id = "a";
  state = active;
  transport = peer_session;
  pending = [];
  channels = λ c. [];
  next_channel = 0;
  drawn = 0;
}

abbrev ping_table : DefaultSessionHandler Peer
ping_table = new_handler none (requests (new_ping_handler (pos 9)) ∷ [])

abbrev far_shc : Shc Peer
far_shc = session_shc (transport pick second) far_env no_close no_clear

ping_only :
    (name : String) (h : RequestHandler Peer)
    → lookup name ping_table.request_handlers ≡ some h
    → new_ping_handler (pos 9) ≡ h
unfolding new_handler lookup insert delete
ping_only name h e = ground (arith, eq_iff "ping" name)

ping_found :
    (name : String) (h : RequestHandler Peer)
    → lookup name ping_table.request_handlers ≡ some h
    → Answers (frames second) IsFree (h.handle far_shc)
ping_found name h e = rw (← ping_only name h e) (
    new_ping_handler-Answers (transport pick second) far_env (frames second)
      (transport-IsTransport pick second) IsFree (free_write pick) no_close no_clear (pos 9))

ping_table-Answers :
    Answers (frames second) IsFree ((session_handler ping_table).on_request far_shc)
unfolding session_handler
ping_table-Answers =
    on_request-Answers (transport pick second) far_env (frames second)
      (transport-IsTransport pick second) IsFree (free_write pick) no_close no_clear ping_table
      ping_found

own-IsTracked : IsTracked own_session
unfolding lookup
own-IsTracked = record {
  made = λ id c h. absurd cc;
  unanswered = λ id c h. absurd cc;
  apart = λ id j c h k. absurd cc;
}

abbrev payload : Any
payload = plain (some (obj (field "t0" (num (pos 5)) end)))

abbrev ping_frame : Bytes
ping_frame = text_of (
    obj (
      field "version" (str "1") (
        field "id" (str "a1")
          (field "method" (str "ping") (field "params" (obj (field "t0" (num (pos 5)) end)) end)))))

is_valid : validate (Message.request (new_request "a1" "ping" payload)) ≡ none
unfolding validate new_request
is_valid = refl

is_marshalled : marshal (Message.request (new_request "a1" "ping" payload)) ≡ some ping_frame
unfolding marshal new_request
is_marshalled = refl

abbrev near_shc : Shc (Session Peer)
near_shc = session_shc (near pick) near_env no_close no_clear

abbrev exchanges : Env Peer
exchanges =
    env pick far_env no_close no_clear (session_handler ping_table) near_env near_shc none (pos 8)
      (pos 7)

peer_returns :
    (peers pick far_env no_close no_clear
      (session_handler ping_table)
      near_env
      near_shc
      none
      (pos 8)
      (pos 7)
      (sending (near pick) exchanges "ping" payload own_session).1.transport).0
    ≡ ok tt
unfolding validate peer_turn read send_message new_request exchange marshal write
    new_pending_request new_link receive parse_valid_message parse_message handle_incoming_message
    set_received_at session_handler lookup new_handler delete insert on_request own_turn find
    new_base transport Calls.handle_request new_ping_handler Typed.handle_request typed_handle
    ping_type read_ping validate_ping pong_any reply session_shc request_ok request_not_ok
    to_response_error error_text
peer_returns = refl

request_answered_example :
    (frame : Bytes) × (r : Response) × (time : ℤ) × (frames second
        (peers pick far_env no_close no_clear
          (session_handler ping_table)
          near_env
          near_shc
          none
          (pos 8)
          (pos 7)
          (sending (near pick) exchanges "ping" payload own_session).1.transport).1.transport
      ≡ frame ∷ [])
    × Carries frame (Message.response r)
    × (r.response ≡ "a1")
    × ((request_call (near pick) exchanges "ping" payload own_session).0
        ≡ answer (received_at pick near_env near_shc none (pos 8) time r ∷ []))
request_answered_example =
    request_answered pick far_env no_close no_clear (session_handler ping_table) near_env near_shc
      none (pos 8) (pos 7) "ping" payload own_session ping_frame own-IsTracked refl is_valid
      is_marshalled ping_table-Answers peer_returns
