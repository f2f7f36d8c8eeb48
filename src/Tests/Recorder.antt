-- ===== src/Tests/Recorder.antt =====
-- A transport that keeps every frame that it is given, and a session over it.
use rtvbp_go.Common.{ℕ, ◌≡◌, refl, false, List, [], ◌∷◌, ◌++◌, none, some}
use rtvbp_go.Common.Int.{pos}
use rtvbp_go.Common.Act.{ok, pure}
use rtvbp_go.Proto.Json.{num, obj, field, end, Bytes}
use rtvbp_go.Proto.Message.{Request, plain, new_base}
use rtvbp_go.Handler.Shc.{Call}
use rtvbp_go.Handler.Registry.{DefaultSessionHandler, new_handler, requests}
use rtvbp_go.Common.Assoc.{lookup}
use rtvbp_go.Session.Tracked.{IsTracked}
use rtvbp_go.Session.State.{active}
use rtvbp_go.Session.Core.{Session, Env}
use rtvbp_go.Transport.Interface.{Transport, IsTransport}
use rtvbp_go.ProtoV1.Ping.{new_ping_handler}

abbrev pub Frames : Type 0
Frames = List Bytes

abbrev pub recorder : Transport Frames
recorder = record { write = λ b t. (ok tt, t ++ b ∷ []); close = λ t. (ok tt, t) }

abbrev pub written : Frames → List Bytes
written t = t

pub recorder-IsTransport : IsTransport recorder written
recorder-IsTransport = record { write_sent = λ b t. refl; close_sent = λ t. refl }

abbrev pub Always : Frames → Type 0
Always t = Unit

pub recorder-accepts : (b : Bytes) (t : Frames) → Always t → (recorder.write b t).0 ≡ ok tt
recorder-accepts b t ready = refl

pub recorder_accepts_all : (b : Bytes) (t : Frames) → (recorder.write b t).0 ≡ ok tt
recorder_accepts_all b t = refl

abbrev pub open_session : Session Frames
open_session = record {
  id = "s1";
  state = active;
  transport = [];
  pending = [];
  channels = λ c. [];
  next_channel = 0;
  drawn = 0;
}

abbrev pub close_now : Call (Session Frames) (Unit {0}) → Call (Session Frames) (Unit {0})
close_now cb = pure tt

abbrev pub clear_none : Call (Session Frames) ℕ
clear_none = pure 0

abbrev pub alone : Env Frames
alone = record { fresh = λ n. "r1"; others = λ c s. (false, s) }

abbrev pub ping_request : Request
ping_request = record {
  base = new_base "1";
  id = "q7";
  method = "ping";
  params = plain (some (obj (field "t0" (num (pos 5)) end)));
}

abbrev pub ping_table : DefaultSessionHandler (Session Frames)
ping_table = new_handler none (requests (new_ping_handler (pos 9)) ∷ [])

pub open_session-IsTracked : IsTracked open_session
unfolding lookup
open_session-IsTracked = record {
  made = λ id c h. absurd cc;
  unanswered = λ id c h. absurd cc;
  apart = λ id j c h k. absurd cc;
}
