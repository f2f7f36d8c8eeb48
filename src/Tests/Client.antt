-- ===== src/Tests/Client.antt =====
-- The client handler over a state that is nothing but its fields.
use rtvbp_go.Common.{◌≡◌, refl, true, false, [], none, some}
use rtvbp_go.Common.Int.{pos}
use rtvbp_go.Common.Act.{ok, err, panic, pure}
use rtvbp_go.Proto.Errors.{msg}
use rtvbp_go.Proto.Json.{obj, end}
use rtvbp_go.Proto.Message.{nil, plain, Request, Response, new_base}
use rtvbp_go.Handler.Shc.{Shc}
use rtvbp_go.Handler.Registry.{on_request}
use rtvbp_go.Session.State.{active}
use rtvbp_go.ProtoV1.Client.{
  ClientHandler, Fields, TelephonyAdapter, session_initialize, new_client_handler,
}
use rtvbp_go.ProtoV1.Client.Guarded.{
  IsGuarded, refuses_before_initialize, IsApart, Initializes, session_initialize-Initializes,
}
use rtvbp_go.ProtoV1.Client.Guarded
use rtvbp_go.ProtoV1.Client.Locked.{IsFields}
use rtvbp_go.ProtoV1.Client.Missing.{validated_method-panic}
use rtvbp_go.ProtoV1.Client.Missing
use rtvbp_go.ProtoV1.Client.Wire.{initialized_of}
use rtvbp_go.Proto.Parse.{as_type}

abbrev fields : Fields ClientHandler
fields = record { get = λ c. c; put = λ c s. c }

fields-IsFields : IsFields fields
fields-IsFields = record { get_put = λ c s. refl; put_put = λ c d s. refl; put_get = λ s. refl }

abbrev accepted : Response
accepted = record {
  base = new_base "1";
  response = "r1";
  result = plain (some (obj end));
  error = none;
}

abbrev peer : Shc ClientHandler
peer = record {
  session_id = λ s. "s1";
  request = λ name a s. (ok accepted, s);
  respond = λ r. pure tt;
  notify = λ name a. pure tt;
  clear_read_buffer = pure 0;
  close = λ cb. pure tt;
  state = λ s. active;
}

abbrev telephony : TelephonyAdapter ClientHandler
telephony = record {
  move = λ r. pure (record { next_application_id = "a2" });
  hang_up = λ r. pure tt;
  session_variables_set = λ r. pure tt;
  session_variables_get = λ r. pure [];
  recording_start = λ r. pure (record { id = "rec" });
  recording_stop = λ r. pure tt;
  on_dtmf = λ cb. pure tt;
  on_hangup = λ cb. pure tt;
}

abbrev new_client : ClientHandler
new_client = record { locked = false; initialized = false; attached = false; dtmf_seq = pos 0 }

abbrev move_request : Request
move_request = record { base = new_base "1"; id = "q1"; method = "application.move"; params = nil }

refuses_before_initialize_example :
    on_request
      (new_client_handler fields telephony (λ shc. pure tt) nil (pos 9))
      peer
      move_request
      new_client
    ≡ (err (msg "session not initialized"), new_client)
refuses_before_initialize_example =
    refuses_before_initialize fields telephony (λ shc. pure tt) nil (pos 9) peer move_request
      new_client fields-IsFields Guarded.move refl

session_initialize-Initializes_example :
    Initializes fields new_client (session_initialize fields peer nil new_client)
session_initialize-Initializes_example =
    session_initialize-Initializes fields peer nil new_client fields-IsFields
      (record { request_apart = λ n a s. refl; notify_apart = λ n a s. refl })

-- A request to hang up that has no params.
abbrev empty_hangup : Request
empty_hangup = record { base = new_base "1"; id = "q2"; method = "call.hangup"; params = nil }

abbrev initialized_client : ClientHandler
initialized_client = record new_client { initialized = true; attached = true }

validated_method-panic_example :
    on_request
      (new_client_handler fields telephony (λ shc. pure tt) nil (pos 9))
      peer
      empty_hangup
      initialized_client
    ≡ (panic, initialized_client)
validated_method-panic_example =
    validated_method-panic fields telephony (λ shc. pure tt) nil (pos 9) peer empty_hangup
      initialized_client fields-IsFields Missing.hangup refl refl refl

-- The first call initializes, the second is refused.
initialize_tests :
    ((session_initialize fields peer nil new_client).1.initialized ≡ true)
    × ((session_initialize fields peer nil (record new_client { initialized = true })).0
        ≡ err (msg "session already initialized"))
unfolding session_initialize as_type initialized_of
initialize_tests = (refl, refl)
