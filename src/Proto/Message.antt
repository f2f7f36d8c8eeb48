-- ===== src/Proto/Message.antt =====
-- proto/message.go, proto/request.go, proto/response.go, proto/event.go: the messages, their
-- validation, and their constructors. An id that idgen.ID makes is an argument.
use Prim.Native.String.{◌++◌ as cat}
use rtvbp_go.Common.{
  String, Bool, not, Option, none, some, is_empty, str_eq, is_some, if◌then◌else◌,
}
use rtvbp_go.Common.Int.{ℤ, pos}
use rtvbp_go.Proto.Json.{Json}
use rtvbp_go.Proto.Errors.{Error, msg, wrap, ResponseError, first_some, validate_error}

-- A value of type `any`, by what the package observes of it: whether it is nil, what json.Marshal
-- makes of it (`none`: an error), and what Validate says if it has that method.
pub data Any : Type 0 where
  nil : Any
  plain : Option Json → Any  -- no Validate
  valid : Option Json → Any  -- Validate returns nil
  invalid : Option Json → Error → Any  -- Validate returns the error

-- `if v, ok := x.(validatable); ok { if err := v.Validate(); ...`; `none` is no error.
abbrev pub validate_any : Any → Option Error
validate_any nil = none
validate_any (plain j) = none
validate_any (valid j) = none
validate_any (invalid j e) = some e

abbrev pub version : String
version = "1"

pub record MessageBase : Type 0 where
  pub version : String
  pub received_at : ℤ

unfoldable pub new_base : String → MessageBase
new_base v = record { version = v; received_at = pos 0 }

unfoldable pub validate_base : MessageBase → Option Error
validate_base r =
    if is_empty r.version
    then some (msg "version is required")
    else if not (str_eq r.version version)
    then some (msg (cat "unsupported version: " (cat r.version " - only 1 is allowed")))
    else none

-- `if s == "" { return fmt.Errorf(text) }`
abbrev pub required : String → String → Option Error
required s text = if is_empty s then some (msg text) else none

abbrev pub wrapped : String → Option Error → Option Error
wrapped s none = none
wrapped s (some e) = some (wrap s e)

pub record Request : Type 0 where
  pub base : MessageBase
  pub open base use *
  pub id : String
  pub method : String
  pub params : Any

pub record Response : Type 0 where
  pub base : MessageBase
  pub open base use *
  pub response : String
  pub result : Any
  pub error : Option ResponseError

pub record Event : Type 0 where
  pub base : MessageBase
  pub open base use *
  pub id : String
  pub event : String
  pub payload : Any

-- Request.Validate
unfoldable pub validate_request : Request → Option Error
unfolding validate_base
validate_request r = first_some (validate_base r.base) (
    first_some (required r.id "request ID is required") (
      first_some (required r.method "request method is required")
        (wrapped "request.params invalid" (validate_any r.params))))

abbrev pub validate_response_error : Option ResponseError → Option Error
validate_response_error none = none
validate_response_error (some e) = wrapped "error is invalid" (validate_error e)

-- Response.Validate
unfoldable pub validate_response : Response → Option Error
unfolding validate_base validate_error
validate_response r = first_some (validate_base r.base) (
    first_some (required r.response "response is required and needs to carry the ID of the request")
      (first_some (validate_response_error r.error)
        (wrapped "result is invalid" (validate_any r.result))))

-- Event.Validate
unfoldable pub validate_event : Event → Option Error
unfolding validate_base
validate_event e = first_some (validate_base e.base) (
    first_some (required e.id "event ID is required") (
      first_some (required e.event "event name is required")
        (wrapped "event data is invalid" (validate_any e.payload))))

-- Response.Ok
unfoldable pub is_ok : Response → Bool
is_ok r = not (is_some r.error)

unfoldable pub new_request_with_id_and_version : String → String → String → Any → Request
unfolding new_base
new_request_with_id_and_version v id method params = record {
  base = new_base v;
  id = id;
  method = method;
  params = params;
}

-- NewRequest; the first argument is what idgen.ID returns.
unfoldable pub new_request : String → String → Any → Request
unfolding new_request_with_id_and_version
new_request fresh method params = new_request_with_id_and_version version fresh method params

unfoldable pub new_response_with_version : String → String → Any → Option ResponseError → Response
unfolding new_base
new_response_with_version v request_id result err = record {
  base = new_base v;
  response = request_id;
  result = result;
  error = err;
}

unfoldable pub new_event_with_version_and_id : String → String → String → Any → Event
unfolding new_base
new_event_with_version_and_id v id name payload = record {
  base = new_base v;
  id = id;
  event = name;
  payload = payload;
}

-- NewEvent; the first argument is what idgen.ID returns.
unfoldable pub new_event : String → String → Any → Event
unfolding new_event_with_version_and_id
new_event fresh name payload = new_event_with_version_and_id version fresh name payload

-- Request.newResponse
unfoldable pub request_new_response : Request → Any → Option ResponseError → Response
unfolding new_response_with_version
request_new_response r res err = new_response_with_version r.version r.id res err

-- Request.Ok
unfoldable pub request_ok : Request → Any → Response
unfolding request_new_response
request_ok r result = request_new_response r result none

-- Request.NotOk
unfoldable pub request_not_ok : Request → ResponseError → Response
unfolding request_new_response
request_not_ok r err = request_new_response r nil (some err)

pub data Message : Type 0 where
  request : Request → Message
  response : Response → Message
  event : Event → Message

-- Message.Validate
unfoldable pub validate : Message → Option Error
unfolding validate_request validate_response validate_event
validate (request r) = validate_request r
validate (response r) = validate_response r
validate (event e) = validate_event e

-- Message.GetType
unfoldable pub get_type : Message → String
get_type (request r) = "request"
get_type (response r) = "response"
get_type (event e) = "event"

abbrev pub message_base : Message → MessageBase
message_base (request r) = r.base
message_base (response r) = r.base
message_base (event e) = e.base

-- Message.GetReceivedAt
unfoldable pub get_received_at : Message → ℤ
get_received_at m = (message_base m).received_at

-- Message.SetReceivedAt
unfoldable pub set_received_at : ℤ → Message → Message
set_received_at t (request r) = request (record r { base = record (r.base) { received_at = t } })
set_received_at t (response r) = response (record r { base = record (r.base) { received_at = t } })
set_received_at t (event e) = event (record e { base = record (e.base) { received_at = t } })
