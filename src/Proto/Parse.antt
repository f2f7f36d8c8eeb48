-- ===== src/Proto/Parse.antt =====
-- proto/message.go: rawMessage, parseMessage and ParseValidMessage; and json.Marshal and
-- json.Unmarshal at the message structs, from their tags.
-- The raw bytes that the texts of two errors quote are left out of those texts.
use Prim.Native.String.{◌++◌ as cat}
use rtvbp_go.Common.{String, not, Option, none, some, is_empty, if◌then◌else◌}
use rtvbp_go.Common.Act.{Outcome, ok, err, Result, good, bad}
use rtvbp_go.Proto.Json.{
  Json, null, num, str, obj, Fields, end, field, Bytes, text_of, junk, find, omit, string_field,
  int_field, any_field,
}
use rtvbp_go.Proto.Errors.{
  Error, sentinel, bad_json, msg, wrap, ResponseError, bare, code, message, data_of,
}
use rtvbp_go.Proto.Message.{
  Any, nil, plain, valid, invalid, Message, request, response, event,
  new_request_with_id_and_version, new_response_with_version, new_event_with_version_and_id,
  validate, get_type,
}

pub record RawMessage : Type 0 where
  pub version : String
  pub id : String
  pub method : String
  pub response : String
  pub event : String
  pub payload : Option Json
  pub params : Option Json
  pub result : Option Json
  pub error : Option ResponseError

infixl 5 ◌>>=◌
abbrev ◌>>=◌ {ℓ κ} : {A : Type ℓ} {B : Type κ} → Option A → (A → Option B) → Option B
none >>= f = none
some a >>= f = f a

-- A field of type *ResponseError.
unfoldable pub error_field : Option Json → Option (Option ResponseError)
unfolding find
error_field none = some none
error_field (some null) = some none
error_field (some (obj fs)) = do
  c ← int_field (find "code" fs)
  m ← string_field (find "message" fs)
  some (some (bare c m (any_field (find "any" fs))))
error_field (some _) = none

raw_fields : Fields → Option RawMessage
unfolding find error_field
raw_fields fs = do
  version ← string_field (find "version" fs)
  id ← string_field (find "id" fs)
  method ← string_field (find "method" fs)
  of ← string_field (find "response" fs)
  name ← string_field (find "event" fs)
  error ← error_field (find "error" fs)
  some (record {
    version = version;
    id = id;
    method = method;
    response = of;
    event = name;
    payload = any_field (find "data" fs);
    params = any_field (find "params" fs);
    result = any_field (find "result" fs);
    error = error;
  })

-- json.Unmarshal(raw, &msg); `none` is its error.
unfoldable pub unmarshal : Bytes → Option RawMessage
unfolding raw_fields
unmarshal (junk s) = none
unmarshal (text_of (obj fs)) = raw_fields fs
unmarshal (text_of null) = raw_fields end
unmarshal (text_of _) = none

-- What json.Unmarshal puts into an `any`.
abbrev pub from_wire : Option Json → Any
from_wire none = nil
from_wire (some j) = plain (some j)

-- The `if` ladder of parseMessage.
unfoldable pub of_raw : RawMessage → Result Error Message
unfolding new_event_with_version_and_id new_request_with_id_and_version new_response_with_version
of_raw m =
    if not (is_empty m.event)
    then good (event (new_event_with_version_and_id m.version m.id m.event (from_wire m.payload)))
    else if not (is_empty m.method)
    then good
        (request (new_request_with_id_and_version m.version m.id m.method (from_wire m.params)))
    else if not (is_empty m.response)
    then good
        (response (new_response_with_version m.version m.response (from_wire m.result) m.error))
    else bad (wrap "failed to parse message" (msg "message is invalid"))

unfoldable pub parse_message : Bytes → Result Error Message
unfolding unmarshal of_raw
parse_message raw = elim (unmarshal raw) [ none ↦ bad (sentinel bad_json) | some m ↦ of_raw m ]

abbrev checked : Message → Option Error → Result Error Message
checked m none = good m
checked m (some e) = bad (wrap (cat "failed to validate `" (cat (get_type m) "` message")) e)

unfoldable pub parse_valid_message : Bytes → Result Error Message
parse_valid_message raw = elim (parse_message raw) [
  | good m ↦ checked m (validate m)
  | bad e ↦ bad e
]

-- json.Marshal at an `any` field tagged `omitempty`: the outer `none` is an error.
abbrev pub marshal_any : Any → Option (Option Json)
marshal_any nil = some none
marshal_any (plain none) = none
marshal_any (plain (some j)) = some (some j)
marshal_any (valid none) = none
marshal_any (valid (some j)) = some (some j)
marshal_any (invalid none e) = none
marshal_any (invalid (some j) e) = some (some j)

abbrev pub marshal_error : Option ResponseError → Option Json
marshal_error none = none
marshal_error (some e) = some (
    obj (
      field "code" (num (code e)) (field "message" (str (message e)) (omit "any" (data_of e) end))))

marshal_fields : Message → Option Fields
marshal_fields (request r) = do
  params ← marshal_any r.params
  some (
      field "version" (str r.version)
        (field "id" (str r.id) (field "method" (str r.method) (omit "params" params end))))
marshal_fields (response r) = do
  result ← marshal_any r.result
  some (
      field "version" (str r.version) (
        field "response" (str r.response)
          (omit "result" result (omit "error" (marshal_error r.error) end))))
marshal_fields (event e) = do
  payload ← marshal_any e.payload
  some (
      field "version" (str e.version)
        (field "id" (str e.id) (field "event" (str e.event) (omit "data" payload end))))

abbrev text : Option Fields → Option Bytes
text none = none
text (some fs) = some (text_of (obj fs))

-- json.Marshal(msg); `none` is its error.
unfoldable pub marshal : Message → Option Bytes
unfolding marshal_fields
marshal m = text (marshal_fields m)

abbrev read_any {ℓ} : {R : Type ℓ} → (Json → Option R) → Option (Option Json) → Option R
read_any read none = none
read_any read (some none) = read null
read_any read (some (some j)) = read j

-- As, at a type that `read` reads; a nil value is written as `null`.
unfoldable pub as_type {ℓ} : {R : Type ℓ} → (Json → Option R) → Any → Outcome Error R
as_type read a = elim (read_any read (marshal_any a)) [
  | none ↦ err (sentinel bad_json)
  | some r ↦ ok r
]
