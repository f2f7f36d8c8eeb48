-- ===== src/Proto/WellFormed.antt =====
-- proto: which messages are valid, said without the order of the checks.
use rtvbp_go.Common.{String, ◌≡◌, ◌≢◌, ◌↔◌, Option, none, some, arith, eq_iff}
use rtvbp_go.Common.Int.{pos, eq_of_parts}
use rtvbp_go.Common.Act.{good}
use rtvbp_go.Proto.Json.{Bytes}
use rtvbp_go.Proto.Errors.{ResponseError, code, message, validate_error}
use rtvbp_go.Proto.Message.{
  Any, validate_any, MessageBase, Message, request, response, event, validate_response_error,
  validate_base, validate_request, validate_response, validate_event, validate,
}
use rtvbp_go.Proto.Parse.{parse_message, parse_valid_message}

abbrev pub IsAnyValid : Any → Type 0
IsAnyValid a = validate_any a ≡ none

abbrev pub IsErrorValid : Option ResponseError → Type 0
IsErrorValid none = Unit
IsErrorValid (some e) = (code e ≢ pos 0) × (message e ≢ "")

abbrev pub IsWellFormed : Message → Type 0
IsWellFormed (request r) = (r.version ≡ "1") × (r.id ≢ "") × (r.method ≢ "") × IsAnyValid r.params
IsWellFormed (response r) =
    (r.version ≡ "1") × (r.response ≢ "") × IsErrorValid r.error × IsAnyValid r.result
IsWellFormed (event e) = (e.version ≡ "1") × (e.id ≢ "") × (e.event ≢ "") × IsAnyValid e.payload

version-ne : ◌≢◌ {A = String} "1" ""
version-ne = ground (arith, eq_iff "1" "")

pub validate_base_iff : (b : MessageBase) → (validate_base b ≡ none) ↔ (b.version ≡ "1")
unfolding validate_base
validate_base_iff b = ground (arith, eq_iff b.version "", eq_iff b.version "1", version-ne)

pub validate_error_iff :
    (e : ResponseError) → (validate_error e ≡ none) ↔ ((code e ≢ pos 0) × (message e ≢ ""))
unfolding validate_error
validate_error_iff e = ground (arith, eq_iff (message e) "", eq_of_parts (code e) (pos 0))

validate_response_error_iff :
    (o : Option ResponseError) → (validate_response_error o ≡ none) ↔ IsErrorValid o
validate_response_error_iff none = ground arith
validate_response_error_iff (some e) = ground (arith, validate_error_iff e)

-- A message validates exactly when it has version "1", every text that its kind requires, an error
-- with a code other than 0 and a message (if it has an error), and a payload that validates.
pub validate_iff : (m : Message) → (validate m ≡ none) ↔ IsWellFormed m
unfolding validate validate_request validate_response validate_event
validate_iff (request r) =
    ground (arith, validate_base_iff r.base, eq_iff r.id "", eq_iff r.method "")
validate_iff (response r) =
    ground
      (arith, validate_base_iff r.base, eq_iff r.response "", validate_response_error_iff r.error)
validate_iff (event e) = ground (arith, validate_base_iff e.base, eq_iff e.id "", eq_iff e.event "")

-- What ParseValidMessage returns is valid, and it is what parseMessage reads.
pub parse_valid_message_sound :
    (raw : Bytes) (m : Message)
    → parse_valid_message raw ≡ good m
    → (parse_message raw ≡ good m) × IsWellFormed m
unfolding parse_valid_message
parse_valid_message_sound raw m h = ground (arith, validate_iff m)
