-- ===== src/Proto/RoundTrip.antt =====
-- proto: messages over the wire.
use rtvbp_go.Common.{
  ◌⊎◌, inl, inr, String, ◌≡◌, refl, ◌≢◌, Option, none, some, arith, is_empty_of_ne,
}
use rtvbp_go.Common.Act.{good}
use rtvbp_go.Proto.Json.{Json, Bytes, Fields, field, end, omit, str, obj, text_of, find, any_field}
use rtvbp_go.Proto.Errors.{ResponseError, bare, caused, code, message, data_of}
use rtvbp_go.Proto.Message.{
  Any, nil, plain, valid, invalid, Request, Response, Event, Message, request, response, event,
  validate, new_base,
}
use rtvbp_go.Proto.Parse.{
  from_wire, parse_message, parse_valid_message, marshal, marshal_any, marshal_error, error_field,
}
use rtvbp_go.Proto.WellFormed.{IsWellFormed, IsAnyValid, IsErrorValid, validate_iff}

-- A payload after the wire: its JSON, with no method, and nil if it was written as `null`.
abbrev pub sent_any : Any → Any
sent_any nil = nil
sent_any (plain j) = from_wire (any_field j)
sent_any (valid j) = from_wire (any_field j)
sent_any (invalid j e) = from_wire (any_field j)

-- An error after the wire: the cause stays behind.
abbrev pub sent_error : Option ResponseError → Option ResponseError
sent_error none = none
sent_error (some e) = some (bare (code e) (message e) (any_field (data_of e)))

abbrev pub sent : Message → Message
sent (request r) =
    request (record {
      base = new_base r.version;
      id = r.id;
      method = r.method;
      params = sent_any r.params;
    })
sent (response r) = response (record {
  base = new_base r.version;
  response = r.response;
  result = sent_any r.result;
  error = sent_error r.error;
})
sent (event e) =
    event (record {
      base = new_base e.version;
      id = e.id;
      event = e.event;
      payload = sent_any e.payload;
    })

-- A payload that json.Marshal accepts, by the JSON that it makes (`none`: left out).
Any-cases :
    (a : Any)
    → (marshal_any a ≡ none)
      ⊎ ((o : Option Json) × (marshal_any a ≡ some o) × (sent_any a ≡ from_wire (any_field o)))
Any-cases nil = inr (none, refl, refl)
Any-cases (plain none) = inl refl
Any-cases (plain (some j)) = inr (some j, refl, refl)
Any-cases (valid none) = inl refl
Any-cases (valid (some j)) = inr (some j, refl, refl)
Any-cases (invalid none x) = inl refl
Any-cases (invalid (some j) x) = inr (some j, refl, refl)

parse-marshal_request :
    (r : Request) (raw : Bytes)
    → r.method ≢ ""
    → marshal (request r) ≡ some raw
    → parse_message raw ≡ good (sent (request r))
unfolding parse_message marshal find
parse-marshal_request r raw h e = elim (Any-cases r.params) [
  | inl refused ↦ ground arith
  | inr (none, made, kept) ↦ ground (arith, is_empty_of_ne r.method h)
  | inr (some j, made, kept) ↦ ground (arith, is_empty_of_ne r.method h)
]

parse-marshal_event :
    (r : Event) (raw : Bytes)
    → r.event ≢ ""
    → marshal (event r) ≡ some raw
    → parse_message raw ≡ good (sent (event r))
unfolding parse_message marshal find
parse-marshal_event r raw h e = elim (Any-cases r.payload) [
  | inl refused ↦ ground arith
  | inr (none, made, kept) ↦ ground (arith, is_empty_of_ne r.event h)
  | inr (some j, made, kept) ↦ ground (arith, is_empty_of_ne r.event h)
]

error_field-marshal_error :
    (e : Option ResponseError) → error_field (marshal_error e) ≡ some (sent_error e)
unfolding error_field find
error_field-marshal_error none = refl
error_field-marshal_error (some (bare c m none)) = refl
error_field-marshal_error (some (bare c m (some j))) = refl
error_field-marshal_error (some (caused c m none x)) = refl
error_field-marshal_error (some (caused c m (some j) x)) = refl

abbrev response_fields : String → String → Option Json → Option Json → Fields
response_fields v id result error =
    field "version" (str v)
      (field "response" (str id) (omit "result" result (omit "error" error end)))

parse-response_fields :
    (v id : String) (o x : Option Json) (e : Option ResponseError)
    → id ≢ ""
    → error_field x ≡ some e
    → parse_message (text_of (obj (response_fields v id o x)))
      ≡ good (
          response (record {
            base = new_base v;
            response = id;
            result = from_wire (any_field o);
            error = e;
          }))
unfolding parse_message find
parse-response_fields v id none none e h q = ground (arith, is_empty_of_ne id h)
parse-response_fields v id none (some x) e h q = rw q (ground (arith, is_empty_of_ne id h))
parse-response_fields v id (some j) none e h q = ground (arith, is_empty_of_ne id h)
parse-response_fields v id (some j) (some x) e h q = rw q (ground (arith, is_empty_of_ne id h))

parse-marshal_response :
    (r : Response) (raw : Bytes)
    → r.response ≢ ""
    → marshal (response r) ≡ some raw
    → parse_message raw ≡ good (sent (response r))
unfolding marshal
parse-marshal_response r raw h e = elim (Any-cases r.result) [
  | inl refused ↦ absurd (ground arith)
  | inr (o, made, kept) ↦
      let p =
        parse-response_fields r.version r.response o (marshal_error r.error) (sent_error r.error) h
          (error_field-marshal_error r.error) in
      ground arith
]

from_wire-IsAnyValid : (o : Option Json) → IsAnyValid (from_wire o)
from_wire-IsAnyValid none = refl
from_wire-IsAnyValid (some j) = refl

sent_any-IsAnyValid : (a : Any) → IsAnyValid (sent_any a)
sent_any-IsAnyValid nil = refl
sent_any-IsAnyValid (plain j) = from_wire-IsAnyValid (any_field j)
sent_any-IsAnyValid (valid j) = from_wire-IsAnyValid (any_field j)
sent_any-IsAnyValid (invalid j e) = from_wire-IsAnyValid (any_field j)

sent_error-IsErrorValid : (e : Option ResponseError) → IsErrorValid e → IsErrorValid (sent_error e)
sent_error-IsErrorValid none h = tt
sent_error-IsErrorValid (some e) h = h

pub sent-IsWellFormed : (m : Message) → IsWellFormed m → IsWellFormed (sent m)
unfolding new_base
sent-IsWellFormed (request r) (v, i, n, p) = (v, i, n, sent_any-IsAnyValid r.params)
sent-IsWellFormed (response r) (v, i, e, p) =
    (v, i, sent_error-IsErrorValid r.error e, sent_any-IsAnyValid r.result)
sent-IsWellFormed (event r) (v, i, n, p) = (v, i, n, sent_any-IsAnyValid r.payload)

parse-marshal :
    (m : Message) (raw : Bytes)
    → IsWellFormed m
    → marshal m ≡ some raw
    → parse_message raw ≡ good (sent m)
parse-marshal (request r) raw h e = parse-marshal_request r raw h.2 e
parse-marshal (response r) raw h e = parse-marshal_response r raw h.1 e
parse-marshal (event r) raw h e = parse-marshal_event r raw h.2 e

-- A valid message that json.Marshal accepts is read back by ParseValidMessage as it was sent: the
-- same kind, version, id, name and error code and text, the payload as its JSON (nil if that is
-- `null`), with no receipt time and no cause of the error.
pub parse_valid-marshal :
    (m : Message) (raw : Bytes)
    → validate m ≡ none
    → marshal m ≡ some raw
    → parse_valid_message raw ≡ good (sent m)
unfolding parse_valid_message
parse_valid-marshal m raw h e =
    let w = (validate_iff m).0 h in
    ground (arith, parse-marshal m raw w e, (validate_iff (sent m)).1 (sent-IsWellFormed m w))
