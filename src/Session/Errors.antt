-- ===== src/Session/Errors.antt =====
-- proto/error.go, as the session uses it: which errors make a response that validates.
use Prim.Native.String.{◌++◌ as cat, count}
use text.Mathlib.TextLemmas.{length-append, length-eq-zero_iff, length-nil}
use rtvbp_go.Common.{String, ◌≡◌, ◌≢◌, ap, none, arith}
use rtvbp_go.Common.Int.{pos}
use rtvbp_go.Proto.Errors.{
  Error, msg, wrap, response, ResponseError, code, message, error_text, new_error, not_implemented,
  err_internal_server_error, bad_request, to_response_error, as_response,
}

-- The error can be sent: the ResponseError that ToResponseError makes of it validates.
pub record IsSendable (e : Error) : Type 0 where
  pub has_code : code (to_response_error e) ≢ pos 0
  pub has_message : message (to_response_error e) ≢ ""

pub cat-ne_left : (s t : String) → s ≢ "" → cat s t ≢ ""
cat-ne_left s t h e =
    h ((length-eq-zero_iff {l = s}).0 (omega (arith, length-append s t, ap count e, length-nil)))

-- An error that fmt.Errorf wraps around one that holds no *ResponseError is sent as a 500.
pub wrap-IsSendable :
    (s : String) (e : Error) → as_response e ≡ none → s ≢ "" → IsSendable (wrap s e)
unfolding to_response_error error_text
wrap-IsSendable s e h n = ground (arith, cat-ne_left s (cat ": " (error_text e)) n)

pub bad_request-IsSendable : (e : Error) → error_text e ≢ "" → IsSendable (response (bad_request e))
unfolding to_response_error bad_request
bad_request-IsSendable e n = ground arith

pub msg-IsSendable : (s : String) → s ≢ "" → IsSendable (msg s)
unfolding to_response_error new_error error_text as_response
msg-IsSendable s n = ground arith

pub response-IsSendable :
    (r : ResponseError) → code r ≢ pos 0 → message r ≢ "" → IsSendable (response r)
unfolding to_response_error
response-IsSendable r c m = record { has_code = c; has_message = m }

pub new_error-IsSendable :
    (s : String) (e : Error)
    → s ≢ ""
    → IsSendable (response (new_error err_internal_server_error (wrap s e)))
unfolding to_response_error new_error error_text
new_error-IsSendable s e n = ground (arith, cat-ne_left s (cat ": " (error_text e)) n)

pub not_implemented-IsSendable : (s : String) → s ≢ "" → IsSendable (response (not_implemented s))
unfolding to_response_error not_implemented error_text
not_implemented-IsSendable s n = ground arith
