-- ===== src/Proto/Errors.antt =====
-- proto/error.go, and the parts of the packages errors and fmt that the code uses: errors.Is,
-- errors.As for `*ResponseError`, and the text of an error.
use Prim.Native.String.{◌++◌ as cat}
use rtvbp_go.Common.{
  ◌==◌, ℕ, zero, suc, ◌/◌, ◌%◌, String, Bool, false, ◌||◌, Option, none, some, ltb, ◌≤◌, ◌≡◌, refl,
  Bool-cases, inl, inr, arith, if◌then◌else◌, is_empty,
}
use rtvbp_go.Common.Int.{ℤ, pos, negsuc, eqb_ℤ}
use rtvbp_go.Proto.Json.{Json}

-- Error values that the code compares by identity.
pub data Sentinel : Type 0 where
  request_timeout request_failed request_validation_failed : Sentinel
  eof closed_pipe net_closed close_sent : Sentinel
  bad_json context_done : Sentinel

-- `bare` has no cause: it was read from the wire. `caused` is what NewError makes.
mutual
  pub data Error : Type 0 where
    sentinel : Sentinel → Error
    msg : String → Error  -- errors.New(s), fmt.Errorf(s)
    wrap : String → Error → Error  -- fmt.Errorf("s: %w", e)
    join : Error → Error → Error  -- fmt.Errorf("%w: %w", e, f)
    response : ResponseError → Error

  pub data ResponseError : Type 0 where
    bare : ℤ → String → Option Json → ResponseError
    caused : ℤ → String → Option Json → Error → ResponseError

-- e.Code, e.Message, e.Data
abbrev pub code : ResponseError → ℤ
code (bare c m d) = c
code (caused c m d e) = c

abbrev pub message : ResponseError → String
message (bare c m d) = m
message (caused c m d e) = m

abbrev pub data_of : ResponseError → Option Json
data_of (bare c m d) = d
data_of (caused c m d e) = d

-- ResponseError.Unwrap
unfoldable pub unwrap : ResponseError → Option Error
unwrap (bare c m d) = none
unwrap (caused c m d e) = some e

abbrev pub err_unspecified : ℤ
err_unspecified = pos 0

abbrev pub err_unknown : ℤ
err_unknown = negsuc 0

abbrev pub err_status_bad_request : ℤ
err_status_bad_request = pos 400

abbrev pub err_internal_server_error : ℤ
err_internal_server_error = pos 500

abbrev pub err_not_implemented : ℤ
err_not_implemented = pos 501

-- ResponseError.Validate; `none` is a nil error.
unfoldable pub validate_error : ResponseError → Option Error
validate_error e =
    if eqb_ℤ (code e) err_unspecified
    then some (msg "error code is required")
    else if is_empty (message e)
    then some (msg "error message is required")
    else none

abbrev digit : ℕ → String
digit zero = "0"
digit (suc zero) = "1"
digit (suc (suc zero)) = "2"
digit (suc (suc (suc zero))) = "3"
digit (suc (suc (suc (suc zero)))) = "4"
digit (suc (suc (suc (suc (suc zero))))) = "5"
digit (suc (suc (suc (suc (suc (suc zero)))))) = "6"
digit (suc (suc (suc (suc (suc (suc (suc zero))))))) = "7"
digit (suc (suc (suc (suc (suc (suc (suc (suc zero)))))))) = "8"
digit _ = "9"

-- The digits of a number in front of a text; `n` rounds are enough for `n`.
digits : ℕ → ℕ → String → String
digits zero n s = cat (digit (n % 10)) s
digits (suc f) n s =
    let s' = cat (digit (n % 10)) s in
    let rest = digits f (n / 10) s' in if ltb n 10 then s' else rest

-- Any two numbers of rounds that reach `n` give the same text.
digits-enough : (f g n : ℕ) (s : String) → n ≤ f → n ≤ g → digits f n s ≡ digits g n s
unfolding digits
digits-enough zero zero n s h k = refl
digits-enough zero (suc g) n s h k = ground arith
digits-enough (suc f) zero n s h k = ground arith
digits-enough (suc f) (suc g) n s h k =
    let s' = cat (digit (n % 10)) s in
    elim (Bool-cases (ltb n 10)) [
      | inl small ↦ rw (small) refl
      | inr large ↦ rw (large) (digits-enough f g (n / 10) s' (ground arith) (ground arith))
    ]

-- `%d`
unfoldable pub decimal : ℤ → String
unfolding digits
decimal (pos n) = digits n n ""
decimal (negsuc n) = cat "-" (digits (suc n) (suc n) "")

abbrev pub sentinel_text : Sentinel → String
sentinel_text request_timeout = "request: timeout"
sentinel_text request_failed = "request: failed"
sentinel_text request_validation_failed = "request: client validation failed"
sentinel_text eof = "EOF"
sentinel_text closed_pipe = "io: read/write on closed pipe"
sentinel_text net_closed = "use of closed network connection"
sentinel_text close_sent = "websocket: close sent"
sentinel_text bad_json = "json: cannot unmarshal"
sentinel_text context_done = "context deadline exceeded"

-- ResponseError.Error
unfoldable pub response_text : ResponseError → String
unfolding decimal
response_text e = cat (decimal (code e)) (cat ": " (message e))

-- err.Error()
unfoldable pub error_text : Error → String
unfolding response_text
error_text (sentinel s) = sentinel_text s
error_text (msg s) = s
error_text (wrap s e) = cat s (cat ": " (error_text e))
error_text (join e f) = cat (error_text e) (cat ": " (error_text f))
error_text (response r) = response_text r

unfoldable pub new_error : ℤ → Error → ResponseError
new_error c cause = caused c (error_text cause) none cause

unfoldable pub not_implemented : String → ResponseError
unfolding new_error
not_implemented s = new_error err_not_implemented (msg s)

unfoldable pub bad_request : Error → ResponseError
unfolding new_error
bad_request cause = new_error err_status_bad_request cause

abbrev pub first_some {ℓ} : {A : Type ℓ} → Option A → Option A → Option A
first_some none b = b
first_some (some a) b = some a

-- errors.As(err, &re): the first *ResponseError of the tree.
unfoldable pub as_response : Error → Option ResponseError
as_response (sentinel s) = none
as_response (msg s) = none
as_response (wrap s e) = as_response e
as_response (join e f) = first_some (as_response e) (as_response f)
as_response (response r) = some r

unfoldable pub to_response_error : Error → ResponseError
unfolding as_response new_error
to_response_error e = elim (as_response e) [
  | some re ↦ re
  | none ↦ new_error err_internal_server_error e
]

-- The identity of an error value.
abbrev sentinel_id : Sentinel → ℕ
sentinel_id request_timeout = 0
sentinel_id request_failed = 1
sentinel_id request_validation_failed = 2
sentinel_id eof = 3
sentinel_id closed_pipe = 4
sentinel_id net_closed = 5
sentinel_id close_sent = 6
sentinel_id bad_json = 7
sentinel_id context_done = 8

-- errors.Is(err, target)
unfoldable mutual
  pub is : Sentinel → Error → Bool
  is t (sentinel s) = sentinel_id t == sentinel_id s
  is t (msg s) = false
  is t (wrap s e) = is t e
  is t (join e f) = is t e || is t f
  is t (response r) = is_response t r

  pub is_response : Sentinel → ResponseError → Bool
  is_response t (bare c m d) = false
  is_response t (caused c m d e) = is t e
