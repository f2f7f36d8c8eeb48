-- ===== src/ProtoV1/Ping.antt =====
-- proto/protov1/ping.go. Times are milliseconds since the epoch; the clock's readings are arguments.
-- The differences of two int64 are those of the integers: times of the clock are far from the bounds.
pub mod RoundTrip
pub mod Pinger
pub mod Returning
use rtvbp_go.Common.{String, Bool, Option, none, some, if◌then◌else◌}
use rtvbp_go.Common.Int.{ℤ, pos, eqb_ℤ, ◌-ℤ◌}
use rtvbp_go.Common.Act.{Outcome, ok, err, panic, blocked, Act, ◌>>=◌, pure, fail}
use rtvbp_go.Proto.Json.{
  Json, null, num, obj, Fields, end, field, find, omit, int_field, any_field, Bytes,
}
use rtvbp_go.Proto.Errors.{Error, sentinel, bad_json, msg}
use rtvbp_go.Proto.Message.{Any, nil, plain, valid, invalid, Request, Response}
use rtvbp_go.Proto.Parse.{as_type}
use rtvbp_go.Handler.Shc.{Call, Shc, RequestHandler}
use rtvbp_go.Handler.Typed.{RequestType, reading, handle_request}

-- `data_any` is the field Data, by its JSON.
pub record PingRequest : Type 0 where
  pub t0 : ℤ
  pub rtt : ℤ
  pub data_any : Option Json

pub record PingResponse : Type 0 where
  pub t0 : ℤ
  pub t1 : ℤ
  pub t2 : ℤ
  pub owd : ℤ
  pub data_any : Option Json

-- `if x == 0 { return fmt.Errorf(text) }`
abbrev nonzero : ℤ → String → Option Error → Option Error
nonzero x text rest = if eqb_ℤ x (pos 0) then some (msg text) else rest

-- PingRequest.Validate
unfoldable pub validate_ping : PingRequest → Option Error
validate_ping r = nonzero r.t0 "ping request T0 is required" none

-- PingResponse.Validate
unfoldable pub validate_pong : PingResponse → Option Error
validate_pong r =
    nonzero r.t0 "ping response T0 is required" (
      nonzero r.t1 "ping response T1 is required"
        (nonzero r.t2 "ping response T2 is required" none))

-- NewPingRequest
unfoldable pub new_ping_request : ℤ → PingRequest
new_ping_request now = record { t0 = now; rtt = pos 0; data_any = none }

-- What json makes of the two types; a round trip time of 0 is left out.
abbrev pub ping_fields : PingRequest → Fields
ping_fields r = field "t0" (num r.t0) (
    omit "rtt" (if eqb_ℤ r.rtt (pos 0) then none else some (num r.rtt))
      (omit "data" r.data_any end))

abbrev pub pong_fields : PingResponse → Fields
pong_fields r = field "t0" (num r.t0) (
    field "t1" (num r.t1)
      (field "t2" (num r.t2) (field "owd" (num r.owd) (omit "data" r.data_any end))))

abbrev pub as_any : Option Error → Fields → Any
as_any none fs = valid (some (obj fs))
as_any (some e) fs = invalid (some (obj fs)) e

unfoldable pub ping_any : PingRequest → Any
unfolding validate_ping
ping_any r = as_any (validate_ping r) (ping_fields r)

unfoldable pub pong_any : PingResponse → Any
unfolding validate_pong
pong_any r = as_any (validate_pong r) (pong_fields r)

infixl 5 ◌>>?◌
abbrev ◌>>?◌ : {A B : Type 0} → Option A → (A → Option B) → Option B
none >>? f = none
some a >>? f = f a

abbrev ping_of : Fields → Option PingRequest
unfolding find
ping_of fs = int_field (find "t0" fs) >>? λ t0. int_field (find "rtt" fs) >>? λ rtt.
    some (record { t0 = t0; rtt = rtt; data_any = any_field (find "data" fs) })

abbrev pong_of : Fields → Option PingResponse
unfolding find
pong_of fs = int_field (find "t0" fs) >>? λ t0. int_field (find "t1" fs) >>? λ t1.
    int_field (find "t2" fs) >>? λ t2. int_field (find "owd" fs) >>? λ owd.
    some (record { t0 = t0; t1 = t1; t2 = t2; owd = owd; data_any = any_field (find "data" fs) })

-- json.Unmarshal into a PingRequest
unfoldable pub read_ping : Json → Option PingRequest
unfolding find
read_ping (obj fs) = ping_of fs
read_ping null = ping_of end
read_ping _ = none

-- json.Unmarshal into a PingResponse
unfoldable pub read_pong : Json → Option PingResponse
unfolding find
read_pong (obj fs) = pong_of fs
read_pong null = pong_of end
read_pong _ = none

-- proto.As[PingResponse]
unfoldable pub as_pong : Any → Outcome Error PingResponse
unfolding as_type read_pong
as_pong a = as_type read_pong a

module _ {S : Type 0} where
  unfoldable pub ping_type : RequestType S PingRequest
  ping_type = record {
    method_name = "ping";
    read = read_ping;
    validation = some (reading validate_ping);
    on_after_reply = none;
  }

  -- The function of NewPingHandler; it reads its argument, and panics at nil.
  unfoldable pub pong : ℤ → Shc S → Request → Option PingRequest → Call S Any
  unfolding pong_any
  pong t2 shc req none s = (panic, s)
  pong t2 shc req (some p) s = (
    ok (
        pong_any (record {
          t0 = p.t0;
          t1 = req.received_at;
          t2 = t2;
          owd = t2 -ℤ p.t0;
          data_any = p.data_any;
        })),
    s,
  )

  -- NewPingHandler; the first argument is what time.Now gives.
  unfoldable pub new_ping_handler : ℤ → RequestHandler S
  unfolding pong
  new_ping_handler now = handle_request ping_type (pong now)

  abbrev rtt_of : ℤ → ℤ → Outcome Error PingResponse → Call S ℤ
  rtt_of sent now (ok p) s = (ok (now -ℤ sent), s)
  rtt_of sent now (err e) s = (err e, s)
  rtt_of sent now _ s = (panic, s)

  -- ping; the two readings of the clock are arguments.
  unfoldable pub ping : Shc S → ℤ → ℤ → ℤ → Call S ℤ
  unfolding ping_any as_pong
  ping shc sent now last_rtt = do
    res ← shc.request "ping" (ping_any (record { t0 = sent; rtt = last_rtt; data_any = none }))
    rtt_of sent now (as_pong res.result)
