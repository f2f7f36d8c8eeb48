-- ===== src/ProtoV1/Client/Missing.antt =====
-- proto/protov1/handler.go, ping.go, call.go, recording.go: requests to the client handler without params.
use rtvbp_go.Common.{String, ◌≡◌, refl, true, false, none, some}
use rtvbp_go.Common.Int.{ℤ}
use rtvbp_go.Common.Assoc.{lookup, insert, delete}
use rtvbp_go.Common.Act.{panic, pure, ◌>>◌}
use rtvbp_go.Proto.Message.{Any, Request}
use rtvbp_go.Proto.Parse.{marshal_any}
use rtvbp_go.Handler.Shc.{Call, Shc, RequestHandler}
use rtvbp_go.Handler.Typed.{middleware}
use rtvbp_go.Handler.Typed
use rtvbp_go.Handler.Registry.{new_handler, on_request}
use rtvbp_go.Handler.Nil.{missing_params-panic}
use rtvbp_go.ProtoV1.Ping.{new_ping_handler, pong, ping_type}
use rtvbp_go.ProtoV1.Client.{
  Fields, stop_recording, TelephonyAdapter, new_client_handler, hangup_type, move_type,
  terminate_type, recording_stop_type,
}
use rtvbp_go.ProtoV1.Client.Wire.{empty_any}
use rtvbp_go.ProtoV1.Client.Locked.{IsFields, check_passes}

-- The methods whose requests have a Validate that is called on the params.
pub data IsValidated : String → Type 0 where
  ping : IsValidated "ping"
  hangup : IsValidated "call.hangup"
  stop : IsValidated "recording.stop"

module _ {S : Type 0} (fields : Fields S) (tel : TelephonyAdapter S)
    (on_audio : Shc S → Call S (Unit {0})) (payload : Any) (now : ℤ) where
  panics_at :
      (name : String) (shc : Shc S) (req : Request) (s : S)
      → IsFields fields
      → IsValidated name
      → (fields.get s).locked ≡ false
      → (fields.get s).initialized ≡ true
      → marshal_any req.params ≡ some none
      → (h : RequestHandler S) × (lookup name
            (new_client_handler fields tel on_audio payload now).request_handlers
          ≡ some h)
        × (h.handle shc req s ≡ (panic, s))
  unfolding new_client_handler new_handler lookup insert delete new_ping_handler middleware
      hangup_type move_type terminate_type recording_stop_type ping_type Typed.handle_request
      Typed.handle_with_error
  panics_at _ shc req s laws ping free ready missing =
      (_, refl, missing_params-panic ping_type _ (pong now) shc req s refl refl missing)
  panics_at _ shc req s laws hangup free ready missing = (
    _,
    refl,
    rw (check_passes fields laws shc req s free ready) (
        missing_params-panic hangup_type _ (λ shc req p. tel.hang_up p >> pure empty_any) shc req s
          refl refl missing),
  )
  panics_at _ shc req s laws stop free ready missing = (
    _,
    refl,
    rw (check_passes fields laws shc req s free ready) (
        missing_params-panic recording_stop_type _ (λ shc req p. stop_recording tel p) shc req s
          refl refl missing),
  )

  -- On an initialized client handler whose mu no call holds, a request to ping, to hang up or to stop a
  -- recording whose params are missing or `null` panics, and changes nothing before.
  pub validated_method-panic :
      (shc : Shc S) (req : Request) (s : S)
      → IsFields fields
      → IsValidated req.method
      → (fields.get s).locked ≡ false
      → (fields.get s).initialized ≡ true
      → marshal_any req.params ≡ some none
      → on_request (new_client_handler fields tel on_audio payload now) shc req s ≡ (panic, s)
  unfolding on_request
  validated_method-panic shc req s laws v free ready missing =
      let (h, found, panics) = panics_at req.method shc req s laws v free ready missing in
      rw found panics
