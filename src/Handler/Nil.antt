-- ===== src/Handler/Nil.antt =====
-- request.go: a request whose params are missing or `null`.
use rtvbp_go.Common.{Option, none, some, ◌≡◌, refl}
use rtvbp_go.Common.Act.{Outcome, panic}
use rtvbp_go.Proto.Errors.{Error}
use rtvbp_go.Proto.Message.{Any, Request}
use rtvbp_go.Proto.Parse.{marshal_any}
use rtvbp_go.Handler.Shc.{Call, Shc}
use rtvbp_go.Handler.Typed.{RequestType, typed_handle}

-- A request whose params are nil panics in a typed handler whose type has a Validate that panics at a nil
-- receiver, before the user's function is called, and changes nothing.
pub missing_params-panic :
    {S T : Type 0} (t : RequestType S T) (v : Option T → Outcome Error (Unit {0}))
    (f : Shc S → Request → Option T → Call S Any) (shc : Shc S) (req : Request) (s : S)
    → t.validation ≡ some v
    → v none ≡ panic
    → marshal_any req.params ≡ some none
    → typed_handle t f shc req s ≡ (panic, s)
unfolding typed_handle
missing_params-panic t v f shc req s h nil_panics e = rw (h, e, nil_panics) refl
