-- ===== src/ProtoV1/Dtmf.antt =====
-- proto/protov1/dtmf.go
use rtvbp_go.Common.{
  String, ◌≡◌, ◌≢◌, ◌↔◌, Option, none, some, arith, is_empty, if◌then◌else◌, eq_iff,
}
use rtvbp_go.Common.Int.{ℤ, pos, ltb_ℤ, ◌≤ℤ◌}
use rtvbp_go.Proto.Errors.{Error, msg}

pub record DtmfEvent : Type 0 where
  pub seq : ℤ
  pub pressed_at : ℤ
  pub released_at : ℤ
  pub digit : String

-- DTMFEvent.Validate
unfoldable pub validate_dtmf : DtmfEvent → Option Error
validate_dtmf e =
    if is_empty e.digit
    then some (msg "digit is required")
    else if ltb_ℤ e.seq (pos 0)
    then some (msg "seq must be positive")
    else if ltb_ℤ e.pressed_at (pos 0)
    then some (msg "pressed_at must be positive")
    else if ltb_ℤ e.released_at (pos 0)
    then some (msg "released_at must be positive")
    else if ltb_ℤ e.released_at e.pressed_at
    then some (msg "released_at must be greater than pressed_at")
    else none

-- A DTMF event validates exactly if it has a digit, a sequence number and a time of pressing that
-- are not negative, and was released no earlier than it was pressed.
pub validate_dtmf_iff :
    (e : DtmfEvent)
    → (validate_dtmf e ≡ none) ↔ (
        (e.digit ≢ "")
        × (pos 0 ≤ℤ e.seq)
        × (pos 0 ≤ℤ e.pressed_at)
        × (e.pressed_at ≤ℤ e.released_at))
unfolding validate_dtmf
validate_dtmf_iff e = ground (arith, eq_iff e.digit "")
