-- ===== src/Demo/Phone.antt =====
-- examples/rtvbp-demo-client/dummyphone/phone.go: PhoneSystem. A callback is named by a `D` or an `H`, and
-- what it does is an argument: it works on the phone and on the rest of the program, `W`. The waits are
-- left out, and so are the methods that only panic.
use rtvbp_go.Common.{
  String, ◌≡◌, refl, ap, ◌∙◌, Bool, true, false, List, [], ◌∷◌, Option, none, some, is_some,
  if◌then◌else◌,
}
use rtvbp_go.Common.Int.{ℤ, pos}
use rtvbp_go.Common.Act.{Outcome, ok, err, panic, blocked, Act, forget, ◌>>=◌, ◌>>◌}
use rtvbp_go.Proto.Errors.{Error, msg}
use rtvbp_go.ProtoV1.Requests.{
  CallHangupEvent, CallHangupRequest, ApplicationMoveRequest, ApplicationMoveResponse,
}
use rtvbp_go.ProtoV1.Dtmf.{DtmfEvent}

-- `locked` says that a call holds mu; `cancelled`, that the context of New has ended.
pub record PhoneSystem (D H : Type 0) : Type 0 where
  pub locked : Bool
  pub closed : Bool
  pub cancelled : Bool
  pub hangup_callback : Option H
  pub dtmf_callback : Option D

-- The phone and the rest of the program.
abbrev pub Phone : Type 0 → Type 0 → Type 0 → Type 0
Phone D H W = PhoneSystem D H × W

-- New
unfoldable pub new_phone : {D H : Type 0} → PhoneSystem D H
new_phone = record {
  locked = false;
  closed = false;
  cancelled = false;
  hangup_callback = none;
  dtmf_callback = none;
}

module _ {D H W : Type 0} where
  -- OnDTMF
  unfoldable pub on_dtmf : D → Act Error (Phone D H W) (Unit {0})
  on_dtmf cb (d, w) =
      if d.locked
      then (blocked, (d, w))
      else if is_some d.dtmf_callback
      then (err (msg "dtmf event handler already set"), (d, w))
      else (ok tt, (record d { dtmf_callback = some cb }, w))

  -- OnHangup
  unfoldable pub on_hangup : H → Act Error (Phone D H W) (Unit {0})
  on_hangup cb (d, w) =
      if d.locked
      then (blocked, (d, w))
      else if is_some d.hangup_callback
      then (err (msg "hangup event handler already set"), (d, w))
      else (ok tt, (record d { hangup_callback = some cb }, w))

  module _ (run_dtmf : D → DtmfEvent → Act Error (Phone D H W) (Unit {0})) where
    -- d.onDtmf(evt); a callback that is not set is nil.
    abbrev call_dtmf : Option D → DtmfEvent → Act Error (Phone D H W) (Unit {0})
    call_dtmf none evt s = (panic, s)
    call_dtmf (some cb) evt s = forget (run_dtmf cb evt s)

    -- EmulateDTMF, at the digits of its text, with the clock when each is pressed and released.
    unfoldable pub emulate_dtmf : List (String × ℤ × ℤ) → Act Error (Phone D H W) (Unit {0})
    emulate_dtmf [] s = (ok tt, s)
    emulate_dtmf ((digit, pressed, released) ∷ rest) (d, w) =
        (call_dtmf d.dtmf_callback
              (record { seq = pos 0; pressed_at = pressed; released_at = released; digit = digit })
            >> emulate_dtmf rest)
          (d, w)

  -- d.cancel(), and the deferred Unlock, which a panic runs too.
  abbrev pub finish :
      Outcome Error (Unit {0}) × Phone D H W → Outcome Error (Unit {0}) × Phone D H W
  finish (ok u, (d, w)) = (ok tt, (record d { cancelled = true; locked = false }, w))
  finish (err e, (d, w)) = (err e, (record d { locked = false }, w))
  finish (panic, (d, w)) = (panic, (record d { locked = false }, w))
  finish (blocked, s) = (blocked, s)

  module _ (run_hangup : H → CallHangupEvent → Act Error (Phone D H W) (Unit {0})) where
    -- A callback returns nothing.
    abbrev call_hangup : Option H → CallHangupEvent → Act Error (Phone D H W) (Unit {0})
    call_hangup none evt s = (ok tt, s)
    call_hangup (some cb) evt s = forget (run_hangup cb evt s)

    -- EmulateHangup
    unfoldable pub emulate_hangup : String → Act Error (Phone D H W) (Unit {0})
    emulate_hangup reason (d, w) =
        if d.locked
        then (blocked, (d, w))
        else if d.closed
        then (err (msg "telephony: already shutdown"), (d, w))
        else finish (
            call_hangup d.hangup_callback (record { reason = reason })
              (record d { locked = true }, w))

    -- Hangup; at nil, reading the reason panics.
    unfoldable pub hang_up : Option CallHangupRequest → Act Error (Phone D H W) (Unit {0})
    unfolding emulate_hangup
    hang_up none s = (panic, s)
    hang_up (some req) s = emulate_hangup req.reason s

    -- Move; MethodName does not read its receiver.
    unfoldable pub move :
        Option ApplicationMoveRequest → Act Error (Phone D H W) ApplicationMoveResponse
    unfolding emulate_hangup
    move req = emulate_hangup "application.move" >>= λ u.
        λ s. (ok (record { next_application_id = "" }), s)

-- The callback returns, and leaves the phone as it was when it was called.
abbrev pub ReturnsAt :
    {D H W : Type 0} → (H → CallHangupEvent → Act Error (Phone D H W) (Unit {0})) → Type 0
ReturnsAt {D} {H} {W} run =
    (cb : H) (evt : CallHangupEvent) (s : Phone D H W)
    → ((run cb evt s).0 ≡ ok tt) × ((run cb evt s).1.0 ≡ s.0)

module _ {D H W : Type 0} where
  rings :
      (run : H → CallHangupEvent → Act Error (Phone D H W) (Unit {0})) (reason : String)
      (d : PhoneSystem D H) (w : W)
      → d.locked ≡ false
      → d.closed ≡ false
      → emulate_hangup run reason (d, w)
        ≡ finish (
            call_hangup run d.hangup_callback
              (record { reason = reason })
              (record d { locked = true }, w))
  unfolding emulate_hangup
  rings run reason d w free open_ = simp (free, open_)

  -- A callback that itself hangs up waits for the mutex that its own caller holds, and with it every
  -- later call on the phone.
  hangup_again :
      (run : H → CallHangupEvent → Act Error (Phone D H W) (Unit {0})) (cb : H)
      (reason again : String) (d : PhoneSystem D H) (w : W)
      → ((evt : CallHangupEvent) (s : Phone D H W) → run cb evt s ≡ emulate_hangup run again s)
      → d.locked ≡ false
      → d.closed ≡ false
      → d.hangup_callback ≡ some cb
      → emulate_hangup run reason (d, w) ≡ (blocked, (record d { locked = true }, w))
  unfolding emulate_hangup
  hangup_again run cb reason again d w h free open_ set =
      rings run reason d w free open_
      ∙ ap finish (
          ap (λ o. call_hangup run o (record { reason = reason }) (record d { locked = true }, w))
            set
          ∙ ap forget (h (record { reason = reason }) (record d { locked = true }, w)))

  forgotten :
      (x : Outcome Error (Unit {0}) × Phone D H W)
      → x.0 ≡ ok tt
      → ((forget x).0 ≡ ok tt) × ((forget x).1.0 ≡ x.1.0)
  forgotten (ok u, s) done = (refl, refl)
  forgotten (err e, s) done = absurd cc
  forgotten (panic, s) done = absurd cc
  forgotten (blocked, s) done = absurd cc

  callback_returned :
      (run : H → CallHangupEvent → Act Error (Phone D H W) (Unit {0})) (o : Option H)
      (evt : CallHangupEvent) (s : Phone D H W)
      → ReturnsAt run
      → ((call_hangup run o evt s).0 ≡ ok tt) × ((call_hangup run o evt s).1.0 ≡ s.0)
  callback_returned run none evt s returns = (refl, refl)
  callback_returned run (some cb) evt s returns =
      let at = returns cb evt s in let f = forgotten (run cb evt s) at.0 in (f.0, f.1 ∙ at.1)

  finished :
      (d : PhoneSystem D H) (x : Outcome Error (Unit {0}) × Phone D H W)
      → d.locked ≡ false
      → x.0 ≡ ok tt
      → x.1.0 ≡ record d { locked = true }
      → ((finish x).0 ≡ ok tt) × ((finish x).1.0 ≡ record d { cancelled = true })
  finished d (ok u, (e, w)) free done same = (refl, rw (same, free) refl)
  finished d (err e, s) free done same = absurd cc
  finished d (panic, s) free done same = absurd cc
  finished d (blocked, s) free done same = absurd cc

  -- EmulateHangup, with a callback that returns: it ends the context and releases the mutex, and leaves
  -- the phone as open as it was, so that the same holds of the next call.
  hung_up :
      (run : H → CallHangupEvent → Act Error (Phone D H W) (Unit {0})) (reason : String)
      (d : PhoneSystem D H) (w : W)
      → ReturnsAt run
      → d.locked ≡ false
      → d.closed ≡ false
      → ((emulate_hangup run reason (d, w)).0 ≡ ok tt)
        × ((emulate_hangup run reason (d, w)).1.0 ≡ record d { cancelled = true })
  unfolding emulate_hangup
  hung_up run reason d w returns free open_ =
      let evt : CallHangupEvent = record { reason = reason } in
      let called =
        callback_returned run d.hangup_callback evt (record d { locked = true }, w) returns in
      let done =
        finished d (call_hangup run d.hangup_callback evt (record d { locked = true }, w)) free
          called.0 called.1 in
      let is = rings run reason d w free open_ in
      (ap (λ x. x.0) is ∙ done.0, ap (λ x. x.1.0) is ∙ done.1)
