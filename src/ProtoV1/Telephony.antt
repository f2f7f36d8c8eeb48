-- ===== src/ProtoV1/Telephony.antt =====
-- proto/protov1/telephony.go: FakeTelephonyAdapter. Go values of type `any` are by their JSON.
pub mod Laws
use rtvbp_go.Common.{
  ℕ, String, Bool, true, false, List, [], ◌∷◌, ◌++◌, Option, none, some, is_empty, is_some, length,
  ltb, if◌then◌else◌,
}
use rtvbp_go.Common.Int.{ℤ, pos}
use rtvbp_go.Common.Assoc.{Assoc, lookup, insert}
use rtvbp_go.Common.Act.{Outcome, ok, err, panic, blocked, Act}
use rtvbp_go.Proto.Json.{Json}
use rtvbp_go.Proto.Errors.{Error, msg}
use rtvbp_go.ProtoV1.Requests.{
  CallHangupEvent, CallHangupRequest, ApplicationMoveRequest, ApplicationMoveResponse,
  RecordingStartRequest, RecordingStartResponse, SessionGetRequest,
}
use rtvbp_go.ProtoV1.Dtmf.{DtmfEvent}

pub data NamedEvent : Type 0 where
  dtmf : DtmfEvent → NamedEvent
  hangup : CallHangupEvent → NamedEvent

-- A callback is named by a number. `events` is a Go channel of capacity 1.
pub record FakeTelephonyAdapter : Type 0 where
  pub vars : Assoc Json
  pub moved : Option ApplicationMoveRequest
  pub hung_up : Bool
  pub events : List NamedEvent
  pub dtmf_handler : Option ℕ
  pub hangup_handler : Option ℕ

-- newFakeTelephonyAdapter
unfoldable pub new_fake_telephony_adapter : FakeTelephonyAdapter
new_fake_telephony_adapter = record {
  vars = [];
  moved = none;
  hung_up = false;
  events = [];
  dtmf_handler = none;
  hangup_handler = none;
}

abbrev pub Call : Type 0 → Type 0
Call A = Act Error FakeTelephonyAdapter A

-- OnDTMF
unfoldable pub on_dtmf : ℕ → Call (Unit {0})
on_dtmf cb f =
    if is_some f.dtmf_handler
    then (err (msg "dtmf event handler already set"), f)
    else (ok tt, record f { dtmf_handler = some cb })

-- OnHangup
unfoldable pub on_hangup : ℕ → Call (Unit {0})
on_hangup cb f =
    if is_some f.hangup_handler
    then (err (msg "hangup event handler already set"), f)
    else (ok tt, record f { hangup_handler = some cb })

-- RecordingStart; the first argument is what idgen.ID returns.
unfoldable pub recording_start : String → RecordingStartRequest → Call RecordingStartResponse
recording_start fresh req f = (ok (record { id = fresh }), f)

-- RecordingStop
unfoldable pub recording_stop : String → Call (Unit {0})
recording_stop id f = if is_empty id then (err (msg "recordingID is required"), f) else (ok tt, f)

-- The loop of SessionVariablesGet.
collect : Assoc Json → List String → Assoc Json → Assoc Json
collect vars [] out = out
collect vars (k ∷ keys) out =
    collect vars keys (elim (lookup k vars) [ none ↦ out | some v ↦ insert k v out ])

-- SessionVariablesGet
unfoldable pub session_variables_get : SessionGetRequest → Call (Assoc Json)
unfolding collect
session_variables_get req f = (ok (collect f.vars req.keys []), f)

-- The loop of SessionVariablesSet, over the entries in the order in which Go visits them.
store : Assoc Json → Assoc Json → Assoc Json
store vars [] = vars
store vars ((k, v) ∷ m) = store (insert k v vars) m

-- SessionVariablesSet
unfoldable pub session_variables_set : Assoc Json → Call (Unit {0})
unfolding store
session_variables_set m f = (ok tt, record f { vars = store f.vars m })

-- Move
unfoldable pub move : ApplicationMoveRequest → Call ApplicationMoveResponse
move req f =
    let next =
      if is_empty req.application_id then "<id_of_next_node_if_any>" else req.application_id in
    (ok (record { next_application_id = next }), record f { moved = some req })

-- Hangup
unfoldable pub hang_up : CallHangupRequest → Call (Unit {0})
hang_up req f = (ok tt, record f { hung_up = true })

abbrev enqueue : NamedEvent → Call (Unit {0})
enqueue e f =
    if ltb (length f.events) 1
    then (ok tt, record f { events = f.events ++ e ∷ [] })
    else (blocked, f)

-- fakeSendDTMF; `now` is the clock when the key is pressed, which the source reads once only.
unfoldable pub fake_send_dtmf : String → ℤ → Call (Unit {0})
fake_send_dtmf digit now f =
    enqueue (dtmf (record { seq = pos 0; pressed_at = now; released_at = now; digit = digit })) f

-- fakeHangup
unfoldable pub fake_hangup : Call (Unit {0})
fake_hangup f = enqueue (hangup (record { reason = "" })) f

-- What one round of the loop in Run calls: the callback and the event. A callback that is not set is
-- nil, and calling it panics.
abbrev callback :
    Option ℕ
    → NamedEvent
    → FakeTelephonyAdapter
    → Outcome Error (ℕ × NamedEvent) × FakeTelephonyAdapter
callback none e f = (panic, f)
callback (some cb) e f = (ok (cb, e), f)

abbrev process_event : NamedEvent → Call (ℕ × NamedEvent)
process_event (dtmf e) f = callback f.dtmf_handler (dtmf e) f
process_event (hangup e) f = callback f.hangup_handler (hangup e) f

abbrev process_first : List NamedEvent → Call (ℕ × NamedEvent)
process_first [] f = (blocked, f)
process_first (e ∷ rest) f = process_event e (record f { events = rest })

-- FakeTelephonyAdapter.Run, one round of its loop
unfoldable pub process : Call (ℕ × NamedEvent)
process f = process_first f.events f
