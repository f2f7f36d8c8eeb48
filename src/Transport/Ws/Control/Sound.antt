-- ===== src/Transport/Ws/Control/Sound.antt =====
-- transport/ws/control.go: runs of calls on a control channel.
use mathlib.Core.List.{append-nil, append_assoc}
use rtvbp_go.Common.{
  sym, ap, ◌∙◌, ◌≤◌, true, List, [], ◌∷◌, ◌++◌, ◌≡◌, refl, ◌≢◌, some, arith, length, length-append,
}
use rtvbp_go.Common.Act.{Outcome, ok, err, panic}
use rtvbp_go.Proto.Json.{Bytes}
use rtvbp_go.Proto.Errors.{Error, is}
use rtvbp_go.Transport.Interface.{DataPackage}
use rtvbp_go.Transport.Ws.Message.{text, WsMessage, is_err_ok}
use rtvbp_go.Transport.Ws.Control.{
  ControlChannel, capacity, new_control_channel, channel_closed, write_in, write_out, close,
  delivered, receive,
}

-- The three marks agree, and neither channel holds more than it may.
pub record IsSound (cc : ControlChannel) : Type 0 where
  pub marked : cc.input_closed ≡ cc.closed
  pub once_closed : cc.once ≡ cc.closed
  pub input_fits : length cc.input ≤ capacity
  pub output_fits : length cc.output ≤ capacity

pub data Call : Type 0 where
  writes_in : DataPackage → Call
  writes_out : Bytes → Call
  closes receives : Call
  sends : Call  -- the transport takes the first outgoing message

abbrev after_send : List WsMessage → ControlChannel → ControlChannel
after_send [] cc = cc
after_send (m ∷ rest) cc = record cc { output = rest }

-- The state after a call, and whether it panicked.
pub step : Call → ControlChannel → Outcome Error (Unit {0}) × ControlChannel
unfolding write_in write_out close receive
step (writes_in p) cc = write_in p cc
step (writes_out raw) cc = write_out raw cc
step closes cc = close cc
step receives cc = (ok tt, (receive cc).1)
step sends cc = (ok tt, after_send cc.output cc)

step-IsSound :
    (c : Call) (cc : ControlChannel) → IsSound cc → ((step c cc).0 ≢ panic) × IsSound (step c cc).1
unfolding step
step-IsSound (writes_in p) cc v = ground (arith, length-append cc.input (p ∷ []))
step-IsSound (writes_out raw) cc v =
    ground (arith, length-append cc.output (record { mt = text; payload = raw; timeout = 0 } ∷ []))
step-IsSound closes cc v = ground arith
step-IsSound receives cc v = ground arith
step-IsSound sends cc v = ground arith

-- A run of calls by any goroutines, with the packages that writeIn took and those received.
pub record Trace : Type 0 where
  pub channel : ControlChannel
  pub taken : List DataPackage
  pub got : List DataPackage

abbrev accepted_in : Call → Outcome Error (Unit {0}) → List DataPackage
accepted_in (writes_in p) (ok u) = p ∷ []
accepted_in c o = []

abbrev received_in : Call → ControlChannel → List DataPackage
received_in receives cc = elim (receive cc).0 [ delivered p ↦ p ∷ [] | _ ↦ [] ]
received_in c cc = []

pub step_trace : Call → Trace → Trace
unfolding step receive
step_trace c t =
    let (o, cc) = step c t.channel in
    record {
      channel = cc;
      taken = t.taken ++ accepted_in c o;
      got = t.got ++ received_in c t.channel;
    }

pub run : List Call → Trace → Trace
run [] t = t
run (c ∷ cs) t = run cs (step_trace c t)

-- No call has panicked in the run.
abbrev pub HasNoPanic : List Call → Trace → Type 0
HasNoPanic [] t = Unit
HasNoPanic (c ∷ cs) t = ((step c t.channel).0 ≢ panic) × HasNoPanic cs (step_trace c t)

abbrev pub start : List WsMessage → Trace
start output = record { channel = new_control_channel output; taken = []; got = [] }

abbrev pub IsFifo : Trace → Type 0
IsFifo t = t.taken ≡ t.got ++ t.channel.input

step-input :
    (c : Call) (cc : ControlChannel)
    → cc.input ++ accepted_in c (step c cc).0 ≡ received_in c cc ++ (step c cc).1.input
unfolding step
step-input (writes_in p) cc = ground (arith, append-nil cc.input)
step-input (writes_out raw) cc = ground (arith, append-nil cc.input)
step-input closes cc = ground (arith, append-nil cc.input)
step-input receives cc = ground (arith, append-nil cc.input)
step-input sends cc = ground (arith, append-nil cc.input)

step_trace-IsFifo : (c : Call) (t : Trace) → IsFifo t → IsFifo (step_trace c t)
unfolding step_trace
step_trace-IsFifo c t h =
    let acc = accepted_in c (step c t.channel).0 in
    ap (λ x. x ++ acc) h
    ∙ append_assoc t.got t.channel.input acc
    ∙ ap (λ x. t.got ++ x) (step-input c t.channel)
    ∙ sym (append_assoc t.got (received_in c t.channel) (step c t.channel).1.input)

run-IsSound :
    (cs : List Call) (t : Trace)
    → IsSound t.channel
    → IsFifo t
    → HasNoPanic cs t × IsSound (run cs t).channel × IsFifo (run cs t)
unfolding run step_trace
run-IsSound [] t v h = (tt, v, h)
run-IsSound (c ∷ cs) t v h =
    let (calm, v') = step-IsSound c t.channel v in
    let (rest, sound, fifo) = run-IsSound cs (step_trace c t) v' (step_trace-IsFifo c t h) in
    ((calm, rest), sound, fifo)

-- Whatever calls are made on a new control channel, in whatever order, none panics: nothing is sent
-- on the closed input, which is closed once. Neither channel ever holds more than 16. What was
-- received is a prefix of what writeIn took, in that order, and the rest is still buffered, also
-- after the close.
pub control_channel-IsSound :
    (output : List WsMessage) (cs : List Call)
    → length output ≤ capacity
    → HasNoPanic cs (start output)
      × IsSound (run cs (start output)).channel
      × IsFifo (run cs (start output))
unfolding new_control_channel
control_channel-IsSound output cs h =
    run-IsSound cs (start output)
      (record { marked = refl; once_closed = refl; input_fits = omega arith; output_fits = h }) refl

-- After close, in a sound state, both writes fail with an error that isErrOk accepts, and change
-- nothing.
pub close-refuses :
    (cc : ControlChannel) (p : DataPackage) (raw : Bytes)
    → IsSound cc
    → let cc' = (close cc).1 in
      (write_in p cc' ≡ (err channel_closed, cc'))
      × (write_out raw cc' ≡ (err channel_closed, cc'))
      × (is_err_ok (some channel_closed) ≡ true)
unfolding write_in write_out close is_err_ok is
close-refuses cc p raw v = (ground arith, ground arith, refl)
