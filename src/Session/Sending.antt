-- ===== src/Session/Sending.antt =====
-- session.go, sendMessage: what a session writes.
use mathlib.Core.List.{append-nil}
use rtvbp_go.Common.{
  ◌≡◌, ◌≢◌, refl, ◌∙◌, List, [], ◌∷◌, ◌++◌, none, some, arith, Option-cases, ◌⊎◌, inl, inr,
}
use rtvbp_go.Common.Act.{Outcome, ok, err, panic, blocked}
use rtvbp_go.Proto.Json.{Bytes}
use rtvbp_go.Proto.Errors.{Error, sentinel, bad_json, request_validation_failed, join, wrap}
use rtvbp_go.Proto.Message.{Message, validate}
use rtvbp_go.Proto.Parse.{marshal, parse_valid_message}
use rtvbp_go.Proto.RoundTrip.{sent, parse_valid-marshal}
use rtvbp_go.Common.Act.{good}
use rtvbp_go.Session.Core.{Session}
use rtvbp_go.Session.Calls.{send_message}
use rtvbp_go.Transport.Interface.{Transport, IsTransport, accepted}

-- The peer reads the message in the frame.
abbrev pub Carries : Bytes → Message → Type 0
Carries raw m = parse_valid_message raw ≡ good m

module _ {T : Type 0} (ops : Transport T) where
  abbrev pub after_write : Session T → Bytes → Outcome Error (Unit {0}) × Session T
  after_write s raw = let (o, t) = ops.write raw s.transport in (o, record s { transport = t })

  -- sendMessage fails before it writes, or writes what the message marshals to.
  pub send_message_cases :
      (m : Message) (s : Session T)
      → ((x : Error) × (send_message ops m s ≡ (err x, s)))
        ⊎ ((raw : Bytes) × (validate m ≡ none)
            × (marshal m ≡ some raw)
            × (send_message ops m s ≡ after_write s raw))
  unfolding send_message
  send_message_cases m s = elim (Option-cases (validate m)) [
    | inr (e, v) ↦ inl (join (sentinel request_validation_failed) e, ground arith)
    | inl v ↦ elim (Option-cases (marshal m)) [
      | inl refused ↦ inl (wrap "sending message failed" (sentinel bad_json), ground arith)
      | inr (raw, made) ↦ inr (raw, v, made, ground arith)
    ]
  ]

  pub send_message_marshalled :
      (m : Message) (s : Session T) (raw : Bytes)
      → validate m ≡ none
      → marshal m ≡ some raw
      → send_message ops m s ≡ after_write s raw
  unfolding send_message
  send_message_marshalled m s raw v made = ground arith

  -- So at a valid message only json.Marshal can refuse.
  pub send_message_valid :
      (m : Message) (s : Session T)
      → validate m ≡ none
      → (send_message ops m s ≡ (err (wrap "sending message failed" (sentinel bad_json)), s))
        ⊎ ((raw : Bytes) × (marshal m ≡ some raw) × (send_message ops m s ≡ after_write s raw))
  unfolding send_message
  send_message_valid m s v = elim (Option-cases (marshal m)) [
    | inl refused ↦ inl (ground arith)
    | inr (raw, made) ↦ inr (raw, made, ground arith)
  ]

module _ {T : Type 0} (ops : Transport T) (written : T → List Bytes)
    (laws : IsTransport ops written) where
  -- Success is reported exactly if one more frame was handed over, which carries `m`.
  abbrev pub Reports : Message → List Bytes → Outcome Error (Unit {0}) × T → Type 0
  Reports m before r =
      ((r.0 ≡ ok tt) × ((raw : Bytes) × (written r.1 ≡ before ++ raw ∷ []) × Carries raw (sent m)))
      ⊎ ((r.0 ≢ ok tt) × (written r.1 ≡ before))

  -- What a call that should send `m` has done, from the session `s`.
  abbrev pub Sends : Message → Session T → Outcome Error (Unit {0}) × Session T → Type 0
  Sends m s r =
      (r.1 ≡ record s { transport = r.1.transport })
      × Reports m (written s.transport) (r.0, r.1.transport)

  accepted-Reports :
      (m : Message) (before : List Bytes) (raw : Bytes) (r : Outcome Error (Unit {0}) × T)
      → Carries raw (sent m)
      → written r.1 ≡ before ++ accepted r.0 raw
      → Reports m before r
  accepted-Reports m before raw (ok u, t) c w = inl (refl, (raw, w, c))
  accepted-Reports m before raw (err x, t) c w = inr (λ e. cc, w ∙ append-nil before)
  accepted-Reports m before raw (panic, t) c w = inr (λ e. cc, w ∙ append-nil before)
  accepted-Reports m before raw (blocked, t) c w = inr (λ e. cc, w ∙ append-nil before)

  -- sendMessage hands the transport at most one frame; it reports success exactly if the transport
  -- took that frame, and the peer then reads the message in it. On every other outcome nothing was
  -- handed over. The rest of the session stays as it was.
  pub send_message-Sends : (m : Message) (s : Session T) → Sends m s (send_message ops m s)
  send_message-Sends m s = elim (send_message_cases ops m s) [
    | inl (x, e) ↦ rw e (refl, inr (λ p. cc, refl))
    | inr (raw, v, made, e) ↦ rw e (
      refl,
      accepted-Reports m (written s.transport) raw (ops.write raw s.transport)
          (parse_valid-marshal m raw v made) (laws.write_sent raw s.transport),
    )
  ]
