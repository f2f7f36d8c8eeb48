-- ===== src/Transport/Ws/Outgoing.antt =====
-- transport/ws/transport.go: sendMessage and drainOutgoingMessages. The connection of the WebSocket
-- library, with its state `C`, is an argument.
use rtvbp_go.Common.{
  ℕ, Bool, true, false, ◌||◌, List, [], ◌∷◌, ◌++◌, ◌≡◌, refl, ap, ◌⊎◌, inl, inr, Option, none, some,
  Bool-cases, if◌then◌else◌,
}
use rtvbp_go.Proto.Json.{Bytes}
use rtvbp_go.Proto.Errors.{Error, close_sent, net_closed, wrap, is}
use rtvbp_go.Transport.Ws.Message.{Kind, text, binary, WsMessage, is_control, control_timeout}

-- The calls of websocket.Conn that sendMessage makes; `none` is a nil error. The timeout of a
-- control frame is in milliseconds; the write deadline is 5 seconds, and its error is dropped.
pub record Conn (C : Type 0) : Type 0 where
  pub set_write_deadline : C → C
  pub write_control : Kind → Bytes → ℕ → C → Option Error × C
  pub write_message : Kind → Bytes → C → Option Error × C

-- The errors at which drainOutgoingMessages returns; any other is logged.
abbrev pub ends_drain : Option Error → Bool
ends_drain none = false
ends_drain (some e) = is close_sent e || is net_closed e

module _ {C : Type 0} where
  abbrev labelled : Option Error × C → (Error → Error) → Option Error × C
  labelled (none, c) f = (none, c)
  labelled (some e, c) f = (some (f e), c)

  abbrev send_data : Kind → Conn C → WsMessage → C → Option Error × C
  send_data text conn m c = labelled (conn.write_message m.mt m.payload c) (wrap "text")
  send_data binary conn m c = labelled (conn.write_message m.mt m.payload c) (wrap "binary")
  send_data _ conn m c = (none, c)

  -- WebsocketTransport.sendMessage
  unfoldable pub send_message : Conn C → WsMessage → C → Option Error × C
  unfolding is_control control_timeout
  send_message conn m c =
      let c' = conn.set_write_deadline c in
      if is_control m.mt
      then labelled (conn.write_control m.mt m.payload (control_timeout m) c') (wrap "control")
      else send_data m.mt conn m c'

  -- WebsocketTransport.drainOutgoingMessages, over the messages that are buffered: those that stay
  -- in the buffer, and the connection.
  unfoldable pub drain : Conn C → List WsMessage → C → List WsMessage × C
  drain conn [] c = ([], c)
  drain conn (m ∷ q) c =
      let (e, c') = send_message conn m c in
      let rest = drain conn q c' in if ends_drain e then (q, c') else rest

  -- Messages sent one after the other, whatever becomes of each.
  pub send_each : Conn C → List WsMessage → C → C
  send_each conn [] c = c
  send_each conn (m ∷ q) c = send_each conn q (send_message conn m c).1

  -- The last of the sends met an error at which drainOutgoingMessages returns.
  pub ends_with_closed : Conn C → List WsMessage → C → Bool
  ends_with_closed conn [] c = false
  ends_with_closed conn (m ∷ []) c = ends_drain (send_message conn m c).0
  ends_with_closed conn (m ∷ n ∷ q) c = ends_with_closed conn (n ∷ q) (send_message conn m c).1

  last_step :
      (conn : Conn C) (m : WsMessage) (c : C) (done rest : List WsMessage)
      → (rest ≡ []) ⊎ (ends_with_closed conn done (send_message conn m c).1 ≡ true)
      → (rest ≡ []) ⊎ (ends_with_closed conn (m ∷ done) c ≡ true)
  unfolding ends_with_closed
  last_step conn m c [] rest (inl e) = inl e
  last_step conn m c [] rest (inr h) = absurd cc
  last_step conn m c (n ∷ done) rest h = h

  -- drainOutgoingMessages sends a first part of the buffer, each message once and in order, and
  -- leaves the rest; it leaves some only if the last message that it sent met a closed connection.
  pub drain_prefix :
      (conn : Conn C) (q : List WsMessage) (c : C)
      → (done : List WsMessage) × (q ≡ done ++ (drain conn q c).0)
        × ((drain conn q c).1 ≡ send_each conn done c)
        × (((drain conn q c).0 ≡ []) ⊎ (ends_with_closed conn done c ≡ true))
  unfolding drain send_each ends_with_closed
  drain_prefix conn [] c = ([], refl, refl, inl refl)
  drain_prefix conn (m ∷ q) c =
      let c' = (send_message conn m c).1 in
      elim (Bool-cases (ends_drain (send_message conn m c).0)) [
        | inl ends ↦ rw ends (m ∷ [], refl, refl, inr ends)
        | inr goes ↦
            let (done, split, state, last) = drain_prefix conn q c' in
            rw goes (m ∷ done, ap (λ x. m ∷ x) split, state, last_step conn m c done _ last)
      ]
