-- ===== src/Transport/Ws/Process/Flowing.antt =====
-- transport/ws/transport.go: where the text messages are between the connection and the session, and how the
-- steps of the incoming side move them.
use mathlib.Core.List.{append-nil, append_assoc, map-append}
use rtvbp_go.Common.{List, [], ◌∷◌, ◌++◌, ◌≡◌, ◌≢◌, refl, sym, ap, ◌∙◌, map}
use rtvbp_go.Proto.Json.{Bytes}
use rtvbp_go.Transport.Interface.{DataPackage}
use rtvbp_go.Transport.Ws.Message.{Kind, text, binary, WsMessage}
use rtvbp_go.Transport.Ws.Message
use rtvbp_go.Transport.Ws.Control.{ControlChannel}
use rtvbp_go.Transport.Ws.State.{
  WebsocketTransport, Reader, reading, handing, ended, Processor, taking, writing, stopped,
}

-- The payload of a text frame.
abbrev pub text_of : Kind → Bytes → List Bytes
text_of text b = b ∷ []
text_of _ b = []

-- The payloads of the text frames.
abbrev pub texts : List WsMessage → List Bytes
texts [] = []
texts (m ∷ ms) = text_of m.mt m.payload ++ texts ms

abbrev pub payloads : List DataPackage → List Bytes
payloads ps = map (λ p. p.data_bytes) ps

abbrev pub held : Reader → List Bytes
held (handing m) = text_of m.mt m.payload
held _ = []

abbrev pub in_hand : Processor → List Bytes
in_hand (writing p) = p.data_bytes ∷ []
in_hand _ = []

-- Only a processor that has stopped has lost a frame.
abbrev pub MayLose : Processor → List Bytes → Type 0
MayLose stopped lost = Unit
MayLose _ lost = lost ≡ []

-- The frames that have arrived and are not yet in the control channel.
abbrev pub behind : WebsocketTransport → List Bytes → List Bytes
behind w lost = in_hand w.processor ++ (lost ++ (texts w.inbox ++ held w.reader))

abbrev pub IsFlowing : WebsocketTransport → Type 0
IsFlowing w =
    (lost : List Bytes) × (texts w.arrived
      ≡ payloads w.delivered ++ (payloads w.channel.input ++ behind w lost))
    × MayLose w.processor lost

pub texts-append : (xs ys : List WsMessage) → texts (xs ++ ys) ≡ texts xs ++ texts ys
texts-append [] ys = refl
texts-append (x ∷ xs) ys =
    ap (λ t. text_of x.mt x.payload ++ t) (texts-append xs ys)
    ∙ sym (append_assoc (text_of x.mt x.payload) (texts xs) (texts ys))

pub payloads-append : (xs ys : List DataPackage) → payloads (xs ++ ys) ≡ payloads xs ++ payloads ys
payloads-append xs ys = map-append (λ p. p.data_bytes) xs ys

ruleset flow = (texts-append, payloads-append, append_assoc, append-nil)

pub arrive-IsFlowing :
    (w : WebsocketTransport) (m : WsMessage)
    → w.reader ≡ reading
    → IsFlowing w
    → IsFlowing (record w { reader = handing m; arrived = w.arrived ++ m ∷ [] })
arrive-IsFlowing w m a (lost, e, l) = (lost, simp (flow, e, a), l)

pub hand-IsFlowing :
    (w : WebsocketTransport) (m : WsMessage)
    → w.reader ≡ handing m
    → IsFlowing w
    → IsFlowing (record w { reader = reading; inbox = w.inbox ++ m ∷ [] })
hand-IsFlowing w m a (lost, e, l) = (lost, simp (flow, e, a), l)

pub kept : (x : Processor) (lost : List Bytes) → x ≢ stopped → MayLose x lost → lost ≡ []
kept taking lost n l = l
kept (writing p) lost n l = l
kept stopped lost n l = absurd (n refl)

-- A text frame leaves the inbox, for the processor's hands or for good.
pub text_of-text : (m : WsMessage) → m.mt ≡ text → text_of m.mt m.payload ≡ m.payload ∷ []
text_of-text m t = ap (λ k. text_of k m.payload) t

pub take_text-IsFlowing :
    (w : WebsocketTransport) (m : WsMessage) (rest : List WsMessage) (p : DataPackage)
    → w.processor ≡ taking
    → w.inbox ≡ m ∷ rest
    → m.mt ≡ text
    → p.data_bytes ≡ m.payload
    → IsFlowing w
    → IsFlowing (record w { inbox = rest; processor = writing p })
take_text-IsFlowing w m rest p a b t d (lost, e, l) =
    let none_lost = kept w.processor lost (λ x. cc) l in
    (lost, simp (flow, e, a, b, t, d, none_lost), none_lost)

pub take_text_closed-IsFlowing :
    (w : WebsocketTransport) (m : WsMessage) (rest : List WsMessage)
    → w.processor ≡ taking
    → w.inbox ≡ m ∷ rest
    → m.mt ≡ text
    → IsFlowing w
    → IsFlowing (record w { inbox = rest; processor = stopped })
take_text_closed-IsFlowing w m rest a b t (lost, e, l) =
    let none_lost = kept w.processor lost (λ x. cc) l in
    (m.payload ∷ [], simp (flow, e, a, b, t, none_lost), tt)

-- Any other frame leaves it.
pub text_of_other : (k : Kind) (b : Bytes) → k ≢ text → text_of k b ≡ []
text_of_other text b n = absurd (n refl)
text_of_other binary b n = refl
text_of_other Message.close b n = refl
text_of_other Message.ping b n = refl
text_of_other Message.pong b n = refl
text_of_other (Message.unknown k) b n = refl

pub take_other-IsFlowing :
    (w : WebsocketTransport) (m : WsMessage) (rest : List WsMessage)
    → w.inbox ≡ m ∷ rest
    → m.mt ≢ text
    → IsFlowing w
    → IsFlowing (record w { inbox = rest })
take_other-IsFlowing w m rest b n (lost, e, l) =
    (lost, simp (flow, e, b, text_of_other m.mt m.payload n), l)

pub stop-IsFlowing :
    (w : WebsocketTransport)
    → w.processor ≡ taking
    → IsFlowing w
    → IsFlowing (record w { processor = stopped })
stop-IsFlowing w a (lost, e, l) = (lost, simp (e, a), tt)

pub not_stopped :
    (w : WebsocketTransport) (p : DataPackage) → w.processor ≡ writing p → w.processor ≢ stopped
not_stopped w p a x = cc

pub put_in-IsFlowing :
    (w : WebsocketTransport) (p : DataPackage) (cc : ControlChannel)
    → w.processor ≡ writing p
    → cc.input ≡ w.channel.input ++ p ∷ []
    → IsFlowing w
    → IsFlowing (record w { processor = taking; channel = cc })
put_in-IsFlowing w p cc a i (lost, e, l) =
    (lost, simp (flow, e, a, i), kept w.processor lost (not_stopped w p a) l)

pub deliver-IsFlowing :
    (w : WebsocketTransport) (p : DataPackage) (cc : ControlChannel)
    → w.channel.input ≡ p ∷ cc.input
    → IsFlowing w
    → IsFlowing (record w { channel = cc; delivered = w.delivered ++ p ∷ [] })
deliver-IsFlowing w p cc i (lost, e, l) = (lost, simp (flow, e, i), l)

pub read_fails-IsFlowing :
    (w : WebsocketTransport)
    → w.reader ≡ reading
    → IsFlowing w
    → IsFlowing (record w { reader = ended })
read_fails-IsFlowing w a (lost, e, l) = (lost, simp (e, a), l)

pub same_input-IsFlowing :
    (w : WebsocketTransport) (cc : ControlChannel)
    → cc.input ≡ w.channel.input
    → IsFlowing w
    → IsFlowing (record w { channel = cc })
same_input-IsFlowing w cc i (lost, e, l) = (lost, simp (e, i), l)
