-- ===== src/Pair/Turns.antt =====
-- Two sessions over one link: one turn of each reading loop.
use rtvbp_go.Common.{
  ℕ, ◌≡◌, refl, sym, ap, ◌∙◌, Bool, false, List, [], ◌∷◌, Option, none, some, arith, map,
  if◌then◌else◌,
}
use rtvbp_go.Common.Int.{ℤ, pos, eqb_ℤ}
use rtvbp_go.Common.Act.{ok, good}
use rtvbp_go.Proto.Json.{Bytes}
use rtvbp_go.Proto.Message.{Request, Response, Message, validate, new_base, set_received_at}
use rtvbp_go.Proto.Parse.{marshal, parse_valid_message}
use rtvbp_go.Proto.WellFormed.{IsWellFormed, validate_iff}
use rtvbp_go.Proto.RoundTrip.{sent, sent_any, parse_valid-marshal, sent-IsWellFormed}
use rtvbp_go.Handler.Shc.{Call, Shc, SessionHandler}
use rtvbp_go.Session.Sending.{Carries}
use rtvbp_go.Session.Core.{Session, Env}
use rtvbp_go.Session.Calls.{receive, session_shc, handle_request, handle_incoming_message}
use rtvbp_go.Session.Contract.{Answers, OneAnswer}
use rtvbp_go.Session.Pending.{resolve_all}
use rtvbp_go.Session.Answers.{handle_request_once}
use rtvbp_go.Transport.Interface.{Transport, DataPackage}
use rtvbp_go.Transport.Direct.{
  Link, new_link, first, second, transport, read, frames, package_of, transport-IsTransport,
}
use rtvbp_go.Transport.Direct
use rtvbp_go.Pair.{Peer, near, peer_receive, peer_turn, own_turn}

-- The link is open, and the second end's channel is empty.
abbrev pub IsFree : Link → Type 0
IsFree l = (l.closed ≡ false) × (l.b ≡ [])

pub free_write :
    (pick : Link → Bool) (b : Bytes) (l : Link)
    → IsFree l
    → ((transport pick second).write b l).0 ≡ ok tt
unfolding transport Direct.write
free_write pick b l h = ground arith

-- The link with one frame on the way to the second end.
abbrev pub carrying : Bytes → Link
carrying raw = record { a = package_of raw ∷ []; b = []; closed = false }

pub first_write :
    (pick : Link → Bool) (raw : Bytes)
    → Direct.write pick first raw new_link ≡ (ok tt, carrying raw)
unfolding Direct.write new_link
first_write pick raw = refl

-- What the reading loop does with a frame that parses.
abbrev pub stamped : ℤ → DataPackage → Message → Message
stamped now p m = set_received_at (if eqb_ℤ p.received_at (pos 0) then now else p.received_at) m

module _ {T : Type 0} (ops : Transport T) (env : Env T) (shc : Shc (Session T))
    (h : Option (SessionHandler (Session T))) where
  pub receive-good :
      (now : ℤ) (p : DataPackage) (m : Message) (s : Session T)
      → parse_valid_message p.data_bytes ≡ good m
      → receive ops env shc h now p s ≡ handle_incoming_message ops env shc h (stamped now p m) s
  unfolding receive
  receive-good now p m s e = ground arith

-- A list whose frames are one frame.
one_package :
    (ps : List DataPackage) (raw : Bytes)
    → map (λ p. p.data_bytes) ps ≡ raw ∷ []
    → (p : DataPackage) × (ps ≡ p ∷ []) × (p.data_bytes ≡ raw)
one_package [] raw e = absurd cc
one_package (p ∷ []) raw e = (p, refl, cc)
one_package (p ∷ q ∷ ps) raw e = absurd cc

module _ (pick : Link → Bool) (peer_env : Env Link)
    (close : Call Peer (Unit {0}) → Call Peer (Unit {0})) (clear : Call Peer ℕ)
    (h : SessionHandler Peer) (now : ℤ) where
  abbrev pub peer_shc : Shc Peer
  peer_shc = session_shc (transport pick second) peer_env close clear

  abbrev pub turn : Call Peer (Unit {0})
  turn = peer_turn pick peer_env peer_shc h now

  -- The request as the peer's handler gets it.
  abbrev pub arrived : Request → Request
  arrived req = record {
    base = record (new_base req.version) { received_at = now };
    id = req.id;
    method = req.method;
    params = sent_any req.params;
  }

  turn-carrying :
      (raw : Bytes) (p : Peer)
      → p.transport ≡ carrying raw
      → turn p
        ≡ receive
            (transport pick second)
            peer_env
            peer_shc
            (some h)
            now
            (package_of raw)
            (record p { transport = new_link })
  unfolding peer_turn read new_link
  turn-carrying raw p e = ap (λ l. peer_receive pick peer_env peer_shc h now (read second l) p) e

  pub turn_request :
      (req : Request) (raw : Bytes) (p : Peer)
      → validate (Message.request req) ≡ none
      → marshal (Message.request req) ≡ some raw
      → p.transport ≡ carrying raw
      → turn p
        ≡ handle_request
            (transport pick second)
            peer_env
            peer_shc
            (some h)
            (arrived req)
            (record p { transport = new_link })
  unfolding handle_incoming_message set_received_at
  turn_request req raw p v made e =
      turn-carrying raw p e
      ∙ receive-good (transport pick second) peer_env peer_shc (some h) now (package_of raw)
          (sent (Message.request req)) (record p { transport = new_link })
          (parse_valid-marshal (Message.request req) raw v made)

  pub arrived-IsWellFormed :
      (req : Request)
      → validate (Message.request req) ≡ none
      → IsWellFormed (Message.request (arrived req))
  unfolding new_base
  arrived-IsWellFormed req v =
      sent-IsWellFormed (Message.request req) ((validate_iff (Message.request req)).0 v)

  -- The peer's turn, with a request on the way to it.
  pub turn-OneAnswer :
      (req : Request) (raw : Bytes) (p : Peer)
      → Answers (frames second) IsFree (h.on_request peer_shc)
      → validate (Message.request req) ≡ none
      → marshal (Message.request req) ≡ some raw
      → p.transport ≡ carrying raw
      → (turn p).0 ≡ ok tt
      → OneAnswer (frames second) [] req.id (turn p).1
  unfolding new_link
  turn-OneAnswer req raw p answers v made e done =
      let same = turn_request req raw p v made e in
      rw same (
        handle_request_once (transport pick second) peer_env (frames second)
          (transport-IsTransport pick second) IsFree (free_write pick) close clear h (arrived req)
          (record p { transport = new_link }) answers (arrived-IsWellFormed req v) (refl, refl)
          (sym (ap (λ o. o.0) same) ∙ done))

module _ (pick : Link → Bool) (inner : Env Peer) (shc : Shc (Session Peer))
    (h : Option (SessionHandler (Session Peer))) (now : ℤ) where
  pub own_received :
      (s : Session Peer) (p : DataPackage)
      → s.transport.transport.b ≡ p ∷ []
      → own_turn pick inner shc h now s
        ≡ (receive (near pick) inner shc h now p (record s {
          transport = record (s.transport) {
            transport = record (s.transport.transport) { b = [] };
          };
        })).1
  unfolding own_turn read
  own_received s p e = rw e refl

  -- A response as it is when it has been received at this time.
  abbrev pub received_at : ℤ → Response → Response
  received_at time r = record r { base = record (r.base) { received_at = time } }

  -- The session's own turn, with a response on the way to it.
  pub own_resolves :
      (s : Session Peer) (raw : Bytes) (r : Response)
      → frames second s.transport.transport ≡ raw ∷ []
      → Carries raw (Message.response r)
      → (time : ℤ) × (t : Peer) × (own_turn pick inner shc h now s
          ≡ resolve_all (received_at time r ∷ []) (record s { transport = t }))
  unfolding handle_incoming_message resolve_all set_received_at
  own_resolves s raw r there reads =
      let (p, one, is) = one_package s.transport.transport.b raw there in
      let t : Peer = record (s.transport) {
        transport = record (s.transport.transport) { b = [] };
      } in
      (
        if eqb_ℤ p.received_at (pos 0) then now else p.received_at,
        t,
        own_received s p one
            ∙ ap (λ o. o.1)
                (receive-good (near pick) inner shc h now p (Message.response r)
                  (record s { transport = t }) (rw is reads)),
      )
