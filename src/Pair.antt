-- ===== src/Pair.antt =====
-- transport/direct/channel.go: New and NewTestSessions, two sessions over one link. The session at
-- the first end holds the one at the second end, with the link, as the state of its transport: that
-- is what changes while it waits.
pub mod Turns
pub mod Answered
pub mod Replied
pub mod Resolved
pub mod Returned
use rtvbp_go.Common.{ℕ, String, Bool, false, Option, none, some}
use rtvbp_go.Common.Int.{ℤ}
use rtvbp_go.Common.Act.{Outcome, ok}
use rtvbp_go.Proto.Json.{Bytes}
use rtvbp_go.Proto.Errors.{Error}
use rtvbp_go.Handler.Shc.{Call, Shc, SessionHandler}
use rtvbp_go.Session.Core.{Session, Env}
use rtvbp_go.Session.Calls.{receive, session_shc}
use rtvbp_go.Transport.Interface.{Transport, DataPackage}
use rtvbp_go.Transport.Direct.{Link, first, second, transport, read}
use rtvbp_go.Transport.Direct

abbrev pub Peer : Type 0
Peer = Session Link

abbrev pub on_link : Peer → Outcome Error (Unit {0}) × Link → Outcome Error (Unit {0}) × Peer
on_link p (o, l) = (o, record p { transport = l })

-- The first end, for a session whose transport state is the peer.
abbrev pub near : (Link → Bool) → Transport Peer
near pick = record {
  write = λ b p. on_link p (Direct.write pick first b p.transport);
  close = λ p. on_link p (Direct.close p.transport);
}

module _ (pick : Link → Bool) (env : Env Link) (shc : Shc Peer) (h : SessionHandler Peer)
    (now : ℤ) where
  abbrev pub peer_receive : Option DataPackage × Link → Call Peer (Unit {0})
  peer_receive (none, l) p = (ok tt, record p { transport = l })
  peer_receive (some k, l) p =
      receive (transport pick second) env shc (some h) now k (record p { transport = l })

  -- One round of the reading loop of the peer.
  unfoldable pub peer_turn : Call Peer (Unit {0})
  peer_turn p = peer_receive (read second p.transport) p

module _ (pick : Link → Bool) (inner : Env Peer) (shc : Shc (Session Peer))
    (h : Option (SessionHandler (Session Peer))) (now : ℤ) where
  abbrev pub own_receive : Option DataPackage × Link → Session Peer → Session Peer
  own_receive (none, l) s = record s { transport = record (s.transport) { transport = l } }
  own_receive (some k, l) s =
      (receive (near pick) inner shc h now k
        (record s { transport = record (s.transport) { transport = l } })).1

  -- One round of the reading loop of the session itself.
  unfoldable pub own_turn : Session Peer → Session Peer
  own_turn s = own_receive (read first s.transport.transport) s

  -- While a call of Request waits, the peer takes a turn, and then the session's own reader; its context
  -- does not end. This is one schedule of the two reading loops.
  unfoldable pub exchange : Call Peer (Unit {0}) → Env Peer
  unfolding own_turn
  exchange turn = record {
    fresh = inner.fresh;
    others = λ c s. (false, own_turn (record s { transport = (turn s.transport).1 }));
  }
