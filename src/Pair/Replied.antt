-- ===== src/Pair/Replied.antt =====
-- Two sessions over one link: a turn of the peer, whose handler replies to the request that comes.
use rtvbp_go.Common.{ℕ, ◌≡◌, refl, ◌∙◌, Bool, false, [], ◌∷◌, none, some}
use rtvbp_go.Common.Int.{ℤ}
use rtvbp_go.Common.Act.{ok}
use rtvbp_go.Proto.Json.{Bytes}
use rtvbp_go.Proto.Message.{Any, Request, Message, validate, validate_any, request_ok}
use rtvbp_go.Proto.Parse.{marshal}
use rtvbp_go.Proto.WellFormed.{IsWellFormed, validate_iff}
use rtvbp_go.Handler.Shc.{Call, Shc, SessionHandler}
use rtvbp_go.Handler.Typed.{reply}
use rtvbp_go.Session.Core.{Env}
use rtvbp_go.Session.Calls.{session_shc, handle_request}
use rtvbp_go.Session.Sending.{send_message_marshalled}
use rtvbp_go.Transport.Direct.{Link, new_link, second, transport, package_of}
use rtvbp_go.Transport.Direct
use rtvbp_go.Pair.{Peer}
use rtvbp_go.Pair.Turns.{carrying, turn, turn_request, arrived, arrived-IsWellFormed}

-- The link with one frame on the way to the first end.
abbrev pub returning : Bytes → Link
returning raw = record { a = []; b = package_of raw ∷ []; closed = false }

second_write :
    (pick : Link → Bool) (raw : Bytes)
    → (transport pick second).write raw new_link ≡ (ok tt, returning raw)
unfolding transport Direct.write new_link
second_write pick raw = refl

pub ok_valid :
    (req : Request) (res : Any)
    → IsWellFormed (Message.request req)
    → validate_any res ≡ none
    → validate (Message.response (request_ok req res)) ≡ none
unfolding request_ok
ok_valid req res w valid =
    (validate_iff (Message.response (request_ok req res))).1 (w.0, w.1, tt, valid)

module _ (pick : Link → Bool) (peer_env : Env Link)
    (close : Call Peer (Unit {0}) → Call Peer (Unit {0})) (clear : Call Peer ℕ)
    (peer : SessionHandler Peer) where
  abbrev far : Shc Peer
  far = session_shc (transport pick second) peer_env close clear

  -- The handler of the peer replies `res` to the request, without OnAfterReply.
  abbrev pub RepliesAt : Request → Any → Peer → Type 0
  RepliesAt req res q = peer.on_request far req q ≡ reply none far req res q

  handled :
      (req : Request) (res : Any) (q : Peer) (raw : Bytes)
      → RepliesAt req res q
      → validate_any res ≡ none
      → validate (Message.response (request_ok req res)) ≡ none
      → marshal (Message.response (request_ok req res)) ≡ some raw
      → q.transport ≡ new_link
      → handle_request (transport pick second) peer_env far (some peer) req q
        ≡ (ok tt, record q { transport = returning raw })
  unfolding handle_request reply session_shc
  handled req res q raw same valid v made e =
      rw
        (
          same,
          valid,
          send_message_marshalled (transport pick second) (Message.response (request_ok req res)) q
              raw v made,
          e,
          second_write pick raw,
        )
        refl

  -- The peer's turn, with a request on the way to it that its handler replies to.
  pub turn_replied :
      (now : ℤ) (req : Request) (res : Any) (raw answer_raw : Bytes) (p : Peer)
      → validate (Message.request req) ≡ none
      → marshal (Message.request req) ≡ some raw
      → p.transport ≡ carrying raw
      → RepliesAt
          (arrived pick peer_env close clear peer now req)
          res
          (record p { transport = new_link })
      → validate_any res ≡ none
      → marshal (Message.response (request_ok (arrived pick peer_env close clear peer now req) res))
        ≡ some answer_raw
      → turn pick peer_env close clear peer now p
        ≡ (ok tt, record p { transport = returning answer_raw })
  turn_replied now req res raw answer_raw p v made e same valid answered =
      let got = arrived pick peer_env close clear peer now req in
      turn_request pick peer_env close clear peer now req raw p v made e
      ∙ handled got res (record p { transport = new_link }) answer_raw same valid
          (ok_valid got res (arrived-IsWellFormed pick peer_env close clear peer now req v) valid)
          answered refl
