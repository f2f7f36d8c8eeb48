-- ===== src/Session/Core.antt =====
-- session.go and session_request.go: the session's state and what it does with one message.
-- Logging and debug output are left out. A channel of the source is the list of the values in it.
use Prim.Native.String.{◌++◌ as cat}
use rtvbp_go.Common.{
  ℕ, suc, String, Bool, true, false, List, [], ◌∷◌, ◌++◌, Option, none, some, length, leb, ◌==◌,
  if◌then◌else◌,
}
use rtvbp_go.Common.Assoc.{Assoc, lookup, insert, delete}
use rtvbp_go.Common.Act.{Outcome, ok, err, blocked}
use rtvbp_go.Proto.Errors.{
  Error, sentinel, request_timeout, request_failed, request_validation_failed, bad_json, wrap, join,
  ResponseError, to_response_error,
}
use rtvbp_go.Proto.Errors
use rtvbp_go.Proto.Message.{Request, Response}
use rtvbp_go.Handler.Shc.{Call}
use rtvbp_go.Session.State.{SessionState}

-- `pending` is pendingRequests: from a request's id to the pendingRequest, which several calls share
-- and which is named by the number of its channel. `drawn` counts the ids that idgen.ID has made.
pub record Session (T : Type 0) : Type 0 where
  pub id : String
  pub state : SessionState
  pub transport : T
  pub pending : Assoc ℕ
  pub channels : ℕ → List Response
  pub next_channel : ℕ
  pub drawn : ℕ

-- `f` with the value at `i` replaced.
abbrev pub update {ℓ} : {A : Type ℓ} → (ℕ → A) → ℕ → A → ℕ → A
update f i a j = if i == j then a else f j

abbrev pub request_label : Request → String
request_label req = cat "request [method=" (cat req.method (cat ", id=" (cat req.id "] failed")))

-- What the program takes from outside: the ids that idgen.ID makes, and what the other goroutines do
-- to the session while a call of Request waits for the channel with the given number; the Boolean
-- says that the call's `select` then takes the branch of ctx.Done.
pub record Env (T : Type 0) : Type 0 where
  pub fresh : ℕ → String
  pub others : ℕ → Session T → Bool × Session T

module _ {T : Type 0} where
  -- Session.setState
  unfoldable pub set_state : SessionState → Session T → Session T
  set_state st s = record s { state = st }

  -- Session.newPendingRequest
  unfoldable pub new_pending_request : String → Call (Session T) ℕ
  new_pending_request id s = (
    ok s.next_channel,
    record s {
      pending = insert id s.next_channel s.pending;
      channels = update s.channels s.next_channel [];
      next_channel = suc s.next_channel;
    },
  )

  -- `pr.ch <- resp` and the delete; the channel has room for one response.
  deliver : Response → Option ℕ → Call (Session T) (Unit {0})
  deliver resp none s = (ok tt, s)
  deliver resp (some c) s = if leb 1 (length (s.channels c)) then (blocked, s) else (
    ok tt,
    record s {
      pending = delete resp.response s.pending;
      channels = update s.channels c (s.channels c ++ resp ∷ []);
    },
  )

  -- Session.resolvePendingRequest
  unfoldable pub resolve_pending_request : Response → Call (Session T) (Unit {0})
  unfolding deliver
  resolve_pending_request resp s = deliver resp (lookup resp.response s.pending) s

  unfoldable pub draw : (ℕ → String) → Call (Session T) String
  draw fresh s = (ok (fresh s.drawn), record s { drawn = suc s.drawn })

  -- The branch of `resp := <-pr.ch` in Request, with the values in the channel.
  abbrev pub received : List Response → ℕ → Session T → Outcome Error Response × Session T
  received [] c s = (blocked, s)
  received (resp ∷ rest) c s =
      let s' = record s { channels = update s.channels c rest } in
      elim resp.error [ none ↦ (ok resp, s') | some e ↦ (err (Errors.response e), s') ]

  -- The `select` of Request, after the wait.
  unfoldable pub wait_response : Request → ℕ → Bool × Session T → Outcome Error Response × Session T
  wait_response req c (true, s) = (
    err (wrap (request_label req) (sentinel request_timeout)),
    record s { pending = delete req.id s.pending },
  )
  wait_response req c (false, s) = received (s.channels c) c s
