-- ===== src/Session/Contract.antt =====
-- request.go and session.go: what it is for a handler to answer a request once.
use rtvbp_go.Common.{String, ◌≡◌, ◌≢◌, List, [], ◌∷◌, ◌++◌, Option, none, some}
use rtvbp_go.Common.Act.{Outcome, ok, err, panic, blocked, continue}
use rtvbp_go.Proto.Json.{Bytes}
use rtvbp_go.Proto.Errors.{Error, error_text}
use rtvbp_go.Proto.Message.{Request, Response, Message}
use rtvbp_go.Proto.WellFormed.{IsWellFormed}
use rtvbp_go.Handler.Shc.{Call, Shc}
use rtvbp_go.Handler.Typed.{RequestType, after_reply, checked, reading}
use rtvbp_go.Session.Core.{Session}
use rtvbp_go.Session.Errors.{IsSendable}
use rtvbp_go.Session.Sending.{Carries}

-- The frame is read as a response to the request with the given id.
abbrev pub IsAnswer : String → Bytes → Type 0
IsAnswer id raw = (r : Response) × Carries raw (Message.response r) × (r.response ≡ id)

-- OnAfterReply does nothing, if there is one, and what Validate of the type reports has a text.
pub record IsProper {S P : Type 0} (t : RequestType S P) : Type 0 where
  pub hook_passes : (shc : Shc S) (s : S) → after_reply t.on_after_reply shc s ≡ (ok tt, s)
  pub explained :
      (v : Option P → Outcome Error (Unit {0})) (p : Option P) (e : Error)
      → t.validation ≡ some v
      → v p ≡ err e
      → error_text e ≢ ""

checked-err : (o : Option Error) (e : Error) → checked o ≡ err e → o ≡ some e
checked-err none e h = absurd cc
checked-err (some x) e h = cc

-- What is explained where there is a receiver is explained.
pub reading_explained :
    {P : Type 0} (w : P → Option Error) (p : Option P) (e : Error)
    → ((x : P) → w x ≡ some e → error_text e ≢ "")
    → reading w p ≡ err e
    → error_text e ≢ ""
reading_explained w none e h r = absurd cc
reading_explained w (some x) e h r = h x (checked-err (w x) e r)

module _ {T : Type 0} (written : T → List Bytes) where
  -- One more frame than `before` was handed over, and it answers the request `id`.
  abbrev pub OneAnswer : List Bytes → String → Session T → Type 0
  OneAnswer before id s =
      (raw : Bytes) × (written s.transport ≡ before ++ raw ∷ []) × IsAnswer id raw

-- `Ready` says of a transport that it takes the next frame.
module _ {T : Type 0} (written : T → List Bytes) (Ready : T → Type 0) where
  -- No frame but those of `before` was handed over, and the next would be taken.
  abbrev pub Untouched : List Bytes → Session T → Type 0
  Untouched before s = (written s.transport ≡ before) × Ready s.transport

  -- A handler's call has answered, or has written nothing and returns an error that can be sent, or
  -- it has panicked or waits.
  abbrev pub Answered : List Bytes → String → Outcome Error (Unit {0}) × Session T → Type 0
  Answered before id (ok u, s) = OneAnswer written before id s
  Answered before id (err e, s) = Untouched before s × IsSendable e
  Answered before id (panic, s) = Unit
  Answered before id (blocked, s) = Unit

  -- A call that has written nothing so far, and returns an error that can be sent if it fails.
  abbrev pub Quiet : {A : Type 0} → List Bytes → Outcome Error A × Session T → Type 0
  Quiet before (ok a, s) = Untouched before s
  Quiet before (err e, s) = Untouched before s × IsSendable e
  Quiet before (panic, s) = Unit
  Quiet before (blocked, s) = Unit

  pub Answered-continue :
      {A : Type 0} (before : List Bytes) (id : String) (r : Outcome Error A × Session T)
      (k : A → Call (Session T) (Unit {0}))
      → Quiet before r
      → ((a : A) (s : Session T) → Untouched before s → Answered before id (k a s))
      → Answered before id (continue r k)
  Answered-continue before id (ok a, s) k q h = h a s q
  Answered-continue before id (err e, s) k q h = q
  Answered-continue before id (panic, s) k q h = tt
  Answered-continue before id (blocked, s) k q h = tt

  -- A handler that answers each request that passed ParseValidMessage, as far as it returns.
  abbrev pub Answers : (Request → Call (Session T) (Unit {0})) → Type 0
  Answers h =
      (req : Request) (s : Session T)
      → IsWellFormed (Message.request req)
      → Ready s.transport
      → Answered (written s.transport) req.id (h req s)

  -- A function of the user that writes nothing itself, and returns errors that can be sent.
  abbrev pub Quietly : {A : Type 0} → (Request → Call (Session T) A) → Type 0
  Quietly h =
      (req : Request) (s : Session T) → Ready s.transport → Quiet (written s.transport) (h req s)
