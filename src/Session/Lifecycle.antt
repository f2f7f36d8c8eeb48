-- ===== src/Session/Lifecycle.antt =====
-- session.go: the goroutines that Run starts, doClose and finalize, as interleaved steps. A close
-- handler and OnBegin are each one step, when they return; that they return is up to them.
pub mod Invariant
pub mod Progress
pub mod Termination
use rtvbp_go.Common.{
  ℕ, zero, suc, Bool, true, false, List, [], ◌∷◌, ◌++◌, ◌≡◌, ◌≢◌, ◌⊎◌, Option, none, some, length,
  ◌<◌,
}
use rtvbp_go.Proto.Errors.{Error, wrap, msg}
use rtvbp_go.Session.State.{SessionState, inactive, active, closing, closed, failed}

-- Where the goroutine stands that waits for the shutdown and then finalizes: it waits; it runs the
-- close handlers that are left; it has set the state to closed; it has closed finalizedChan; it has
-- reported nil on the channel that Run returned.
pub data Closer : Type 0 where
  waiting : Closer
  running : List ℕ → Closer
  closed_state reporting exited : Closer

-- Where the goroutine stands that calls OnBegin: the call has not returned; it has failed, and the
-- error is still to be reported; it is over.
pub data Beginner : Type 0 where
  beginning : Beginner
  failing : Error → Beginner
  begun : Beginner

-- `handlers` are onCloseHandlers, by numbers. `entered` counts the calls of doClose that have passed
-- the test of the state and have not yet reached closeOnce. `done` is the channel that Run returns.
pub record Life : Type 0 where
  pub state : SessionState
  pub handlers : List ℕ
  pub entered : ℕ
  pub once : Bool
  pub trigger_closed : Bool
  pub ctx_done : Bool
  pub closer : Closer
  pub beginner : Beginner
  pub ran : List ℕ
  pub finalized : Bool
  pub done : List (Option Error)
  pub delivered : List (Option Error)

-- The session when Run returns, with its close handlers.
unfoldable pub start : List ℕ → Life
start handlers = record {
  state = inactive;
  handlers = handlers;
  entered = 0;
  once = false;
  trigger_closed = false;
  ctx_done = false;
  closer = waiting;
  beginner = beginning;
  ran = [];
  finalized = false;
  done = [];
  delivered = [];
}

abbrev pub begin_failed : Error → Error
begin_failed e = wrap "handler.OnBegin() failed" e

pub data Step (l : Life) : Life → Type 0 where
  -- the context given to Run ends
  cancel : Step l (record l { ctx_done = true })
  -- doClose, of Close or of the reader at the end of input: the test of the state
  enter : l.state ≢ closed → l.state ≢ closing → Step l (record l { entered = suc l.entered })
  -- doClose: the first call that reaches closeOnce closes triggerCloseChan, a later one does nothing
  fire :
      {n : ℕ}
      → l.entered ≡ suc n
      → l.once ≡ false
      → Step l (record l { entered = n; once = true; trigger_closed = true })
  pass : {n : ℕ} → l.entered ≡ suc n → l.once ≡ true → Step l (record l { entered = n })
  -- the closer sees one of its two signals, and finalize begins
  wake :
      l.closer ≡ waiting
      → (l.trigger_closed ≡ true) ⊎ (l.ctx_done ≡ true)
      → Step l (record l { closer = running l.handlers; state = closing })
  run_handler :
      {h : ℕ} {hs : List ℕ}
      → l.closer ≡ running (h ∷ hs)
      → Step l (record l { closer = running hs; ran = l.ran ++ h ∷ [] })
  set_closed : l.closer ≡ running [] → Step l (record l { closer = closed_state; state = closed })
  close_finalized :
      l.closer ≡ closed_state → Step l (record l { closer = reporting; finalized = true })
  report_nil :
      l.closer ≡ reporting
      → length l.done < 1
      → Step l (record l { closer = exited; done = l.done ++ none ∷ [] })
  -- OnBegin returns
  begin_ok : l.beginner ≡ beginning → Step l (record l { beginner = begun; state = active })
  begin_fail :
      (e : Error)
      → l.beginner ≡ beginning
      → Step l (record l { beginner = failing e; state = failed })
  report_begin :
      {e : Error}
      → l.beginner ≡ failing e
      → length l.done < 1
      → Step l (record l { beginner = begun; done = l.done ++ some (begin_failed e) ∷ [] })
  -- whoever called Run receives from its channel
  receive :
      {r : Option Error} {rest : List (Option Error)}
      → l.done ≡ r ∷ rest
      → Step l (record l { done = rest; delivered = l.delivered ++ r ∷ [] })

pub data Reach (l : Life) : Life → Type 0 where
  here : Reach l l
  next : {m n : Life} → Reach l m → Step m n → Reach l n
