-- ===== src/Handler/Shc.antt =====
-- handler.go: the interface SHC, through which a handler acts on its session; and RequestHandler,
-- EventHandler (request.go, event.go). `S` is the state that such a call works on. A context is not
-- modelled: a call that waits for one is `blocked`.
use rtvbp_go.Common.{ℕ, String}
use rtvbp_go.Common.Act.{Act}
use rtvbp_go.Proto.Errors.{Error}
use rtvbp_go.Proto.Message.{Any, Request, Response, Event}
use rtvbp_go.Session.State.{SessionState}

-- A Go call that returns `(A, error)`.
abbrev pub Call : Type 0 → Type 0 → Type 0
Call S A = Act Error S A

-- A named payload is its name (MethodName, EventName) and the value.
pub record Shc (S : Type 0) : Type 0 where
  pub session_id : S → String
  pub request : String → Any → Call S Response
  pub respond : Response → Call S (Unit {0})
  pub notify : String → Any → Call S (Unit {0})
  pub clear_read_buffer : Call S ℕ
  pub close : Call S (Unit {0}) → Call S (Unit {0})
  pub state : S → SessionState

pub record RequestHandler (S : Type 0) : Type 0 where
  pub method_name : String
  pub handle : Shc S → Request → Call S (Unit {0})

pub record EventHandler (S : Type 0) : Type 0 where
  pub event_name : String
  pub handle : Shc S → Event → Call S (Unit {0})

-- The interface SessionHandler.
pub record SessionHandler (S : Type 0) : Type 0 where
  pub on_begin : Shc S → Call S (Unit {0})
  pub on_request : Shc S → Request → Call S (Unit {0})
  pub on_event : Shc S → Event → Call S (Unit {0})
