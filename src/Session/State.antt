-- ===== src/Session/State.antt =====
-- session_state.go

pub data SessionState : Type 0 where
  inactive active closing closed failed : SessionState

pub SessionState-discrete : Discrete SessionState
SessionState-discrete = hlevel
