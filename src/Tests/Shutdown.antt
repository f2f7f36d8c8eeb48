-- ===== src/Tests/Shutdown.antt =====
-- A session that is closed by its caller, with two close handlers.
use rtvbp_go.Common.{
  ℕ, ◌≡◌, ◌≤◌, ◌+◌, refl, true, false, ◌⊎◌, List, [], ◌∷◌, inl, none, length, arith,
}
use rtvbp_go.Session.State.{closed, closing}
use rtvbp_go.Session.Lifecycle.{
  running, exited, Life, start, Reach, enter, fire, wake, run_handler, set_closed, close_finalized,
  report_nil, here, next,
}
use rtvbp_go.Session.Lifecycle.Invariant.{reports_once, nils, errors}
use rtvbp_go.Session.Lifecycle.Termination.{shutdown_terminates, count_own, count_calls, CanStep}

abbrev closers : List ℕ
closers = 1 ∷ 2 ∷ []

-- After Close has been called and doClose has run.
abbrev fired : Life
fired = record (start closers) { entered = 0; once = true; trigger_closed = true }

reach_fired : Reach (start closers) fired
unfolding start
reach_fired = next (next here (enter (λ e. cc) (λ e. cc))) (fire refl refl)

-- One of the two handlers has run.
abbrev halfway : Life
halfway = record fired { closer = running (2 ∷ []); state = closing; ran = 1 ∷ [] }

reach_halfway : Reach (start closers) halfway
unfolding start
reach_halfway = next (next reach_fired (wake refl (inl refl))) (run_handler refl)

-- The end has been reported.
abbrev ended : Life
ended = record halfway {
  closer = exited;
  state = closed;
  ran = closers;
  finalized = true;
  done = none ∷ [];
}

reach_ended : Reach (start closers) ended
unfolding start
reach_ended =
    next
      (next (next (next reach_halfway (run_handler refl)) (set_closed refl)) (close_finalized refl))
      (report_nil refl (omega arith))

reports_once_example :
    (nils ended.delivered + nils ended.done ≤ 1)
    × (errors ended.delivered + errors ended.done ≤ 1)
    × (length ended.done ≤ 1)
reports_once_example = reports_once closers reach_ended

shutdown_terminates_example :
    (count_own reach_halfway ≤ count_calls reach_halfway + (8 + length closers))
    × ((halfway.finalized ≡ true)
        ⊎ CanStep halfway
        ⊎ ((halfway.trigger_closed ≡ false) × (halfway.ctx_done ≡ false)))
shutdown_terminates_example = shutdown_terminates closers reach_halfway
