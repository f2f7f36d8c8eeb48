-- ===== src/Tests/Run.antt =====
-- A session that is made, run and closed.
use rtvbp_go.Common.{ℕ, ◌≡◌, refl, true, List, [], ◌∷◌, some, inl}
use rtvbp_go.Proto.Errors.{msg}
use rtvbp_go.Session.State.{closed}
use rtvbp_go.Session.Lifecycle.{
  Life, start, Reach, reporting, enter, fire, wake, run_handler, set_closed, close_finalized, here,
  next,
}
use rtvbp_go.Session.Options.{
  SessionOption, with_options, with_handler, with_transport, with_id, with_defaults,
  with_request_timeout, with_audio_buffer_size,
}
use rtvbp_go.Session.Run.{NewSession, running, refused, new_session, run, on_close}
use rtvbp_go.Session.Run.Closing.{on_close_all, run-closes_in_order}

abbrev options : List (SessionOption ℕ ℕ ℕ ℕ)
options = with_handler 1 ∷ with_transport 2 ∷ with_id "mine" ∷ []

abbrev audio : ℕ → ℕ × ℕ
audio size = (7, size)

abbrev made : NewSession ℕ ℕ ℕ ℕ ℕ
made = on_close_all (5 ∷ []) (new_session "fresh" audio options)

abbrev started : Life
started = start (0 ∷ 5 ∷ 1 ∷ [])

made_runs : run made ≡ running 2 started
unfolding run on_close_all on_close new_session with_options with_handler with_transport with_id
    with_defaults with_request_timeout with_audio_buffer_size
made_runs = refl

made_tests :
    (made.id ≡ "mine")
    × (made.request_timeout ≡ 5000)
    × (made.transport_audio ≡ 1048576)
    × (run (new_session {T = ℕ} {H = ℕ} {O = ℕ} "fresh" audio [])
        ≡ refused (some (msg "no handler set") ∷ []))
unfolding run on_close_all on_close new_session with_options with_handler with_transport with_id
    with_defaults with_request_timeout with_audio_buffer_size
made_tests = (refl, refl, refl, refl)

abbrev ended : Life
ended = record started {
  state = closed;
  once = true;
  trigger_closed = true;
  closer = reporting;
  ran = 0 ∷ 5 ∷ 1 ∷ [];
  finalized = true;
}

reach_ended : Reach started ended
unfolding start
reach_ended =
    next
      (next
        (next
          (next
            (next
              (next (next (next here (enter (λ e. cc) (λ e. cc))) (fire refl refl))
                (wake refl (inl refl)))
              (run_handler refl))
            (run_handler refl))
          (run_handler refl))
        (set_closed refl))
      (close_finalized refl)

run-closes_in_order_example : ended.ran ≡ 0 ∷ 5 ∷ 1 ∷ []
run-closes_in_order_example =
    run-closes_in_order "fresh" audio options (5 ∷ []) 2 started ended made_runs reach_ended refl
