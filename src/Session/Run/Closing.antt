-- ===== src/Session/Run/Closing.antt =====
-- session.go: what a session that was made by NewSession and run has closed when it ends.
use rtvbp_go.Common.{ℕ, String, ◌≡◌, sym, ap, ◌∙◌, true, List, [], ◌∷◌, ◌++◌, arith}
use mathlib.Core.List.{append-nil, append_assoc}
use rtvbp_go.Session.Lifecycle.{Life, start, Reach}
use rtvbp_go.Session.Lifecycle.Invariant.{finalized-ran}
use rtvbp_go.Session.Options.{SessionOption}
use rtvbp_go.Session.Run.{
  NewSession, running, close_audio, close_transport, on_close, new_session, run,
}

module _ {T A S H O : Type 0} where
  -- The calls of OnClose before Run.
  unfoldable pub on_close_all : List ℕ → NewSession T A S H O → NewSession T A S H O
  on_close_all [] s = s
  on_close_all (cb ∷ cbs) s = on_close_all cbs (on_close cb s)

  on_close_all-handlers :
      (cbs : List ℕ) (s : NewSession T A S H O)
      → (on_close_all cbs s).on_close_handlers ≡ s.on_close_handlers ++ cbs
  unfolding on_close_all on_close
  on_close_all-handlers [] s = sym (append-nil s.on_close_handlers)
  on_close_all-handlers (cb ∷ cbs) s =
      on_close_all-handlers cbs (on_close cb s) ∙ append_assoc s.on_close_handlers (cb ∷ []) cbs

  run_life :
      (s : NewSession T A S H O) (t : T) (l : Life)
      → run s ≡ running t l
      → l ≡ start (s.on_close_handlers ++ close_transport ∷ [])
  unfolding run
  run_life s t l h = ground arith

  -- A session made by NewSession, with calls of OnClose before Run: if Run starts it, then in every
  -- interleaving, once finalizedChan is closed, it has closed its audio first, then run the handlers of
  -- OnClose in the order of the calls, and closed its transport last, each once.
  pub run-closes_in_order :
      (fresh : String) (new_audio : ℕ → S × A) (os : List (SessionOption T A H O)) (cbs : List ℕ)
      (t : T) (l0 l : Life)
      → run (on_close_all cbs (new_session fresh new_audio os)) ≡ running t l0
      → Reach l0 l
      → l.finalized ≡ true
      → l.ran ≡ close_audio ∷ cbs ++ close_transport ∷ []
  unfolding new_session on_close
  run-closes_in_order fresh new_audio os cbs t l0 l h r f =
      let s = new_session fresh new_audio os in
      let all = on_close_all-handlers cbs s in
      let made : l0 ≡ start (close_audio ∷ cbs ++ close_transport ∷ []) =
        run_life (on_close_all cbs s) t l0 h ∙ ap (λ x. start (x ++ close_transport ∷ [])) all in
      finalized-ran (close_audio ∷ cbs ++ close_transport ∷ []) {l = l} (rw (← made) r) f
