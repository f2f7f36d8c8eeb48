-- ===== src/Session/Lifecycle/Progress.antt =====
-- session.go: the steps of the goroutine that finalizes, from where it stands.
use rtvbp_go.Common.{ℕ, true, List, [], ◌∷◌, ◌++◌, ◌≡◌, refl, ◌⊎◌}
use rtvbp_go.Session.State.{closing, closed}
use rtvbp_go.Session.Lifecycle.{
  Closer, waiting, running, closed_state, reporting, exited, Life, start, Step, Reach, wake,
  run_handler, set_closed, close_finalized, here, next,
}
use rtvbp_go.Session.Lifecycle.Invariant.{CloserHolds, Reach-Inv}

-- The same steps, counted from the first.
before : {l m n : Life} → Step l m → Reach m n → Reach l n
before s here = next here s
before s (next r t) = next (before s r) t

-- A state from which finalizedChan gets closed.
abbrev Finalizes : Life → Type 0
Finalizes l = (m : Life) × Reach l m × (m.finalized ≡ true)

after : {l m : Life} → Step l m → Finalizes m → Finalizes l
after s (n, r, f) = (n, before s r, f)

from_closed : (l : Life) → l.closer ≡ closed_state → Finalizes l
from_closed l e =
    (record l { closer = reporting; finalized = true }, next here (close_finalized e), refl)

from_running : (hs : List ℕ) (l : Life) → l.closer ≡ running hs → Finalizes l
from_running [] l e =
    after (set_closed e) (from_closed (record l { closer = closed_state; state = closed }) refl)
from_running (h ∷ hs) l e =
    after (run_handler e)
      (from_running hs (record l { closer = running hs; ran = l.ran ++ h ∷ [] }) refl)

from_any :
    (c : Closer) (l : Life)
    → l.closer ≡ c
    → CloserHolds c l
    → (l.trigger_closed ≡ true) ⊎ (l.ctx_done ≡ true)
    → Finalizes l
from_any waiting l e h o =
    after (wake e o)
      (from_running l.handlers (record l { closer = running l.handlers; state = closing }) refl)
from_any (running hs) l e h o = from_running hs l e
from_any closed_state l e h o = from_closed l e
from_any reporting l e h o = (l, here, h.1)
from_any exited l e h o = (l, here, h.1)

-- From every reachable state in which triggerCloseChan is closed or the context has ended, there
-- are steps to a state in which finalizedChan is closed.
pub shutdown_completes :
    (handlers : List ℕ) {l : Life}
    → Reach (start handlers) l
    → (l.trigger_closed ≡ true) ⊎ (l.ctx_done ≡ true)
    → (m : Life) × Reach l m × (m.finalized ≡ true)
shutdown_completes handlers {l} r o = from_any l.closer l refl (Reach-Inv handlers r).closer_holds o
