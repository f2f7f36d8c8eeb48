-- ===== src/Session/Lifecycle/Invariant.antt =====
-- session.go: what holds of a session in every interleaving.
use mathlib.Core.List.{append-nil, append_assoc}
use rtvbp_go.Common.{
  ℕ, suc, ◌+◌, ◌≤◌, true, false, List, [], ◌∷◌, ◌++◌, ◌≡◌, refl, ◌∙◌, Option, none, some, length,
  length-append, arith,
}
use rtvbp_go.Proto.Errors.{Error}
use rtvbp_go.Session.Lifecycle.{
  Closer, waiting, running, closed_state, reporting, exited, Beginner, begun, Life, start,
  begin_failed, Step, Reach, cancel, enter, fire, pass, wake, run_handler, set_closed,
  close_finalized, report_nil, begin_ok, begin_fail, report_begin, receive, here, next,
}

-- Where the closer stands decides which handlers have run, and whether finalizedChan is closed.
abbrev pub CloserHolds : Closer → Life → Type 0
CloserHolds waiting l = (l.ran ≡ []) × (l.finalized ≡ false)
CloserHolds (running hs) l = (l.ran ++ hs ≡ l.handlers) × (l.finalized ≡ false)
CloserHolds closed_state l = (l.ran ≡ l.handlers) × (l.finalized ≡ false)
CloserHolds reporting l = (l.ran ≡ l.handlers) × (l.finalized ≡ true)
CloserHolds exited l = (l.ran ≡ l.handlers) × (l.finalized ≡ true)

-- The number of reports of a shutdown, and of a failed OnBegin.
abbrev pub nils : List (Option Error) → ℕ
nils [] = 0
nils (none ∷ rs) = suc (nils rs)
nils (some e ∷ rs) = nils rs

abbrev pub errors : List (Option Error) → ℕ
errors [] = 0
errors (none ∷ rs) = errors rs
errors (some e ∷ rs) = suc (errors rs)

abbrev pub exits : Closer → ℕ
exits exited = 1
exits _ = 0

abbrev pub has_begun : Beginner → ℕ
has_begun begun = 1
has_begun _ = 0

pub record Inv (l : Life) : Type 0 where
  pub once_trigger : l.trigger_closed ≡ l.once
  pub closer_holds : CloserHolds l.closer l
  pub done_fits : length l.done ≤ 1
  pub one_nil : nils l.delivered + nils l.done ≡ exits l.closer
  pub one_error : errors l.delivered + errors l.done ≤ has_begun l.beginner

nils-append : (xs ys : List (Option Error)) → nils (xs ++ ys) ≡ nils xs + nils ys
nils-append [] ys = omega arith
nils-append (none ∷ xs) ys = omega (arith, nils-append xs ys)
nils-append (some e ∷ xs) ys = nils-append xs ys

errors-append : (xs ys : List (Option Error)) → errors (xs ++ ys) ≡ errors xs + errors ys
errors-append [] ys = omega arith
errors-append (none ∷ xs) ys = errors-append xs ys
errors-append (some e ∷ xs) ys = omega (arith, errors-append xs ys)

start-Inv : (handlers : List ℕ) → Inv (start handlers)
unfolding start
start-Inv handlers = ground arith

Step-Inv : {l m : Life} → Step l m → Inv l → Inv m
Step-Inv cancel v = ground arith
Step-Inv (enter a b) v = ground arith
Step-Inv (fire e o) v = ground arith
Step-Inv (pass e o) v = ground arith
Step-Inv {l} (wake e o) v = ground arith
Step-Inv {l} (run_handler {h} {hs} e) v = ground (arith, append_assoc l.ran (h ∷ []) hs)
Step-Inv {l} (set_closed e) v = ground (arith, append-nil l.ran)
Step-Inv {l} (close_finalized e) v = ground arith
Step-Inv {l} (report_nil e r) v = ground (
  arith,
  nils-append l.done (none ∷ []),
  errors-append l.done (none ∷ []),
  length-append l.done (none ∷ []),
)
Step-Inv (begin_ok e) v = ground arith
Step-Inv (begin_fail x e) v = ground arith
Step-Inv {l} (report_begin {e = x} e r) v =
    let last = some (begin_failed x) ∷ [] in
    ground (arith, nils-append l.done last, errors-append l.done last, length-append l.done last)
Step-Inv {l} (receive {r} {rest} e) v =
    ground (arith, nils-append l.delivered (r ∷ []), errors-append l.delivered (r ∷ []))

Step-handlers : {l m : Life} → Step l m → m.handlers ≡ l.handlers
Step-handlers cancel = refl
Step-handlers (enter a b) = refl
Step-handlers (fire e o) = refl
Step-handlers (pass e o) = refl
Step-handlers (wake e o) = refl
Step-handlers (run_handler e) = refl
Step-handlers (set_closed e) = refl
Step-handlers (close_finalized e) = refl
Step-handlers (report_nil e r) = refl
Step-handlers (begin_ok e) = refl
Step-handlers (begin_fail x e) = refl
Step-handlers (report_begin e r) = refl
Step-handlers (receive e) = refl

pub Reach-Inv : (handlers : List ℕ) {l : Life} → Reach (start handlers) l → Inv l
Reach-Inv handlers here = start-Inv handlers
Reach-Inv handlers (next r s) = Step-Inv s (Reach-Inv handlers r)

pub Reach-handlers :
    (handlers : List ℕ) {l : Life} → Reach (start handlers) l → l.handlers ≡ handlers
unfolding start
Reach-handlers handlers here = refl
Reach-handlers handlers (next r s) = Step-handlers s ∙ Reach-handlers handlers r

-- The handlers that are still to run.
abbrev unran : Closer → List ℕ → List ℕ
unran waiting hs = hs
unran (running rest) hs = rest
unran closed_state hs = []
unran reporting hs = []
unran exited hs = []

ran-unran : (c : Closer) (l : Life) → CloserHolds c l → l.ran ++ unran c l.handlers ≡ l.handlers
ran-unran waiting l h = ground arith
ran-unran (running rest) l h = ground arith
ran-unran closed_state l h = ground (arith, append-nil l.ran)
ran-unran reporting l h = ground (arith, append-nil l.ran)
ran-unran exited l h = ground (arith, append-nil l.ran)

-- In every interleaving, the close handlers that have run are an initial segment of the registered
-- ones, in their order: none runs twice, none is passed over.
pub close_handlers_in_order :
    (handlers : List ℕ) {l : Life}
    → Reach (start handlers) l
    → (rest : List ℕ) × (l.ran ++ rest ≡ handlers)
close_handlers_in_order handlers {l} r = (
  unran l.closer l.handlers,
  ran-unran l.closer l (Reach-Inv handlers r).closer_holds ∙ Reach-handlers handlers r,
)

-- In every interleaving, once finalizedChan is closed every registered close handler has run, each
-- once and in order.
pub finalized-ran :
    (handlers : List ℕ) {l : Life}
    → Reach (start handlers) l
    → l.finalized ≡ true
    → l.ran ≡ handlers
finalized-ran handlers {l} r f =
    let v = Reach-Inv handlers r in let h = Reach-handlers handlers r in ground arith

-- In every interleaving, what Run's channel has delivered and still holds is at most one report of
-- the end of the session and at most one report of a failed OnBegin, and it never holds more than
-- its one place.
pub reports_once :
    (handlers : List ℕ) {l : Life}
    → Reach (start handlers) l
    → (nils l.delivered + nils l.done ≤ 1)
      × (errors l.delivered + errors l.done ≤ 1)
      × (length l.done ≤ 1)
reports_once handlers {l} r = let v = Reach-Inv handlers r in ground arith
