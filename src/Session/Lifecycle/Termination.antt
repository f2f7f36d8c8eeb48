-- ===== src/Session/Lifecycle/Termination.antt =====
-- session.go: how many steps the goroutines of a session make, and when they have none left.
use rtvbp_go.Common.{
  ℕ, ◌+◌, ◌≤◌, true, false, List, [], ◌∷◌, ◌≡◌, refl, ◌⊎◌, inl, inr, none, some, length,
  length-append, arith, Bool-cases,
}
use rtvbp_go.Session.Lifecycle.{
  Closer, waiting, running, closed_state, reporting, exited, Beginner, beginning, failing, begun,
  Life, start, begin_failed, Step, Reach, cancel, enter, fire, pass, wake, run_handler, set_closed,
  close_finalized, report_nil, begin_ok, begin_fail, report_begin, receive, here, next,
}
use rtvbp_go.Session.Lifecycle.Invariant.{CloserHolds, Reach-Inv}

-- Whether a step is a call of doClose, and whether it is a step of the session: neither such a call nor
-- the end of the context.
abbrev pub calls : {l m : Life} → Step l m → ℕ
calls (enter a b) = 1
calls _ = 0

abbrev pub owns : {l m : Life} → Step l m → ℕ
owns cancel = 0
owns (enter a b) = 0
owns _ = 1

abbrev pub count_calls : {l m : Life} → Reach l m → ℕ
count_calls here = 0
count_calls (next r s) = count_calls r + calls s

abbrev pub count_own : {l m : Life} → Reach l m → ℕ
count_own here = 0
count_own (next r s) = count_own r + owns s

-- The steps that are left for the closer, for OnBegin's goroutine and for the session.
abbrev closer_left : List ℕ → Closer → ℕ
closer_left hs waiting = 5 + length hs
closer_left hs (running rest) = 4 + length rest
closer_left hs closed_state = 3
closer_left hs reporting = 2
closer_left hs exited = 0

abbrev begin_left : Beginner → ℕ
begin_left beginning = 3
begin_left (failing e) = 2
begin_left begun = 0

abbrev left : Life → ℕ
left l = l.entered + (closer_left l.handlers l.closer + (begin_left l.beginner + length l.done))

Step-left : {l m : Life} (s : Step l m) → owns s + left m ≤ calls s + left l
Step-left cancel = omega arith
Step-left (enter a b) = omega arith
Step-left (fire e o) = ground arith
Step-left (pass e o) = ground arith
Step-left (wake e o) = ground arith
Step-left (run_handler e) = ground arith
Step-left (set_closed e) = ground arith
Step-left (close_finalized e) = ground arith
Step-left {l} (report_nil e r) = ground (arith, length-append l.done (none ∷ []))
Step-left (begin_ok e) = ground arith
Step-left (begin_fail x e) = ground arith
Step-left {l} (report_begin {e = x} e r) =
    ground (arith, length-append l.done (some (begin_failed x) ∷ []))
Step-left {l} (receive e) = ground arith

Reach-left : {l m : Life} (r : Reach l m) → count_own r + left m ≤ count_calls r + left l
Reach-left here = omega arith
Reach-left (next r s) = omega (arith, Reach-left r, Step-left s)

-- A step of the session that is possible.
abbrev pub CanStep : Life → Type 0
CanStep l = (m : Life) × (s : Step l m) × (owns s ≡ 1)

closer_goes_on :
    (c : Closer) (l : Life)
    → l.closer ≡ c
    → CloserHolds c l
    → (l.trigger_closed ≡ true) ⊎ (l.ctx_done ≡ true)
    → (l.finalized ≡ true) ⊎ CanStep l
closer_goes_on waiting l e h o = inr (_, wake e o, refl)
closer_goes_on (running []) l e h o = inr (_, set_closed e, refl)
closer_goes_on (running (x ∷ hs)) l e h o = inr (_, run_handler e, refl)
closer_goes_on closed_state l e h o = inr (_, close_finalized e, refl)
closer_goes_on reporting l e h o = inl h.1
closer_goes_on exited l e h o = inl h.1

-- However the steps interleave: the goroutines of a session make at most 8 steps more than it has close
-- handlers and doClose was called, where a close handler and OnBegin are one step each, when they
-- return. Where they have no step left, finalizedChan is closed, or neither the context has ended
-- nor triggerCloseChan is closed.
pub shutdown_terminates :
    (handlers : List ℕ) {l : Life} (r : Reach (start handlers) l)
    → (count_own r ≤ count_calls r + (8 + length handlers))
      × ((l.finalized ≡ true) ⊎ CanStep l ⊎ ((l.trigger_closed ≡ false) × (l.ctx_done ≡ false)))
unfolding start
shutdown_terminates handlers {l} r =
    let bound = Reach-left r in
    let goes = closer_goes_on l.closer l refl (Reach-Inv handlers r).closer_holds in
    (
      omega (arith, bound),
      elim (Bool-cases l.trigger_closed) [
        | inl fired ↦ elim (goes (inl fired)) [ inl f ↦ inl f | inr c ↦ inr (inl c) ]
        | inr open_ ↦ elim (Bool-cases l.ctx_done) [
          | inl over ↦ elim (goes (inr over)) [ inl f ↦ inl f | inr c ↦ inr (inl c) ]
          | inr runs ↦ inr (inr (open_, runs))
        ]
      ],
    )
