-- ===== src/Transport/Ws/Table/Shutdown.antt =====
-- transport/ws/server.go: the sessions that Shutdown closes, in every interleaving.
use rtvbp_go.Common.{
  ℕ, ◌≡◌, refl, sym, ap, ◌∙◌, true, false, ◌||◌, String, List, [], ◌∷◌, ◌++◌, arith,
}
use rtvbp_go.Transport.Ws.Table.{
  Phase, requested, running, listed, ended, left, Stopping, calm, stopped, closing, ServerTable,
  set_phase, values, is_free, new_table, add_session, remove_session, Step, Reach, runs, refuses,
  adds, ends, removes, stops, asks, returns, here, next,
}
use rtvbp_go.Transport.Ws.Table.Entries.{elem, elem-append, Fresh, elem-lookup}
use rtvbp_go.Transport.Ws.Table.Sessions.{
  in_table, was_added, TableInv, set_phase_same, reach-TableInv,
}

not_free {ℓ} : {A : Type ℓ} (x : Stopping) (ns : List ℕ) → x ≡ closing ns → is_free x ≡ true → A
not_free calm ns h f = absurd cc
not_free stopped ns h f = absurd cc
not_free (closing ms) ns h f = absurd cc

closing_list : {ms ns : List ℕ} → closing ms ≡ closing ns → ms ≡ ns
closing_list h = cc

module _ (ids : ℕ → String) where
  -- Shutdown, while it holds the mutex, has closed, or will close, each session of the table.
  pub record StopInv (s : ServerTable) : Type 0 where
    pub due :
        (ns : List ℕ) (n : ℕ)
        → s.stopping ≡ closing ns
        → in_table (s.phases n) ≡ true
        → elem n ns || elem n s.asked ≡ true
    pub asked_added : (n : ℕ) → elem n s.asked ≡ true → was_added (s.phases n) ≡ true
    pub due_added :
        (ns : List ℕ) (n : ℕ)
        → s.stopping ≡ closing ns
        → elem n ns ≡ true
        → was_added (s.phases n) ≡ true

  added_kept :
      (n : ℕ) (p q : Phase) (f : ℕ → Phase)
      → f n ≡ q
      → (was_added q ≡ true → was_added p ≡ true)
      → (m : ℕ) → was_added (f m) ≡ true
      → was_added (set_phase n p f m) ≡ true
  added_kept n p q f h more m e = ground arith

  in_table_added : (p : Phase) → in_table p ≡ true → was_added p ≡ true
  in_table_added p h = ground arith

  -- A step that leaves Shutdown as it is, where the mutex is free.
  free-StopInv :
      (s t : ServerTable)
      → is_free s.stopping ≡ true
      → t.stopping ≡ s.stopping
      → t.asked ≡ s.asked
      → ((m : ℕ) → was_added (s.phases m) ≡ true → was_added (t.phases m) ≡ true)
      → StopInv s
      → StopInv t
  free-StopInv s t f same asked kept inv = record {
    due = λ ns n h e. not_free t.stopping ns h (ap is_free same ∙ f);
    asked_added = λ n e. kept n (inv.asked_added n (ap (elem n) (sym asked) ∙ e));
    due_added = λ ns n h e. not_free t.stopping ns h (ap is_free same ∙ f);
  }

  phase-StopInv :
      (n : ℕ) (p q : Phase) (s : ServerTable)
      → s.phases n ≡ q
      → in_table p ≡ in_table q
      → (was_added q ≡ true → was_added p ≡ true)
      → StopInv s
      → StopInv (record s { phases = set_phase n p s.phases })
  phase-StopInv n p q s h same more inv = record {
    due = λ ns m e i. inv.due ns m e (sym (set_phase_same ids n p q s.phases h same m) ∙ i);
    asked_added = λ m e. added_kept n p q s.phases h more m (inv.asked_added m e);
    due_added = λ ns m e i. added_kept n p q s.phases h more m (inv.due_added ns m e i);
  }

  stops-StopInv :
      (s : ServerTable)
      → TableInv ids s.sessions s.phases
      → StopInv s
      → StopInv (record s { stopping = closing (values s.sessions) })
  stops-StopInv s table inv = record {
    due = λ ns n h i.
        let e = elem-lookup (ids n) n s.sessions (table.found n ∙ rw i refl) in
        rw (← closing_list h, e) refl;
    asked_added = inv.asked_added;
    due_added = λ ns n h e.
        in_table_added (s.phases n) (table.entered n (ap (elem n) (closing_list h) ∙ e));
  }

  asks-StopInv :
      (n : ℕ) (xs ys : List ℕ) (s : ServerTable)
      → s.stopping ≡ closing (xs ++ n ∷ ys)
      → StopInv s
      → StopInv (record s { stopping = closing (xs ++ ys); asked = s.asked ++ n ∷ [] })
  asks-StopInv n xs ys s h inv = record {
    due = λ ns m e i.
        let before = inv.due (xs ++ n ∷ ys) m h i in
        let ns_is = closing_list e in
        rw (← ns_is) (
          ground (
            arith,
            elem-append m xs (n ∷ ys),
            elem-append m xs ys,
            elem-append m s.asked (n ∷ []),
          ));
    asked_added = λ m e. ground (
      arith,
      elem-append m s.asked (n ∷ []),
      inv.asked_added m,
      elem-append m xs (n ∷ ys),
      inv.due_added (xs ++ n ∷ ys) m h,
    );
    due_added = λ ns m e i.
        let shorter = ap (elem m) (closing_list e) ∙ i in
        inv.due_added (xs ++ n ∷ ys) m h
          (ground (arith, elem-append m xs (n ∷ ys), elem-append m xs ys));
  }

  returns-StopInv : (s : ServerTable) → StopInv s → StopInv (record s { stopping = stopped })
  returns-StopInv s inv = record {
    due = λ ns n h i. absurd cc;
    asked_added = inv.asked_added;
    due_added = λ ns n h e. absurd cc;
  }

  step-StopInv :
      {s t : ServerTable} → TableInv ids s.sessions s.phases → StopInv s → Step ids s t → StopInv t
  unfolding add_session remove_session
  step-StopInv {s = s} table inv (runs n h) =
      phase-StopInv n running requested s h refl (λ e. cc) inv
  step-StopInv {s = s} table inv (refuses n h) =
      phase-StopInv n left requested s h refl (λ e. refl) inv
  step-StopInv {s = s} table inv (adds n h f) =
      free-StopInv s _ f refl refl (added_kept n listed running s.phases h (λ e. refl)) inv
  step-StopInv {s = s} table inv (ends n h) = phase-StopInv n ended listed s h refl (λ e. refl) inv
  step-StopInv {s = s} table inv (removes n h f) =
      free-StopInv s _ f refl refl (added_kept n left ended s.phases h (λ e. refl)) inv
  step-StopInv {s = s} table inv (stops f) = stops-StopInv s table inv
  step-StopInv {s = s} table inv (asks n xs ys h) = asks-StopInv n xs ys s h inv
  step-StopInv {s = s} table inv (returns h) = returns-StopInv s inv

  reach-StopInv : {s : ServerTable} → Fresh ids → Reach ids s → StopInv s
  unfolding new_table
  reach-StopInv fresh here = record {
    due = λ ns n h i. absurd cc;
    asked_added = λ n e. absurd cc;
    due_added = λ ns n h e. absurd cc;
  }
  reach-StopInv fresh (next r step) =
      step-StopInv (reach-TableInv ids fresh r) (reach-StopInv fresh r) step

  -- If the ids of different connections differ, then in every interleaving, when a call of Shutdown has
  -- no session left to close, each session that is in the table has been closed by this call or an
  -- earlier one, and no session that runs and was not added yet has been closed by any.
  pub shutdown_closes :
      {s : ServerTable}
      → Fresh ids
      → Reach ids s
      → s.stopping ≡ closing []
      → (n : ℕ)
      → (in_table (s.phases n) ≡ true → elem n s.asked ≡ true)
        × (s.phases n ≡ running → elem n s.asked ≡ false)
  shutdown_closes fresh r h n =
      let inv = reach-StopInv fresh r in
      ((λ i. inv.due [] n h i), λ e. ground (arith, inv.asked_added n))
