-- ===== src/Transport/Ws/Table/Sessions.antt =====
-- transport/ws/server.go: the table holds the sessions that were added and not removed.
use rtvbp_go.Common.{
  ℕ, ◌≡◌, refl, ◌∙◌, Bool, true, false, String, none, some, arith, if◌then◌else◌, eq_iff,
}
use rtvbp_go.Common.Assoc.{Assoc, lookup, insert, lookup-insert, lookup-delete, lookup-nil}
use rtvbp_go.Transport.Ws.Table.{
  Phase, requested, running, listed, ended, left, ServerTable, set_phase, values, new_table,
  add_session, remove_session, Step, Reach, runs, refuses, adds, ends, removes, stops, asks,
  returns, here, next,
}
use rtvbp_go.Transport.Ws.Table.Entries.{elem, Fresh, Keyed, delete-Keyed, elem-delete}

-- addSession has returned, and removeSession not yet.
abbrev pub in_table : Phase → Bool
in_table listed = true
in_table ended = true
in_table _ = false

abbrev pub was_added : Phase → Bool
was_added requested = false
was_added running = false
was_added _ = true

module _ (ids : ℕ → String) where
  -- The table has just the sessions that were added and not removed.
  pub record TableInv (sessions : Assoc ℕ) (phases : ℕ → Phase) : Type 0 where
    pub found : (n : ℕ) → lookup (ids n) sessions ≡ (if in_table (phases n) then some n else none)
    pub keyed : Keyed ids sessions
    pub entered : (n : ℕ) → elem n (values sessions) ≡ true → in_table (phases n) ≡ true

  rephase :
      (xs : Assoc ℕ) (f g : ℕ → Phase)
      → ((n : ℕ) → in_table (g n) ≡ in_table (f n))
      → TableInv xs f
      → TableInv xs g
  rephase xs f g same inv = record {
    found = λ n. rw (same n) (inv.found n);
    keyed = inv.keyed;
    entered = λ n e. same n ∙ inv.entered n e;
  }

  pub set_phase_same :
      (n : ℕ) (p q : Phase) (f : ℕ → Phase)
      → f n ≡ q
      → in_table p ≡ in_table q
      → (m : ℕ) → in_table (set_phase n p f m) ≡ in_table (f m)
  set_phase_same n p q f h same m = ground arith

  add_session-TableInv :
      Fresh ids
      → (n : ℕ) (s : ServerTable) → TableInv s.sessions s.phases
      → TableInv (add_session ids n s).sessions (add_session ids n s).phases
  unfolding add_session insert
  add_session-TableInv fresh n s inv = record {
    found = λ m. ground (
      arith,
      lookup-insert (ids n) (ids m) n s.sessions,
      eq_iff (ids n) (ids m),
      fresh n m,
      inv.found m,
    );
    keyed = (refl, delete-Keyed ids (ids n) s.sessions inv.keyed);
    entered = λ m e. ground (arith, elem-delete ids m n s.sessions inv.keyed, inv.entered m);
  }

  remove_session-TableInv :
      Fresh ids
      → (n : ℕ) (s : ServerTable) → TableInv s.sessions s.phases
      → TableInv (remove_session ids n s).sessions (remove_session ids n s).phases
  unfolding remove_session
  remove_session-TableInv fresh n s inv = record {
    found = λ m. ground (
      arith,
      lookup-delete (ids n) (ids m) s.sessions,
      eq_iff (ids n) (ids m),
      fresh n m,
      inv.found m,
    );
    keyed = delete-Keyed ids (ids n) s.sessions inv.keyed;
    entered = λ m e. ground (arith, elem-delete ids m n s.sessions inv.keyed e, inv.entered m);
  }

  step-TableInv :
      {s t : ServerTable}
      → Fresh ids
      → TableInv s.sessions s.phases
      → Step ids s t
      → TableInv t.sessions t.phases
  step-TableInv {s = s} fresh inv (runs n h) =
      rephase s.sessions s.phases _ (set_phase_same n running requested s.phases h refl) inv
  step-TableInv {s = s} fresh inv (refuses n h) =
      rephase s.sessions s.phases _ (set_phase_same n left requested s.phases h refl) inv
  step-TableInv {s = s} fresh inv (adds n h f) = add_session-TableInv fresh n s inv
  step-TableInv {s = s} fresh inv (ends n h) =
      rephase s.sessions s.phases _ (set_phase_same n ended listed s.phases h refl) inv
  step-TableInv {s = s} fresh inv (removes n h f) = remove_session-TableInv fresh n s inv
  step-TableInv fresh inv (stops f) = inv
  step-TableInv fresh inv (asks n xs ys h) = inv
  step-TableInv fresh inv (returns h) = inv

  pub reach-TableInv : {s : ServerTable} → Fresh ids → Reach ids s → TableInv s.sessions s.phases
  unfolding new_table
  reach-TableInv fresh here = record {
    found = λ n. lookup-nil (ids n);
    keyed = tt;
    entered = λ n e. absurd cc;
  }
  reach-TableInv fresh (next r step) = step-TableInv fresh (reach-TableInv fresh r) step

  -- If the ids of different connections differ, then in every interleaving of requests and calls of
  -- Shutdown the id of a connection stands in the table of sessions, for that connection, just where
  -- addSession was called for it and removeSession was not.
  pub table_lookup :
      {s : ServerTable}
      → Fresh ids
      → Reach ids s
      → (n : ℕ) → lookup (ids n) s.sessions ≡ (if in_table (s.phases n) then some n else none)
  table_lookup fresh r n = (reach-TableInv fresh r).found n
