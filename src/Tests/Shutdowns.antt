-- ===== src/Tests/Shutdowns.antt =====
-- A server that is shut down while one session is in its table, and one runs that was not added yet.
use Prim.Native.String.{◌++◌ as cat, count}
use text.Mathlib.TextLemmas.{length-append}
use rtvbp_go.Common.{
  ℕ, zero, suc, ◌≡◌, refl, sym, ap, ◌∙◌, if◌then◌else◌, true, false, String, [], ◌∷◌, none, some,
  arith,
}
use rtvbp_go.Common.Assoc.{lookup, insert, delete}
use rtvbp_go.Transport.Ws.Table.{
  ServerTable, closing, running, new_table, set_phase, add_session, Reach, runs, adds, stops, asks,
  here, next,
}
use rtvbp_go.Transport.Ws.Table.Entries.{Fresh, elem}
use rtvbp_go.Transport.Ws.Table.Sessions.{in_table, table_lookup}
use rtvbp_go.Transport.Ws.Table.Shutdown.{shutdown_closes}

-- Different connections have ids of different lengths.
abbrev ids : ℕ → String
ids zero = ""
ids (suc n) = cat "x" (ids n)

count-ids : (n : ℕ) → count (ids n) ≡ n
count-ids zero = refl
count-ids (suc n) = omega (arith, length-append "x" (ids n), count-ids n)

ids-Fresh : Fresh ids
ids-Fresh m n h = sym (count-ids m) ∙ (ap count h ∙ count-ids n)

-- Connection 0 runs; connection 1 was added, and Shutdown has closed it.
abbrev one_added : ServerTable
one_added =
    add_session ids 1
      (record new_table { phases = set_phase 1 running (set_phase 0 running new_table.phases) })

abbrev at_end : ServerTable
at_end = record one_added { stopping = closing []; asked = 1 ∷ [] }

reach_end : Reach ids at_end
unfolding new_table add_session insert delete
reach_end =
    next
      (next (next (next (next here (runs 0 refl)) (runs 1 refl)) (adds 1 refl refl)) (stops refl))
      (asks 1 [] [] refl)

listed_1 : in_table (at_end.phases 1) ≡ true
unfolding new_table add_session
listed_1 = refl

running_0 : at_end.phases 0 ≡ running
unfolding new_table add_session
running_0 = refl

shutdown_closes_example : (elem 1 at_end.asked ≡ true) × (elem 0 at_end.asked ≡ false)
shutdown_closes_example = (
  (shutdown_closes ids ids-Fresh reach_end refl 1).0 listed_1,
  (shutdown_closes ids ids-Fresh reach_end refl 0).1 running_0,
)

table_lookup_example : lookup (ids 1) at_end.sessions ≡ some 1
table_lookup_example =
    table_lookup ids ids-Fresh reach_end 1 ∙ ap (λ b. if b then some 1 else none) listed_1
