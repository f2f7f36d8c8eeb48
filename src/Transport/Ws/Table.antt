-- ===== src/Transport/Ws/Table.antt =====
-- transport/ws/server.go: the table of sessions, with the requests that the server serves and Shutdown
-- as interleaved steps. Connections are numbered in the order of their upgrade requests; `ids` gives the
-- id of the session that a connection gets from idgen.ID. A call under the mutex `mu` is one step, but
-- for Shutdown, which holds it from its first step to its last.
pub mod Entries
pub mod Sessions
pub mod Shutdown
use rtvbp_go.Common.{
  ℕ, ◌==◌, ◌≡◌, String, Bool, true, false, List, [], ◌∷◌, ◌++◌, Option, none, some, if◌then◌else◌,
}
use rtvbp_go.Common.Assoc.{Assoc, insert, delete}

-- A request before its upgrade; its session runs, is in the table, has ended; the handler has returned.
pub data Phase : Type 0 where
  requested running listed ended left : Phase

-- Shutdown has not been called; closes sessions, with these left to close; or has returned, and may be
-- called again.
pub data Stopping : Type 0 where
  calm stopped : Stopping
  closing : List ℕ → Stopping

-- `asked` are the connections whose sessions Shutdown has closed.
pub record ServerTable : Type 0 where
  pub sessions : Assoc ℕ
  pub phases : ℕ → Phase
  pub stopping : Stopping
  pub asked : List ℕ

abbrev pub set_phase : ℕ → Phase → (ℕ → Phase) → ℕ → Phase
set_phase n p f m = if m == n then p else f m

abbrev pub values : Assoc ℕ → List ℕ
values [] = []
values ((k, n) ∷ m) = n ∷ values m

-- No one holds the mutex.
abbrev pub is_free : Stopping → Bool
is_free (closing ns) = false
is_free _ = true

unfoldable pub new_table : ServerTable
new_table = record { sessions = []; phases = λ n. requested; stopping = calm; asked = [] }

module _ (ids : ℕ → String) where
  -- Server.addSession and Server.removeSession
  unfoldable pub add_session : ℕ → ServerTable → ServerTable
  unfolding insert
  add_session n s = record s {
    sessions = insert (ids n) n s.sessions;
    phases = set_phase n listed s.phases;
  }

  unfoldable pub remove_session : ℕ → ServerTable → ServerTable
  unfolding delete
  remove_session n s = record s {
    sessions = delete (ids n) s.sessions;
    phases = set_phase n left s.phases;
  }

  pub data Step (s : ServerTable) : ServerTable → Type 0 where
    -- The upgrade and sess.Run; or the request is refused.
    runs :
        (n : ℕ)
        → s.phases n ≡ requested
        → Step s (record s { phases = set_phase n running s.phases })
    refuses :
        (n : ℕ) → s.phases n ≡ requested → Step s (record s { phases = set_phase n left s.phases })
    adds : (n : ℕ) → s.phases n ≡ running → is_free s.stopping ≡ true → Step s (add_session n s)
    -- The select: the context or the session has ended.
    ends : (n : ℕ) → s.phases n ≡ listed → Step s (record s { phases = set_phase n ended s.phases })
    removes : (n : ℕ) → s.phases n ≡ ended → is_free s.stopping ≡ true → Step s (remove_session n s)
    -- Shutdown: the loop goes through the map in any order.
    stops : is_free s.stopping ≡ true → Step s (record s { stopping = closing (values s.sessions) })
    asks :
        (n : ℕ) (before after : List ℕ)
        → s.stopping ≡ closing (before ++ n ∷ after)
        → Step s (record s { stopping = closing (before ++ after); asked = s.asked ++ n ∷ [] })
    returns : s.stopping ≡ closing [] → Step s (record s { stopping = stopped })

  pub data Reach : ServerTable → Type 0 where
    here : Reach new_table
    next : {s t : ServerTable} → Reach s → Step s t → Reach t
