-- ===== src/Transport/Interface.antt =====
-- transport.go: the interface Transport, as a session uses it, and what it relies on.
use rtvbp_go.Common.{List, [], ◌∷◌, ◌++◌, ◌≡◌}
use rtvbp_go.Common.Int.{ℤ}
use rtvbp_go.Common.Act.{Outcome, ok, err, panic, blocked, Act}
use rtvbp_go.Proto.Json.{Bytes}
use rtvbp_go.Proto.Errors.{Error}

pub record DataPackage : Type 0 where
  pub data_bytes : Bytes
  pub received_at : ℤ

pub record Transport (T : Type 0) : Type 0 where
  pub write : Bytes → Act Error T (Unit {0})
  pub close : Act Error T (Unit {0})

-- What a call of Write has handed over.
abbrev pub accepted : Outcome Error (Unit {0}) → Bytes → List Bytes
accepted (ok u) b = b ∷ []
accepted (err e) b = []
accepted panic b = []
accepted blocked b = []

-- `sent t` is what was handed over so far, oldest first. Write appends its argument if it reports no
-- error, and nothing otherwise; Close hands nothing over.
pub record IsTransport {T : Type 0} (ops : Transport T) (sent : T → List Bytes) : Type 0 where
  pub write_sent :
      (b : Bytes) (t : T) → sent (ops.write b t).1 ≡ sent t ++ accepted (ops.write b t).0 b
  pub close_sent : (t : T) → sent (ops.close t).1 ≡ sent t
