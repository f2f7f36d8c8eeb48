-- ===== src/ProtoV1/Telephony/Laws.antt =====
-- proto/protov1/telephony.go: session variables, callbacks and events of the fake adapter.
use rtvbp_go.Common.{
  ℕ, String, ◌≡◌, refl, ap, ◌∙◌, Bool, true, false, List, [], ◌∷◌, Option, none, some, arith,
  str_eq, eq_iff, if◌then◌else◌, Option-cases, inl, inr,
}
use rtvbp_go.Common.Assoc.{Assoc, lookup, insert, lookup-insert, lookup-nil}
use rtvbp_go.Common.Act.{ok, err}
use rtvbp_go.Proto.Json.{Json}
use rtvbp_go.Proto.Errors.{msg}
use rtvbp_go.ProtoV1.Telephony.{
  FakeTelephonyAdapter, collect, store, session_variables_get, session_variables_set, on_dtmf,
  on_hangup,
}

-- The key stands in the list.
abbrev pub has : String → List String → Bool
has k [] = false
has k (j ∷ keys) = if str_eq j k then true else has k keys

-- The last value of a key in a list of entries, or else the given one.
abbrev pub last_value : String → Assoc Json → Option Json → Option Json
last_value k [] old = old
last_value k ((j, v) ∷ m) old = last_value k m (if str_eq j k then some v else old)

lookup-store :
    (k : String) (m vars : Assoc Json) → lookup k (store vars m) ≡ last_value k m (lookup k vars)
unfolding store
lookup-store k [] vars = refl
lookup-store k ((j, v) ∷ m) vars =
    lookup-store k m (insert j v vars) ∙ ap (last_value k m) (lookup-insert j k v vars)

abbrev or_else : Option Json → Option Json → Option Json
or_else none b = b
or_else (some a) b = some a

lookup-collect :
    (vars : Assoc Json) (keys : List String) (out : Assoc Json) (k : String)
    → lookup k (collect vars keys out)
      ≡ (if has k keys then or_else (lookup k vars) (lookup k out) else lookup k out)
unfolding collect
lookup-collect vars [] out k = refl
lookup-collect vars (j ∷ keys) out k = elim (Option-cases (lookup j vars)) [
  | inl missing ↦ rw missing (ground (arith, lookup-collect vars keys out k, eq_iff j k))
  | inr (v, found) ↦ rw found (
      ground
        (arith, lookup-collect vars keys (insert j v out) k, lookup-insert j k v out, eq_iff j k))
]

-- The value of a key, if it was asked for.
abbrev if_asked : String → List String → Option Json → Option Json
if_asked k keys o = if has k keys then o else none

lookup-collect_all :
    (vars : Assoc Json) (keys : List String) (k : String)
    → lookup k (collect vars keys []) ≡ if_asked k keys (lookup k vars)
lookup-collect_all vars keys k =
    ground (arith, lookup-collect vars keys [] k, lookup-nil {V = Json} k)

-- After SessionVariablesSet, SessionVariablesGet returns for each key that is asked for the value
-- that was set last, or else the one from before, and no entry for any other key or for a key that
-- has no value. Nothing else of the adapter changes.
pub get-set :
    (f : FakeTelephonyAdapter) (m : Assoc Json) (keys : List String)
    → let f' = (session_variables_set m f).1 in
      (out : Assoc Json) × (session_variables_get (record { keys = keys }) f' ≡ (ok out, f'))
      × ((k : String)
          → lookup k out ≡ (if has k keys then last_value k m (lookup k f.vars) else none))
      × (f' ≡ record f { vars = f'.vars })
unfolding session_variables_set session_variables_get
get-set f m keys = (
  collect (store f.vars m) keys [],
  refl,
  λ k. lookup-collect_all (store f.vars m) keys k ∙ ap (if_asked k keys) (lookup-store k m f.vars),
  refl,
)

-- A callback is registered once: the second call of OnDTMF or of OnHangup fails and changes nothing.
pub handlers_once :
    (f : FakeTelephonyAdapter) (a b : ℕ)
    → let f1 = (on_dtmf a f).1 in
      let f2 = (on_hangup a f).1 in
      (on_dtmf b f1 ≡ (err (msg "dtmf event handler already set"), f1))
      × (on_hangup b f2 ≡ (err (msg "hangup event handler already set"), f2))
unfolding on_dtmf on_hangup
handlers_once f a b = (ground arith, ground arith)
