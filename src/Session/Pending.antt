-- ===== src/Session/Pending.antt =====
-- session_request.go: the table of pending requests, and how a response finds its request.
use rtvbp_go.Common.{
  ℕ, String, ◌≡◌, ◌≢◌, refl, ◌∙◌, Bool, List, [], ◌∷◌, none, some, arith, Bool-cases, inl, inr,
  str_eq, eq_iff, if◌then◌else◌,
}
use rtvbp_go.Common.Assoc.{lookup, lookup-delete}
use rtvbp_go.Common.Act.{ok}
use rtvbp_go.Proto.Message.{Response, Request}
use rtvbp_go.Session.Core.{Session, new_pending_request, resolve_pending_request, wait_response}
use rtvbp_go.Session.Tracked.{
  IsTracked, new_pending_request-IsTracked, resolve_cases, resolve-ok,
  resolve_pending_request-IsTracked, wait_response-IsTracked,
}

-- The first response to the request `id`.
abbrev pub first_for : String → List Response → List Response
first_for id [] = []
first_for id (r ∷ rs) = if str_eq r.response id then r ∷ [] else first_for id rs

module _ {T : Type 0} where
  -- Every operation on the table keeps each pending request's channel made, empty and its own:
  -- registering a request, delivering a response, and the end of a wait, by a timeout or not. In
  -- such a state delivering a response never waits, so it never keeps the table's lock.
  pub pending_sound :
      (s : Session T)
      → IsTracked s
      → ((id : String) → IsTracked (new_pending_request id s).1)
        × ((r : Response)
            → IsTracked (resolve_pending_request r s).1 × ((resolve_pending_request r s).0 ≡ ok tt))
        × ((req : Request) (c : ℕ) (timed_out : Bool)
            → IsTracked (wait_response req c (timed_out, s)).1)
  pending_sound s v = (
    λ id. new_pending_request-IsTracked id s v,
    λ r. (resolve_pending_request-IsTracked r s v, resolve-ok r s v),
    λ req c t. wait_response-IsTracked req c t s v,
  )

  -- The responses that arrive while a call waits, one after the other.
  unfoldable pub resolve_all : List Response → Session T → Session T
  resolve_all [] s = s
  resolve_all (r ∷ rs) s = resolve_all rs (resolve_pending_request r s).1

  resolve-pending :
      (r : Response) (s : Session T) (j : String)
      → IsTracked s
      → lookup j (resolve_pending_request r s).1.pending
        ≡ (if str_eq r.response j then none else lookup j s.pending)
  resolve-pending r s j v = elim (resolve_cases r s v) [
    | inl (absent, e) ↦ rw e (ground (arith, eq_iff r.response j))
    | inr (c, found, e) ↦ rw e (lookup-delete r.response j s.pending)
  ]

  resolve-channels_other :
      (r : Response) (s : Session T) (c : ℕ)
      → IsTracked s
      → lookup r.response s.pending ≢ some c
      → (resolve_pending_request r s).1.channels c ≡ s.channels c
  resolve-channels_other r s c v h = elim (resolve_cases r s v) [
    | inl (absent, e) ↦ rw e
    | inr (d, found, e) ↦ rw e (ground arith)
  ]

  resolve-channels_own :
      (r : Response) (s : Session T) (c : ℕ)
      → IsTracked s
      → lookup r.response s.pending ≡ some c
      → (resolve_pending_request r s).1.channels c ≡ r ∷ []
  resolve-channels_own r s c v h = elim (resolve_cases r s v) [
    | inl (absent, e) ↦ absurd cc
    | inr (d, found, e) ↦ rw e (ground arith)
  ]

  -- A channel that no pending request has stays as it is.
  resolve_all-closed :
      (rs : List Response) (s : Session T) (c : ℕ)
      → IsTracked s
      → ((j : String) → lookup j s.pending ≢ some c)
      → (resolve_all rs s).channels c ≡ s.channels c
  unfolding resolve_all
  resolve_all-closed [] s c v h = refl
  resolve_all-closed (r ∷ rs) s c v h =
      resolve_all-closed rs (resolve_pending_request r s).1 c
        (resolve_pending_request-IsTracked r s v)
        (λ j k. ground (arith, resolve-pending r s j v, h j))
      ∙ resolve-channels_other r s c v (h r.response)

  -- While a request is pending under `id` with channel `c`, whatever responses arrive, the channel
  -- then holds the first of them that answers `id`, and nothing else.
  pub resolve_all-first :
      (rs : List Response) (s : Session T) (id : String) (c : ℕ)
      → IsTracked s
      → lookup id s.pending ≡ some c
      → (resolve_all rs s).channels c ≡ first_for id rs
  unfolding resolve_all
  resolve_all-first [] s id c v h = v.unanswered id c h
  resolve_all-first (r ∷ rs) s id c v h =
      let s' = (resolve_pending_request r s).1 in
      let v' = resolve_pending_request-IsTracked r s v in
      elim (Bool-cases (str_eq r.response id)) [
        | inl hit ↦
            let same = (eq_iff r.response id).0 hit in
            let found : lookup r.response s.pending ≡ some c = rw same h in
            rw hit (
              resolve_all-closed rs s' c v' (λ j k.
                ground (arith, resolve-pending r s j v, v.apart j id c, eq_iff r.response j))
              ∙ resolve-channels_own r s c v found)
        | inr miss ↦
            rw miss (resolve_all-first rs s' id c v' (ground (arith, resolve-pending r s id v)))
      ]
