-- ===== src/Session/Tracked.antt =====
-- session_request.go: the invariant of the table of pending requests, and the operations that keep it.
use rtvbp_go.Common.{
  ℕ, ◌<◌, String, ◌≡◌, refl, ap, Bool, true, false, List, [], ◌∷◌, none, some, arith, Option-cases,
  ◌⊎◌, inl, inr, eq_iff,
}
use rtvbp_go.Common.Assoc.{lookup, delete, lookup-insert, lookup-delete}
use rtvbp_go.Common.Act.{ok}
use rtvbp_go.Proto.Message.{Response, Request}
use rtvbp_go.Session.Core.{
  Session, update, new_pending_request, resolve_pending_request, received, wait_response,
}

module _ {T : Type 0} where
  -- Every pending request has a channel of its own, which was made and is still empty.
  pub record IsTracked (s : Session T) : Type 0 where
    pub made : (id : String) (c : ℕ) → lookup id s.pending ≡ some c → c < s.next_channel
    pub unanswered : (id : String) (c : ℕ) → lookup id s.pending ≡ some c → s.channels c ≡ []
    pub apart :
        (id j : String) (c : ℕ)
        → lookup id s.pending ≡ some c
        → lookup j s.pending ≡ some c
        → id ≡ j

  pub new_pending_request-IsTracked :
      (id : String) (s : Session T) → IsTracked s → IsTracked (new_pending_request id s).1
  unfolding new_pending_request
  new_pending_request-IsTracked id s v = record {
    made = λ j c h. ground (arith, lookup-insert id j s.next_channel s.pending, v.made j c);
    unanswered = λ j c h.
        ground (arith, lookup-insert id j s.next_channel s.pending, v.unanswered j c, v.made j c);
    apart = λ i j c h k. ground (
      arith,
      lookup-insert id i s.next_channel s.pending,
      lookup-insert id j s.next_channel s.pending,
      eq_iff id i,
      eq_iff id j,
      v.made i c,
      v.made j c,
      v.apart i j c,
    );
  }

  pub resolve_cases :
      (r : Response) (s : Session T)
      → IsTracked s
      → ((lookup r.response s.pending ≡ none) × (resolve_pending_request r s ≡ (ok tt, s)))
        ⊎ ((c : ℕ) × (lookup r.response s.pending ≡ some c)
            × (resolve_pending_request r s ≡ (
              ok tt,
              record s {
                pending = delete r.response s.pending;
                channels = update s.channels c (r ∷ []);
              },
            )))
  unfolding resolve_pending_request
  resolve_cases r s v = elim (Option-cases (lookup r.response s.pending)) [
    | inl e ↦ inl (e, ground arith)
    | inr (c, e) ↦ inr (c, e, ground (arith, v.unanswered r.response c e))
  ]

  pub resolve-ok :
      (r : Response) (s : Session T) → IsTracked s → (resolve_pending_request r s).0 ≡ ok tt
  resolve-ok r s v = elim (resolve_cases r s v) [
    | inl (absent, e) ↦ ap (λ p. p.0) e
    | inr (c, found, e) ↦ ap (λ p. p.0) e
  ]

  pub resolve_pending_request-IsTracked :
      (r : Response) (s : Session T) → IsTracked s → IsTracked (resolve_pending_request r s).1
  resolve_pending_request-IsTracked r s v = elim (resolve_cases r s v) [
    | inl (absent, e) ↦ rw e v
    | inr (c, found, e) ↦ rw e (record {
      made = λ j d h. ground (arith, lookup-delete r.response j s.pending, v.made j d);
      unanswered = λ j d h. ground (
        arith,
        lookup-delete r.response j s.pending,
        v.unanswered j d,
        v.apart r.response j c found,
        eq_iff r.response j,
      );
      apart = λ i j d h k. ground (
        arith,
        lookup-delete r.response i s.pending,
        lookup-delete r.response j s.pending,
        v.apart i j d,
      );
    })
  ]

  pub timeout-IsTracked :
      (id : String) (s : Session T)
      → IsTracked s
      → IsTracked (record s { pending = delete id s.pending })
  timeout-IsTracked id s v = record {
    made = λ j d h. ground (arith, lookup-delete id j s.pending, v.made j d);
    unanswered = λ j d h. ground (arith, lookup-delete id j s.pending, v.unanswered j d);
    apart = λ i j d h k.
        ground (arith, lookup-delete id i s.pending, lookup-delete id j s.pending, v.apart i j d);
  }

  pub drained-IsTracked :
      (c : ℕ) (resp : Response) (rest : List Response) (s : Session T)
      → s.channels c ≡ resp ∷ rest
      → IsTracked s
      → IsTracked (record s { channels = update s.channels c rest })
  drained-IsTracked c resp rest s full v = record {
    made = v.made;
    unanswered = λ j d h. ground (arith, v.unanswered j d);
    apart = v.apart;
  }

  pub received-IsTracked :
      (c : ℕ) (xs : List Response) (s : Session T)
      → s.channels c ≡ xs
      → IsTracked s
      → IsTracked (received xs c s).1
  received-IsTracked c [] s e v = v
  received-IsTracked c (resp ∷ rest) s e v = elim (Option-cases resp.error) [
    | inl q ↦ rw q (drained-IsTracked c resp rest s e v)
    | inr (x, q) ↦ rw q (drained-IsTracked c resp rest s e v)
  ]

  pub wait_response-IsTracked :
      (req : Request) (c : ℕ) (timed_out : Bool) (s : Session T)
      → IsTracked s
      → IsTracked (wait_response req c (timed_out, s)).1
  unfolding wait_response
  wait_response-IsTracked req c true s v = timeout-IsTracked req.id s v
  wait_response-IsTracked req c false s v = received-IsTracked c (s.channels c) s refl v
