-- ===== src/Session/Requests.antt =====
-- session_request.go, Request: what a call gives back.
use rtvbp_go.Common.{
  ℕ, suc, String, ◌≡◌, ◌≢◌, eq_iff, refl, ap, ◌∙◌, true, false, List, [], ◌∷◌, none, some, arith,
  inl, inr,
}
use text.Mathlib.TextPositions.{eq_refl}
use rtvbp_go.Common.Assoc.{lookup, lookup-insert, lookup-delete}
use rtvbp_go.Common.Act.{Outcome, ok, err, blocked}
use rtvbp_go.Proto.Errors.{Error, sentinel, request_timeout, request_failed, join, wrap, response}
use rtvbp_go.Proto.Message.{Any, Message, Response, Request, new_request}
use rtvbp_go.Session.Core.{
  Session, Env, draw, new_pending_request, resolve_pending_request, wait_response, received,
  request_label,
}
use rtvbp_go.Session.Tracked.{IsTracked}
use rtvbp_go.Session.Pending.{pending_sound, resolve_all, resolve_all-first, first_for}
use rtvbp_go.Session.Calls.{send_message, request_call}
use rtvbp_go.Session.Sending.{send_message_cases}
use rtvbp_go.Transport.Interface.{Transport}

-- What Request returns for the first response: the response, or the error that it carries.
abbrev pub answer : List Response → Outcome Error Response
answer [] = blocked
answer (r ∷ rs) = elim r.error [ none ↦ ok r | some e ↦ err (response e) ]

received-answer :
    {T : Type 0} (xs : List Response) (c : ℕ) (s : Session T) → (received xs c s).0 ≡ answer xs
received-answer [] c s = refl
received-answer (r ∷ rs) c s = ground arith

module _ {T : Type 0} (ops : Transport T) where
  send_message-transport :
      (m : Message) (s : Session T)
      → (send_message ops m s).1 ≡ record s { transport = (send_message ops m s).1.transport }
  send_message-transport m s = elim (send_message_cases ops m s) [
    | inl (x, e) ↦ rw e
    | inr (raw, v, made, e) ↦ rw e
  ]

  pub transport-IsTracked :
      (s : Session T) (t : T) → IsTracked s → IsTracked (record s { transport = t })
  transport-IsTracked s t v = record { made = v.made; unanswered = v.unanswered; apart = v.apart }

  wait-answer :
      (req : Request) (c : ℕ) (s : Session T)
      → (wait_response req c (false, s)).0 ≡ answer (s.channels c)
  unfolding wait_response
  wait-answer req c s = received-answer (s.channels c) c s

  timed_out :
      (req : Request) (c : ℕ) (s : Session T) (late : Response) (other : String)
      → late.response ≡ req.id
      → other ≢ req.id
      → ((wait_response req c (true, s)).0
          ≡ err (wrap (request_label req) (sentinel request_timeout)))
        × (resolve_pending_request late (wait_response req c (true, s)).1
            ≡ (ok tt, (wait_response req c (true, s)).1))
        × (lookup other (wait_response req c (true, s)).1.pending ≡ lookup other s.pending)
  unfolding wait_response resolve_pending_request
  timed_out req c s late other same apart = (
    refl,
    ground (
      arith,
      lookup-delete req.id late.response s.pending,
      eq_iff late.response req.id,
      eq_iff req.id late.response,
    ),
    ground (arith, lookup-delete req.id other s.pending, eq_iff other req.id, eq_iff req.id other),
  )

module _ {T : Type 0} (ops : Transport T) (env : Env T) where
  -- The session in which Request has registered its request, and what sending it did.
  abbrev pub registered : Session T → Session T
  registered s = (new_pending_request (env.fresh s.drawn) (record s { drawn = suc s.drawn })).1

  abbrev pub request_of : String → Any → Session T → Request
  request_of method payload s = new_request (env.fresh s.drawn) method payload

  abbrev pub sending : String → Any → Session T → Outcome Error (Unit {0}) × Session T
  sending method payload s =
      send_message ops (Message.request (request_of method payload s)) (registered s)

  pub request_call_sent :
      (method : String) (payload : Any) (s : Session T)
      → (sending method payload s).0 ≡ ok tt
      → request_call ops env method payload s
        ≡ wait_response
            (request_of method payload s)
            s.next_channel
            (env.others s.next_channel (sending method payload s).1)
  unfolding request_call draw new_pending_request
  request_call_sent method payload s h = ground arith

  request_call_failed :
      (method : String) (payload : Any) (s : Session T) (e : Error)
      → (sending method payload s).0 ≡ err e
      → request_call ops env method payload s
        ≡ (err (join (sentinel request_failed) e), (sending method payload s).1)
  unfolding request_call draw new_pending_request
  request_call_failed method payload s e h = ground arith

  registered-IsTracked : (s : Session T) → IsTracked s → IsTracked (registered s)
  registered-IsTracked s v =
      (pending_sound (record s { drawn = suc s.drawn })
          (record { made = v.made; unanswered = v.unanswered; apart = v.apart })).0
        (env.fresh s.drawn)

  registered-pending :
      (s : Session T) → lookup (env.fresh s.drawn) (registered s).pending ≡ some s.next_channel
  unfolding new_pending_request
  registered-pending s = ground (
    arith,
    lookup-insert (env.fresh s.drawn) (env.fresh s.drawn) s.next_channel s.pending,
    eq_refl (env.fresh s.drawn),
  )

  -- A request that was sent gets the first of the responses with its id that arrive while it waits,
  -- whatever else the transport does meanwhile: the call returns that response, or the error in it,
  -- and waits on if there is none. Responses to other requests, and later ones to the same, make no
  -- difference.
  pub request_call-answer :
      (method : String) (payload : Any) (s : Session T) (rs : List Response) (t : T)
      → IsTracked s
      → (sending method payload s).0 ≡ ok tt
      → env.others s.next_channel (sending method payload s).1
        ≡ (false, resolve_all rs (record ((sending method payload s).1) { transport = t }))
      → (request_call ops env method payload s).0 ≡ answer (first_for (env.fresh s.drawn) rs)
  request_call-answer method payload s rs t v h o =
      let sent = (sending method payload s).1 in
      let then : Session T = record sent { transport = t } in
      let same =
        send_message-transport ops (Message.request (request_of method payload s)) (registered s) in
      let v' : IsTracked sent =
        rw same
          (transport-IsTracked ops (registered s) sent.transport (registered-IsTracked s v)) in
      let p : lookup (env.fresh s.drawn) sent.pending ≡ some s.next_channel =
        rw same (registered-pending s) in
      rw (request_call_sent method payload s h, o)
        (wait-answer ops (request_of method payload s) s.next_channel (resolve_all rs then)
          ∙ ap answer (
              resolve_all-first rs then (env.fresh s.drawn) s.next_channel
                (transport-IsTracked ops sent t v') p))

  -- A request whose wait ends by the context fails with ErrRequestTimeout. A response to it that comes
  -- later is dropped: resolvePendingRequest returns and changes nothing. The other requests are as
  -- pending as they were when the wait ended.
  pub request_call-timeout :
      (method other : String) (payload : Any) (s : Session T) (s' : Session T) (late : Response)
      → (sending method payload s).0 ≡ ok tt
      → env.others s.next_channel (sending method payload s).1 ≡ (true, s')
      → late.response ≡ env.fresh s.drawn
      → other ≢ env.fresh s.drawn
      → ((request_call ops env method payload s).0
          ≡ err (wrap (request_label (request_of method payload s)) (sentinel request_timeout)))
        × (resolve_pending_request late (request_call ops env method payload s).1
            ≡ (ok tt, (request_call ops env method payload s).1))
        × (lookup other (request_call ops env method payload s).1.pending ≡ lookup other s'.pending)
  unfolding new_request
  request_call-timeout method other payload s s' late h o same apart =
      rw (request_call_sent method payload s h, o)
        (timed_out ops (request_of method payload s) s.next_channel s' late other same apart)

  -- A request that could not be sent fails with ErrRequestFailed and the reason, and the entry that
  -- Request made stays in the table, although nobody waits for it any more.
  pub request_call-unsent :
      (method : String) (payload : Any) (s : Session T) (e : Error)
      → (sending method payload s).0 ≡ err e
      → ((request_call ops env method payload s).0 ≡ err (join (sentinel request_failed) e))
        × (lookup (env.fresh s.drawn) (request_call ops env method payload s).1.pending
            ≡ some s.next_channel)
  request_call-unsent method payload s e h = rw (request_call_failed method payload s e h) (
    refl,
    rw (send_message-transport ops (Message.request (request_of method payload s)) (registered s))
        (registered-pending s),
  )
