-- ===== src/ProtoV1/Client/Guarded.antt =====
-- proto/protov1/handler.go: what the client handler does before and in the initialization.
use rtvbp_go.Common.{
  String, ◌≡◌, refl, Bool, true, false, ◌∙◌, sym, ap, some, Bool-cases, inl, inr, if◌then◌else◌,
}
use rtvbp_go.Common.Int.{ℤ}
use rtvbp_go.Common.Assoc.{lookup, insert, delete}
use rtvbp_go.Common.Act.{Outcome, ok, err, panic, blocked, continue, forget}
use rtvbp_go.Proto.Errors.{Error, msg}
use rtvbp_go.Proto.Message.{Any, Request, Response}
use rtvbp_go.Proto.Parse.{as_type}
use rtvbp_go.Handler.Shc.{Call, Shc, RequestHandler}
use rtvbp_go.Handler.Typed.{middleware}
use rtvbp_go.Handler.Typed
use rtvbp_go.Handler.Registry.{new_handler, on_request}
use rtvbp_go.ProtoV1.Ping.{new_ping_handler, ping_type}
use rtvbp_go.ProtoV1.Requests.{SessionInitializeResponse}
use rtvbp_go.ProtoV1.Client.Wire.{read_initialized, updated_any}
use rtvbp_go.ProtoV1.Client.{
  ClientHandler, Fields, TelephonyAdapter, set_locked, unlocking, check, session_initialize,
  initialize_new, new_client_handler, hangup_type, move_type, terminate_type, recording_stop_type,
}
use rtvbp_go.ProtoV1.Client.Locked.{
  IsFields, while_locked, unlocked_of, unlocked_is, check_waits, check_refuses,
}

-- The methods that reach the telephony adapter or the audio.
pub data IsGuarded : String → Type 0 where
  hangup : IsGuarded "call.hangup"
  move : IsGuarded "application.move"
  clear : IsGuarded "audio.buffer.clear"
  set : IsGuarded "session.set"
  get : IsGuarded "session.get"
  start : IsGuarded "recording.start"
  stop : IsGuarded "recording.stop"

module _ {S : Type 0} (fields : Fields S) where
  module _ (tel : TelephonyAdapter S) (on_audio : Shc S → Call S (Unit {0})) (payload : Any)
      (now : ℤ) where
    pub guarded_found :
        (name : String)
        → IsGuarded name
        → (h : RequestHandler S) × (lookup name
              (new_client_handler fields tel on_audio payload now).request_handlers
            ≡ some (middleware (check fields) h))
    unfolding new_client_handler new_handler lookup insert delete new_ping_handler middleware
        hangup_type move_type terminate_type recording_stop_type ping_type Typed.handle_request
        Typed.handle_with_error
    guarded_found _ hangup = (_, refl)
    guarded_found _ move = (_, refl)
    guarded_found _ clear = (_, refl)
    guarded_found _ set = (_, refl)
    guarded_found _ get = (_, refl)
    guarded_found _ start = (_, refl)
    guarded_found _ stop = (_, refl)

    -- Before the session is initialized, a request that would reach the telephony adapter or the
    -- audio changes nothing: it waits while a call holds mu, as sessionInitialize does until its own
    -- request is answered, and fails with "session not initialized" if none does.
    pub refuses_before_initialize :
        (shc : Shc S) (req : Request) (s : S)
        → IsFields fields
        → IsGuarded req.method
        → (fields.get s).initialized ≡ false
        → on_request (new_client_handler fields tel on_audio payload now) shc req s ≡ (
            if (fields.get s).locked
            then (blocked, s)
            else (err (msg "session not initialized"), s))
    unfolding on_request middleware
    refuses_before_initialize shc req s laws g h =
        let (next, found) = guarded_found req.method g in
        elim (Bool-cases (fields.get s).locked) [
          | inl held ↦ rw (found, check_waits fields shc req s held, held) refl
          | inr free ↦ rw (found, check_refuses fields laws shc req s free h, free) refl
        ]

  -- Sending leaves the handler's fields as they are.
  pub record IsApart (shc : Shc S) : Type 0 where
    pub request_apart :
        (name : String) (a : Any) (s : S) → fields.get (shc.request name a s).1 ≡ fields.get s
    pub notify_apart :
        (name : String) (a : Any) (s : S) → fields.get (shc.notify name a s).1 ≡ fields.get s

  -- What sessionInitialize may do from fields `c`.
  abbrev pub Initializes : ClientHandler → Outcome Error SessionInitializeResponse × S → Type 0
  Initializes c (ok r, s) =
      (c.initialized ≡ false) × (fields.get s ≡ record c { initialized = true; attached = true })
  Initializes c (err e, s) = fields.get s ≡ c
  Initializes c (panic, s) = Unit
  Initializes c (blocked, s) = Unit

  abbrev ready : ClientHandler → ClientHandler
  ready c = record c { initialized = true; attached = true }

  forget-Initializes :
      (c : ClientHandler) (r : SessionInitializeResponse) (x : Outcome Error (Unit {0}) × S)
      → c.initialized ≡ false
      → fields.get x.1 ≡ record c { initialized = true; attached = true }
      → Initializes c (continue (forget x) (λ u s. (ok r, s)))
  forget-Initializes c r (ok u, s) h e = (h, e)
  forget-Initializes c r (err x, s) h e = (h, e)
  forget-Initializes c r (panic, s) h e = tt
  forget-Initializes c r (blocked, s) h e = tt

  read-Initializes :
      (shc : Shc S) (laws : IsFields fields) (apart : IsApart shc) (c : ClientHandler)
      (o : Outcome Error SessionInitializeResponse) (s : S)
      → c.initialized ≡ false
      → fields.get s ≡ c
      → Initializes c (
          continue
            (o, s)
            λ r2. λ s.
              continue
                (
                  ok tt,
                  fields.put (record (fields.get s) { initialized = true; attached = true }) s,
                )
                λ u. λ s.
                  continue
                    (forget (shc.notify "session.updated" (updated_any r2) s))
                    λ u s. (ok r2, s))
  read-Initializes shc laws apart c (ok r2) s h e =
      forget-Initializes c r2 _ h
        (apart.notify_apart "session.updated" (updated_any r2) _ ∙ laws.get_put _ s ∙ ap ready e)
  read-Initializes shc laws apart c (err x) s h e = e
  read-Initializes shc laws apart c panic s h e = tt
  read-Initializes shc laws apart c blocked s h e = tt

  asked-Initializes :
      (shc : Shc S) (laws : IsFields fields) (apart : IsApart shc) (c : ClientHandler)
      (r : Outcome Error Response × S)
      → c.initialized ≡ false
      → fields.get r.1 ≡ c
      → Initializes c (
          continue r λ r1. λ s.
            continue
              (as_type read_initialized r1.result, s)
              λ r2. λ s.
                continue
                  (ok tt, fields.put (ready (fields.get s)) s)
                  λ u. λ s.
                    continue
                      (forget (shc.notify "session.updated" (updated_any r2) s))
                      λ u s. (ok r2, s))
  asked-Initializes shc laws apart c (ok r1, s) h e =
      read-Initializes shc laws apart c (as_type read_initialized r1.result) s h e
  asked-Initializes shc laws apart c (err x, s) h e = e
  asked-Initializes shc laws apart c (panic, s) h e = tt
  asked-Initializes shc laws apart c (blocked, s) h e = tt

  initialize_or_refuse :
      (shc : Shc S) (payload : Any) (s : S) (laws : IsFields fields) (apart : IsApart shc)
      (c : ClientHandler) (b : Bool)
      → c.initialized ≡ b
      → fields.get s ≡ c
      → Initializes c (
          if b
          then (err (msg "session already initialized"), s)
          else initialize_new fields shc payload s)
  unfolding initialize_new
  initialize_or_refuse shc payload s laws apart c true h e = e
  initialize_or_refuse shc payload s laws apart c false h e =
      asked-Initializes shc laws apart c (shc.request "session.initialize" payload s) h
        (apart.request_apart "session.initialize" payload s ∙ e)

  unlocking-Initializes :
      (laws : IsFields fields) (c : ClientHandler) (x : Outcome Error SessionInitializeResponse × S)
      → c.locked ≡ false
      → Initializes (while_locked c) x
      → Initializes c (unlocking fields x)
  unlocking-Initializes laws c (ok r, s) free (h, e) =
      (h, laws.get_put _ s ∙ (ap unlocked_of e ∙ unlocked_is (ready c) free))
  unlocking-Initializes laws c (err x, s) free e =
      laws.get_put _ s ∙ (ap unlocked_of e ∙ unlocked_is c free)
  unlocking-Initializes laws c (panic, s) free e = tt
  unlocking-Initializes laws c (blocked, s) free e = tt

  holding-Initializes :
      (laws : IsFields fields) (c : ClientHandler) (s : S) (b : Bool)
      (x : Outcome Error SessionInitializeResponse × S)
      → c.locked ≡ b
      → Initializes (while_locked c) x
      → Initializes c (if b then (blocked, s) else unlocking fields x)
  holding-Initializes laws c s true x e h = tt
  holding-Initializes laws c s false x e h = unlocking-Initializes laws c x e h

  -- sessionInitialize succeeds only on a handler that was not initialized, and then has marked it as
  -- initialized and kept the session's context; if it fails, whatever the reason, the handler's
  -- fields are as they were, so that it may be tried again. Sending is assumed to leave the fields.
  pub session_initialize-Initializes :
      (shc : Shc S) (payload : Any) (s : S)
      → IsFields fields
      → IsApart shc
      → Initializes (fields.get s) (session_initialize fields shc payload s)
  unfolding session_initialize initialize_new
  session_initialize-Initializes shc payload s laws apart =
      let c = fields.get s in
      holding-Initializes laws c s c.locked _ refl (
        initialize_or_refuse shc payload (set_locked fields true s) laws apart (while_locked c)
          (fields.get (set_locked fields true s)).initialized
          (ap (λ d. d.initialized) (sym (laws.get_put _ s))) (laws.get_put _ s))

  -- While the request of sessionInitialize waits for its answer, sessionInitialize waits with mu held, so
  -- that a guarded request waits too.
  waits_holding_mu :
      (shc : Shc S) (payload : Any) (s s' : S)
      → IsFields fields
      → IsApart shc
      → (fields.get s).locked ≡ false
      → (fields.get s).initialized ≡ false
      → shc.request "session.initialize" payload (set_locked fields true s) ≡ (blocked, s')
      → (session_initialize fields shc payload s ≡ (blocked, s')) × ((fields.get s').locked ≡ true)
  unfolding session_initialize initialize_new
  waits_holding_mu shc payload s s' laws apart free new asked = (
    rw (free, laws.get_put, new, asked) refl,
    ap (λ x. (fields.get x.1).locked) (sym asked)
        ∙ (ap (λ c. c.locked)
              (apart.request_apart "session.initialize" payload (set_locked fields true s))
            ∙ ap (λ c. c.locked) (laws.get_put _ s)),
  )
