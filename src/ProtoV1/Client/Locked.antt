-- ===== src/ProtoV1/Client/Locked.antt =====
-- proto/protov1/handler.go: the mutex of ClientHandler, and `check` under it.
use rtvbp_go.Common.{◌≡◌, refl, Bool, true, false, ◌∙◌, sym, ap}
use rtvbp_go.Common.Act.{ok, err, blocked}
use rtvbp_go.Proto.Errors.{msg}
use rtvbp_go.Proto.Message.{Request}
use rtvbp_go.Handler.Shc.{Shc}
use rtvbp_go.ProtoV1.Client.{ClientHandler, Fields, set_locked, check}

abbrev with_lock : Bool → ClientHandler → ClientHandler
with_lock b c = record c { locked = b }

abbrev pub while_locked : ClientHandler → ClientHandler
while_locked c = record c { locked = true }

abbrev pub unlocked_of : ClientHandler → ClientHandler
unlocked_of c = record c { locked = false }

pub unlocked_is : (c : ClientHandler) → c.locked ≡ false → unlocked_of c ≡ c
unlocked_is c free = ap (λ b. with_lock b c) (sym free)

module _ {S : Type 0} (fields : Fields S) where
  -- What is written to the fields is read back, and nothing else changes.
  pub record IsFields : Type 0 where
    pub get_put : (c : ClientHandler) (s : S) → fields.get (fields.put c s) ≡ c
    pub put_put : (c d : ClientHandler) (s : S) → fields.put c (fields.put d s) ≡ fields.put c s
    pub put_get : (s : S) → fields.put (fields.get s) s ≡ s

  pub lock_unlock :
      (laws : IsFields) (s : S)
      → (fields.get s).locked ≡ false
      → set_locked fields false (set_locked fields true s) ≡ s
  lock_unlock laws s free =
      let c = fields.get s in
      let d : ClientHandler = record c { locked = true } in
      ap (λ g. fields.put (unlocked_of g) (fields.put d s)) (laws.get_put d s)
      ∙ (laws.put_put (unlocked_of d) d s
          ∙ (ap (λ g. fields.put g s) (unlocked_is c free) ∙ laws.put_get s))

  pub check_waits :
      (shc : Shc S) (req : Request) (s : S)
      → (fields.get s).locked ≡ true
      → check fields shc req s ≡ (blocked, s)
  unfolding check
  check_waits shc req s held = rw held refl

  pub check_refuses :
      (laws : IsFields) (shc : Shc S) (req : Request) (s : S)
      → (fields.get s).locked ≡ false
      → (fields.get s).initialized ≡ false
      → check fields shc req s ≡ (err (msg "session not initialized"), s)
  unfolding check
  check_refuses laws shc req s free h =
      rw (free, laws.get_put, h)
        (ap (λ t. (err (msg "session not initialized"), t)) (lock_unlock laws s free))

  pub check_passes :
      (laws : IsFields) (shc : Shc S) (req : Request) (s : S)
      → (fields.get s).locked ≡ false
      → (fields.get s).initialized ≡ true
      → check fields shc req s ≡ (ok tt, s)
  unfolding check
  check_passes laws shc req s free h =
      rw (free, laws.get_put, h) (ap (λ t. (ok tt, t)) (lock_unlock laws s free))
