-- ===== src/Common/Act.antt =====
-- What a Go call does: it returns a value, returns an error, panics, or waits for another goroutine;
-- and it leaves a state behind in each case.

pub data Outcome {ℓ κ} (E : Type ℓ) (A : Type κ) : Type (ℓ ⊔ κ) where
  ok : A → Outcome E A
  err : E → Outcome E A
  panic blocked : Outcome E A

-- A value and an error, for a call that neither changes a state nor waits nor panics.
pub data Result {ℓ κ} (E : Type ℓ) (A : Type κ) : Type (ℓ ⊔ κ) where
  good : A → Result E A
  bad : E → Result E A

-- A call that works on a state `S` and may fail with an `E`.
abbrev pub Act {ℓ} : Type ℓ → Type ℓ → Type ℓ → Type ℓ
Act E S A = S → Outcome E A × S

module _ {ℓ} {E S A B : Type ℓ} where
  abbrev pub continue : Outcome E A × S → (A → Act E S B) → Outcome E B × S
  continue (ok a, s) f = f a s
  continue (err e, s) f = (err e, s)
  continue (panic, s) f = (panic, s)
  continue (blocked, s) f = (blocked, s)

  infixl 5 ◌>>=◌
  abbrev pub ◌>>=◌ : Act E S A → (A → Act E S B) → Act E S B
  ◌>>=◌ m f s = continue (m s) f

module _ {ℓ} {E S B : Type ℓ} where
  infixl 5 ◌>>◌
  abbrev pub ◌>>◌ : Act E S (Unit {ℓ}) → Act E S B → Act E S B
  m >> k = m >>= λ _. k

module _ {ℓ} {E S A : Type ℓ} where
  abbrev pub pure : A → Act E S A
  pure a s = (ok a, s)

  abbrev pub fail : E → Act E S A
  fail e s = (err e, s)

  abbrev pub crash : Act E S A
  crash s = (panic, s)

  -- `_ = f()`: an error is dropped, a panic is not.
  abbrev pub forget : Outcome E A × S → Outcome E (Unit {ℓ}) × S
  forget (ok a, s) = (ok tt, s)
  forget (err e, s) = (ok tt, s)
  forget (panic, s) = (panic, s)
  forget (blocked, s) = (blocked, s)

  abbrev pub ignore : Act E S A → Act E S (Unit {ℓ})
  ignore m s = forget (m s)

  -- `if err := f(); err != nil { h(err) }`
  abbrev pub recover : Outcome E A × S → (E → Act E S A) → Outcome E A × S
  recover (ok a, s) h = (ok a, s)
  recover (err e, s) h = h e s
  recover (panic, s) h = (panic, s)
  recover (blocked, s) h = (blocked, s)

  abbrev pub catch : Act E S A → (E → Act E S A) → Act E S A
  catch m h s = recover (m s) h
