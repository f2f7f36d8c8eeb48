-- ===== src/Audio/Copy.antt =====
-- audio/stream.go: CopyWithBuf. What the reader gives, call by call, is a list; a byte is a number.
-- The buffer bounds what one call gives. The wait before a new attempt is left out.
use mathlib.Core.List.{append-nil, append_assoc}
use rtvbp_go.Common.{
  ℕ, ◌≡◌, refl, sym, ap, ◌∙◌, Bool, true, false, List, [], ◌∷◌, ◌++◌, Option, none, some, length,
  str_eq, if◌then◌else◌, Option-cases, inl, inr,
}
use rtvbp_go.Common.Act.{Outcome, ok, err, panic, blocked, Act}
use rtvbp_go.Proto.Errors.{Error, sentinel, eof, error_text}

-- n, err := a.Read(buf): the bytes buf[:n], and the error.
pub record ReadResult : Type 0 where
  pub got : List ℕ
  pub failure : Option Error

-- err == io.EOF
abbrev pub is_eof : Error → Bool
is_eof (sentinel eof) = true
is_eof _ = false

unfoldable pub is_reset : Error → Bool
unfolding error_text
is_reset e = str_eq (error_text e) "reset called"

module _ {W : Type 0} (write : List ℕ → Act Error W ℕ) where
  abbrev after_write : Outcome Error ℕ × W → Act Error W (Unit {0}) → Outcome Error (Unit {0}) × W
  after_write (ok n, w) k = k w
  after_write (err e, w) k = (err e, w)
  after_write (panic, w) k = (panic, w)
  after_write (blocked, w) k = (blocked, w)

  -- One round of the loop, with what the later rounds do.
  abbrev round : ReadResult → Act Error W (Unit {0}) → Act Error W (Unit {0})
  round r rest w = elim r.failure [
    | none ↦ after_write (write r.got w) rest
    | some e ↦ if is_eof e then (ok tt, w) else if is_reset e then rest w else (err e, w)
  ]

  -- CopyWithBuf; after the last of the results the reader waits.
  unfoldable pub copy_with_buf : List ReadResult → Act Error W (Unit {0})
  copy_with_buf [] w = (blocked, w)
  copy_with_buf (r ∷ rs) w = round r (copy_with_buf rs) w

-- The result ends the copying.
abbrev pub ends : ReadResult → Bool
ends r = elim r.failure [ none ↦ false | some e ↦ if is_reset e then is_eof e else true ]

-- The bytes of the results before the first that ends it; a result with an error has none that count.
abbrev pub bytes_of : ReadResult → List ℕ
bytes_of r = elim r.failure [ none ↦ r.got | some e ↦ [] ]

abbrev pub copied : List ReadResult → List ℕ
copied [] = []
copied (r ∷ rs) = if ends r then [] else bytes_of r ++ copied rs

-- How it ends: io.EOF is no error.
abbrev pub ending : Option Error → Outcome Error (Unit {0})
ending none = blocked
ending (some e) = if is_eof e then ok tt else err e

abbrev pub copy_end : List ReadResult → Outcome Error (Unit {0})
copy_end [] = blocked
copy_end (r ∷ rs) = if ends r then ending r.failure else copy_end rs

-- The writer takes whatever it is given, behind what it has.
pub record IsSink {W : Type 0} (write : List ℕ → Act Error W ℕ) (sink : W → List ℕ) : Type 0 where
  pub takes : (bs : List ℕ) (w : W) → (write bs w).0 ≡ ok (length bs)
  pub appends : (bs : List ℕ) (w : W) → sink (write bs w).1 ≡ sink w ++ bs

module _ {W : Type 0} (write : List ℕ → Act Error W ℕ) (sink : W → List ℕ)
    (laws : IsSink write sink) where
  took :
      (x : Outcome Error ℕ × W) (n : ℕ) (k : Act Error W (Unit {0}))
      → x.0 ≡ ok n
      → after_write write x k ≡ k x.1
  took (ok m, w) n k h = refl
  took (err e, w) n k h = absurd cc
  took (panic, w) n k h = absurd cc
  took (blocked, w) n k h = absurd cc

  error_copied :
      (rs : List ReadResult) (w : W) (e : Error) (at_end again : Bool)
      → ((copy_with_buf write rs w).0 ≡ copy_end rs)
        × (sink (copy_with_buf write rs w).1 ≡ sink w ++ copied rs)
      → let x : Outcome Error (Unit {0}) × W =
          if at_end then (ok tt, w) else if again then copy_with_buf write rs w else (err e, w) in
        let over = if again then at_end else true in
        (x.0 ≡ (if over then (if at_end then ok tt else err e) else copy_end rs))
        × (sink x.1 ≡ sink w ++ (if over then [] else [] ++ copied rs))
  error_copied rs w e true true h = (refl, sym (append-nil (sink w)))
  error_copied rs w e true false h = (refl, sym (append-nil (sink w)))
  error_copied rs w e false true h = h
  error_copied rs w e false false h = (refl, sym (append-nil (sink w)))

  -- Into a writer that takes everything, CopyWithBuf copies the bytes of every read without an error,
  -- in order, up to the first error that is not a reset; it then returns nil at io.EOF, and any other
  -- error as it is.
  pub copy_with_buf-copied :
      (rs : List ReadResult) (w : W)
      → ((copy_with_buf write rs w).0 ≡ copy_end rs)
        × (sink (copy_with_buf write rs w).1 ≡ sink w ++ copied rs)
  unfolding copy_with_buf
  copy_with_buf-copied [] w = (refl, sym (append-nil (sink w)))
  copy_with_buf-copied (r ∷ rs) w = elim (Option-cases r.failure) [
    | inl fine ↦
        let (out, kept) = copy_with_buf-copied rs (write r.got w).1 in
        rw (fine, took (write r.got w) (length r.got) (copy_with_buf write rs) (laws.takes r.got w))
          (
            out,
            kept
                ∙ (ap (λ x. x ++ copied rs) (laws.appends r.got w)
                    ∙ append_assoc (sink w) r.got (copied rs)),
          )
    | inr (e, failed) ↦
        rw failed (error_copied rs w e (is_eof e) (is_reset e) (copy_with_buf-copied rs w))
  ]
