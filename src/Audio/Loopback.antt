-- ===== src/Audio/Loopback.antt =====
-- audio/loopback.go: a buffer that its readers wait for. A read that waits is `blocked`, and is made
-- again when it is woken.
use mathlib.Core.List.{append-nil, append_assoc}
use rtvbp_go.Common.{
  ℕ, Bool, true, false, List, [], ◌∷◌, ◌++◌, ◌≡◌, refl, ap, sym, ◌∙◌, arith, length, take, drop,
  take-append-drop, if◌then◌else◌,
}
use rtvbp_go.Common.Act.{Outcome, ok, err, blocked, Act}
use rtvbp_go.Proto.Errors.{Error, sentinel, closed_pipe, eof}

pub record Loopback : Type 0 where
  pub buf : List ℕ
  pub closed : Bool

-- NewLoopback
unfoldable pub new_loopback : Loopback
new_loopback = record { buf = []; closed = false }

-- Loopback.Write; the number of bytes that it returns is that of the argument.
unfoldable pub write : List ℕ → Act Error Loopback ℕ
write p l =
    if l.closed
    then (err (sentinel closed_pipe), l)
    else (ok (length p), record l { buf = l.buf ++ p })

abbrev read_from : ℕ → List ℕ → Act Error Loopback (List ℕ)
read_from n [] l = (if l.closed then err (sentinel eof) else blocked, l)
read_from n (b ∷ bs) l = (ok (take n (b ∷ bs)), record l { buf = drop n (b ∷ bs) })

-- Loopback.Read into a slice of `n` bytes: the bytes that it holds then.
unfoldable pub read : ℕ → Act Error Loopback (List ℕ)
read n l = read_from n l.buf l

-- Loopback.Close
unfoldable pub close : Act Error Loopback (Unit {0})
close l = (ok tt, record l { closed = true })

pub data Call : Type 0 where
  writes : List ℕ → Call
  reads : ℕ → Call
  closes : Call

-- A loopback with what its writes have taken and its reads have given.
pub record Trace : Type 0 where
  pub loopback : Loopback
  pub taken : List ℕ
  pub given : List ℕ

abbrev written : List ℕ → Outcome Error ℕ → List ℕ
written p (ok n) = p
written p o = []

abbrev given_by : Outcome Error (List ℕ) → List ℕ
given_by (ok bs) = bs
given_by o = []

unfoldable pub step : Call → Trace → Trace
unfolding write read close
step (writes p) t =
    let (o, l) = write p t.loopback in record t { loopback = l; taken = t.taken ++ written p o }
step (reads n) t =
    let (o, l) = read n t.loopback in record t { loopback = l; given = t.given ++ given_by o }
step closes t = record t { loopback = (close t.loopback).1 }

unfoldable pub run : List Call → Trace → Trace
run [] t = t
run (c ∷ cs) t = run cs (step c t)

abbrev pub start : Trace
start = record { loopback = new_loopback; taken = []; given = [] }

abbrev pub IsKept : Trace → Type 0
IsKept t = t.taken ≡ t.given ++ t.loopback.buf

read-kept :
    (n : ℕ) (l : Loopback) (bs : List ℕ)
    → bs
      ≡ given_by (read_from n bs (record l { buf = bs })).0
        ++ (read_from n bs (record l { buf = bs })).1.buf
read-kept n l [] = ground arith
read-kept n l (b ∷ bs) = sym (take-append-drop n (b ∷ bs))

step-IsKept : (c : Call) (t : Trace) → IsKept t → IsKept (step c t)
unfolding step write read close
step-IsKept (writes p) t h =
    ground (arith, append-nil t.taken, append_assoc t.given t.loopback.buf p)
step-IsKept (reads n) t h =
    h
    ∙ (ap (λ x. t.given ++ x) (read-kept n t.loopback t.loopback.buf)
        ∙ sym (append_assoc t.given _ _))
step-IsKept closes t h = h

pub run-IsKept : (cs : List Call) (t : Trace) → IsKept t → IsKept (run cs t)
unfolding run
run-IsKept [] t h = h
run-IsKept (c ∷ cs) t h = run-IsKept cs (step c t) (step-IsKept c t h)

-- At any time, what the reads have given, and then what is in the buffer, is what the writes took.
pub start-IsKept : (cs : List Call) → IsKept (run cs start)
unfolding new_loopback
start-IsKept cs = run-IsKept cs start refl

eof_means :
    (n : ℕ) (l : Loopback) (bs : List ℕ)
    → (read_from n bs l).0 ≡ err (sentinel eof)
    → (l.closed ≡ true) × (bs ≡ [])
eof_means n l [] h = ground arith
eof_means n l (b ∷ bs) h = absurd cc

-- Whatever calls are made on a new loopback, in whatever order: if a read then fails with io.EOF, the
-- loopback is closed, and everything that its writes have taken has been read, in that order.
pub eof-drained :
    (cs : List Call) (n : ℕ)
    → (read n (run cs start).loopback).0 ≡ err (sentinel eof)
    → ((run cs start).loopback.closed ≡ true) × ((run cs start).given ≡ (run cs start).taken)
unfolding read
eof-drained cs n h =
    let t = run cs start in
    let (closed, empty) = eof_means n t.loopback t.loopback.buf h in
    (
      closed,
      sym (append-nil t.given) ∙ (ap (λ x. t.given ++ x) (sym empty) ∙ sym (start-IsKept cs)),
    )
