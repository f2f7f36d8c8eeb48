-- ===== src/Transport/Direct.antt =====
-- transport/direct/channel.go: two endpoints over two channels of capacity 1 and one close signal.
-- A Go channel is the list of the values in it, oldest first.
pub mod Fifo
use mathlib.Core.List.{map-append, append-nil}
use rtvbp_go.Common.{
  sym, Bool-cases, inl, inr, ℕ, zero, suc, Bool, true, false, ◌&&◌, not, List, [], ◌∷◌, ◌++◌, ◌≡◌,
  refl, Option, none, some, arith, length, ltb, map, if◌then◌else◌,
}
use rtvbp_go.Common.Int.{pos}
use rtvbp_go.Common.Act.{Outcome, ok, err, panic, blocked, Act}
use rtvbp_go.Proto.Json.{Bytes}
use rtvbp_go.Proto.Errors.{Error, msg}
use rtvbp_go.Transport.Interface.{DataPackage, Transport, IsTransport, accepted}

-- What the two endpoints share: `first` writes to `a` and reads from `b`, `second` the other way
-- round; `closed` says that the channel of the closer is closed.
pub record Link : Type 0 where
  pub a : List DataPackage
  pub b : List DataPackage
  pub closed : Bool

pub data End : Type 0 where
  first second : End

-- New
unfoldable pub new_link : Link
new_link = record { a = []; b = []; closed = false }

-- The channel that an endpoint writes to.
abbrev pub outgoing : End → Link → List DataPackage
outgoing first l = l.a
outgoing second l = l.b

-- The channel that an endpoint reads from.
abbrev pub incoming : End → Link → List DataPackage
incoming first l = l.b
incoming second l = l.a

abbrev put_outgoing : End → List DataPackage → Link → Link
put_outgoing first c l = record l { a = c }
put_outgoing second c l = record l { b = c }

abbrev put_incoming : End → List DataPackage → Link → Link
put_incoming first c l = record l { b = c }
put_incoming second c l = record l { a = c }

abbrev pub package_of : Bytes → DataPackage
package_of raw = record { data_bytes = raw; received_at = pos 0 }

-- myDirectTransport.Write. Where both cases of the `select` are ready Go picks one: `pick` is true
-- where it takes the closed signal.
unfoldable pub write : (Link → Bool) → End → Bytes → Act Error Link (Unit {0})
write pick e raw l =
    if ltb (length (outgoing e l)) 1
    then (if l.closed && pick l
        then (err (msg "transport is closed"), l)
        else (ok tt, put_outgoing e (outgoing e l ++ package_of raw ∷ []) l))
    else if l.closed
    then (err (msg "transport is closed"), l)
    else (blocked, l)

-- A receive from ReadChan.
abbrev take_from : End → List DataPackage → Link → Option DataPackage × Link
take_from e [] l = (none, l)
take_from e (p ∷ rest) l = (some p, put_incoming e rest l)

unfoldable pub read : End → Link → Option DataPackage × Link
read e l = take_from e (incoming e l) l

-- myDirectTransport.Close; the second call does nothing.
unfoldable pub close : Act Error Link (Unit {0})
close l = (ok tt, record l { closed = true })

-- The endpoint as the session's Transport.
unfoldable pub transport : (Link → Bool) → End → Transport Link
unfolding write close
transport pick e = record { write = write pick e; close = close }

abbrev pub frames : End → Link → List Bytes
frames e l = map (λ p. p.data_bytes) (outgoing e l)

put-frames :
    (e : End) (l : Link) (raw : Bytes)
    → frames e (put_outgoing e (outgoing e l ++ package_of raw ∷ []) l) ≡ frames e l ++ raw ∷ []
put-frames first l raw = map-append (λ p. p.data_bytes) l.a (package_of raw ∷ [])
put-frames second l raw = map-append (λ p. p.data_bytes) l.b (package_of raw ∷ [])

pub write-frames :
    (pick : Link → Bool) (e : End) (raw : Bytes) (l : Link)
    → frames e (write pick e raw l).1 ≡ frames e l ++ accepted (write pick e raw l).0 raw
unfolding write
write-frames pick first raw l = ground (arith, put-frames first l raw, append-nil (frames first l))
write-frames pick second raw l =
    ground (arith, put-frames second l raw, append-nil (frames second l))

pub close-frames : (e : End) (l : Link) → frames e (close l).1 ≡ frames e l
unfolding close
close-frames first l = refl
close-frames second l = refl

-- The endpoint does what a session relies on: a frame is in the channel exactly if Write reported no
-- error, behind the frames that were there.
pub transport-IsTransport :
    (pick : Link → Bool) (e : End) → IsTransport (transport pick e) (frames e)
unfolding transport
transport-IsTransport pick e = record {
  write_sent = write-frames pick e;
  close_sent = λ t. close-frames e t;
}
