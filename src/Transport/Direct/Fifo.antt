-- ===== src/Transport/Direct/Fifo.antt =====
-- transport/direct/channel.go: runs of calls on both endpoints.
use mathlib.Core.List.{append_assoc}
use rtvbp_go.Common.{
  ◌≤◌, Bool, List, [], ◌∷◌, ◌++◌, ◌≡◌, refl, sym, ap, ◌∙◌, Option, none, some, arith, length,
  length-append,
}
use rtvbp_go.Proto.Json.{Bytes}
use rtvbp_go.Transport.Interface.{DataPackage, accepted}
use rtvbp_go.Transport.Direct.{
  Link, End, first, second, package_of, frames, new_link, write, read, close, write-frames,
  close-frames,
}

-- A call on one of the endpoints.
pub data Op : Type 0 where
  writes : End → Bytes → Op
  reads : End → Op
  closes : Op

abbrev pub other : End → End
other first = second
other second = first

-- The link with its history: what each endpoint's Write took, and what each endpoint has read.
pub record Trace : Type 0 where
  pub link : Link
  pub taken : End → List Bytes
  pub got : End → List Bytes

abbrev add_at : (End → List Bytes) → End → List Bytes → End → List Bytes
add_at f first xs first = f first ++ xs
add_at f second xs second = f second ++ xs
add_at f first xs second = f second
add_at f second xs first = f first

abbrev frame_of : Option DataPackage → List Bytes
frame_of none = []
frame_of (some p) = p.data_bytes ∷ []

pub step : (Link → Bool) → Op → Trace → Trace
step pick (writes e raw) t =
    let (o, l) = write pick e raw t.link in
    record t { link = l; taken = add_at t.taken e (accepted o raw) }
step pick (reads e) t =
    let (p, l) = read e t.link in record t { link = l; got = add_at t.got e (frame_of p) }
step pick closes t = record t { link = (close t.link).1 }

pub run : (Link → Bool) → List Op → Trace → Trace
run pick [] t = t
run pick (op ∷ ops) t = run pick ops (step pick op t)

abbrev pub start : Trace
start = record { link = new_link; taken = λ e. []; got = λ e. [] }

-- What an endpoint's Write took is what the other has read, and then what is in the channel.
abbrev pub IsFifo : Trace → Type 0
IsFifo t = (e : End) → t.taken e ≡ t.got (other e) ++ frames e t.link

write-other :
    (pick : Link → Bool) (e : End) (raw : Bytes) (l : Link)
    → frames (other e) (write pick e raw l).1 ≡ frames (other e) l
unfolding write
write-other pick first raw l = ground arith
write-other pick second raw l = ground arith

wrote :
    (pick : Link → Bool) (e : End) (raw : Bytes) (t : Trace)
    → IsFifo t
    → t.taken e ++ accepted (write pick e raw t.link).0 raw
      ≡ t.got (other e) ++ frames e (write pick e raw t.link).1
wrote pick e raw t h =
    rw (write-frames pick e raw t.link, h e)
      (append_assoc (t.got (other e)) (frames e t.link) (accepted (write pick e raw t.link).0 raw))

read-other :
    (e : End) (l : Link)
    → frames (other e) l ≡ frame_of (read e l).0 ++ frames (other e) (read e l).1
unfolding read
read-other first l = ground arith
read-other second l = ground arith

read-own : (e : End) (l : Link) → frames e (read e l).1 ≡ frames e l
unfolding read
read-own first l = ground arith
read-own second l = ground arith

was_read :
    (e : End) (t : Trace)
    → IsFifo t
    → t.taken (other e)
      ≡ (t.got e ++ frame_of (read e t.link).0) ++ frames (other e) (read e t.link).1
was_read first t h =
    h second
    ∙ (ap (λ x. t.got first ++ x) (read-other first t.link)
        ∙ sym (append_assoc (t.got first) (frame_of (read first t.link).0) _))
was_read second t h =
    h first
    ∙ (ap (λ x. t.got second ++ x) (read-other second t.link)
        ∙ sym (append_assoc (t.got second) (frame_of (read second t.link).0) _))

step-IsFifo : (pick : Link → Bool) (op : Op) (t : Trace) → IsFifo t → IsFifo (step pick op t)
unfolding step
step-IsFifo pick (writes first raw) t h first = wrote pick first raw t h
step-IsFifo pick (writes first raw) t h second = rw (write-other pick first raw t.link) (h second)
step-IsFifo pick (writes second raw) t h first = rw (write-other pick second raw t.link) (h first)
step-IsFifo pick (writes second raw) t h second = wrote pick second raw t h
step-IsFifo pick (reads first) t h first = rw (read-own first t.link) (h first)
step-IsFifo pick (reads first) t h second = was_read first t h
step-IsFifo pick (reads second) t h first = was_read second t h
step-IsFifo pick (reads second) t h second = rw (read-own second t.link) (h second)
step-IsFifo pick closes t h e = h e ∙ ap (λ x. t.got (other e) ++ x) (sym (close-frames e t.link))

pub run-IsFifo :
    (pick : Link → Bool) (ops : List Op) (t : Trace) → IsFifo t → IsFifo (run pick ops t)
unfolding run
run-IsFifo pick [] t h = h
run-IsFifo pick (op ∷ ops) t h = run-IsFifo pick ops (step pick op t) (step-IsFifo pick op t h)

-- A channel never holds more than one frame.
abbrev pub IsBounded : Link → Type 0
IsBounded l = (length l.a ≤ 1) × (length l.b ≤ 1)

step-IsBounded :
    (pick : Link → Bool) (op : Op) (t : Trace) → IsBounded t.link → IsBounded (step pick op t).link
unfolding step write read close
step-IsBounded pick (writes first raw) t h =
    ground (arith, length-append t.link.a (package_of raw ∷ []))
step-IsBounded pick (writes second raw) t h =
    ground (arith, length-append t.link.b (package_of raw ∷ []))
step-IsBounded pick (reads first) t h = ground arith
step-IsBounded pick (reads second) t h = ground arith
step-IsBounded pick closes t h = h

pub run-IsBounded :
    (pick : Link → Bool) (ops : List Op) (t : Trace)
    → IsBounded t.link
    → IsBounded (run pick ops t).link
unfolding run
run-IsBounded pick [] t h = h
run-IsBounded pick (op ∷ ops) t h =
    run-IsBounded pick ops (step pick op t) (step-IsBounded pick op t h)

start-IsFifo : IsFifo start
unfolding new_link
start-IsFifo first = refl
start-IsFifo second = refl

-- Whatever calls are made on the two endpoints of a new link, in whatever order, each endpoint has
-- read a prefix of what the other's Write took, in that order; the rest is in the channel, which
-- holds one frame at most.
pub link-IsFifo :
    (pick : Link → Bool) (ops : List Op)
    → IsFifo (run pick ops start) × IsBounded (run pick ops start).link
unfolding new_link
link-IsFifo pick ops = (
  run-IsFifo pick ops start start-IsFifo,
  run-IsBounded pick ops start (omega arith, omega arith),
)
