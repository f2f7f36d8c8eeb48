-- ===== src/Audio/Channel.antt =====
-- audio.go: the two sides of an audio channel over two ring buffers. The ring buffer is a third
-- party's, with its state `B`: its operations are arguments, and `IsRing` is what it documents. A write
-- that waits for room is a sequence of writes, one for each time that it goes on.
use mathlib.Core.List.{append_assoc, append-nil}
use rtvbp_go.Common.{ℕ, ◌≡◌, sym, ap, ◌∙◌, List, [], ◌∷◌, ◌++◌, Option, none, length, take}
use rtvbp_go.Proto.Errors.{Error, sentinel, eof}

-- The bytes that a call gives, or their number, come with an error.
pub record RingBuffer (B : Type 0) : Type 0 where
  pub make : ℕ → B
  pub read : ℕ → B → (List ℕ × Option Error) × B
  pub write : List ℕ → B → (ℕ × Option Error) × B
  pub close_with_error : Error → B → B
  pub count : B → ℕ
  pub reset : B → B

-- A new buffer is empty; a read gives its first bytes and a write puts the first bytes of its argument
-- behind them, as many as they say; closing keeps the bytes, and a reset drops them.
pub record IsRing {B : Type 0} (ring : RingBuffer B) (contents : B → List ℕ) : Type 0 where
  pub make_empty : (n : ℕ) → contents (ring.make n) ≡ []
  pub read_front : (n : ℕ) (b : B) → contents b ≡ (ring.read n b).0.0 ++ contents (ring.read n b).1
  pub write_back :
      (bs : List ℕ) (b : B)
      → contents (ring.write bs b).1 ≡ contents b ++ take (ring.write bs b).0.0 bs
  pub close_keeps : (e : Error) (b : B) → contents (ring.close_with_error e b) ≡ contents b
  pub count_all : (b : B) → ring.count b ≡ length (contents b)
  pub reset_empty : (b : B) → contents (ring.reset b) ≡ []

-- The two buffers that the sides share.
pub record AudioChannel (B : Type 0) : Type 0 where
  pub transport_buffer : B
  pub session_buffer : B

pub data AudioChannelSide : Type 0 where
  session_side transport_side : AudioChannelSide

abbrev pub other : AudioChannelSide → AudioChannelSide
other session_side = transport_side
other transport_side = session_side

module _ {B : Type 0} where
  -- The buffer that a side reads; the other side writes it.
  abbrev pub reader : AudioChannelSide → AudioChannel B → B
  reader session_side c = c.session_buffer
  reader transport_side c = c.transport_buffer

  abbrev pub put_reader : AudioChannelSide → B → AudioChannel B → AudioChannel B
  put_reader session_side b c = record c { session_buffer = b }
  put_reader transport_side b c = record c { transport_buffer = b }

  abbrev pub writer : AudioChannelSide → AudioChannel B → B
  writer side c = reader (other side) c

  abbrev pub put_writer : AudioChannelSide → B → AudioChannel B → AudioChannel B
  put_writer side b c = put_reader (other side) b c

module _ {B : Type 0} (ring : RingBuffer B) where
  -- NewAudioChannel
  unfoldable pub new_audio_channel : ℕ → AudioChannel B
  new_audio_channel size = record {
    transport_buffer = ring.make size;
    session_buffer = ring.make size;
  }

  -- AudioChannelSide.Close
  unfoldable pub close : AudioChannelSide → AudioChannel B → AudioChannel B
  close side c =
      let c' = put_writer side (ring.close_with_error (sentinel eof) (writer side c)) c in
      put_reader side (ring.close_with_error (sentinel eof) (reader side c')) c'

  -- AudioChannelSide.Read
  unfoldable pub read :
      AudioChannelSide → ℕ → AudioChannel B → (List ℕ × Option Error) × AudioChannel B
  read side n c = let (r, b) = ring.read n (reader side c) in (r, put_reader side b c)

  -- AudioChannelSide.Write
  unfoldable pub write :
      AudioChannelSide → List ℕ → AudioChannel B → (ℕ × Option Error) × AudioChannel B
  write side bs c = let (r, b) = ring.write bs (writer side c) in (r, put_writer side b c)

  -- AudioChannelSide.ClearReadBuffer
  unfoldable pub clear_read_buffer :
      AudioChannelSide → AudioChannel B → (ℕ × Option Error) × AudioChannel B
  clear_read_buffer side c =
      ((ring.count (reader side c), none), put_reader side (ring.reset (reader side c)) c)

-- A call on one of the sides.
pub data Call : Type 0 where
  reads : AudioChannelSide → ℕ → Call
  writes : AudioChannelSide → List ℕ → Call
  clears closes : AudioChannelSide → Call

-- The channel with what each side has read, or dropped, and what was taken of what it wrote.
pub record Trace (B : Type 0) : Type 0 where
  pub channel : AudioChannel B
  pub gone : AudioChannelSide → List ℕ
  pub taken : AudioChannelSide → List ℕ

abbrev add_at : (AudioChannelSide → List ℕ) → AudioChannelSide → List ℕ → AudioChannelSide → List ℕ
add_at f session_side xs session_side = f session_side ++ xs
add_at f transport_side xs transport_side = f transport_side ++ xs
add_at f session_side xs transport_side = f transport_side
add_at f transport_side xs session_side = f session_side

moved :
    {a : List ℕ} (g : List ℕ) {c : List ℕ} (d e : List ℕ)
    → a ≡ g ++ c
    → c ≡ d ++ e
    → a ≡ (g ++ d) ++ e
moved g d e h r = h ∙ (ap (λ x. g ++ x) r ∙ sym (append_assoc g d e))

grown : {a : List ℕ} (g c d : List ℕ) {e : List ℕ} → a ≡ g ++ c → e ≡ c ++ d → a ++ d ≡ g ++ e
grown g c d h w = ap (λ x. x ++ d) h ∙ (append_assoc g c d ∙ ap (λ x. g ++ x) (sym w))

dropped : {a : List ℕ} (g c : List ℕ) {e : List ℕ} → a ≡ g ++ c → e ≡ [] → a ≡ (g ++ c) ++ e
dropped g c {e} h empty = moved g c e h (sym (append-nil c) ∙ ap (λ x. c ++ x) (sym empty))

module _ {B : Type 0} (ring : RingBuffer B) (contents : B → List ℕ) where
  unfoldable pub step : Call → Trace B → Trace B
  unfolding read write clear_read_buffer close
  step (reads side n) t =
      let (r, c) = read ring side n t.channel in
      record t { channel = c; gone = add_at t.gone side r.0 }
  step (writes side bs) t =
      let (r, c) = write ring side bs t.channel in
      record t { channel = c; taken = add_at t.taken side (take r.0 bs) }
  step (clears side) t =
      let (r, c) = clear_read_buffer ring side t.channel in
      record t { channel = c; gone = add_at t.gone side (contents (reader side t.channel)) }
  step (closes side) t = record t { channel = close ring side t.channel }

  unfoldable pub run : List Call → Trace B → Trace B
  run [] t = t
  run (c ∷ cs) t = run cs (step c t)

  unfoldable pub start : ℕ → Trace B
  unfolding new_audio_channel
  start size = record { channel = new_audio_channel ring size; gone = λ s. []; taken = λ s. [] }

  -- What a side wrote is what the other has read or dropped, and then what is in its buffer.
  abbrev pub IsCrossing : Trace B → Type 0
  IsCrossing t =
      (side : AudioChannelSide)
      → t.taken side ≡ t.gone (other side) ++ contents (reader (other side) t.channel)

  module _ (laws : IsRing ring contents) where
    step-IsCrossing : (c : Call) (t : Trace B) → IsCrossing t → IsCrossing (step c t)
    unfolding step
    step-IsCrossing (reads session_side n) t h transport_side =
        moved (t.gone session_side) _ _ (h transport_side)
          (laws.read_front n t.channel.session_buffer)
    step-IsCrossing (reads session_side n) t h session_side = h session_side
    step-IsCrossing (reads transport_side n) t h session_side =
        moved (t.gone transport_side) _ _ (h session_side)
          (laws.read_front n t.channel.transport_buffer)
    step-IsCrossing (reads transport_side n) t h transport_side = h transport_side
    step-IsCrossing (writes session_side bs) t h session_side =
        grown (t.gone transport_side) (contents t.channel.transport_buffer) _ (h session_side)
          (laws.write_back bs t.channel.transport_buffer)
    step-IsCrossing (writes session_side bs) t h transport_side = h transport_side
    step-IsCrossing (writes transport_side bs) t h transport_side =
        grown (t.gone session_side) (contents t.channel.session_buffer) _ (h transport_side)
          (laws.write_back bs t.channel.session_buffer)
    step-IsCrossing (writes transport_side bs) t h session_side = h session_side
    step-IsCrossing (clears session_side) t h transport_side =
        dropped (t.gone session_side) (contents t.channel.session_buffer) (h transport_side)
          (laws.reset_empty t.channel.session_buffer)
    step-IsCrossing (clears session_side) t h session_side = h session_side
    step-IsCrossing (clears transport_side) t h session_side =
        dropped (t.gone transport_side) (contents t.channel.transport_buffer) (h session_side)
          (laws.reset_empty t.channel.transport_buffer)
    step-IsCrossing (clears transport_side) t h transport_side = h transport_side
    step-IsCrossing (closes session_side) t h session_side =
        h session_side ∙ ap (λ x. t.gone transport_side ++ x) (sym (laws.close_keeps _ _))
    step-IsCrossing (closes session_side) t h transport_side =
        h transport_side ∙ ap (λ x. t.gone session_side ++ x) (sym (laws.close_keeps _ _))
    step-IsCrossing (closes transport_side) t h session_side =
        h session_side ∙ ap (λ x. t.gone transport_side ++ x) (sym (laws.close_keeps _ _))
    step-IsCrossing (closes transport_side) t h transport_side =
        h transport_side ∙ ap (λ x. t.gone session_side ++ x) (sym (laws.close_keeps _ _))

    run-IsCrossing : (cs : List Call) (t : Trace B) → IsCrossing t → IsCrossing (run cs t)
    unfolding run
    run-IsCrossing [] t h = h
    run-IsCrossing (c ∷ cs) t h = run-IsCrossing cs (step c t) (step-IsCrossing c t h)

    start-IsCrossing : (size : ℕ) → IsCrossing (start size)
    unfolding start
    start-IsCrossing size session_side = sym (laws.make_empty size)
    start-IsCrossing size transport_side = sym (laws.make_empty size)

    -- After any sequence of reads, writes, clears and closes on the two sides of a new channel, in any
    -- order, the bytes taken of what one side wrote are, in order, those that the other side has read or
    -- cleared and then those that wait in the buffer: nothing is lost, doubled or crossed over.
    pub run-crosses : (cs : List Call) (size : ℕ) → IsCrossing (run cs (start size))
    run-crosses cs size = run-IsCrossing cs (start size) (start-IsCrossing size)
