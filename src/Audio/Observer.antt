-- ===== src/Audio/Observer.antt =====
-- audio_observe.go: ObservableAudio, which wraps the audio of a handler and calls the observer after each
-- call. The wrapped audio and the functions of the observer work on a state `S`.
use rtvbp_go.Common.{ℕ, List, Option, none, some}
use rtvbp_go.Proto.Errors.{Error}

-- A number of bytes with the bytes of a read, and an error.
pub record Transfer : Type 0 where
  pub count : ℕ
  pub bytes : List ℕ
  pub failure : Option Error

-- HandlerAudio; a read says how many bytes it may give.
pub record HandlerAudio (S : Type 0) : Type 0 where
  pub read : ℕ → S → Transfer × S
  pub write : List ℕ → S → Transfer × S
  pub clear_read_buffer : S → Transfer × S

-- A function that is nil is none.
pub record AudioStreamObserver (S : Type 0) : Type 0 where
  pub on_read : Option (ℕ → S → S)
  pub on_read_error : Option (Error → S → S)
  pub on_write : Option (ℕ → S → S)
  pub on_write_error : Option (Error → S → S)
  pub on_buffer_cleared : Option (ℕ → S → S)

module _ {S : Type 0} where
  abbrev call_if_set : {A : Type 0} → Option (A → S → S) → A → S → S
  call_if_set none a s = s
  call_if_set (some f) a s = f a s

  -- if err != nil && onError != nil { onError(err) } else if onCount != nil { onCount(n) }
  abbrev pub notify : Option Error → Option (Error → S → S) → Option (ℕ → S → S) → ℕ → S → S
  notify (some e) (some on_error) on_count n s = on_error e s
  notify (some e) none on_count n s = call_if_set on_count n s
  notify none on_error on_count n s = call_if_set on_count n s

  -- if err == nil && onCount != nil { onCount(n) }
  abbrev pub notify_success : Option Error → Option (ℕ → S → S) → ℕ → S → S
  notify_success none on_count n s = call_if_set on_count n s
  notify_success (some e) on_count n s = s

  -- ObservableAudio
  unfoldable pub observable_audio : AudioStreamObserver S → HandlerAudio S → HandlerAudio S
  observable_audio o ha = record {
    read = λ n s.
        let (r, s') = ha.read n s in (r, notify r.failure o.on_read_error o.on_read r.count s');
    write = λ bs s.
        let (r, s') = ha.write bs s in (r, notify r.failure o.on_write_error o.on_write r.count s');
    clear_read_buffer = λ s.
        let (r, s') = ha.clear_read_buffer s in
        (r, notify_success r.failure o.on_buffer_cleared r.count s');
  }
